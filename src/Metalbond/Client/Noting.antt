-- ===== src/Metalbond/Client/Noting.antt =====
-- The calls of an action whose error is noted before the next one runs.
use metalnet.Base.{◌≡◌, ◌≢◌, refl, String, List, [], ◌∷◌, ◌++◌}
use metalnet.Base.Result.{Result, ok, err, panic, message}
use metalnet.Base.Exec.{pure, attempt, inspect, continue, ◌>>=◌}
use metalnet.Effects.{Call, M, World}
use metalnet.Effects.Traces.{Made, Made-trans}
use metalnet.Effects.Loops.{Does, IsCalm, Does-pure, Does-raise}
use metalnet.Metalbond.Client.{noting, joined}

abbrev add_message : Result (Unit {0}) → List String → List String
add_message r errs = elim r [ ok a ↦ errs | err e ↦ message e ∷ errs | panic p ↦ errs ]

last :
    (r : Result (Unit {0})) (s : Result (List String)) (v : World)
    → (continue s (λ errs. pure (add_message r errs)) v).1 ≡ v
last r (ok a) v = refl
last r (err a) v = refl
last r (panic a) v = refl

module _ (m : M (Unit {0})) (n : M (List String)) (cs ds : List Call) where
  after_first :
      (w v : World) (r : Result (Unit {0}))
      → ((p : String) → r ≢ panic p)
      → Made cs w v
      → Made ds v (n v).1
      → Made
          (cs ++ ds)
          w
          (continue
            (inspect r v).0
            (λ q. n >>= λ errs. pure (add_message q errs))
            (inspect r v).1).1
  unfolding ◌>>=◌
  after_first w v (ok a) h p q = rw (last (ok a) (n v).0 (n v).1) (Made-trans cs ds w v (n v).1 p q)
  after_first w v (err a) h p q =
      rw (last (err a) (n v).0 (n v).1) (Made-trans cs ds w v (n v).1 p q)
  after_first w v (panic s) h p q = absurd (h s refl)

  -- An action, then the rest, whatever the action returns.
  pub noting-Made :
      (w : World)
      → IsCalm m
      → Made cs w (m w).1
      → Made ds (m w).1 (n (m w).1).1
      → Made (cs ++ ds) w (noting m n w).1
  unfolding noting ◌>>=◌ attempt
  noting-Made w calm p q = after_first w (m w).1 (m w).0 (calm.calm w) p q

  pub noting-Does : IsCalm m → Does m cs → Does n ds → Does (noting m n) (cs ++ ds)
  noting-Does calm p q = record { made = λ w. noting-Made w calm (p.made w) (q.made (m w).1) }

pub joined-Does : (errs : List String) → Does (joined errs) []
unfolding joined
joined-Does [] = Does-pure tt
joined-Does (e ∷ errs) = Does-raise _
