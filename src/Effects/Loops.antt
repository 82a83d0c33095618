-- ===== src/Effects/Loops.antt =====
-- Actions that make the same calls in every world, and the loops over them.
use metalnet.Base.{
  ◌≡◌, ◌≢◌, refl, ap, Bool, true, false, String, List, [], ◌∷◌, ◌++◌, if◌then◌else◌,
}
use metalnet.Base.Result.{Err, Result, ok, err, panic, wrap_error}
use metalnet.Base.Exec.{pure, raise, context, for_each, ◌>>=◌, continue}
use metalnet.Effects.{Call, World, M, Env, call, Answer, gives, fails, to_result, Reply}
use metalnet.Effects.Traces.{Made, Made-trans}

-- `m` makes the calls `cs`, in this order, whatever the answers are.
pub record Does {A : Type 0} (m : M A) (cs : List Call) : Type 0 where
  pub made : (w : World) → Made cs w (m w).1

-- `m` does not panic.
pub record IsCalm {A : Type 0} (m : M A) : Type 0 where
  pub calm : (w : World) (p : String) → (m w).0 ≢ panic p

pub Does-pure : {A : Type 0} (a : A) → Does (pure a) []
Does-pure a = record { made = λ w. refl }

pub Does-raise : {A : Type 0} (e : Err) → Does (raise {A = A} e) []
Does-raise e = record { made = λ w. refl }

pub Does-call : (env : Env) (c : Call) → Does (call env c) (c ∷ [])
unfolding call
Does-call env c = record { made = λ w. refl }

pub Does-context :
    {A : Type 0} (t : String) (m : M A) (cs : List Call) → Does m cs → Does (context t m) cs
unfolding context
Does-context t m cs d = record { made = λ w. d.made w }

pub Does-if :
    {A : Type 0} (b : Bool) (m n : M A) (cs ds : List Call)
    → Does m cs
    → Does n ds
    → Does (if b then m else n) (if b then cs else ds)
Does-if true m n cs ds p q = p
Does-if false m n cs ds p q = q

pub IsCalm-pure : {A : Type 0} (a : A) → IsCalm (pure a)
IsCalm-pure a = record { calm = λ w p e. cc }

pub IsCalm-raise : {A : Type 0} (e : Err) → IsCalm (raise {A = A} e)
IsCalm-raise e = record { calm = λ w p q. cc }

pub IsCalm-call : (env : Env) (c : Call) → IsCalm (call env c)
unfolding call
IsCalm-call env c = record { calm = λ w p. go p (env.answer w.trace c) }
  where
    go : (p : String) (a : Answer (Reply c)) → to_result a ≢ panic p
    go p (gives a) q = cc
    go p (fails e) q = cc

pub IsCalm-context : {A : Type 0} (t : String) (m : M A) → IsCalm m → IsCalm (context t m)
unfolding context
IsCalm-context {A} t m d = record { calm = λ w p. go p (m w).0 (d.calm w p) }
  where
    go : (p : String) (r : Result A) → r ≢ panic p → wrap_error t r ≢ panic p
    go p (ok a) h q = cc
    go p (err e) h q = cc
    go p (panic s) h q = h q

pub IsCalm-if :
    {A : Type 0} (b : Bool) (m n : M A) → IsCalm m → IsCalm n → IsCalm (if b then m else n)
IsCalm-if true m n p q = p
IsCalm-if false m n p q = q

-- The calls of a loop that handles the elements `xs`.
abbrev pub calls_for : {A : Type 0} → (A → List Call) → List A → List Call
calls_for cs [] = []
calls_for cs (x ∷ xs) = cs x ++ calls_for cs xs

-- A loop that stops at the first error has handled a first part of the list, and all of it if it
-- returns nil.
abbrev pub Handles :
    {A : Type 0} → (A → List Call) → List A → World → Result (Unit {0}) × World → Type 0
Handles {A} cs xs w (r, w') =
    (done : List A) × (left : List A) × (xs ≡ done ++ left)
    × Made (calls_for cs done) w w'
    × (r ≡ ok tt → left ≡ [])

module _ {A : Type 0} (cs : A → List Call) (body : A → M (Unit {0}))
    (d : (x : A) → Does (body x) (cs x)) where
  continue-Handles :
      (x : A) (xs : List A) (w : World) (r : Result (Unit {0})) (v : World)
      → Made (cs x) w v
      → ((u : World) → Handles cs xs u (for_each xs body u))
      → Handles cs (x ∷ xs) w (continue r (λ _. for_each xs body) v)
  continue-Handles x xs w (ok a) v m ih =
      let (done, left, e, h, f) = ih v in
      (
        x ∷ done,
        left,
        ap (◌∷◌ x) e,
        Made-trans (cs x) (calls_for cs done) w v (for_each xs body v).1 m h,
        f,
      )
  continue-Handles x xs w (err a) v m ih =
      (x ∷ [], xs, refl, Made-trans (cs x) [] w v v m refl, λ e. cc)
  continue-Handles x xs w (panic a) v m ih =
      (x ∷ [], xs, refl, Made-trans (cs x) [] w v v m refl, λ e. cc)

  pub for_each-Handles : (xs : List A) (w : World) → Handles cs xs w (for_each xs body w)
  unfolding for_each ◌>>=◌
  for_each-Handles [] w = ([], [], refl, refl, λ _. refl)
  for_each-Handles (x ∷ xs) w =
      continue-Handles x xs w (body x w).0 (body x w).1 ((d x).made w) (for_each-Handles xs)
