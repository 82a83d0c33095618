-- ===== src/Effects/Returning.antt =====
-- Actions that return nil whatever the world is, and the rules for them, in surroundings where no
-- call fails.
use metalnet.Base.{
  ◌≡◌, refl, sym, subst, Bool, true, false, Option, none, some, String, List, [], ◌∷◌,
  if◌then◌else◌,
}
use metalnet.Base.Result.{Err, ok}
use metalnet.Base.Exec.{pure, gets, context, for_each, ◌>>=◌}
use metalnet.Cache.{MetalnetCache}
use metalnet.Effects.{
  Env, Call, Trace, M, World, Reply, gives, call, on_cache, DefaultRouterAddress,
}
use metalnet.Metalbond.Errors.{unless_ignored, judge}

-- No call fails.
abbrev pub IsWilling : Env → Type 0
IsWilling env = (t : Trace) (c : Call) → (a : Reply c) × (env.answer t c ≡ gives a)

-- From a world whose router is `router`, `m` returns nil and leaves the router.
pub record Returns {A : Type 0} (router : DefaultRouterAddress) (m : M A) : Type 0 where
  pub value :
      (w : World) → w.router ≡ router → (a : A) × ((m w).0 ≡ ok a) × ((m w).1.router ≡ router)

judge-ok :
    (ignore : Option Err → Option Err) (t : String) (a : Unit {0}) → judge ignore t (ok a) ≡ ok tt
judge-ok ignore t a = go (ignore none)
  where
    go : (o : Option Err) → (elim o [ none ↦ ok tt | some e ↦ ok tt ]) ≡ ok (tt {0})
    go none = refl
    go (some e) = refl

module _ {router : DefaultRouterAddress} where
  pub Returns-pure : {A : Type 0} (a : A) → Returns router (pure a)
  Returns-pure a = record { value = λ w h. (a, refl, h) }

  pub Returns-gets : {A : Type 0} (f : World → A) → Returns router (gets f)
  Returns-gets f = record { value = λ w h. (f w, refl, h) }

  pub Returns-on_cache : (f : MetalnetCache → MetalnetCache) → Returns router (on_cache f)
  unfolding on_cache
  Returns-on_cache f = record { value = λ w h. (tt, refl, h) }

  pub Returns-call : (env : Env) (c : Call) → IsWilling env → Returns router (call env c)
  unfolding call
  Returns-call env c willing = record {
    value = λ w h. let (a, e) = willing w.trace c in (a, rw e refl, h);
  }

  pub Returns-if :
      {A : Type 0} (b : Bool) (m n : M A)
      → Returns router m
      → Returns router n
      → Returns router (if b then m else n)
  Returns-if true m n p q = p
  Returns-if false m n p q = q

  pub Returns-context :
      {A : Type 0} (t : String) (m : M A) → Returns router m → Returns router (context t m)
  unfolding context
  Returns-context t m p = record { value = λ w h. let (a, e, k) = p.value w h in (a, rw e refl, k) }

  pub Returns-bind :
      {A B : Type 0} (m : M A) (f : A → M B)
      → Returns router m
      → ((a : A) → Returns router (f a))
      → Returns router (m >>= f)
  unfolding ◌>>=◌
  Returns-bind m f p q = record {
    value = λ w h. let (a, e, k) = p.value w h in rw e ((q a).value (m w).1 k);
  }

  -- The router that is read is the one that the rules speak of.
  pub Returns-router :
      {B : Type 0} (k : DefaultRouterAddress → M B)
      → Returns router (k router)
      → Returns router (gets (λ w. w.router) >>= k)
  unfolding ◌>>=◌
  Returns-router k p = record {
    value = λ w h. (subst (λ x. Returns router (k x)) (sym h) p).value w h;
  }

  pub Returns-for_each :
      {A : Type 0} (xs : List A) (body : A → M (Unit {0}))
      → ((x : A) → Returns router (body x))
      → Returns router (for_each xs body)
  unfolding for_each
  Returns-for_each [] body h = Returns-pure tt
  Returns-for_each (x ∷ xs) body h = Returns-bind (body x) _ (h x) λ _. Returns-for_each xs body h

  pub Returns-unless_ignored :
      (ignore : Option Err → Option Err) (t : String) (m : M (Unit {0}))
      → Returns router m
      → Returns router (unless_ignored ignore t m)
  unfolding unless_ignored
  Returns-unless_ignored ignore t m p = record {
    value = λ w h. let (a, e, k) = p.value w h in (tt, rw e (judge-ok ignore t a), k);
  }
