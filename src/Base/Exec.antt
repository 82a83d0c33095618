-- ===== src/Base/Exec.antt =====
-- Methods that change a state and may fail. What was written before a failure stays written, so
-- the state comes back beside the error too.
use Prim.Native.String.{String}
use mathlib.Core.Path.{◌≡◌, refl}
use mathlib.Core.List.{List, [], ◌∷◌}
use metalnet.Base.Result.{Err, Result, ok, err, panic, wrap_error}

abbrev pub Exec : Type 0 → Type 0 → Type 0
Exec S A = S → Result A × S

module _ {S A : Type 0} where
  abbrev pub pure : A → Exec S A
  pure a s = (ok a, s)

  -- return err
  abbrev pub raise : Err → Exec S A
  raise e s = (err e, s)

  abbrev pub gets : (S → A) → Exec S A
  gets f s = (ok (f s), s)

  abbrev pub lift : Result A → Exec S A
  lift r s = (r, s)

  -- The caller looks at the error itself.
  abbrev pub inspect : Result A → S → Result (Result A) × S
  inspect (ok a) s = (ok (ok a), s)
  inspect (err e) s = (ok (err e), s)
  inspect (panic p) s = (panic p, s)

  unfoldable pub attempt : Exec S A → Exec S (Result A)
  attempt m s = let (r, s') = m s in inspect r s'

  -- if err != nil { return fmt.Errorf("s: %w", err) }
  unfoldable pub context : String → Exec S A → Exec S A
  context t m s = let (r, s') = m s in (wrap_error t r, s')

abbrev pub modify : {S : Type 0} → (S → S) → Exec S (Unit {0})
modify f s = (ok tt, f s)

module _ {S A B : Type 0} where
  abbrev pub continue : Result A → (A → Exec S B) → Exec S B
  continue (ok a) f s = f a s
  continue (err e) f s = (err e, s)
  continue (panic p) f s = (panic p, s)

  infixl 10 ◌>>=◌ ◌>>◌
  unfoldable pub ◌>>=◌ : Exec S A → (A → Exec S B) → Exec S B
  ◌>>=◌ first next s = let (r, after) = first s in continue r next after

  abbrev pub ◌>>◌ : Exec S A → Exec S B → Exec S B
  m >> n = m >>= λ _. n

-- The two parts of an action that succeeds.
pub >>=-ok :
    {S A B : Type 0} (m : Exec S A) (f : A → Exec S B) (s : S) {b : B}
    → ((m >>= f) s).0 ≡ ok b
    → (a : A) × ((m s).0 ≡ ok a) × ((m >>= f) s ≡ f a (m s).1)
unfolding ◌>>=◌
>>=-ok {S} {A} {B} m f s {b} h = go (m s).0 (m s).1 h
  where
    go :
        (r : Result A) (t : S)
        → (continue r f t).0 ≡ ok b
        → (a : A) × (r ≡ ok a) × (continue r f t ≡ f a t)
    go (ok a) t h = (a, refl, refl)
    go (err e) t h = cc
    go (panic p) t h = cc

-- A wrapped action that succeeds.
pub context-ok :
    {S A : Type 0} (t : String) (m : Exec S A) (s : S) {a : A}
    → (context t m s).0 ≡ ok a
    → ((m s).0 ≡ ok a) × ((context t m s).1 ≡ (m s).1)
unfolding context
context-ok {S} {A} t m s {a} h = (go (m s).0 h, refl)
  where
    go : (res : Result A) → wrap_error t res ≡ ok a → res ≡ ok a
    go (ok b) q = q
    go (err e) q = cc
    go (panic p) q = cc

-- What an inspected action has done, if it did not panic.
pub attempt-ok :
    {S A : Type 0} (m : Exec S A) (s : S) {res : Result A}
    → (attempt m s).0 ≡ ok res
    → ((m s).0 ≡ res) × ((attempt m s).1 ≡ (m s).1)
unfolding attempt
attempt-ok {S} {A} m s {res} h = go (m s).0 (m s).1 h
  where
    go : (q : Result A) (t : S) → (inspect q t).0 ≡ ok res → (q ≡ res) × ((inspect q t).1 ≡ t)
    go (ok a) t h = (cc, refl)
    go (err e) t h = (cc, refl)
    go (panic p) t h = cc

-- for _, x := range xs { if err := body(x); err != nil { return err } }
unfoldable pub for_each : {S A : Type 0} → List A → (A → Exec S (Unit {0})) → Exec S (Unit {0})
unfolding ◌>>=◌
for_each [] body = pure tt
for_each (x ∷ xs) body = body x >> for_each xs body

-- The loops that go on after an error and gather what went wrong.
unfoldable pub gather :
    {S A : Type 0} → List A → (A → Exec S (Unit {0})) → (A → Err → Err) → Exec S (List Err)
unfolding ◌>>=◌ attempt
gather [] body label = pure []
gather (x ∷ xs) body label = do
  r ← attempt (body x)
  errs ← gather xs body label
  pure (elim r [ ok a ↦ errs | err e ↦ label x e ∷ errs | panic p ↦ errs ])
