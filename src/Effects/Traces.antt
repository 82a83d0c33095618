-- ===== src/Effects/Traces.antt =====
-- Reading a trace: the calls in the order in which they were made.
use metalnet.Base.{
  arith, length, ◌+◌, ◌≡◌, refl, sym, ◌∙◌, ap, Option, none, some, List, [], ◌∷◌, ◌++◌,
}
use metalnet.Base.Result.{Err, ok, err}
use metalnet.Effects.{Call, Trace, World, Env, Reply, Answer, gives, fails, to_result, call}

-- The calls of a trace, the newest first.
abbrev pub calls : Trace → List Call
calls [] = []
calls (e ∷ t) = e.call ∷ calls t

-- The newest call.
abbrev pub newest : Trace → Option Call
newest [] = none
newest (e ∷ t) = some e.call

-- A trace after some more calls, which come in the order in which they are made.
abbrev pub then_calls : List Call → List Call → List Call
then_calls t [] = t
then_calls t (c ∷ cs) = then_calls (c ∷ t) cs

pub then_calls-append :
    (t cs ds : List Call) → then_calls t (cs ++ ds) ≡ then_calls (then_calls t cs) ds
then_calls-append t [] ds = refl
then_calls-append t (c ∷ cs) ds = then_calls-append (c ∷ t) cs ds

then_calls-length : (t cs : List Call) → length (then_calls t cs) ≡ length t + length cs
then_calls-length t [] = omega arith
then_calls-length t (c ∷ cs) = omega (arith, then_calls-length (c ∷ t) cs)

then_calls-split :
    (t u cs ds : List Call)
    → length cs ≡ length ds
    → then_calls t cs ≡ then_calls u ds
    → (t ≡ u) × (cs ≡ ds)
then_calls-split t u [] [] l e = (e, refl)
then_calls-split t u [] (d ∷ ds) l e = absurd (omega (arith, l))
then_calls-split t u (c ∷ cs) [] l e = absurd (omega (arith, l))
then_calls-split t u (c ∷ cs) (d ∷ ds) l e =
    let (p, q) = then_calls-split (c ∷ t) (d ∷ u) cs ds (omega (arith, l)) e in (cc p, cc (p, q))

-- From `w` to `w'` the calls `cs` were made, in that order.
abbrev pub Made : List Call → World → World → Type 0
Made cs w w' = calls w'.trace ≡ then_calls (calls w.trace) cs

pub Made-trans :
    (cs ds : List Call) (u v w : World) → Made cs u v → Made ds v w → Made (cs ++ ds) u w
Made-trans cs ds u v w p q =
    q ∙ ap (λ t. then_calls t ds) p ∙ sym (then_calls-append (calls u.trace) cs ds)

-- The calls between two worlds are given by their traces.
pub Made-same : (cs ds : List Call) (w w' : World) → Made cs w w' → Made ds w w' → cs ≡ ds
Made-same cs ds w w' p q =
    (then_calls-split (calls w.trace) (calls w.trace) cs ds
      (omega (
        arith,
        then_calls-length (calls w.trace) cs,
        then_calls-length (calls w.trace) ds,
        ap length (sym p ∙ q),
      ))
      (sym p ∙ q)).1

-- A call that succeeds.
pub call-ok :
    (env : Env) (c : Call) (w : World) {a : Reply c}
    → (call env c w).0 ≡ ok a
    → env.answer w.trace c ≡ gives a
unfolding call
call-ok env c w {a} h = go (env.answer w.trace c) h
  where
    go : (x : Answer (Reply c)) → to_result x ≡ ok a → x ≡ gives a
    go (gives b) e = ground (arith, e)
    go (fails b) e = cc

-- A call that fails.
pub call-err :
    (env : Env) (c : Call) (w : World) {e : Err}
    → (call env c w).0 ≡ err e
    → env.answer w.trace c ≡ fails e
unfolding call
call-err env c w {e} h = go (env.answer w.trace c) h
  where
    go : (x : Answer (Reply c)) → to_result x ≡ err e → x ≡ fails e
    go (gives b) h = cc
    go (fails b) h = ground (arith, h)

pub call-Made : (env : Env) (c : Call) (w : World) → Made (c ∷ []) w (call env c w).1
unfolding call
call-Made env c w = refl
