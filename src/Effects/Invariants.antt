-- ===== src/Effects/Invariants.antt =====
-- What an action leaves alone, or does at most, whether it succeeds or not: a reflexive and
-- transitive relation between the world before and the world after, with one rule for each way to
-- build an action.
use metalnet.Base.{
  ℕ, ◌≡◌, refl, sym, ◌∙◌, ap, Bool, true, false, Option, none, some, String, List, [], ◌∷◌, ◌++◌,
  All, All-append, if◌then◌else◌, All-weaken,
}
use mathlib.Core.List.{append_assoc}
use metalnet.Base.Result.{Err, Result, ok, err, panic}
use metalnet.Base.Exec.{Exec, pure, raise, attempt, context, for_each, gather, ◌>>=◌, continue}
use metalnet.Effects.{Call, Event, Trace, World, M, Env, call, note, deref, on_cache}

pub record Frame : Type 1 where
  pub rel : World → World → Type 0
  pub same : (w : World) → rel w w
  pub next : (u v w : World) → rel u v → rel v w → rel u w

pub record Moves {A : Type 0} (F : Frame) (m : M A) : Type 0 where
  pub from : (w : World) → F.rel w (m w).1

module _ {F : Frame} where
  pub Moves-pure : {A : Type 0} (a : A) → Moves F (pure a)
  Moves-pure a = record { from = F.same }

  pub Moves-raise : {A : Type 0} (e : Err) → Moves F (raise {A = A} e)
  Moves-raise e = record { from = F.same }

  pub Moves-deref : {A : Type 0} (o : Option A) → Moves F (deref o)
  unfolding deref
  Moves-deref none = record { from = F.same }
  Moves-deref (some a) = record { from = F.same }

  pub Moves-if :
      {A : Type 0} (b : Bool) (m n : M A) → Moves F m → Moves F n → Moves F (if b then m else n)
  Moves-if true m n p q = p
  Moves-if false m n p q = q

  pub Moves-bind :
      {A B : Type 0} (m : M A) (f : A → M B)
      → Moves F m
      → ((a : A) → Moves F (f a))
      → Moves F (m >>= f)
  unfolding ◌>>=◌
  Moves-bind {A} {B} m f p q = record { from = λ w. go w (m w).0 (m w).1 (p.from w) }
    where
      go : (w : World) (r : Result A) (v : World) → F.rel w v → F.rel w (continue r f v).1
      go w (ok a) v h = F.next w v (f a v).1 h ((q a).from v)
      go w (err e) v h = h
      go w (panic e) v h = h

  pub Moves-attempt : {A : Type 0} (m : M A) → Moves F m → Moves F (attempt m)
  unfolding attempt
  Moves-attempt {A} m p = record { from = λ w. go w (m w).0 (m w).1 (p.from w) }
    where
      go :
          (w : World) (r : Result A) (v : World)
          → F.rel w v
          → F.rel w (metalnet.Base.Exec.inspect r v).1
      go w (ok a) v h = h
      go w (err e) v h = h
      go w (panic e) v h = h

  pub Moves-context : {A : Type 0} (t : String) (m : M A) → Moves F m → Moves F (context t m)
  unfolding context
  Moves-context t m p = record { from = λ w. p.from w }

  pub Moves-for_each :
      {A : Type 0} (xs : List A) (body : A → M (Unit {0}))
      → ((a : A) → Moves F (body a))
      → Moves F (for_each xs body)
  unfolding for_each
  Moves-for_each [] body h = Moves-pure tt
  Moves-for_each (x ∷ xs) body h =
      Moves-bind (body x) (λ _. for_each xs body) (h x) (λ _. Moves-for_each xs body h)

  pub Moves-gather :
      {A : Type 0} (xs : List A) (body : A → M (Unit {0})) (label : A → Err → Err)
      → ((a : A) → Moves F (body a))
      → Moves F (gather xs body label)
  unfolding gather
  Moves-gather [] body label h = Moves-pure []
  Moves-gather (x ∷ xs) body label h =
      Moves-bind (attempt (body x)) _ (Moves-attempt (body x) (h x))
        λ r. Moves-bind (gather xs body label) _ (Moves-gather xs body label h) λ errs. Moves-pure _

pub ruleset moves = (
  Moves-pure, Moves-raise, Moves-deref, Moves-if, Moves-bind, Moves-attempt, Moves-context,
  Moves-for_each, Moves-gather,
)

-- The cache stays as it is.
abbrev pub keeps_cache : Frame
keeps_cache = record { rel = λ v w. w.cache ≡ v.cache; same = λ w. refl; next = λ u v w p q. q ∙ p }

-- So does the address of the default router.
abbrev pub keeps_router : Frame
keeps_router = record {
  rel = λ v w. w.router ≡ v.router;
  same = λ w. refl;
  next = λ u v w p q. q ∙ p;
}

pub call-keeps_cache : (env : Env) (c : Call) → Moves keeps_cache (call env c)
unfolding call
call-keeps_cache env c = record { from = λ w. refl }

pub call-keeps_router : (env : Env) (c : Call) → Moves keeps_router (call env c)
unfolding call
call-keeps_router env c = record { from = λ w. refl }

-- Only calls that `P` allows are made.
abbrev pub Extends : (Event → Type 0) → World → World → Type 0
Extends P v w = (es : Trace) × (w.trace ≡ es ++ v.trace) × All P es

abbrev pub only : (Event → Type 0) → Frame
only P = record {
  rel = Extends P;
  same = λ w. ([], refl, tt);
  next = λ u v w (es, p, a) (ds, q, b).
      (ds ++ es, q ∙ ap (◌++◌ ds) p ∙ sym (append_assoc ds es u.trace), All-append P ds es b a);
}

pub call-only :
    (P : Event → Type 0) (env : Env) (c : Call)
    → ((b : Bool) → P (record { call = c; succeeded = b }))
    → Moves (only P) (call env c)
unfolding call
call-only P env c h = record { from = λ w. (_ ∷ [], refl, (h _, tt)) }

pub note-only :
    (P : Event → Type 0) (c : Call)
    → P (record { call = c; succeeded = true })
    → Moves (only P) (note c)
unfolding note
note-only P c h = record { from = λ w. (_ ∷ [], refl, (h, tt)) }

pub on_cache-only :
    (P : Event → Type 0) (f : metalnet.Cache.MetalnetCache → metalnet.Cache.MetalnetCache)
    → Moves (only P) (on_cache f)
unfolding on_cache
on_cache-only P f = record { from = λ w. ([], refl, tt) }

-- The pool of functions stays as it is.
abbrev pub keeps_functions : Frame
keeps_functions = record {
  rel = λ v w. w.functions ≡ v.functions;
  same = λ w. refl;
  next = λ u v w p q. q ∙ p;
}

pub call-keeps_functions : (env : Env) (c : Call) → Moves keeps_functions (call env c)
unfolding call
call-keeps_functions env c = record { from = λ w. refl }
