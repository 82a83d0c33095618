-- ===== src/Interface/Visits.antt =====
-- Handlers that compare a set that dp-service holds with one of the specification: the changes that
-- their calls ask for, and what becomes of the set.
use metalnet.Base.{
  ◌≡◌, ◌≢◌, refl, ◌∙◌, ap, Bool, true, false, Option, none, some, String, List, [], ◌∷◌, ◌++◌,
  if◌then◌else◌, arith,
}
use metalnet.Base.Result.{Err, Result, ok, err, panic}
use metalnet.Base.Exec.{
  pure, raise, attempt, attempt-ok, context, context-ok, gather, inspect, ◌>>=◌, >>=-ok,
}
use metalnet.Effects.{Call, Reply, World, M, Env, call, deref, gives}
use metalnet.Effects.Traces.{Made, Made-trans, call-ok, call-Made}
use metalnet.Metalbond.Errors.{unless_ignored}
use metalnet.Interface.Parts.{report}

-- The changes for the elements of a list, from the first on.
abbrev pub fold : {A B : Type 0} → (B → List A → List A) → List B → List A → List A
fold f [] s = s
fold f (x ∷ xs) s = fold f xs (f x s)

-- A report that is nil.
pub report_ok :
    (t : String) (errs : List Err) (w : World)
    → (report t errs w).0 ≡ ok tt
    → (errs ≡ []) × ((report t errs w).1 ≡ w)
unfolding report
report_ok t [] w h = (refl, refl)
report_ok t (e ∷ es) w h = cc

module _ {A : Type 0} (change : Call → List A → List A) where
  -- What a set becomes when each call does what it asks for.
  unfoldable pub replay : List Call → List A → List A
  replay [] s = s
  replay (c ∷ cs) s = replay cs (change c s)

  pub replay-append :
      (cs ds : List Call) (s : List A) → replay (cs ++ ds) s ≡ replay ds (replay cs s)
  unfolding replay
  replay-append [] ds s = refl
  replay-append (c ∷ cs) ds s = replay-append cs ds (change c s)

  -- The calls that an action has made when it succeeds ask for the change `f`.
  pub record Asks {B : Type 0} (m : M B) (f : List A → List A) : Type 0 where
    pub on_ok :
        (w : World) (b : B)
        → (m w).0 ≡ ok b
        → (cs : List Call) × Made cs w (m w).1 × ((s : List A) → replay cs s ≡ f s)

  pub Asks-pure : {B : Type 0} (b : B) → Asks (pure b) (λ s. s)
  unfolding replay
  Asks-pure b = record { on_ok = λ w c h. ([], refl, λ s. refl) }

  pub Asks-raise : {B : Type 0} (e : Err) → Asks (raise {A = B} e) (λ s. s)
  unfolding replay
  Asks-raise e = record { on_ok = λ w c h. ([], refl, λ s. refl) }

  pub Asks-deref : {B : Type 0} (o : Option B) → Asks (deref o) (λ s. s)
  unfolding replay deref
  Asks-deref none = record { on_ok = λ w c h. ([], refl, λ s. refl) }
  Asks-deref (some b) = record { on_ok = λ w c h. ([], refl, λ s. refl) }

  pub Asks-call : (env : Env) (c : Call) → Asks (call env c) (change c)
  unfolding replay call
  Asks-call env c = record { on_ok = λ w b h. (c ∷ [], refl, λ s. refl) }

  -- A call of which some errors are ignored is made all the same.
  pub Asks-unless_ignored :
      (env : Env) (c : Call) (ignore : Option Err → Option Err) (t : String) (m : M (Unit {0}))
      → ((w : World) → Made (c ∷ []) w (m w).1)
      → Asks (unless_ignored ignore t m) (change c)
  unfolding replay unless_ignored
  Asks-unless_ignored env c ignore t m p = record { on_ok = λ w b h. (c ∷ [], p w, λ s. refl) }

  pub Asks-context :
      {B : Type 0} (t : String) (m : M B) (f : List A → List A) → Asks m f → Asks (context t m) f
  unfolding context
  Asks-context t m f p = record {
    on_ok = λ w b h. p.on_ok w b (unfold context in (context-ok t m w h).0);
  }

  -- An attempt of a call that may fail.
  pub Asks-attempt : (env : Env) (c : Call) → Asks (attempt (call env c)) (change c)
  unfolding replay call attempt
  Asks-attempt env c = record {
    on_ok = λ w b h. (c ∷ [], go (call env c w).0 (call env c w).1 w refl, λ s. refl);
  }
    where
      go :
          {B : Type 0} (r : Result B) (v w : World)
          → Made (c ∷ []) w v
          → Made (c ∷ []) w (inspect r v).1
      go (ok a) v w h = h
      go (err e) v w h = h
      go (panic e) v w h = h

  pub Asks-bind :
      {B C : Type 0} (m : M B) (k : B → M C) (f g : List A → List A)
      → Asks m f
      → ((b : B) → Asks (k b) g)
      → Asks (m >>= k) (λ s. g (f s))
  Asks-bind m k f g p q = record {
    on_ok = λ w c h.
        let (b, done, e) = >>=-ok m k w h in
        let (cs, made, asked) = p.on_ok w b done in
        let (ds, made', asked') = (q b).on_ok (m w).1 c (rw e at h) in
        (
          cs ++ ds,
          rw e (Made-trans cs ds w (m w).1 (k b (m w).1).1 made made'),
          λ s. replay-append cs ds s ∙ ap (replay ds) (asked s) ∙ asked' (f s),
        );
  }

  pub Asks-if :
      {B : Type 0} (b : Bool) (m n : M B) (f g : List A → List A)
      → Asks m f
      → Asks n g
      → Asks (if b then m else n) (λ s. if b then f s else g s)
  Asks-if true m n f g p q = p
  Asks-if false m n f g p q = q

  -- The first branch may use the test.
  pub Asks-when :
      {B : Type 0} (b : Bool) (m n : M B) (f g : List A → List A)
      → (b ≡ true → Asks m f)
      → Asks n g
      → Asks (if b then m else n) (λ s. if b then f s else g s)
  Asks-when true m n f g p q = p refl
  Asks-when false m n f g p q = q

  pub Asks-either :
      {B : Type 0} (b : Bool) (m n : M B) (f : List A → List A)
      → Asks m f
      → Asks n f
      → Asks (if b then m else n) f
  Asks-either true m n f p q = p
  Asks-either false m n f p q = q

  pub Asks-same :
      {B : Type 0} (m : M B) (f g : List A → List A)
      → ((s : List A) → f s ≡ g s)
      → Asks m f
      → Asks m g
  Asks-same m f g e p = record {
    on_ok = λ w b h. let (cs, made, asked) = p.on_ok w b h in (cs, made, λ s. asked s ∙ e s);
  }

  -- What a step of `gather` that adds no error has seen.
  step_ok :
      {B : Type 0} (m : M (Unit {0})) (w : World) (res : Result (Unit {0})) (x : B)
      (label : B → Err → Err) (errs : List Err)
      → (attempt m w).0 ≡ ok res
      → Path
          (Result (List Err))
          (ok (elim res [ ok a ↦ errs | err e ↦ label x e ∷ errs | panic p ↦ errs ]))
          (ok [])
      → ((m w).0 ≡ ok tt) × (errs ≡ [])
  unfolding attempt
  step_ok m w (ok a) x label errs h q =
      ((unfold attempt in (attempt-ok m w h).0), ground (arith, q))
  step_ok m w (err e) x label errs h q = cc
  step_ok m w (panic p) x label errs h q = absurd (go (m w).0 h)
    where
      go : (r : Result (Unit {0})) → (inspect r (m w).1).0 ≢ ok (panic p)
      go (ok a) e = cc
      go (err e) d = cc
      go (panic e) d = cc

  -- A loop that goes on after errors, and met none.
  pub Asks-gather :
      {B : Type 0} (xs : List B) (body : B → M (Unit {0})) (label : B → Err → Err)
      (f : B → List A → List A)
      → ((x : B) → Asks (body x) (f x))
      → (w : World) → (gather xs body label w).0 ≡ ok []
      → (cs : List Call) × Made cs w (gather xs body label w).1
        × ((s : List A) → replay cs s ≡ fold f xs s)
  unfolding replay gather
  Asks-gather [] body label f p w h = ([], refl, λ s. refl)
  Asks-gather (x ∷ xs) body label f p w h =
      let (res, a₁, e₁) = >>=-ok (attempt (body x)) _ w h in
      let h₁ = rw e₁ at h in
      let moved = (attempt-ok (body x) w a₁).1 in
      let (errs, a₂, e₂) = >>=-ok (gather xs body label) _ _ h₁ in
      let (done, none_left) = step_ok (body x) w res x label errs a₁ (rw e₂ at h₁) in
      let (cs, made, asked) = (p x).on_ok w tt done in
      let (ds, made', asked') =
        Asks-gather xs body label f p (body x w).1 (rw (moved, none_left) at a₂) in
      (
        cs ++ ds,
        rw (e₁, e₂, moved)
            (Made-trans cs ds w (body x w).1 (gather xs body label (body x w).1).1 made made'),
        λ s. replay-append cs ds s ∙ ap (replay ds) (asked s) ∙ asked' (f x s),
      )

  -- The same loop and the report of its errors.
  pub Asks-visit :
      {B : Type 0} (xs : List B) (body : B → M (Unit {0})) (label : B → Err → Err) (t : String)
      (f : B → List A → List A)
      → ((x : B) → Asks (body x) (f x))
      → Asks (gather xs body label >>= report t) (fold f xs)
  Asks-visit xs body label t f p = record {
    on_ok = λ w b h.
        let (errs, done, e) = >>=-ok (gather xs body label) (report t) w h in
        let (none_left, same) = report_ok t errs (gather xs body label w).1 (rw e at h) in
        let (cs, made, asked) = Asks-gather xs body label f p w (rw none_left at done) in
        (cs, rw (e, same) made, asked);
  }

  -- The whole handler: what is listed decides what is visited.
  pub Asks-listed :
      {B : Type 0} (env : Env) (c : Call) (t : String) (xs : Reply c → List B)
      (body : Reply c → B → M (Unit {0})) (label : B → Err → Err) (t' : String)
      (f : Reply c → B → List A → List A)
      → ((i : Reply c) (x : B) → Asks (body i x) (f i x))
      → (w : World)
      → let m = context t (call env c) >>= λ i. gather (xs i) (body i) label >>= report t' in
        (m w).0 ≡ ok tt
        → (i : Reply c) × (env.answer w.trace c ≡ gives i)
          × ((cs : List Call) × Made (c ∷ cs) w (m w).1
              × ((s : List A) → replay cs s ≡ fold (f i) (xs i) s))
  Asks-listed env c t xs body label t' f p w h =
      let (i, listed, e) = >>=-ok (context t (call env c)) _ w h in
      let (got, moved) = context-ok t (call env c) w listed in
      let (cs, made, asked) =
        (Asks-visit (xs i) (body i) label t' (f i) (p i)).on_ok (call env c w).1 tt
          (rw (e, moved) at h) in
      (
        i,
        call-ok env c w got,
        (
          cs,
          rw (e, moved)
              (Made-trans (c ∷ []) cs w (call env c w).1
                ((gather (xs i) (body i) label >>= report t') (call env c w).1).1
                (call-Made env c w) made),
          asked,
        ),
      )
