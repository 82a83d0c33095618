-- ===== src/Effects/Writes.antt =====
-- How an action that succeeds has changed the cache.
use metalnet.Base.{◌≡◌, refl, ◌∙◌, ap, Bool, true, false, List, [], ◌∷◌, if◌then◌else◌}
use metalnet.Base.Result.{Result, ok, err, panic}
use metalnet.Base.Exec.{pure, for_each, gets, ◌>>=◌, continue}
use metalnet.Cache.{MetalnetCache}
use metalnet.Effects.{M, World, on_cache}
use metalnet.Effects.Invariants.{Moves, keeps_cache}

pub record Writes {A : Type 0} (m : M A) (f : MetalnetCache → MetalnetCache) : Type 0 where
  pub on_ok : (w : World) (a : A) → (m w).0 ≡ ok a → (m w).1.cache ≡ f w.cache

pub Writes-pure : {A : Type 0} (a : A) → Writes (pure a) (λ c. c)
Writes-pure a = record { on_ok = λ w b h. refl }

pub Writes-gets : {A : Type 0} (f : World → A) → Writes (gets f) (λ c. c)
Writes-gets f = record { on_ok = λ w b h. refl }

pub Writes-on_cache : (f : MetalnetCache → MetalnetCache) → Writes (on_cache f) f
unfolding on_cache
Writes-on_cache f = record { on_ok = λ w a h. refl }

pub Writes-kept : {A : Type 0} (m : M A) → Moves keeps_cache m → Writes m (λ c. c)
Writes-kept m k = record { on_ok = λ w a h. k.from w }

pub Writes-if :
    {A : Type 0} (b : Bool) (m n : M A) (f g : MetalnetCache → MetalnetCache)
    → Writes m f
    → Writes n g
    → Writes (if b then m else n) (if b then f else g)
Writes-if true m n f g p q = p
Writes-if false m n f g p q = q

pub Writes-bind :
    {A B : Type 0} (m : M A) (k : A → M B) (f g : MetalnetCache → MetalnetCache)
    → Writes m f
    → ((a : A) → Writes (k a) g)
    → Writes (m >>= k) (λ c. g (f c))
unfolding ◌>>=◌
Writes-bind {A} {B} m k f g p q = record {
  on_ok = λ w b h. go w b (m w).0 (m w).1 (λ a e. p.on_ok w a e) h;
}
  where
    go :
        (w : World) (b : B) (r : Result A) (v : World)
        → ((a : A) → r ≡ ok a → v.cache ≡ f w.cache)
        → (continue r k v).0 ≡ ok b
        → (continue r k v).1.cache ≡ g (f w.cache)
    go w b (ok a) v c h = (q a).on_ok v b h ∙ ap g (c a refl)
    go w b (err e) v c h = cc
    go w b (panic e) v c h = cc

-- The changes of the elements, from the first to the last.
abbrev pub apply_all :
    {A : Type 0} → (A → MetalnetCache → MetalnetCache) → List A → MetalnetCache → MetalnetCache
apply_all f [] c = c
apply_all f (x ∷ xs) c = apply_all f xs (f x c)

pub Writes-for_each :
    {A : Type 0} (f : A → MetalnetCache → MetalnetCache) (body : A → M (Unit {0}))
    → ((x : A) → Writes (body x) (f x))
    → (xs : List A) → Writes (for_each xs body) (apply_all f xs)
unfolding for_each
Writes-for_each f body h [] = Writes-pure tt
Writes-for_each f body h (x ∷ xs) =
    Writes-bind (body x) (λ _. for_each xs body) (f x) (apply_all f xs) (h x)
      λ _. Writes-for_each f body h xs
