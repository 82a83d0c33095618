-- ===== src/Base/Map.antt =====
-- Go's maps: association lists with one entry for each key that was written. The order of the
-- entries stands for the unspecified order of iteration.
use mathlib.Core.Path.{◌≡◌, refl}
use mathlib.Core.Option.{Option, none, some}
use mathlib.Core.List.{List, [], ◌∷◌}
use native.Mathlib.Omega.{arith}
use mathlib.Core.Bool.{true, false, ◌||◌}
use mathlib.Core.Logic.{inl, inr}
use metalnet.Base.Tests.{if◌then◌else◌, Bool-cases}
use metalnet.Base.Sets.{has, Distinct}
use metalnet.Base.Eq.{Equality, ◌==◌}

abbrev pub Map {ℓ} : Type ℓ → Type ℓ → Type ℓ
Map K V = List (K × V)

module _ {ℓ} {K V : Type ℓ} ⦃e : Equality K⦄ where
  -- v, ok := m[k]
  unfoldable pub lookup : K → Map K V → Option V
  lookup k [] = none
  lookup k ((j, v) ∷ m) = if j == k then some v else lookup k m

  -- m[k] = v
  unfoldable pub put : K → V → Map K V → Map K V
  put k v [] = (k, v) ∷ []
  put k v ((j, w) ∷ m) = if j == k then (j, v) ∷ m else (j, w) ∷ put k v m

  -- delete(m, k)
  unfoldable pub remove : K → Map K V → Map K V
  remove k [] = []
  remove k ((j, w) ∷ m) = if j == k then remove k m else (j, w) ∷ remove k m

  pub lookup-put :
      (k j : K) (v : V) (m : Map K V)
      → lookup j (put k v m) ≡ (if k == j then some v else lookup j m)
  unfolding lookup put
  lookup-put k j v [] = refl
  lookup-put k j v ((i, w) ∷ m) =
      ground (arith, e.beq_iff i k, e.beq_iff i j, e.beq_iff k j, lookup-put k j v m)

  pub lookup-remove :
      (k j : K) (m : Map K V) → lookup j (remove k m) ≡ (if k == j then none else lookup j m)
  unfolding lookup remove
  lookup-remove k j [] = ground arith
  lookup-remove k j ((i, w) ∷ m) =
      ground (arith, e.beq_iff i k, e.beq_iff i j, e.beq_iff k j, lookup-remove k j m)

  abbrev pub keys : Map K V → List K
  keys [] = []
  keys ((k, v) ∷ m) = k ∷ keys m

  -- Every key has one entry.
  abbrev pub Unique : Map K V → Type 0
  Unique m = Distinct (keys m)

  has-keys-put :
      (k j : K) (v : V) (m : Map K V) → has (keys (put k v m)) j ≡ ((k == j) || has (keys m) j)
  unfolding put has
  has-keys-put k j v [] = refl
  has-keys-put k j v ((i, w) ∷ m) =
      ground (arith, e.beq_iff i k, e.beq_iff i j, e.beq_iff k j, has-keys-put k j v m)

  has-keys-remove :
      (k j : K) (m : Map K V) → has (keys m) j ≡ false → has (keys (remove k m)) j ≡ false
  unfolding remove has
  has-keys-remove k j [] h = refl
  has-keys-remove k j ((i, w) ∷ m) h = ground (arith, has-keys-remove k j m)

  pub put-Unique : (k : K) (v : V) (m : Map K V) → Unique m → Unique (put k v m)
  unfolding put has
  put-Unique k v [] u = (refl, tt)
  put-Unique k v ((i, w) ∷ m) u = elim (Bool-cases (i == k)) [
    | inl h ↦ rw h u
    | inr h ↦
        rw h
          (ground (arith, has-keys-put k i v m, e.beq_iff i k, e.beq_iff k i), put-Unique k v m u.1)
  ]

  pub remove-Unique : (k : K) (m : Map K V) → Unique m → Unique (remove k m)
  unfolding remove
  remove-Unique k [] u = tt
  remove-Unique k ((i, w) ∷ m) u = elim (Bool-cases (i == k)) [
    | inl h ↦ rw h (remove-Unique k m u.1)
    | inr h ↦ rw h (has-keys-remove k i m u.0, remove-Unique k m u.1)
  ]

  pub lookup-has-keys : (k : K) (v : V) (m : Map K V) → lookup k m ≡ some v → has (keys m) k ≡ true
  unfolding lookup has
  lookup-has-keys k v [] h = cc
  lookup-has-keys k v ((i, w) ∷ m) h = ground (arith, lookup-has-keys k v m)
