-- ===== src/Base/Sets.antt =====
-- `sets.Set` of k8s.io/apimachinery: finite sets as lists without repetition, in an order that
-- stands for the unspecified order of `UnsortedList`.
use mathlib.Core.Path.{◌≡◌, refl}
use mathlib.Core.Logic.{inl, inr}
use mathlib.Core.Bool.{Bool, true, false, ◌||◌, ◌&&◌, not}
use mathlib.Core.List.{List, [], ◌∷◌}
use native.Mathlib.Omega.{arith}
use metalnet.Base.Tests.{if◌then◌else◌, Bool-cases}
use metalnet.Base.Eq.{Equality, ◌==◌, beq-eq}

module _ {ℓ} {K : Type ℓ} ⦃e : Equality K⦄ where
  -- s.Has(k)
  unfoldable pub has : List K → K → Bool
  has [] k = false
  has (j ∷ s) k = (j == k) || has s k

  -- s.Insert(k)
  unfoldable pub insert : K → List K → List K
  unfolding has
  insert k s = if has s k then s else k ∷ s

  -- s.Delete(k)
  unfoldable pub delete : K → List K → List K
  delete k [] = []
  delete k (j ∷ s) = if j == k then delete k s else j ∷ delete k s

  -- A new set of the elements of a slice, inserted from the last to the first.
  unfoldable pub of_list : List K → List K
  unfolding insert
  of_list [] = []
  of_list (k ∷ ks) = insert k (of_list ks)

  -- The elements of s1 that are not in s2.
  unfoldable pub difference : List K → List K → List K
  unfolding has
  difference [] s2 = []
  difference (k ∷ s1) s2 = if has s2 k then difference s1 s2 else k ∷ difference s1 s2

  -- No element stands twice.
  abbrev pub Distinct : List K → Type 0
  Distinct [] = Unit
  Distinct (k ∷ s) = (has s k ≡ false) × Distinct s

  pub has-insert : (k j : K) (s : List K) → has (insert k s) j ≡ ((k == j) || has s j)
  unfolding insert has
  has-insert k j s = elim (Bool-cases (has s k)) [
    | inl h ↦ elim (Bool-cases (k == j)) [ inl p ↦ rw (h, p) (subst_has p h) | inr p ↦ rw (h, p) ]
    | inr h ↦ rw h
  ]
    where
      subst_has : (k == j) ≡ true → has s k ≡ true → has s j ≡ true
      subst_has p h = cc (beq-eq k j p)

  pub has-delete : (k j : K) (s : List K) → has (delete k s) j ≡ (not (k == j) && has s j)
  unfolding delete has
  has-delete k j [] = ground arith
  has-delete k j (i ∷ s) =
      ground (arith, e.beq_iff i k, e.beq_iff i j, e.beq_iff k j, has-delete k j s)

  pub has-of_list : (j : K) (s : List K) → has (of_list s) j ≡ has s j
  unfolding of_list
  has-of_list j [] = refl
  has-of_list j (k ∷ s) = unfold has in rw (has-insert k j (of_list s), has-of_list j s)

  pub has-difference : (j : K) (s t : List K) → has (difference s t) j ≡ (has s j && not (has t j))
  unfolding difference
  has-difference j [] t = unfold has in refl
  has-difference j (k ∷ s) t = elim (Bool-cases (k == j)) [
    | inl p ↦ unfold has in ground (arith, has-difference j s t, e.beq_iff k j)
    | inr p ↦ unfold has in ground (arith, has-difference j s t, e.beq_iff k j)
  ]

  pub insert-Distinct : (k : K) (s : List K) → Distinct s → Distinct (insert k s)
  unfolding insert
  insert-Distinct k s d = elim (Bool-cases (has s k)) [ inl h ↦ rw h d | inr h ↦ rw h (h, d) ]

  pub delete-Distinct : (k : K) (s : List K) → Distinct s → Distinct (delete k s)
  unfolding delete
  delete-Distinct k [] d = tt
  delete-Distinct k (j ∷ s) d = elim (Bool-cases (j == k)) [
    | inl h ↦ rw h (delete-Distinct k s d.1)
    | inr h ↦ rw h (rw (has-delete k j s, d.0) (ground arith), delete-Distinct k s d.1)
  ]

  pub of_list-Distinct : (s : List K) → Distinct (of_list s)
  unfolding of_list
  of_list-Distinct [] = tt
  of_list-Distinct (k ∷ s) = insert-Distinct k (of_list s) (of_list-Distinct s)
