-- ===== src/Interface/Turns.antt =====
-- One round over the larger of two sets: the set that it leaves, and that two rounds reach the
-- second set.
use metalnet.Base.{
  suc, ◌≤◌, ◌≡◌, refl, ap, inl, inr, Bool, true, false, not, ◌&&◌, ◌||◌, String, List, [], ◌∷◌,
  length, ltb, if◌then◌else◌, Equality, ◌==◌, beq_refl, beq-eq, arith, Bool-cases,
}
use text.Mathlib.Text.{is_lt}
use Prim.Native.String.{compare}
use metalnet.Base.Sets.{has, insert, delete, has-insert, has-delete, Distinct, delete-Distinct}
use metalnet.Base.Sorting.{put_in_order, sorted}
use metalnet.Interface.Parts.{to_visit}
use metalnet.Interface.Visits.{fold}

-- Whether an element of the list is in the set after its turn.
abbrev turned : Bool → Bool → Bool → Bool
turned d t s = if d && not t then false else if t && not d then true else s

module _ {A : Type 0} ⦃e : Equality A⦄ where
  has-put_in_order :
      (text : A → String) (a k : A) (s : List A)
      → has (put_in_order text a s) k ≡ ((a == k) || has s k)
  unfolding put_in_order has
  has-put_in_order text a k [] = refl
  has-put_in_order text a k (b ∷ s) = elim (Bool-cases (is_lt (compare (text b) (text a)))) [
    | inl p ↦ rw (p, has-put_in_order text a k s) (ground arith)
    | inr p ↦ rw p refl
  ]

  has-sorted : (text : A → String) (k : A) (s : List A) → has (sorted text s) k ≡ has s k
  unfolding sorted has
  has-sorted text k [] = refl
  has-sorted text k (a ∷ s) =
      rw (has-put_in_order text a k (sorted text s), has-sorted text k s) refl

  -- The change for one element: away if only the first set has it, in if only the second has it.
  unfoldable pub turn : List A → List A → A → List A → List A
  turn d t a s =
      if has d a && not (has t a)
      then delete a s
      else if has t a && not (has d a)
      then insert a s
      else s

  has-turn :
      (d t s : List A) (a k : A)
      → has (turn d t a s) k ≡ (if a == k then turned (has d k) (has t k) (has s k) else has s k)
  unfolding turn
  has-turn d t s a k = elim (Bool-cases (a == k)) [
    | inl p ↦ ground (
      arith,
      p,
      has-delete a k s,
      has-insert a k s,
      beq-eq a k p,
      ap (has d) (beq-eq a k p),
      ap (has t) (beq-eq a k p),
    )
    | inr p ↦ ground (arith, p, has-delete a k s, has-insert a k s)
  ]

  has-fold :
      (d t : List A) (k : A) (xs s : List A)
      → has (fold (turn d t) xs s) k
        ≡ (if has xs k then turned (has d k) (has t k) (has s k) else has s k)
  unfolding has
  has-fold d t k [] s = refl
  has-fold d t k (x ∷ xs) s =
      rw (has-fold d t k xs (turn d t x s), has-turn d t s x k) (ground arith)

  -- The set after one round that started with the first set.
  unfoldable pub round : (A → String) → List A → List A → List A
  round text d t = fold (turn d t) (to_visit text d t) d

  pub has-round :
      (text : A → String) (d t : List A) (k : A)
      → has (round text d t) k
        ≡ (if ltb (length d) (length t) then has d k || has t k else has d k && has t k)
  unfolding round to_visit
  has-round text d t k = elim (Bool-cases (ltb (length d) (length t))) [
    | inl p ↦ rw (p, has-fold d t k (sorted text t) d, has-sorted text k t) (ground arith)
    | inr p ↦ rw (p, has-fold d t k (sorted text d) d, has-sorted text k d) (ground arith)
  ]

  delete_missing : (k : A) (s : List A) → has s k ≡ false → delete k s ≡ s
  unfolding delete has
  delete_missing k [] h = refl
  delete_missing k (a ∷ s) h = elim (Bool-cases (a == k)) [
    | inl p ↦ absurd (ground (arith, h, p))
    | inr p ↦ rw (p, delete_missing k s (ground (arith, h, p))) refl
  ]

  length-delete :
      (k : A) (s : List A) → Distinct s → has s k ≡ true → suc (length (delete k s)) ≡ length s
  unfolding delete has
  length-delete k [] dist h = cc
  length-delete k (a ∷ s) dist h = elim (Bool-cases (a == k)) [
    | inl p ↦ rw (p, delete_missing k s (rw (beq-eq a k p) at dist.0)) refl
    | inr p ↦ rw p (omega (arith, length-delete k s dist.1 (ground (arith, h, p))))
  ]

  subset-delete :
      (a : A) (s t : List A)
      → has s a ≡ false
      → ((k : A) → has (a ∷ s) k ≡ true → has t k ≡ true)
      → (k : A) → has s k ≡ true
      → has (delete a t) k ≡ true
  unfolding has
  subset-delete a s t n h k p = elim (Bool-cases (a == k)) [
    | inl q ↦ absurd (cc (p, n, ap (has s) (beq-eq a k q)))
    | inr q ↦ rw (has-delete a k t) (ground (arith, q, h k (rw q p)))
  ]

  subset-length :
      (s t : List A)
      → Distinct s
      → Distinct t
      → ((k : A) → has s k ≡ true → has t k ≡ true)
      → length s ≤ length t
  unfolding has
  subset-length [] t dist dist' h = omega arith
  subset-length (a ∷ s) t (n, dist) dist' h =
      let there : has t a ≡ true = h a (rw (beq_refl a) refl) in
      omega (
        arith,
        subset-length s (delete a t) dist (delete-Distinct a t dist') (subset-delete a s t n h),
        length-delete a t dist' there,
      )

  -- A subset that is as long as the set has all of it.
  subset_full :
      (s t : List A)
      → Distinct s
      → Distinct t
      → ((k : A) → has s k ≡ true → has t k ≡ true)
      → length t ≤ length s
      → (k : A) → has t k ≡ true
      → has s k ≡ true
  unfolding has
  subset_full s t ds dt h l k p = elim (Bool-cases (has s k)) [
    | inl q ↦ q
    | inr q ↦ absurd (omega (arith, l, subset-length (k ∷ s) t (q, ds) dt (wider k p)))
  ]
    where
      wider : (k : A) → has t k ≡ true → (j : A) → has (k ∷ s) j ≡ true → has t j ≡ true
      wider k p j q = elim (Bool-cases (k == j)) [
        | inl r ↦ cc (p, ap (has t) (beq-eq k j r))
        | inr r ↦ h j (ground (arith, q, r))
      ]

  -- From the set that one round has left, another round reaches the second set.
  pub rounds-settle :
      (text : A → String) (d t d' : List A)
      → Distinct t
      → Distinct d'
      → ((k : A) → has d' k ≡ has (round text d t) k)
      → (k : A) → has (round text d' t) k ≡ has t k
  rounds-settle text d t d' dt dd h k =
      rw (has-round text d' t k) (elim (Bool-cases (ltb (length d) (length t))) [
        | inl p ↦
            let all : (j : A) → has t j ≡ true → has d' j ≡ true =
              λ j q. ground (arith, rw (has-round text d t j, p) at (h j), q) in
            let l = subset-length t d' dt dd all in ground (arith, l, all k)
        | inr p ↦
            let part : (j : A) → has d' j ≡ true → has t j ≡ true =
              λ j q. ground (arith, rw (has-round text d t j, p) at (h j), q) in
            elim (Bool-cases (ltb (length d') (length t))) [
              | inl q ↦ rw q (ground (arith, part k))
              | inr q ↦
                  let l : length t ≤ length d' = ground (arith, q) in
                  rw q (ground (arith, part k, subset_full d' t dd dt part l k))
            ]
      ])
