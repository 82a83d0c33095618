-- ===== src/NetFns/Shares.antt =====
-- How the claims of the files and the addresses left over share out the pool.
use metalnet.Base.{
  ℕ, ◌+◌, ◌≤◌, ◌≡◌, refl, ◌∙◌, ap, subst, inl, inr, Bool, true, false, List, [], ◌∷◌, string_eq,
  ◌==◌, arith, Bool-cases, All, beq-eq,
}
use metalnet.Base.Sets.{
  has, insert, delete, of_list, Distinct, has-delete, insert-Distinct, delete-Distinct,
}
use metalnet.Base.Result.{ok}
use metalnet.Api.{PciAddress, pci_eq}
use metalnet.NetFns.{Claim, take_claimed}
use metalnet.NetFns.Counts.{one_if, count_pool}

pub ok_injective : {A : Type 0} {a b : A} → ok a ≡ ok b → a ≡ b
ok_injective h = cc

-- How often an address is claimed.
abbrev pub count_claims : PciAddress → List Claim → ℕ
count_claims a [] = 0
count_claims a (c ∷ cs) = one_if (c.address == a) + count_claims a cs

pub at_most_one : (b : Bool) → one_if b ≤ 1
at_most_one true = omega arith
at_most_one false = omega arith

pub count_pool-Distinct :
    (a : PciAddress) (s : List PciAddress) → Distinct s → count_pool a s ≡ one_if (has s a)
unfolding has
count_pool-Distinct a [] d = refl
count_pool-Distinct a (b ∷ s) d = elim (Bool-cases (b == a)) [
  | inl p ↦
      rw (p, count_pool-Distinct a s d.1, subst (λ x. has s x ≡ false) (beq-eq b a p) d.0) refl
  | inr p ↦ rw p (omega (arith, count_pool-Distinct a s d.1))
]

module _ (P : PciAddress → Type 0) where
  delete-All : (k : PciAddress) (s : List PciAddress) → All P s → All P (delete k s)
  unfolding delete
  delete-All k [] h = tt
  delete-All k (j ∷ s) h = elim (Bool-cases (j == k)) [
    | inl p ↦ rw p (delete-All k s h.1)
    | inr p ↦ rw p (h.0, delete-All k s h.1)
  ]

  pub of_list-All : (s : List PciAddress) → All P s → All P (of_list s)
  unfolding of_list insert
  of_list-All [] h = tt
  of_list-All (k ∷ s) h = elim (Bool-cases (has (of_list s) k)) [
    | inl p ↦ rw p (of_list-All s h.1)
    | inr p ↦ rw p (h.0, of_list-All s h.1)
  ]

  shared :
      (c : Claim) (cs : List Claim) (pool rest : List PciAddress)
      → Distinct pool
      → has pool c.address ≡ true
      → ((a : PciAddress)
          → count_pool a rest + count_claims a cs ≡ count_pool a (delete c.address pool))
      → (a : PciAddress) → count_pool a rest + count_claims a (c ∷ cs) ≡ count_pool a pool
  shared c cs pool rest d p n a =
      let m =
        n a
        ∙ count_pool-Distinct a (delete c.address pool) (delete-Distinct c.address pool d)
        ∙ ap one_if (has-delete c.address a pool) in
      elim (Bool-cases (c.address == a)) [
        | inl q ↦
            let r : has pool a ≡ true = subst (λ x. has pool x ≡ true) (beq-eq c.address a q) p in
            rw (q, count_pool-Distinct a pool d, r) (omega (arith, rw q at m))
        | inr q ↦ rw (q, count_pool-Distinct a pool d) (omega (arith, rw q at m))
      ]

  -- The claims and what they leave share the pool out.
  pub take_claimed-shares :
      (cs : List Claim) (pool rest : List PciAddress)
      → Distinct pool
      → All P pool
      → take_claimed cs pool ≡ ok rest
      → Distinct rest
        × All P rest
        × ((a : PciAddress) → count_pool a rest + count_claims a cs ≡ count_pool a pool)
  unfolding take_claimed
  take_claimed-shares [] pool rest d h e =
      let q : pool ≡ rest = ground arith in
      subst
        (λ x. Distinct x × All P x × ((a : PciAddress) → count_pool a x + 0 ≡ count_pool a pool)) q
        (d, h, λ a. omega arith)
  take_claimed-shares (c ∷ cs) pool rest d h e = elim (Bool-cases (has pool c.address)) [
    | inr p ↦ absurd (cc (rw p at e))
    | inl p ↦
        let (d', h', n) =
          take_claimed-shares cs (delete c.address pool) rest (delete-Distinct c.address pool d)
            (delete-All c.address pool h) (rw p at e) in
        (d', h', shared c cs pool rest d p n)
  ]

pub of_list-Distinct : (s : List PciAddress) → Distinct (of_list s)
unfolding of_list
of_list-Distinct [] = tt
of_list-Distinct (k ∷ s) = insert-Distinct k (of_list s) (of_list-Distinct s)
