-- ===== src/NetFns/Starting.antt =====
-- NewManager: the pool that is left after the claims of the files.
use metalnet.Base.{
  ℕ, ◌+◌, ◌≡◌, refl, sym, ◌∙◌, ap, subst, inl, inr, false, none, some, String, List, [], ◌∷◌,
  string_eq, ◌==◌, arith, All, beq_refl, Option-cases,
}
use text.Mathlib.TextEquality.{eq_iff}
use metalnet.Base.Map
use metalnet.Base.Map.{Map, Unique, lookup}
use metalnet.Base.Sets.{has, of_list, has-of_list}
use metalnet.Base.Result.{Result, ok, err, panic}
use metalnet.Base.Exec.{context-ok, context, lift, ◌>>=◌, >>=-ok}
use metalnet.Api.{PciAddress, pci_eq}
use metalnet.NetFns.{
  Ghw, Disk, Claim, Manager, access, next_fault, read_dir, decode, get_claim, claims_of,
  list_claims, take_claimed, new_manager,
}
use metalnet.NetFns.Counts.{one_if, one_at, count_files, held, IsClean}
use metalnet.NetFns.Conservation.{IsSound, later, All-later, get_claim-Found}
use metalnet.NetFns.Shares.{
  ok_injective, count_claims, at_most_one, count_pool-Distinct, of_list-All, take_claimed-shares,
  of_list-Distinct,
}

module _ (ghw : Ghw) where
  -- What the files of these names hold.
  abbrev count_named : PciAddress → List String → Map String String → ℕ
  count_named a [] files = 0
  count_named a (u ∷ us) files =
      elim (lookup u files) [ none ↦ 0 | some t ↦ one_at a (decode ghw false t) ]
      + count_named a us files

  count_named-skip :
      (a : PciAddress) (us : List String) (k t : String) (files : Map String String)
      → has us k ≡ false
      → count_named a us ((k, t) ∷ files) ≡ count_named a us files
  unfolding lookup has
  count_named-skip a [] k t files h = refl
  count_named-skip a (u ∷ us) k t files h =
      ground (arith, count_named-skip a us k t files, eq_iff k u, eq_iff u k)

  count_named-keys :
      (a : PciAddress) (files : Map String String)
      → Unique files
      → count_named a (Map.keys files) files ≡ count_files ghw a files
  unfolding lookup
  count_named-keys a [] u = refl
  count_named-keys a ((k, t) ∷ files) u = rw (beq_refl k) (
      omega
        (arith, count_named-skip a (Map.keys files) k t files u.0, count_named-keys a files u.1))

  named_first :
      (a : PciAddress) (u : String) (us : List String) (files : Map String String) (t : String)
      (b : PciAddress)
      → lookup u files ≡ some t
      → decode ghw false t ≡ some b
      → count_named a (u ∷ us) files ≡ one_if (b == a) + count_named a us files
  named_first a u us files t b h q = rw (h, q) refl

  found_at :
      (u : String) (d : Disk) (b : PciAddress)
      → (get_claim ghw false u d).0 ≡ ok b
      → (t : String) × (lookup u d.files ≡ some t) × (decode ghw false t ≡ some b)
  found_at u d b o = elim (get_claim-Found ghw u d).1 [
    | inl (a, p, t, h, q) ↦ let r : a ≡ b = ok_injective (sym p ∙ o) in (t, h, q ∙ ap some r)
    | inr (e, p) ↦ absurd (cc (p, o))
  ]

  claims_of-counts :
      (us : List String) (d : Disk) (cs : List Claim)
      → All IsClean d.faults
      → (claims_of ghw false us d).0 ≡ ok cs
      → let d' = (claims_of ghw false us d).1 in
        All IsClean d'.faults
        × (d'.files ≡ d.files)
        × ((a : PciAddress) → count_claims a cs ≡ count_named a us d.files)
  unfolding claims_of
  claims_of-counts [] d cs c h =
      let q : [] ≡ cs = ground arith in
      subst
        (λ x.
          All IsClean d.faults × (d.files ≡ d.files) × ((a : PciAddress) → count_claims a x ≡ 0))
        q (c, refl, λ a. refl)
  claims_of-counts (u ∷ us) d cs c h =
      let (b, a₁, e₁) = >>=-ok (context "error getting claim: " (get_claim ghw false u)) _ d h in
      let (o, moved) = context-ok "error getting claim: " (get_claim ghw false u) d a₁ in
      let (same, found) = get_claim-Found ghw u d in
      let h₁ = rw (e₁, moved, same) at h in
      let (rest, a₂, e₂) = >>=-ok (claims_of ghw false us) _ (later ghw d) h₁ in
      let (c', f', n) = claims_of-counts us (later ghw d) rest (All-later ghw d.faults c) a₂ in
      let q : record { uid = u; address = b } ∷ rest ≡ cs = ok_injective (rw e₂ at h₁) in
      let (t, l, k) = found_at u d b o in
      rw (e₁, moved, same, e₂)
        (
          c',
          f',
          λ a.
              ap (count_claims a) (sym q)
              ∙ ap (λ x. one_if (b == a) + x) (n a)
              ∙ sym (named_first a u us d.files t b l k),
        )

  read_dir-ok :
      (d : Disk) {names : List String}
      → (read_dir d).0 ≡ ok names
      → (names ≡ Map.keys d.files) × ((read_dir d).1 ≡ later ghw d)
  unfolding read_dir access ◌>>=◌
  read_dir-ok d {names} h = elim (Option-cases (next_fault d.faults)) [
    | inl e ↦ rw e (sym (ok_injective (rw e at h)), refl)
    | inr (f, e) ↦ absurd (cc (rw e at h))
  ]

  list_claims-counts :
      (d : Disk) (cs : List Claim)
      → Unique d.files
      → All IsClean d.faults
      → (list_claims ghw false d).0 ≡ ok cs
      → let d' = (list_claims ghw false d).1 in
        All IsClean d'.faults
        × (d'.files ≡ d.files)
        × ((a : PciAddress) → count_claims a cs ≡ count_files ghw a d.files)
  unfolding list_claims
  list_claims-counts d cs u c h =
      let (names, a₁, e₁) = >>=-ok (context "error reading dir: " read_dir) _ d h in
      let (o, moved) = context-ok "error reading dir: " read_dir d a₁ in
      let (k, same) = read_dir-ok d o in
      let h₁ = rw (e₁, moved, same, k) at h in
      let (c', f, n) =
        claims_of-counts (Map.keys d.files) (later ghw d) cs (All-later ghw d.faults c) h₁ in
      rw (e₁, moved, same, k) (c', f, λ a. n a ∙ count_named-keys a d.files u)

  -- What NewManager returns.
  abbrev pub Started : List PciAddress → Manager → Type 0
  Started initially m = IsSound ghw m × ((a : PciAddress) → held ghw a m ≡ one_if (has initially a))

  started :
      (initially : List PciAddress) (d : Disk) (pool : List PciAddress) (cs : List Claim)
      (d' : Disk)
      → Unique d.files
      → All (λ a. ghw.from_string (ghw.to_string a) ≡ some a) initially
      → All IsClean d'.faults
      → d'.files ≡ d.files
      → ((a : PciAddress) → count_claims a cs ≡ count_files ghw a d.files)
      → take_claimed cs (of_list initially) ≡ ok pool
      → Started initially (record { store = d'; available = pool })
  started initially d pool cs d' u r c f n h =
      let P : PciAddress → Type 0 = λ a. ghw.from_string (ghw.to_string a) ≡ some a in
      let (_, readable, share) =
        take_claimed-shares P cs (of_list initially) pool (of_list-Distinct initially)
          (of_list-All P initially r) h in
      let total : (a : PciAddress)
          → held ghw a (record { store = d'; available = pool }) ≡ one_if (has initially a) =
        λ a.
          rw
            (
              f,
              ← n a,
              share a,
              count_pool-Distinct a (of_list initially) (of_list-Distinct initially),
              has-of_list a initially,
            )
            refl in
      (
        record {
          exclusive = λ a. rw (total a) (at_most_one (has initially a));
          one_file = rw f u;
          readable = readable;
          clean = c;
        },
        total,
      )

  packed :
      (r : Result (List PciAddress)) (d' : Disk) (m : Manager)
      → (elim r as (λ _. Result Manager × Disk) [
        | ok available ↦ (ok (record { store = d'; available = available }), d')
        | err e ↦ (err e, d')
        | panic p ↦ (panic p, d')
      ]).0
        ≡ ok m
      → (pool : List PciAddress) × (r ≡ ok pool) × (record { store = d'; available = pool } ≡ m)
  packed (ok pool) d' m h = (pool, refl, ok_injective h)
  packed (err e) d' m h = cc
  packed (panic p) d' m h = cc

  -- For a store of PCI functions with one file for each name, whose writes, when they fail, leave no
  -- file, and for given addresses that can be read back from their text: if NewManager succeeds,
  -- the pool is sound, and each of the given addresses is held exactly once, in the pool or by a
  -- file, and no other address at all.
  pub new_manager-Started :
      (initially : List PciAddress) (d : Disk) (m : Manager)
      → Unique d.files
      → All IsClean d.faults
      → All (λ a. ghw.from_string (ghw.to_string a) ≡ some a) initially
      → (new_manager ghw false initially d).0 ≡ ok m
      → Started initially m
  unfolding new_manager
  new_manager-Started initially d m u c r h =
      let build = context "error listing claims: " (list_claims ghw false) >>= λ claims.
      lift (take_claimed claims (of_list initially)) in
      let (pool, o, e) = packed (build d).0 (build d).1 m h in
      let (cs, a₁, e₁) = >>=-ok (context "error listing claims: " (list_claims ghw false)) _ d o in
      let (l, moved) = context-ok "error listing claims: " (list_claims ghw false) d a₁ in
      let (c', f, n) = list_claims-counts d cs u c l in
      let o₁ = sym (ap (λ x. x.0) e₁) ∙ o in
      let kept : (build d).1 ≡ (list_claims ghw false d).1 = ap (λ x. x.1) e₁ ∙ moved in
      subst (Started initially) e
        (started initially d pool cs (build d).1 u r (rw kept c') (rw kept f) n o₁)
