-- ===== src/NetFns/Conservation.antt =====
-- netfns/netfns.go: what GetOrClaim does to the pool and to the claim files.
use metalnet.Base.{
  ◌≤◌, ◌≡◌, refl, ◌∙◌, subst, ◌⊎◌, inl, inr, false, Option, none, some, String, List, [], ◌∷◌,
  string_eq, arith, Bool-cases, All, beq_refl, Option-cases,
}
use metalnet.Base.Map
use metalnet.Base.Map.{Map, Unique, put-Unique, remove-Unique, lookup-put}
use metalnet.Base.Sets.{has, insert}
use metalnet.Base.Result.{Err, Result, ok, err}
use metalnet.Base.Exec.{attempt, ◌>>=◌}
use metalnet.Api.{PciAddress, pci_eq}
use metalnet.NetFns.{
  Ghw, Disk, Fault, Manager, access, next_fault, later_faults, write_file, decode, create,
  get_claim, on_store, create_or_return, claim_any, get_or_claim, is_claim_not_found,
}
use metalnet.NetFns.Counts.{held, IsClean, count_pool-insert, has-count_pool, count_files-put}

module _ (ghw : Ghw) where
  -- No address is held twice, no file has a second entry, and the text of an address that is
  -- available can be read back.
  pub record IsSound (m : Manager) : Type 0 where
    pub exclusive : (a : PciAddress) → held ghw a m ≤ 1
    pub one_file : Unique m.store.files
    pub readable : All (λ a. ghw.from_string (ghw.to_string a) ≡ some a) m.available
    pub clean : All IsClean m.store.faults

  abbrev pub Claimed : String → PciAddress → Manager → Type 0
  Claimed uid a m =
      (text : String) × (Map.lookup uid m.store.files ≡ some text)
      × (decode ghw false text ≡ some a)

  abbrev pub later : Disk → Disk
  later d = record d { faults = later_faults d.faults }

  pub All-later : (fs : List (Option Fault)) → All IsClean fs → All IsClean (later_faults fs)
  All-later [] h = tt
  All-later (f ∷ fs) h = h.1

  -- What Get has done: it read, and nothing else.
  abbrev pub Found : String → Disk → Result PciAddress × Disk → Type 0
  Found uid d (r, d') =
      (d' ≡ later d)
      × (((a : PciAddress) × (r ≡ ok a)
            × (text : String) × (Map.lookup uid d.files ≡ some text)
            × (decode ghw false text ≡ some a))
          ⊎ ((e : Err) × (r ≡ err e)))

  pub get_claim-Found : (uid : String) (d : Disk) → Found uid d (get_claim ghw false uid d)
  unfolding get_claim access ◌>>=◌ Map.lookup
  get_claim-Found uid d = elim (Option-cases (next_fault d.faults)) [
    | inr (f, e) ↦ rw e (refl, inr (_, refl))
    | inl e ↦ elim (Option-cases (Map.lookup uid d.files)) [
      | inl n ↦ rw (e, n) (refl, inr (_, refl))
      | inr (t, n) ↦ elim (Option-cases (decode ghw false t)) [
        | inl q ↦ rw (e, n, q) (refl, inr (_, refl))
        | inr (a, q) ↦ rw (e, n, q) (refl, inl (a, refl, t, refl, q))
      ]
    ]
  ]

  -- What a Create that no half-written file spoils has done.
  abbrev Created : String → PciAddress → Disk → Result (Unit {0}) × Disk → Type 0
  Created uid a d (r, d') =
      All IsClean d'.faults
      × (((r ≡ ok tt)
            × (Map.lookup uid d.files ≡ none)
            × (d'.files ≡ Map.put uid (ghw.to_string a) d.files))
          ⊎ ((e : Err) × (r ≡ err e) × (d'.files ≡ d.files)))

  write_file-Created :
      (uid : String) (a : PciAddress) (d : Disk)
      → Map.lookup uid d.files ≡ none
      → All IsClean d.faults
      → Created uid a d (write_file uid (ghw.to_string a) d)
  unfolding write_file access ◌>>=◌
  write_file-Created uid a d h c = go d.faults c refl
    where
      go :
          (fs : List (Option Fault))
          → All IsClean fs
          → d.faults ≡ fs
          → Created uid a d (write_file uid (ghw.to_string a) d)
      go [] c e = rw e (tt, inl (refl, h, refl))
      go (none ∷ fs) c e = rw e (c.1, inl (refl, h, refl))
      go (some f ∷ fs) c e = rw (e, c.0) (c.1, inr (f.error, refl, refl))

  create-Created :
      (uid : String) (a : PciAddress) (d : Disk)
      → All IsClean d.faults
      → Created uid a d (create ghw false uid a d)
  unfolding create access ◌>>=◌ Map.lookup
  create-Created uid a d c = elim (Option-cases (next_fault d.faults)) [
    | inr (f, e) ↦ rw e (All-later d.faults c, inr (_, refl, refl))
    | inl e ↦ elim (Option-cases (Map.lookup uid d.files)) [
      | inr (t, n) ↦ rw (e, n) (All-later d.faults c, inr (_, refl, refl))
      | inl n ↦ rw (e, n) (rw n at (write_file-Created uid a (later d) n (All-later d.faults c)))
    ]
  ]

  -- Every address is held as often as before, and the pool is sound still.
  abbrev pub Conserved : Manager → Manager → Type 0
  Conserved m m' = IsSound m' × ((a : PciAddress) → held ghw a m' ≡ held ghw a m)

  -- The store answered, and its files are as they were.
  pub same_files :
      (m : Manager) (d : Disk)
      → IsSound m
      → d.files ≡ m.store.files
      → All IsClean d.faults
      → Conserved m (record m { store = d })
  same_files m d s e c = (
    record {
      exclusive = λ a. rw e (s.exclusive a);
      one_file = rw e s.one_file;
      readable = s.readable;
      clean = c;
    },
    λ a. rw e refl,
  )

  -- An address leaves the pool for a file that did not exist, or goes back to it.
  claim_first :
      (uid : String) (b : PciAddress) (m : Manager)
      → IsSound m
      → (rest : List PciAddress) → m.available ≡ b ∷ rest
      → (r : Result (Unit {0})) (d : Disk) → Created uid b m.store (r, d)
      → ((r ≡ ok tt)
          × Conserved m (record { store = d; available = rest })
          × Claimed uid b (record { store = d; available = rest }))
        ⊎ ((e : Err) × (r ≡ err e) × Conserved m (record { store = d; available = insert b rest }))
  unfolding decode insert
  claim_first uid b m s rest e r d (c, inl (p, n, f)) =
      let read = (subst (All (λ a. ghw.from_string (ghw.to_string a) ≡ some a)) e s.readable) in
      let text : decode ghw false (ghw.to_string b) ≡ some b = read.0 in
      let h : Map.lookup uid d.files ≡ some (ghw.to_string b) =
        rw (f, lookup-put uid uid (ghw.to_string b) m.store.files, beq_refl uid) refl in
      let same : (a : PciAddress)
          → held ghw a (record { store = d; available = rest }) ≡ held ghw a m =
        λ a.
          rw (e, f, count_files-put ghw a uid (ghw.to_string b) m.store.files n, text)
            (omega arith) in
      inl (
        p,
        (
          record {
            exclusive = λ a. rw (same a) (s.exclusive a);
            one_file = rw f (put-Unique uid (ghw.to_string b) m.store.files s.one_file);
            readable = read.1;
            clean = c;
          },
          same,
        ),
        (ghw.to_string b, h, text),
      )
  claim_first uid b m s rest e r d (c, inr (x, p, f)) =
      let read = (subst (All (λ a. ghw.from_string (ghw.to_string a) ≡ some a)) e s.readable) in
      let absent : has rest b ≡ false =
        has-count_pool b rest (omega (arith, rw (e, beq_refl b) at (s.exclusive b))) in
      let same : (a : PciAddress)
          → held ghw a (record { store = d; available = insert b rest }) ≡ held ghw a m =
        λ a. rw (e, f, count_pool-insert a b rest absent) refl in
      inr (
        x,
        p,
        (
          record {
            exclusive = λ a. rw (same a) (s.exclusive a);
            one_file = rw f s.one_file;
            readable = rw absent read;
            clean = c;
          },
          same,
        ),
      )

  abbrev pub Outcome : String → Manager → Result PciAddress × Manager → Type 0
  Outcome uid m (r, m') =
      Conserved m m'
      × (((a : PciAddress) × (r ≡ ok a) × Claimed uid a m') ⊎ ((e : Err) × (r ≡ err e)))

  claim_any-Outcome :
      (uid : String) (m : Manager)
      → IsSound m
      → (pool : List PciAddress) → m.available ≡ pool
      → Outcome uid m (claim_any ghw false uid pool m)
  unfolding claim_any create_or_return on_store attempt ◌>>=◌
  claim_any-Outcome uid m s [] e = ((s, λ a. refl), inr (_, refl))
  claim_any-Outcome uid m s (b ∷ rest) e =
      let (r, d) = create ghw false uid b m.store in
      elim (claim_first uid b m s rest e r d (create-Created uid b m.store s.clean)) [
        | inl (p, k, h) ↦ rw p (k, inl (b, refl, h))
        | inr (x, p, k) ↦ rw p (k, inr (x, refl))
      ]

  -- For a store of PCI functions whose writes, when they fail, leave no file, and a sound pool:
  -- GetOrClaim keeps the pool sound and neither loses an address nor gives one out a second time,
  -- on success and on every error; it does not panic; and an address that it returns is the one
  -- that the file of the UID then holds.
  pub get_or_claim-Outcome :
      (uid : String) (m : Manager) → IsSound m → Outcome uid m (get_or_claim ghw false uid m)
  unfolding get_or_claim on_store attempt ◌>>=◌
  get_or_claim-Outcome uid m s =
      let (c, found) = get_claim-Found uid m.store in
      let kept =
        same_files m (get_claim ghw false uid m.store).1 s (rw c refl)
          (rw c (All-later m.store.faults s.clean)) in
      elim found [
        | inl (a, p, text, h, q) ↦ rw p (kept, inl (a, refl, (text, rw c h, q)))
        | inr (e, p) ↦ elim (Bool-cases (is_claim_not_found e)) [
          | inr n ↦ rw (p, n) (kept, inr (_, refl))
          | inl y ↦
              let m' = record m { store = (get_claim ghw false uid m.store).1 } in
              let (k, out) = claim_any-Outcome uid m' kept.0 m.available refl in
              rw (p, y) ((k.0, λ a. k.1 a ∙ kept.1 a), out)
        ]
      ]
