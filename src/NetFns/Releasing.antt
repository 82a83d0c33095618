-- ===== src/NetFns/Releasing.antt =====
-- netfns/netfns.go: what Release does to the pool and to the claim files.
use metalnet.Base.{
  ◌≡◌, refl, ◌∙◌, ap, ◌⊎◌, inl, inr, false, none, some, String, string_eq, arith, All, beq_refl,
  Option-cases,
}
use metalnet.Base.Map
use metalnet.Base.Map.{Map, Unique, remove-Unique, lookup-remove}
use metalnet.Base.Sets.{has, insert}
use metalnet.Base.Result.{Err, Result, ok, err}
use metalnet.Base.Exec.{context, ◌>>=◌}
use metalnet.Api.{PciAddress, pci_eq}
use metalnet.NetFns.{
  Ghw, Disk, Manager, access, next_fault, remove_file, decode, get_claim, delete_claim, on_store,
  release,
}
use metalnet.NetFns.Counts.{held, IsClean, count_pool-insert, has-count_pool, count_files-remove}
use metalnet.NetFns.Conservation.{IsSound, Conserved, All-later, get_claim-Found, same_files}

abbrev Removed : String → Disk → Result (Unit {0}) × Disk → Type 0
Removed uid d (r, d') =
    All IsClean d'.faults
    × (((r ≡ ok tt) × (d'.files ≡ Map.remove uid d.files))
        ⊎ ((e : Err) × (r ≡ err e) × (d'.files ≡ d.files)))

module _ (ghw : Ghw) where
  remove_file-Removed :
      (uid : String) (d : Disk) → All IsClean d.faults → Removed uid d (remove_file uid d)
  unfolding remove_file access ◌>>=◌ Map.lookup
  remove_file-Removed uid d c = elim (Option-cases (next_fault d.faults)) [
    | inr (f, e) ↦ rw e (All-later ghw d.faults c, inr (_, refl, refl))
    | inl e ↦ elim (Option-cases (Map.lookup uid d.files)) [
      | inl n ↦ rw (e, n) (All-later ghw d.faults c, inr (_, refl, refl))
      | inr (t, n) ↦ rw (e, n) (All-later ghw d.faults c, inl (refl, refl))
    ]
  ]

  -- What Delete of the store has done.
  abbrev Deleted : String → Disk → Result PciAddress × Disk → Type 0
  Deleted uid d (r, d') =
      All IsClean d'.faults
      × (((a : PciAddress) × (t : String) × (r ≡ ok a)
            × (Map.lookup uid d.files ≡ some t)
            × (decode ghw false t ≡ some a)
            × (d'.files ≡ Map.remove uid d.files))
          ⊎ ((e : Err) × (r ≡ err e) × (d'.files ≡ d.files)))

  delete_claim-Deleted :
      (uid : String) (d : Disk)
      → All IsClean d.faults
      → Deleted uid d (delete_claim ghw false uid d)
  unfolding delete_claim context ◌>>=◌
  delete_claim-Deleted uid d c =
      let (moved, found) = get_claim-Found ghw uid d in
      let clean : All IsClean (get_claim ghw false uid d).1.faults =
        rw moved (All-later ghw d.faults c) in
      elim found [
        | inr (e, p) ↦ rw p (clean, inr (e, refl, rw moved refl))
        | inl (a, p, t, h, q) ↦
            let (c', gone) = remove_file-Removed uid (get_claim ghw false uid d).1 clean in
            elim gone [
              | inl (o, f) ↦
                  rw (p, o) (c', inl (a, t, refl, h, q, f ∙ ap (λ x. Map.remove uid x.files) moved))
              | inr (e, o, f) ↦ rw (p, o) (c', inr (_, refl, f ∙ ap (λ x. x.files) moved))
            ]
      ]

  module _
      (reads_back : (t : String) (a : PciAddress)
        → ghw.from_string t ≡ some a
        → ghw.from_string (ghw.to_string a) ≡ some a) where
    give_back :
        (uid t : String) (b : PciAddress) (m : Manager) (d : Disk)
        → IsSound ghw m
        → All IsClean d.faults
        → Map.lookup uid m.store.files ≡ some t
        → decode ghw false t ≡ some b
        → d.files ≡ Map.remove uid m.store.files
        → Conserved ghw m (record { store = d; available = insert b m.available })
    unfolding decode insert
    give_back uid t b m d s c h q f =
        let taken = count_files-remove ghw b uid t m.store.files s.one_file h in
        let absent : has m.available b ≡ false =
          has-count_pool b m.available
            (omega (arith, rw (taken, q, beq_refl b) at (s.exclusive b))) in
        let same : (a : PciAddress)
            → held ghw a (record { store = d; available = insert b m.available }) ≡ held ghw a m =
          λ a.
            rw
              (
                f,
                count_pool-insert a b m.available absent,
                count_files-remove ghw a uid t m.store.files s.one_file h,
                q,
              )
              (omega arith) in
        (
          record {
            exclusive = λ a. rw (same a) (s.exclusive a);
            one_file = rw f (remove-Unique uid m.store.files s.one_file);
            readable = rw absent (reads_back t b q, s.readable);
            clean = c;
          },
          same,
        )

    -- For a store of PCI functions whose writes, when they fail, leave no file, addresses that can
    -- be read back from their text once they were read from one, and a sound pool: Release keeps
    -- the pool sound and neither loses an address nor frees one twice. If it returns nil, the file
    -- of the UID is gone and its address is in the pool; if not, the pool and the files are as they
    -- were. It does not panic.
    pub release-Conserved :
        (uid : String) (m : Manager)
        → IsSound ghw m
        → let (r, m') = release ghw false uid m in
          Conserved ghw m m'
          × (((r ≡ ok tt)
                × (Map.lookup uid m'.store.files ≡ none)
                × ((a : PciAddress) × (t : String) × (Map.lookup uid m.store.files ≡ some t)
                    × (decode ghw false t ≡ some a)
                    × (m'.available ≡ insert a m.available)))
              ⊎ ((e : Err) × (r ≡ err e)
                  × (m'.store.files ≡ m.store.files)
                  × (m'.available ≡ m.available)))
    unfolding release on_store ◌>>=◌
    release-Conserved uid m s =
        let (c, done) = delete_claim-Deleted uid m.store s.clean in
        elim done [
          | inl (a, t, p, h, q, f) ↦ rw p (
            give_back uid t a m (delete_claim ghw false uid m.store).1 s c h q f,
            inl (
              refl,
              rw (f, lookup-remove uid uid m.store.files, beq_refl uid) refl,
              (a, t, h, q, refl),
            ),
          )
          | inr (e, p, f) ↦ rw p (
            same_files ghw m (delete_claim ghw false uid m.store).1 s f c,
            inr (e, refl, f, refl),
          )
        ]
