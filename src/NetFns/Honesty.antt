-- ===== src/NetFns/Honesty.antt =====
-- netfns/netfns.go: what it means that Release reports a claim that is not found.
use metalnet.Base.{
  ◌≡◌, ◌≢◌, refl, inl, inr, true, false, Option, none, some, String, List, [], ◌∷◌, subst,
  string_eq, All, Option-cases,
}
use metalnet.Base.Map
use metalnet.Base.Result.{Err, Result, ok, err, panic}
use metalnet.Base.Exec.{context, continue, ◌>>=◌}
use metalnet.Base.Sets.{insert}
use metalnet.Api.{PciAddress, pci_eq}
use metalnet.NetFns.{
  Ghw, Disk, Fault, Manager, access, next_fault, later_faults, remove_file, decode, get_claim,
  delete_claim, on_store, release, get_available, set_available, is_claim_not_found,
}

-- A failing access does not report that a claim is not found.
abbrev pub IsHonest : Option Fault → Type 0
IsHonest none = Unit
IsHonest (some f) = is_claim_not_found f.error ≡ false

honest_fault :
    (fs : List (Option Fault)) (f : Fault)
    → All IsHonest fs
    → next_fault fs ≡ some f
    → is_claim_not_found f.error ≡ false
honest_fault [] f h e = cc
honest_fault (none ∷ fs) f h e = cc
honest_fault (some g ∷ fs) f h e = subst (λ (x : Option Fault). IsHonest x) e h.0

All-later-IsHonest : (fs : List (Option Fault)) → All IsHonest fs → All IsHonest (later_faults fs)
All-later-IsHonest [] h = tt
All-later-IsHonest (f ∷ fs) h = h.1

-- An error that is not about a missing claim, under text or not, is none when it is returned.
differs :
    {A : Type 0} (x e : Err)
    → is_claim_not_found x ≡ false
    → Path (Result A) (err x) (err e)
    → is_claim_not_found e ≢ true
differs x e h k p = cc

module _ (ghw : Ghw) where
  delete_claim-unclaimed :
      (uid : String) (d : Disk) (e : Err)
      → All IsHonest d.faults
      → (delete_claim ghw false uid d).0 ≡ err e
      → is_claim_not_found e ≡ true
      → Map.lookup uid d.files ≡ none
  unfolding delete_claim get_claim remove_file access context ◌>>=◌ Map.lookup is_claim_not_found
  delete_claim-unclaimed uid d e h k p = elim (Option-cases (next_fault d.faults)) [
    | inr (f, q) ↦ absurd (differs _ e (honest_fault d.faults f h q) (rw q at k) p)
    | inl q ↦ elim (Option-cases (Map.lookup uid d.files)) [
      | inl n ↦ n
      | inr (t, n) ↦ elim (Option-cases (decode ghw false t)) [
        | inl s ↦ absurd (differs _ e refl (rw (q, n, s) at k) p)
        | inr (a, s) ↦ elim (Option-cases (next_fault (later_faults d.faults))) [
          | inl z ↦ absurd (cc (rw (q, n, s, z) at k))
          | inr (f, z) ↦ absurd (
              differs _ e (honest_fault (later_faults d.faults) f (All-later-IsHonest d.faults h) z)
                (rw (q, n, s, z) at k) p)
        ]
      ]
    ]
  ]

  -- A Release that reports a missing claim has found none.
  pub release-unclaimed :
      (uid : String) (m : Manager) (e : Err)
      → All IsHonest m.store.faults
      → (release ghw false uid m).0 ≡ err e
      → is_claim_not_found e ≡ true
      → Map.lookup uid m.store.files ≡ none
  unfolding release on_store ◌>>=◌
  release-unclaimed uid m e h k p =
      delete_claim-unclaimed uid m.store e h
        (go (delete_claim ghw false uid m.store).0 (delete_claim ghw false uid m.store).1 k) p
    where
      go :
          (x : Result PciAddress) (d : Disk)
          → (continue x
              (λ a. get_available >>= λ pool. set_available (insert a pool))
              (record m { store = d })).0
            ≡ err e
          → x ≡ err e
      go (ok a) d h = cc
      go (err x) d h = cc
      go (panic x) d h = cc
