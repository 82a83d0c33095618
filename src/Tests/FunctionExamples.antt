-- ===== src/Tests/FunctionExamples.antt =====
-- Examples for the pool of functions.
use metalnet.Base.{
  ◌≡◌, refl, ◌⊎◌, false, none, some, String, [], ◌∷◌, string_eq, ◌≤◌, arith, ◌==◌, Bool-cases,
  beq-eq, subst, inl, inr,
}
use metalnet.Base.Map.{lookup}
use metalnet.Base.Sets.{insert, has, delete, of_list}
use metalnet.Base.Result.{Err, ok, err, plain}
use metalnet.Api.{PciAddress, pci_eq, pci_beq}
use metalnet.NetFns.{
  Ghw, Disk, new_manager, list_claims, claims_of, get_claim, access, read_dir, take_claimed,
  Manager, decode, get_or_claim, release,
}
use metalnet.NetFns.Counts.{held}
use metalnet.NetFns.Conservation.{IsSound, Conserved, Outcome, get_or_claim-Outcome}
use metalnet.Base.Exec.{context, ◌>>=◌}
use metalnet.NetFns.Starting.{Started, new_manager-Started}
use metalnet.NetFns.Releasing.{release-Conserved}

-- An address of one part.
abbrev pub address : String → PciAddress
address s = record { domain = ""; bus = ""; device = s; function = "" }

abbrev pub ghw : Ghw
ghw = record { to_string = λ a. a.device; from_string = λ t. some (address t) }

-- One function is free, one is claimed by "u1", and the second access to come fails.
abbrev pub manager : Manager
manager = record {
  store = record {
    files = ("u1", "a") ∷ [];
    faults = none ∷ some (record { error = plain "disk"; left = none }) ∷ [];
  };
  available = address "b" ∷ [];
}

exclusive_pool : (a : PciAddress) → held ghw a manager ≤ 1
unfolding pci_beq decode
exclusive_pool a = elim (Bool-cases (address "b" == a)) [
  | inr p ↦ rw p (elim (Bool-cases (address "a" == a)) [
    | inl q ↦ rw q (omega arith)
    | inr q ↦ rw q (omega arith)
  ])
  | inl p ↦
      let q : (address "a" == a) ≡ false = rw (← beq-eq (address "b") a p) refl in
      rw (p, q) (omega arith)
]

pub manager-IsSound : IsSound ghw manager
unfolding decode has
manager-IsSound = record {
  exclusive = exclusive_pool;
  one_file = (refl, tt);
  readable = (refl, tt);
  clean = (tt, (refl, tt));
}

get_or_claim-Outcome_example : Outcome ghw "u2" manager (get_or_claim ghw false "u2" manager)
get_or_claim-Outcome_example = get_or_claim-Outcome ghw "u2" manager manager-IsSound

pub reads_back :
    (t : String) (a : PciAddress)
    → ghw.from_string t ≡ some a
    → ghw.from_string (ghw.to_string a) ≡ some a
reads_back t a h =
    let q : address t ≡ a = ground arith in
    subst (λ x. ghw.from_string (ghw.to_string x) ≡ some x) q refl

release-Conserved_example :
    let (r, m') = release ghw false "u1" manager in
    Conserved ghw manager m'
    × (((r ≡ ok tt)
          × (lookup "u1" m'.store.files ≡ none)
          × ((a : PciAddress) × (t : String) × (lookup "u1" manager.store.files ≡ some t)
              × (decode ghw false t ≡ some a)
              × (m'.available ≡ insert a manager.available)))
        ⊎ ((e : Err) × (r ≡ err e)
            × (m'.store.files ≡ manager.store.files)
            × (m'.available ≡ manager.available)))
release-Conserved_example = release-Conserved ghw reads_back "u1" manager manager-IsSound

-- The directory of the pool, and a first access that works.
abbrev started_disk : Disk
started_disk = record { files = ("u1", "a") ∷ []; faults = none ∷ [] }

abbrev manager_after : Manager
manager_after = record {
  store = record { files = ("u1", "a") ∷ []; faults = [] };
  available = address "b" ∷ [];
}

starts : (new_manager ghw false (address "a" ∷ address "b" ∷ []) started_disk).0 ≡ ok manager_after
unfolding new_manager list_claims claims_of get_claim access read_dir decode take_claimed has delete
    of_list insert pci_beq lookup context ◌>>=◌
starts = refl

new_manager-Started_example : Started ghw (address "a" ∷ address "b" ∷ []) manager_after
new_manager-Started_example =
    new_manager-Started ghw (address "a" ∷ address "b" ∷ []) started_disk manager_after
      manager-IsSound.one_file (tt, tt) (refl, (refl, tt)) starts
