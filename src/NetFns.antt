-- ===== src/NetFns.antt =====
-- netfns/netfns.go: the pool of PCI functions and the files that record who has claimed one.
-- `Ghw` stands for github.com/jaypipes/ghw. The operating system's part is a directory of files
-- with a schedule of faults: each access takes the next entry, and `none` is an access that works.
-- A file is named by the UID alone, since every path starts with the store's directory.
pub mod Counts
pub mod Conservation
pub mod Releasing
pub mod Honesty
pub mod Shares
pub mod Starting
pub mod Functions
pub mod Generating
pub mod Placing
pub mod Collecting
pub mod Discovery
use metalnet.Base.{
  ℕ, Bool, true, false, not, ◌&&◌, Option, none, some, String, List, [], ◌∷◌, if◌then◌else◌,
  string_eq,
}
use metalnet.Base.Map
use metalnet.Base.Map.{Map}
use metalnet.Base.Sets.{has, insert, delete, of_list}
use metalnet.Base.Result.{
  Err, Result, ok, err, panic, plain, wrap, claim_not_found, claim_already_exists,
  no_address_available,
}
use metalnet.Base.Exec.{Exec, pure, raise, attempt, context, for_each, lift, ◌>>=◌, ◌>>◌}
use metalnet.Api.{PciAddress, pci_eq}

pub record Ghw : Type 0 where
  -- PCIAddress.String and PCIAddressFromString
  pub to_string : PciAddress → String
  pub from_string : String → Option PciAddress

-- What an access that fails reports, and what it has left in the file.
pub record Fault : Type 0 where
  pub error : Err
  pub left : Option String

pub record Disk : Type 0 where
  pub files : Map String String
  pub faults : List (Option Fault)

-- Whether the next access fails.
abbrev pub next_fault : List (Option Fault) → Option Fault
next_fault [] = none
next_fault (f ∷ fs) = f

abbrev pub later_faults : List (Option Fault) → List (Option Fault)
later_faults [] = []
later_faults (f ∷ fs) = fs

unfoldable pub access : Exec Disk (Option Fault)
access d = (ok (next_fault d.faults), record d { faults = later_faults d.faults })

abbrev pub set_files : Map String String → Exec Disk (Unit {0})
set_files fs d = (ok tt, record d { files = fs })

abbrev pub read_files : Exec Disk (Map String String)
read_files d = (ok d.files, d)

-- errors.Is(err, ErrClaimNotFound)
unfoldable pub is_claim_not_found : Err → Bool
is_claim_not_found claim_not_found = true
is_claim_not_found (wrap s e) = is_claim_not_found e
is_claim_not_found _ = false

pub record Claim : Type 0 where
  pub uid : String
  pub address : PciAddress

-- os.WriteFile
unfoldable pub write_file : String → String → Exec Disk (Unit {0})
write_file name text = do
  fault ← access
  files ← read_files
  elim fault [
    | none ↦ set_files (Map.put name text files)
    | some f ↦ elim f.left [
      | none ↦ raise f.error
      | some part ↦ (do set_files (Map.put name part files); raise f.error)
    ]
  ]

-- os.Remove
unfoldable pub remove_file : String → Exec Disk (Unit {0})
remove_file name = do
  fault ← access
  files ← read_files
  elim fault [
    | some f ↦ raise f.error
    | none ↦ elim (Map.lookup name files) [
      | none ↦ raise (plain "no such file or directory")
      | some text ↦ set_files (Map.remove name files)
    ]
  ]

-- os.ReadDir
unfoldable pub read_dir : Exec Disk (List String)
read_dir = do
  fault ← access
  files ← read_files
  elim fault [ none ↦ pure (Map.keys files) | some f ↦ raise f.error ]

module _ (ghw : Ghw) (is_tap_store : Bool) where
  unfoldable pub decode : String → Option PciAddress
  decode text =
      if not is_tap_store
      then ghw.from_string text
      else some (record { domain = ""; bus = ""; device = text; function = "" })

  unfoldable pub create : String → PciAddress → Exec Disk (Unit {0})
  create uid addr = do
    fault ← access
    files ← read_files
    elim fault [
      | some f ↦ raise (wrap "error stat-ing: " f.error)
      | none ↦ elim (Map.lookup uid files) [
        | some text ↦ raise claim_already_exists
        | none ↦ write_file uid (ghw.to_string addr)
      ]
    ]

  unfoldable pub get_claim : String → Exec Disk PciAddress
  get_claim uid = do
    fault ← access
    files ← read_files
    elim fault [
      | some f ↦ raise (wrap "error reading pci address: " f.error)
      | none ↦ elim (Map.lookup uid files) [
        | none ↦ raise claim_not_found
        | some text ↦ elim (decode text) [
          | none ↦ raise (plain "invalid pci address")
          | some addr ↦ pure addr
        ]
      ]
    ]

  unfoldable pub delete_claim : String → Exec Disk PciAddress
  delete_claim uid = do
    addr ← get_claim uid
    context "error deleting pci address: " (remove_file uid)
    pure addr

  unfoldable pub delete_all : Exec Disk (Unit {0})
  delete_all = do
    names ← context "error reading dir: " read_dir
    for_each names λ name. context "error deleting claim file: " (remove_file name)

  unfoldable pub claims_of : List String → Exec Disk (List Claim)
  claims_of [] = pure []
  claims_of (uid ∷ uids) = do
    addr ← context "error getting claim: " (get_claim uid)
    rest ← claims_of uids
    pure (record { uid = uid; address = addr } ∷ rest)

  unfoldable pub list_claims : Exec Disk (List Claim)
  list_claims = do names ← context "error reading dir: " read_dir; claims_of names

pub record Manager : Type 0 where
  pub store : Disk
  pub available : List PciAddress

-- An action of the manager's store.
unfoldable pub on_store : {A : Type 0} → Exec Disk A → Exec Manager A
on_store m s = let (r, d) = m s.store in (r, record s { store = d })

abbrev pub set_available : List PciAddress → Exec Manager (Unit {0})
set_available pool s = (ok tt, record s { available = pool })

abbrev pub get_available : Exec Manager (List PciAddress)
get_available s = (ok s.available, s)

-- The addresses that are left after those of the claims.
unfoldable pub take_claimed : List Claim → List PciAddress → Result (List PciAddress)
take_claimed [] available = ok available
take_claimed (c ∷ cs) available =
    if has available c.address
    then take_claimed cs (delete c.address available)
    else err (plain "claim cannot claim non-existent address")

module _ (ghw : Ghw) (is_tap_store : Bool) where
  unfoldable pub new_manager : List PciAddress → Exec Disk Manager
  new_manager initially d =
      let (r, d') =
        (do
          claims ← context "error listing claims: " (list_claims ghw is_tap_store)
          lift (take_claimed claims (of_list initially)))
          d in
      elim r [
        | ok available ↦ (ok (record { store = d'; available = available }), d')
        | err e ↦ (err e, d')
        | panic p ↦ (panic p, d')
      ]

  -- Create with the address that was taken; it goes back if that fails.
  unfoldable pub create_or_return : String → PciAddress → Exec Manager PciAddress
  create_or_return uid addr = do
    created ← attempt (on_store (create ghw is_tap_store uid addr))
    elim created [
      | ok _ ↦ pure addr
      | err e ↦ (do available ← get_available; set_available (insert addr available); raise e)
      | panic p ↦ (λ s. (panic p, s))
    ]

  -- PopAny takes some element: the first, in an order that is not known.
  unfoldable pub claim_any : String → List PciAddress → Exec Manager PciAddress
  claim_any uid [] = raise no_address_available
  claim_any uid (addr ∷ rest) = set_available rest >> create_or_return uid addr

  unfoldable pub get_or_claim : String → Exec Manager PciAddress
  get_or_claim uid = do
    found ← attempt (on_store (get_claim ghw is_tap_store uid))
    elim found [
      | ok addr ↦ pure addr
      | err e ↦
          if is_claim_not_found e
          then (do available ← get_available; claim_any uid available)
          else raise (wrap "error getting claim: " e)
      | panic p ↦ (λ s. (panic p, s))
    ]

  unfoldable pub get : String → Exec Manager PciAddress
  get uid = on_store (get_claim ghw is_tap_store uid)

  unfoldable pub release : String → Exec Manager (Unit {0})
  release uid = do
    addr ← on_store (delete_claim ghw is_tap_store uid)
    available ← get_available
    set_available (insert addr available)

  unfoldable pub release_all : Exec Manager (Unit {0})
  release_all = on_store (delete_all ghw is_tap_store)
