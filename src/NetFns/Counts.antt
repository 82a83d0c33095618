-- ===== src/NetFns/Counts.antt =====
-- How often an address is in the pool or in a claim file.
use metalnet.Base.{
  ℕ, ◌+◌, ◌≡◌, refl, ap, inl, inr, Bool, true, false, Option, none, some, String, List, [], ◌∷◌,
  string_eq, ◌==◌, arith, Bool-cases,
}
use text.Mathlib.TextEquality.{eq_iff}
use metalnet.Base.Map
use metalnet.Base.Map.{Map, Unique}
use metalnet.Base.Sets.{has, insert}
use metalnet.Api.{PciAddress, pci_eq}
use metalnet.NetFns.{Ghw, Fault, Manager, decode}

abbrev pub one_if : Bool → ℕ
one_if true = 1
one_if false = 0

abbrev pub count_pool : PciAddress → List PciAddress → ℕ
count_pool a [] = 0
count_pool a (b ∷ bs) = one_if (b == a) + count_pool a bs

-- A file that does not parse holds no address.
abbrev pub one_at : PciAddress → Option PciAddress → ℕ
one_at a none = 0
one_at a (some b) = one_if (b == a)

pub count_pool-insert :
    (a b : PciAddress) (bs : List PciAddress)
    → has bs b ≡ false
    → count_pool a (insert b bs) ≡ one_if (b == a) + count_pool a bs
unfolding insert
count_pool-insert a b bs h = rw h

pub has-count_pool :
    (a : PciAddress) (bs : List PciAddress) → count_pool a bs ≡ 0 → has bs a ≡ false
unfolding has
has-count_pool a [] h = refl
has-count_pool a (b ∷ bs) h = elim (Bool-cases (b == a)) [
  | inl e ↦ absurd (omega (arith, ap one_if e, h))
  | inr e ↦ rw e (has-count_pool a bs (omega (arith, ap one_if e, h)))
]

module _ (ghw : Ghw) where
  abbrev pub count_files : PciAddress → Map String String → ℕ
  count_files a [] = 0
  count_files a ((uid, text) ∷ m) = one_at a (decode ghw false text) + count_files a m

  pub count_files-put :
      (a : PciAddress) (uid text : String) (m : Map String String)
      → Map.lookup uid m ≡ none
      → count_files a (Map.put uid text m) ≡ one_at a (decode ghw false text) + count_files a m
  unfolding Map.lookup Map.put
  count_files-put a uid text [] h = refl
  count_files-put a uid text ((k, t) ∷ m) h = elim (Bool-cases (k == uid)) [
    | inl e ↦ cc (rw e at h)
    | inr e ↦ rw e (omega (arith, count_files-put a uid text m (rw e at h)))
  ]

  count_files-remove_absent :
      (a : PciAddress) (uid : String) (m : Map String String)
      → has (Map.keys m) uid ≡ false
      → count_files a (Map.remove uid m) ≡ count_files a m
  unfolding Map.remove has
  count_files-remove_absent a uid [] h = refl
  count_files-remove_absent a uid ((k, t) ∷ m) h = ground (arith, count_files-remove_absent a uid m)

  pub count_files-remove :
      (a : PciAddress) (uid text : String) (m : Map String String)
      → Unique m
      → Map.lookup uid m ≡ some text
      → count_files a m ≡ one_at a (decode ghw false text) + count_files a (Map.remove uid m)
  unfolding Map.lookup Map.remove
  count_files-remove a uid text [] u h = cc
  count_files-remove a uid text ((k, t) ∷ m) u h = elim (Bool-cases (k == uid)) [
    | inl e ↦ rw e (ground (arith, eq_iff k uid, count_files-remove_absent a uid m, u.0))
    | inr e ↦ rw e (omega (arith, count_files-remove a uid text m u.1 (rw e at h)))
  ]

  -- In the pool or claimed.
  abbrev pub held : PciAddress → Manager → ℕ
  held a m = count_pool a m.available + count_files a m.store.files

-- A write that fails leaves nothing in the file.
abbrev pub IsClean : Option Fault → Type 0
IsClean none = Unit
IsClean (some f) = f.left ≡ none
