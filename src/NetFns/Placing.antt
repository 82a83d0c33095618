-- ===== src/NetFns/Placing.antt =====
-- netfns/netfns.go: the places of the functions that GenerateVirtualFunctions returns.
use metalnet.Base.{ℕ, zero, suc, ◌/◌, ◌%◌, Option, none, some, String, List, [], ◌∷◌}
use metalnet.Base.Result.{Result, ok, panic}
use metalnet.Api.{PciAddress, pos}
use metalnet.NetFns.Collecting.{on_ok}
use metalnet.NetFns.Generating.{address_text}

abbrev pub consecutive : ℕ → ℕ → List ℕ
consecutive first zero = []
consecutive first (suc n) = first ∷ consecutive (suc first) n

-- The text of the function at a place of the bus of `base`, where eight places are a device.
abbrev pub place_text : PciAddress → ℕ → String
place_text base place = address_text base (pos (place / 8), pos (place % 8))

-- All addresses that were read, or a panic where one could not be.
abbrev pub all_read : List (Option PciAddress) → Result (List PciAddress)
all_read [] = ok []
all_read (none ∷ os) = panic "invalid memory address or nil pointer dereference"
all_read (some a ∷ os) = on_ok (all_read os) (λ addrs. ok (a ∷ addrs))
