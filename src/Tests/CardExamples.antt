-- ===== src/Tests/CardExamples.antt =====
-- Examples for the discovery of virtual functions.
use metalnet.Base.{
  some, ◌≡◌, refl, ◌↔◌, inl, inr, Bool, true, List, [], ◌∷◌, if◌then◌else◌, ◌==◌, string_eq, nat_eq,
  All,
}
use metalnet.Base.Result.{Err, ok, err, plain}
use metalnet.Netip.{hexadecimal}
use metalnet.Api.{PciAddress, pos, negsuc}
use metalnet.Sysfs.{Sriov, SysFs}
use metalnet.NetFns.{Ghw}
use metalnet.NetFns.Generating.{
  atoi, unsigned, positive, negative, decimal_digits, address_text, carry, plus, bits, from_bits,
  hex, hex2,
}
use metalnet.NetFns.Collecting.{
  PciDevice, is_card, functions_of, after_parse, after_device, after_sriov, addresses_of, collect,
  collect_virtual_functions,
}
use metalnet.NetFns.Discovery.{Any, HasFunction, IsReadable, collect_virtual_functions-Finds}
use metalnet.Tests.FunctionExamples.{address, ghw}

abbrev two_functions : Sriov
two_functions = record { num_vfs = 2; total_vfs = 8; offset = 2; stride = 1 }

abbrev is_missing : Err → Bool
is_missing e = true

-- Every device but "absent" has two functions.
abbrev card_fs : SysFs
card_fs = record {
  pci_device = λ a. if a.device == "absent" then err (plain "no such directory") else ok a.device;
  physfn = λ d. err (plain "no such file");
  address = λ d. ok (address d);
  sriov = λ d. ok two_functions;
  virtfns = λ d. ok ("v0" ∷ "v1" ∷ []);
}

abbrev devices : List PciDevice
devices =
    record { address = "p0"; vendor_id = "15b3"; class_id = "02" }
    ∷ record { address = "absent"; vendor_id = "15b3"; class_id = "02" }
    ∷ record { address = "gpu"; vendor_id = "10de"; class_id = "03" }
    ∷ []

collected :
    collect_virtual_functions ghw card_fs is_missing (ok devices)
    ≡ ok (address "v0" ∷ address "v1" ∷ [])
unfolding collect_virtual_functions collect functions_of is_card after_parse after_device
    after_sriov addresses_of
collected = refl

readable : All (IsReadable ghw card_fs is_missing) devices
unfolding is_card
readable = (
  λ y. (
    address "p0",
    refl,
    inr (
      "p0",
      refl,
      inr (
        two_functions,
        refl,
        inr (
          (λ z. absurd (cc z)),
          ("v0" ∷ "v1" ∷ [], refl, ((address "v0", refl), ((address "v1", refl), tt))),
        ),
      ),
    ),
  ),
  (
    λ y. (address "absent", refl, inl (plain "no such directory", refl, refl)),
    (λ y. absurd (cc y), tt),
  ),
)

collect_virtual_functions-Finds_example :
    (addrs : List PciAddress) × (collect_virtual_functions ghw card_fs is_missing (ok devices)
      ≡ ok addrs)
    × ((a : PciAddress)
        → Any (λ x. x ≡ a) addrs ↔ Any (λ dev. HasFunction ghw card_fs is_missing dev a) devices)
collect_virtual_functions-Finds_example =
    collect_virtual_functions-Finds ghw card_fs is_missing devices readable

-- Reads every text as the physical function 0000:06:2.5.
abbrev pf_ghw : Ghw
pf_ghw = record {
  to_string = λ a. a.device;
  from_string = λ t. some (record { domain = "0000"; bus = "06"; device = "2"; function = "5" });
}

abbrev physical : PciAddress
physical = record { domain = "0000"; bus = "06"; device = "2"; function = "5" }

negative_number : atoi "-12" ≡ ok (negsuc 11)
unfolding atoi unsigned negative decimal_digits
negative_number = refl

no_number : atoi "1f" ≡ err (plain "strconv.Atoi: invalid syntax")
unfolding atoi unsigned positive decimal_digits
no_number = refl

-- Device 10 is written in base 16.
tenth : address_text physical (carry (pos 9) (plus (pos 7) (pos 2))) ≡ "0000:06:0a.1"
unfolding address_text carry plus bits from_bits hex hex2 hexadecimal
tenth = refl
