-- ===== src/NetFns/Functions.antt =====
-- netfns/netfns.go: CollectTAPFunctions, and the numbers that GenerateVirtualFunctions computes from
-- numbers that are not negative, before it prints them.
use metalnet.Base.{ℕ, ◌+◌, ◌/◌, ◌%◌, List, map, String, ltb, if◌then◌else◌}
use metalnet.Api.{PciAddress}

unfoldable pub collect_tap_functions : List String → List PciAddress
collect_tap_functions devices =
    map (λ device. record { domain = ""; bus = ""; device = device; function = "" }) devices

-- The device and the function at `i` functions after those of the base.
unfoldable pub virtual_function : ℕ → ℕ → ℕ → ℕ × ℕ
virtual_function base_device base_function i =
    let function = base_function + i in
    if ltb 0x7 function
    then (base_device + function / 0x8, function % 0x8)
    else (base_device, function)
