-- ===== src/Interface/Device.antt =====
-- controllers/networkinterface_controller.go: the name by which dp-service knows a device. The text
-- of the error of strconv.ParseUint is shortened.
use Prim.Native.Char.{code}
use Prim.Native.String.{◌++◌}
use metalnet.Base.{
  ℕ, ◌+◌, ◌-◌, ◌*◌, ◌%◌, ◌^◌, ◌&&◌, Option, none, some, String, leb, ltb, if◌then◌else◌, ◌==◌,
  nat_eq,
}
use metalnet.Base.Result.{Result, ok, err, panic, plain}
use metalnet.Base.Exec.{pure, lift, attempt, context, ◌>>=◌}
use metalnet.Netip.{decimal}
use metalnet.Api.{PciAddress}
use metalnet.Effects.{M}
use metalnet.Metalbond.Errors.{contains}
use metalnet.Interface.Spec.{NetworkInterfaceReconciler}

-- The value of a digit, in any base up to 36.
unfoldable pub digit_value : ℕ → Option ℕ
digit_value c =
    if leb 48 c && leb c 57
    then some (c - 48)
    else if leb 97 c && leb c 122
    then some (c - 87)
    else if leb 65 c && leb c 90
    then some (c - 55)
    else none

-- The loop of ParseUint for 64 bits: the digits that are left, and the value so far.
unfoldable pub parse_digits : ℕ → ℕ → String → Option ℕ
parse_digits base n String.[] = some n
parse_digits base n (String.◌∷◌ c s) = elim (digit_value (code c)) [
  | none ↦ none
  | some d ↦
      let rest = parse_digits base (n * base + d) s in
      if ltb d base && ltb (n * base + d) (2 ^ 64) then rest else none
]

-- strconv.ParseUint(s, base, 64)
unfoldable pub parse_uint : ℕ → String → Result ℕ
parse_uint base String.[] = err (plain "strconv.ParseUint: invalid syntax")
parse_uint base (String.◌∷◌ c s) = elim (parse_digits base 0 (String.◌∷◌ c s)) [
  | none ↦ err (plain "strconv.ParseUint: invalid syntax")
  | some n ↦ ok n
]

-- strings.ReplaceAll(s, c, "") for the character with this code
unfoldable pub without : ℕ → String → String
without k String.[] = String.[]
without k (String.◌∷◌ c s) =
    let rest = without k s in if code c == k then rest else String.◌∷◌ c rest

-- uint64(a) - uint64(b)
unfoldable pub minus_u64 : ℕ → ℕ → ℕ
minus_u64 a b = (a + (2 ^ 64 - b % 2 ^ 64)) % 2 ^ 64

module _ (r : NetworkInterfaceReconciler) where
  -- The name from the physical function that sysfs has, or from the configured offset.
  unfoldable pub representor : PciAddress → ℕ → Result String → M String
  representor addr function (ok device) = do
    physfn ← context "error getting sysfs physfn: " (lift (r.sysfs.physfn device))
    physical ← context "error getting physfn details: " (lift (r.sysfs.address physfn))
    sriov ← context "error getting sysfs sriov: " (lift (r.sysfs.sriov physfn))
    pure (
        physical.domain
        ++ (":"
            ++ (physical.bus
                ++ (":"
                    ++ (physical.device
                        ++ (".0_representor_vf" ++ decimal (minus_u64 function sriov.offset)))))))
  representor addr function (err e) = pure (
      addr.domain
      ++ (":"
          ++ (addr.bus
              ++ (":00.0_representor_vf" ++ decimal (minus_u64 function r.pf_to_vf_offset)))))
  representor addr function (panic p) = λ w. (panic p, w)

  unfoldable pub convert_to_dpdk_device : PciAddress → M String
  convert_to_dpdk_device addr =
      if contains addr.device "tap" then pure (without 46 (without 58 addr.device)) else do
        function ←
            context ("error parsing address function " ++ (addr.function ++ ": "))
              (lift (parse_uint 8 addr.function))
        device ←
            context ("error parsing address device " ++ (addr.device ++ ": "))
              (lift (parse_uint 16 addr.device))
        found ← attempt (lift (r.sysfs.pci_device addr))
        representor addr ((device * 8 + function) % 2 ^ 64) found
