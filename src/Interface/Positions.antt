-- ===== src/Interface/Positions.antt =====
-- The numbers of virtual functions, from netfns/netfns.go to the name that dp-service is given.
use Prim.Native.String.{◌++◌}
use metalnet.Base.{ℕ, ◌+◌, ◌*◌, ◌%◌, ◌^◌, ◌<◌, ◌≡◌, refl, false, arith}
use metalnet.Base.Result.{Err, ok, err}
use metalnet.Base.Exec.{attempt, context, ◌>>=◌}
use metalnet.Netip.{decimal}
use metalnet.Api.{PciAddress}
use metalnet.Effects.{World}
use metalnet.Metalbond.Errors.{contains}
use metalnet.NetFns.Functions.{virtual_function}
use metalnet.Interface.Spec.{NetworkInterfaceReconciler}
use metalnet.Interface.Device.{parse_uint, minus_u64, representor, convert_to_dpdk_device}

position-index :
    (d f i offset : ℕ)
    → d * 8 + (f + (offset + i)) < 2 ^ 64
    → let (device, function) = virtual_function d f (offset + i) in
      minus_u64 ((device * 8 + function) % 2 ^ 64) offset ≡ d * 8 + (f + i)
unfolding virtual_function minus_u64
position-index d f i offset h = ground (arith, h)

-- Without a device in sysfs, and with the offset that the virtual functions were numbered from, the
-- address of virtual function `i` of the base device `d` and function `f` is converted to the
-- representor of number `d * 8 + (f + i)`: the offset and the carry from the function to the device
-- cancel out, within 64 bits. For a base at device 0 and function 0 that is `i` itself.
pub convert_to_dpdk_device-index :
    (r : NetworkInterfaceReconciler) (addr : PciAddress) (e : Err) (d f i : ℕ) (w : World)
    → contains addr.device "tap" ≡ false
    → parse_uint 16 addr.device ≡ ok (virtual_function d f (r.pf_to_vf_offset + i)).0
    → parse_uint 8 addr.function ≡ ok (virtual_function d f (r.pf_to_vf_offset + i)).1
    → r.sysfs.pci_device addr ≡ err e
    → d * 8 + (f + (r.pf_to_vf_offset + i)) < 2 ^ 64
    → convert_to_dpdk_device r addr w ≡ (
      ok (
          addr.domain
          ++ (":" ++ (addr.bus ++ (":00.0_representor_vf" ++ decimal (d * 8 + (f + i)))))),
      w,
    )
unfolding convert_to_dpdk_device representor context attempt ◌>>=◌
convert_to_dpdk_device-index r addr e d f i w t p q s h =
    simp (t, q, p, s, position-index d f i r.pf_to_vf_offset h) refl
