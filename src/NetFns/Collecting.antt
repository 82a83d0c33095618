-- ===== src/NetFns/Collecting.antt =====
-- netfns/netfns.go: CollectVirtualFunctions, over the devices that ghw.PCI lists and what sysfs
-- shows of them while it runs. `is_not_exist` is errors.Is(err, os.ErrNotExist).
use Prim.Native.String.{◌++◌}
use metalnet.Base.{
  Bool, not, ◌&&◌, Option, none, some, String, List, [], ◌∷◌, if◌then◌else◌, ◌==◌, string_eq,
  nat_eq,
}
use metalnet.Base.Result.{Err, Result, ok, err, panic, wrap, wrap_error}
use metalnet.Api.{PciAddress}
use metalnet.Sysfs.{Sriov, SysFs}
use metalnet.NetFns.{Ghw}

-- What ghw knows of a device.
pub record PciDevice : Type 0 where
  pub address : String
  pub vendor_id : String
  pub class_id : String

abbrev pub mellanox_vendor_id : String
mellanox_vendor_id = "15b3"

abbrev pub network_controller_class_id : String
network_controller_class_id = "02"

-- What follows when no error was returned.
abbrev pub on_ok : {A B : Type 0} → Result A → (A → Result B) → Result B
on_ok (ok a) f = f a
on_ok (err e) f = err e
on_ok (panic p) f = panic p

abbrev pub join : {A : Type 0} → List A → List A → List A
join [] ys = ys
join (x ∷ xs) ys = x ∷ join xs ys

module _ (ghw : Ghw) (fs : SysFs) (is_not_exist : Err → Bool) where
  unfoldable pub addresses_of : List String → Result (List PciAddress)
  addresses_of [] = ok []
  addresses_of (v ∷ vs) =
      let rest = addresses_of vs in
      on_ok (wrap_error ("error getting virtual function " ++ (v ++ " address: ")) (fs.address v))
        (λ a. on_ok rest (λ addrs. ok (a ∷ addrs)))

  unfoldable pub after_sriov : PciDevice → String → Result Sriov → Result (List PciAddress)
  after_sriov dev d (ok sriov) =
      if sriov.num_vfs == 0
      then ok []
      else on_ok
          (wrap_error ("error discovering virtual functions for " ++ (dev.address ++ ": "))
            (fs.virtfns d))
          addresses_of
  after_sriov dev d (err e) =
      if not (is_not_exist e)
      then err (wrap ("error getting sriov for " ++ (dev.address ++ ": ")) e)
      else ok []
  after_sriov dev d (panic p) = panic p

  unfoldable pub after_device : PciDevice → PciAddress → Result String → Result (List PciAddress)
  after_device dev addr (ok d) = after_sriov dev d (fs.sriov d)
  after_device dev addr (err e) =
      if not (is_not_exist e)
      then err (wrap ("error looking up sysfs pci device " ++ (ghw.to_string addr ++ ": ")) e)
      else ok []
  after_device dev addr (panic p) = panic p

  unfoldable pub after_parse : PciDevice → Option PciAddress → Result (List PciAddress)
  after_parse dev (some addr) = after_device dev addr (fs.pci_device addr)
  after_parse dev none = panic "invalid memory address or nil pointer dereference"

  -- Whether the device is a network card of Mellanox.
  unfoldable pub is_card : PciDevice → Bool
  is_card dev =
      (dev.vendor_id == mellanox_vendor_id) && (dev.class_id == network_controller_class_id)

  -- The body of the loop over the devices.
  unfoldable pub functions_of : PciDevice → Result (List PciAddress)
  functions_of dev =
      if not (is_card dev) then ok [] else after_parse dev (ghw.from_string dev.address)

  unfoldable pub collect : List PciDevice → Result (List PciAddress)
  collect [] = ok []
  collect (dev ∷ devs) =
      let rest = collect devs in
      on_ok (functions_of dev) (λ addrs. on_ok rest (λ more. ok (join addrs more)))

  unfoldable pub collect_virtual_functions : Result (List PciDevice) → Result (List PciAddress)
  collect_virtual_functions pci = on_ok pci collect
