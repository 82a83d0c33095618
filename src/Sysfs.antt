-- ===== src/Sysfs.antt =====
-- sysfs/sysfs.go: the PCI devices that the kernel shows under /sys.
use metalnet.Base.{ℕ, String, List}
use metalnet.Base.Result.{Result}
use metalnet.Api.{PciAddress}

pub record Sriov : Type 0 where
  pub num_vfs : ℕ
  pub total_vfs : ℕ
  pub offset : ℕ
  pub stride : ℕ

-- The methods of FS and of PCIDevice, which is a path, that the controllers call.
pub record SysFs : Type 0 where
  pub pci_device : PciAddress → Result String
  pub physfn : String → Result String
  pub address : String → Result PciAddress
  pub sriov : String → Result Sriov
  pub virtfns : String → Result (List String)
