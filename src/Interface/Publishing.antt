-- ===== src/Interface/Publishing.antt =====
-- What the reconciler writes into the status of an interface.
use metalnet.Base.{◌≡◌, true, some}
use metalnet.Base.Result.{Err, Result, err}
use metalnet.Api.{PciAddress, Network, NetworkInterface, NetworkInterfaceStatus, ready, pending}
use metalnet.Effects.{Env, Call, World, ensure_finalizer, patch_nic_status}
use metalnet.Effects.Traces.{newest}
use metalnet.Interface.Spec.{
  NetworkInterfaceReconciler, network_interface_finalizer, interface_object,
}
use metalnet.Interface.Applying.{bare_status}
use metalnet.Interface.Control.{shown_address}

module _ (env : Env) (r : NetworkInterfaceReconciler) (nic : NetworkInterface) where
  abbrev pub patch : NetworkInterfaceStatus → Call
  patch s = patch_nic_status (interface_object nic) s

  -- The status says of every part what the specification says.
  abbrev pub IsPublished : NetworkInterfaceStatus → Type 0
  IsPublished s =
      (s.state ≡ ready)
      × (s.virtual_ip ≡ nic.spec.virtual_ip)
      × (s.nat_ip ≡ nic.spec.nat)
      × (s.prefixes ≡ nic.spec.prefixes)
      × (s.load_balancer_targets ≡ nic.spec.load_balancer_targets)
      × ((a : PciAddress) × (s.pci_address ≡ some (shown_address env r nic a)))

  -- The newest call published the specification.
  abbrev pub Published : World → Type 0
  Published w = (s : NetworkInterfaceStatus) × (newest w.trace ≡ some (patch s)) × IsPublished s

  -- The network is not there, and the newest call says that the interface is pending.
  abbrev pub IsPending : Result Network → World → Type 0
  IsPending x w =
      (newest w.trace ≡ some (patch (bare_status pending)))
      × ((e : Err) × (x ≡ err e) × (env.is_not_found e ≡ true))

  abbrev pub ensure : Call
  ensure = ensure_finalizer (interface_object nic) network_interface_finalizer
