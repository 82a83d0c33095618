-- ===== src/Interface/Applying.antt =====
-- controllers/networkinterface_controller.go: an interface that dp-service has, or that is created
-- for a function of the pool.
use Prim.Native.String.{◌++◌}
use metalnet.Base.{ℕ, Bool, true, false, not, none, [], ◌∷◌, if◌then◌else◌, string_eq}
use metalnet.Base.Result.{Result, ok, err, panic, wrap, not_found}
use metalnet.Base.Exec.{pure, raise, lift, attempt, context, ◌>>=◌, ◌>>◌}
use metalnet.Netip.{Addr}
use metalnet.Api.{
  PciAddress, State, NetworkInterface, NetworkInterfaceStatus, ipv4_protocol, ipv6_protocol,
}
use metalnet.Effects.{
  Env, M, call, deref, on_functions, patch_nic_status, get_interface, create_interface,
}
use metalnet.Wire.{Underlay}
use metalnet.NetFns.{get, get_or_claim}
use metalnet.Interface.Spec.{
  NetworkInterfaceReconciler, interface_object, get_network_interface_ip, get_network_interface_ips,
  get_interface_metering_params,
}
use metalnet.Interface.Routes.{add_interface_routes_if_not_exist}
use metalnet.Interface.Device.{convert_to_dpdk_device}

-- What applyInterface returns without an error.
pub record Applied : Type 0 where
  pub pci : PciAddress
  pub underlay : Addr
  pub is_created : Bool

-- A status with nothing but a state.
unfoldable pub bare_status : State → NetworkInterfaceStatus
bare_status s = record {
  pci_address = none;
  virtual_ip = none;
  nat_ip = none;
  prefixes = [];
  load_balancer_targets = [];
  state = s;
}

module _ (env : Env) (r : NetworkInterfaceReconciler) (nic : NetworkInterface) where
  unfoldable pub patch_status : NetworkInterfaceStatus → M (Unit {0})
  patch_status status =
      context "error patching status: " (call env (patch_nic_status (interface_object nic) status))

  -- An interface that dp-service does not have: a function is claimed and converted for it.
  unfoldable pub make_interface : ℕ → M Applied
  make_interface vni = do
    addr ←
        context "error claiming address: "
          (on_functions (get_or_claim r.ghw r.is_tap_store nic.meta.uid))
    device ←
        context ("error converting " ++ (r.ghw.to_string addr ++ " to dpdk device: "))
          (convert_to_dpdk_device r addr)
    ipv4 ← lift (get_network_interface_ip ipv4_protocol nic)
    ipv6 ← lift (get_network_interface_ip ipv6_protocol nic)
    created ← context "error creating dpdk interface: " (
        call env (
          create_interface nic.meta.uid (record {
            vni = vni;
            device = device;
            ipv4 = ipv4;
            ipv6 = ipv6;
            metering = get_interface_metering_params nic;
          })))
    underlay ← deref created.underlay_route
    add_interface_routes_if_not_exist env r vni (get_network_interface_ips nic) underlay
    pure (record { pci = addr; underlay = underlay; is_created = true })

  unfoldable pub keep_interface : ℕ → Underlay → M Applied
  keep_interface vni found = do
    addr ←
        context "error getting pci address: " (on_functions (get r.ghw r.is_tap_store nic.meta.uid))
    underlay ← deref found.underlay_route
    add_interface_routes_if_not_exist env r vni (get_network_interface_ips nic) underlay
    pure (record { pci = addr; underlay = underlay; is_created = false })

  unfoldable pub apply_found : ℕ → Result Underlay → M Applied
  apply_found vni (ok found) = keep_interface vni found
  apply_found vni (err e) =
      if not (env.is_status_error_code e (not_found ∷ []))
      then raise (wrap "error getting dpdk interface: " e)
      else make_interface vni
  apply_found vni (panic p) = λ w. (panic p, w)

  unfoldable pub apply_interface : ℕ → M Applied
  apply_interface vni = do
    found ← attempt (call env (get_interface nic.meta.uid))
    apply_found vni found
