-- ===== src/Interface/Nat.antt =====
-- controllers/networkinterface_controller.go: the NAT address and the virtual address of an
-- interface, each brought from what dp-service holds to what the specification asks for.
use metalnet.Base.{
  ℕ, ◌%◌, ◌^◌, Bool, not, ◌&&◌, none, some, String, [], ◌∷◌, if◌then◌else◌, ◌==◌, nat_eq,
}
use metalnet.Base.Result.{Result, ok, err, panic, wrap, no_vm, snat_no_data}
use metalnet.Base.Exec.{pure, raise, attempt, context, ◌>>=◌, ◌>>◌}
use metalnet.Netip.{Addr, addr_eq}
use metalnet.Api.{NatDetails, NetworkInterface}
use metalnet.Effects.{
  Env, M, call, deref, u32, get_nat, create_nat, delete_nat, get_virtual_ip, create_virtual_ip,
  delete_virtual_ip,
}
use metalnet.Wire.{DpdkNat, DpdkVirtualIp, NextHop, standard, nat}
use metalnet.Metalbond.Errors.{
  unless_ignored, ignore_next_hop_not_found_error, ignore_next_hop_already_exists_error,
}
use metalnet.Metalbond.RouteUtil.{announce, withdraw}
use metalnet.LoadBalancer.{net_ip_addr_prefix}
use metalnet.Interface.Spec.{NetworkInterfaceReconciler}
use metalnet.Interface.Routes.{
  plain_hop, add_virtual_ip_route_if_not_exists, remove_virtual_ip_route_if_exists,
}

-- uint16(n)
abbrev pub u16 : ℕ → ℕ
u16 n = n % 2 ^ 16

unfoldable pub nat_hop : DpdkNat → Addr → NextHop
nat_hop n underlay = record {
  target_address = underlay;
  target_vni = 0;
  hop_type = nat;
  nat_port_range_from = u16 n.min_port;
  nat_port_range_to = u16 n.max_port;
}

module _ (env : Env) (r : NetworkInterfaceReconciler) where
  unfoldable pub remove_nat_ip_route_if_exists : DpdkNat → Addr → ℕ → M (Unit {0})
  remove_nat_ip_route_if_exists n underlay vni = do
    ip ← deref n.nat_ip
    unless_ignored ignore_next_hop_not_found_error "error removing metalbond route: "
        (withdraw env (u32 r.public_vni) (net_ip_addr_prefix ip) (plain_hop standard underlay))
    unless_ignored ignore_next_hop_not_found_error "error removing metalbond route: "
        (withdraw env vni (net_ip_addr_prefix ip) (nat_hop n underlay))

  unfoldable pub add_nat_ip_route_if_not_exists : DpdkNat → Addr → ℕ → M (Unit {0})
  add_nat_ip_route_if_not_exists n underlay vni = do
    ip ← deref n.nat_ip
    unless_ignored ignore_next_hop_already_exists_error "error adding metalbond route: "
        (announce env (u32 r.public_vni) (net_ip_addr_prefix ip) (plain_hop standard underlay))
    unless_ignored ignore_next_hop_already_exists_error "error adding metalbond route: "
        (announce env vni (net_ip_addr_prefix ip) (nat_hop n underlay))

  unfoldable pub delete_dpdk_nat_ip_if_exists : String → M (Unit {0})
  delete_dpdk_nat_ip_if_exists uid =
      context "error deleting dpdk nat ip: " (call env (delete_nat uid (no_vm ∷ [])))

  unfoldable pub delete_dpdk_virtual_ip_if_exists : String → M (Unit {0})
  delete_dpdk_virtual_ip_if_exists uid =
      context "error deleting dpdk virtual ip: " (call env (delete_virtual_ip uid (no_vm ∷ [])))

  unfoldable pub delete_existing_nat_ip : String → DpdkNat → Addr → ℕ → M (Unit {0})
  delete_existing_nat_ip uid n underlay vni = do
    remove_nat_ip_route_if_exists n underlay vni
    delete_dpdk_nat_ip_if_exists uid

  unfoldable pub create_nat_ip : String → NatDetails → Addr → ℕ → M (Unit {0})
  create_nat_ip uid details ip vni = do
    created ←
        context "error creating dpdk nat ip: "
          (call env (create_nat uid ip (u32 details.port) (u32 details.end_port)))
    underlay ← deref created.underlay_route
    add_nat_ip_route_if_not_exists created underlay vni

  -- Whether dp-service holds what the specification asks for.
  unfoldable pub is_nat_current : DpdkNat → Addr → NatDetails → Addr → Bool
  is_nat_current n existing details ip =
      (existing == ip) && ((n.min_port == u32 details.port) && (n.max_port == u32 details.end_port))

  unfoldable pub apply_found_nat : String → NatDetails → Addr → ℕ → Result DpdkNat → M (Unit {0})
  apply_found_nat uid details ip vni (ok found) = do
    existing ← deref found.nat_ip
    underlay ← deref found.underlay_route
    if is_nat_current found existing details ip
        then add_nat_ip_route_if_not_exists found underlay vni
        else (do delete_existing_nat_ip uid found underlay vni; create_nat_ip uid details ip vni)
  apply_found_nat uid details ip vni (err e) =
      if not (env.is_status_error_code e (no_vm ∷ snat_no_data ∷ []))
      then raise (wrap "error getting dpdk nat ip: " e)
      else create_nat_ip uid details ip vni
  apply_found_nat uid details ip vni (panic p) = λ w. (panic p, w)

  unfoldable pub apply_nat_ip : String → NatDetails → Addr → ℕ → M (Unit {0})
  apply_nat_ip uid details ip vni = do
    found ← attempt (call env (get_nat uid))
    apply_found_nat uid details ip vni found

  unfoldable pub delete_found_nat : String → ℕ → Result DpdkNat → M (Unit {0})
  delete_found_nat uid vni (ok found) = do
    underlay ← deref found.underlay_route
    delete_existing_nat_ip uid found underlay vni
  delete_found_nat uid vni (err e) =
      if not (env.is_status_error_code e (no_vm ∷ snat_no_data ∷ []))
      then raise (wrap "error getting dpdk nat ip: " e)
      else pure tt
  delete_found_nat uid vni (panic p) = λ w. (panic p, w)

  unfoldable pub delete_nat_ip : String → ℕ → M (Unit {0})
  delete_nat_ip uid vni = do
    found ← attempt (call env (get_nat uid))
    delete_found_nat uid vni found

  unfoldable pub reconcile_nat_ip : NetworkInterface → ℕ → M (Unit {0})
  reconcile_nat_ip nic vni = elim nic.spec.nat [
    | none ↦ delete_nat_ip nic.meta.uid vni
    | some details ↦ elim details.ip [
      | none ↦ delete_nat_ip nic.meta.uid vni
      | some ip ↦ apply_nat_ip nic.meta.uid details ip vni
    ]
  ]

  unfoldable pub delete_existing_virtual_ip : String → Addr → Addr → M (Unit {0})
  delete_existing_virtual_ip uid ip underlay = do
    remove_virtual_ip_route_if_exists env r ip underlay
    delete_dpdk_virtual_ip_if_exists uid

  unfoldable pub make_virtual_ip : String → Addr → M (Unit {0})
  make_virtual_ip uid ip = do
    created ← context "error creating dpdk virtual ip: " (call env (create_virtual_ip uid ip))
    underlay ← deref created.underlay_route
    add_virtual_ip_route_if_not_exists env r ip underlay

  unfoldable pub apply_found_virtual_ip : String → Addr → Result DpdkVirtualIp → M (Unit {0})
  apply_found_virtual_ip uid ip (ok found) = do
    existing ← deref found.ip
    underlay ← deref found.underlay_route
    if existing == ip
        then add_virtual_ip_route_if_not_exists env r ip underlay
        else (do delete_existing_virtual_ip uid existing underlay; make_virtual_ip uid ip)
  apply_found_virtual_ip uid ip (err e) =
      if not (env.is_status_error_code e (no_vm ∷ snat_no_data ∷ []))
      then raise (wrap "error getting dpdk virtual ip: " e)
      else make_virtual_ip uid ip
  apply_found_virtual_ip uid ip (panic p) = λ w. (panic p, w)

  unfoldable pub apply_virtual_ip : String → Addr → M (Unit {0})
  apply_virtual_ip uid ip = do
    found ← attempt (call env (get_virtual_ip uid))
    apply_found_virtual_ip uid ip found

  unfoldable pub delete_found_virtual_ip : String → Result DpdkVirtualIp → M (Unit {0})
  delete_found_virtual_ip uid (ok found) = do
    ip ← deref found.ip
    underlay ← deref found.underlay_route
    delete_existing_virtual_ip uid ip underlay
  delete_found_virtual_ip uid (err e) =
      if not (env.is_status_error_code e (no_vm ∷ snat_no_data ∷ []))
      then raise (wrap "error getting dpdk virtual ip: " e)
      else pure tt
  delete_found_virtual_ip uid (panic p) = λ w. (panic p, w)

  unfoldable pub drop_virtual_ip : String → M (Unit {0})
  drop_virtual_ip uid = do
    found ← attempt (call env (get_virtual_ip uid))
    delete_found_virtual_ip uid found

  unfoldable pub reconcile_virtual_ip : NetworkInterface → M (Unit {0})
  reconcile_virtual_ip nic = elim nic.spec.virtual_ip [
    | none ↦ drop_virtual_ip nic.meta.uid
    | some ip ↦ apply_virtual_ip nic.meta.uid ip
  ]
