-- ===== src/Interface/Routes.antt =====
-- controllers/networkinterface_controller.go: the routes of interfaces, virtual addresses, alias
-- prefixes and load balancer targets. Each pair adds and removes one destination and next hop.
use Prim.Native.String.{◌++◌}
use metalnet.Base.{ℕ, List, if◌then◌else◌}
use metalnet.Base.Exec.{pure, context, for_each, ◌>>◌}
use metalnet.Netip.{Addr, Prefix, addr_string, is6}
use metalnet.Effects.{Env, M, u32}
use metalnet.Wire.{HopType, standard, loadbalancer_target, NextHop}
use metalnet.Metalbond.Errors.{
  unless_ignored, ignore_next_hop_not_found_error, ignore_next_hop_already_exists_error,
}
use metalnet.Metalbond.RouteUtil.{announce, withdraw}
use metalnet.LoadBalancer.{net_ip_addr_prefix}
use metalnet.Interface.Spec.{NetworkInterfaceReconciler}

unfoldable pub plain_hop : HopType → Addr → NextHop
plain_hop t underlay = record {
  target_address = underlay;
  target_vni = 0;
  hop_type = t;
  nat_port_range_from = 0;
  nat_port_range_to = 0;
}

module _ (env : Env) (r : NetworkInterfaceReconciler) where
  unfoldable pub remove_virtual_ip_route_if_exists : Addr → Addr → M (Unit {0})
  remove_virtual_ip_route_if_exists ip underlay =
      unless_ignored ignore_next_hop_not_found_error "error removing metalbond route: "
        (withdraw env (u32 r.public_vni) (net_ip_addr_prefix ip) (plain_hop standard underlay))

  unfoldable pub add_virtual_ip_route_if_not_exists : Addr → Addr → M (Unit {0})
  add_virtual_ip_route_if_not_exists ip underlay =
      unless_ignored ignore_next_hop_already_exists_error "error adding metalbond route: "
        (announce env (u32 r.public_vni) (net_ip_addr_prefix ip) (plain_hop standard underlay))

  unfoldable pub add_interface_route_if_not_exists : ℕ → Addr → Addr → M (Unit {0})
  add_interface_route_if_not_exists vni ip underlay =
      unless_ignored ignore_next_hop_already_exists_error "error adding interface route: "
        (announce env vni (net_ip_addr_prefix ip) (plain_hop env.zero_hop_type underlay))

  -- The body of the loop of addInterfaceRoutesIfNotExist.
  unfoldable pub add_address_routes : ℕ → Addr → Addr → M (Unit {0})
  add_address_routes vni underlay ip = do
    context ("[local address " ++ (addr_string ip ++ "] "))
        (add_interface_route_if_not_exists vni ip underlay)
    if is6 ip then add_virtual_ip_route_if_not_exists ip underlay else pure tt

  unfoldable pub add_interface_routes_if_not_exist : ℕ → List Addr → Addr → M (Unit {0})
  add_interface_routes_if_not_exist vni ips underlay =
      for_each ips (add_address_routes vni underlay)

  unfoldable pub remove_interface_route_if_exists : ℕ → Addr → Addr → M (Unit {0})
  remove_interface_route_if_exists vni ip underlay =
      unless_ignored ignore_next_hop_not_found_error "error removing interface route: "
        (withdraw env vni (net_ip_addr_prefix ip) (plain_hop env.zero_hop_type underlay))

  -- The body of the loop of removeInterfaceRoutesIfExist.
  unfoldable pub remove_address_routes : ℕ → Addr → Addr → M (Unit {0})
  remove_address_routes vni underlay ip = do
    context ("[local address " ++ (addr_string ip ++ "] "))
        (remove_interface_route_if_exists vni ip underlay)
    if is6 ip then remove_virtual_ip_route_if_exists ip underlay else pure tt

  unfoldable pub remove_interface_routes_if_exist : ℕ → List Addr → Addr → M (Unit {0})
  remove_interface_routes_if_exist vni ips underlay =
      for_each ips (remove_address_routes vni underlay)

  unfoldable pub add_prefix_route_if_not_exists : ℕ → Prefix → Addr → M (Unit {0})
  add_prefix_route_if_not_exists vni prefix underlay =
      unless_ignored ignore_next_hop_already_exists_error "error adding prefix route: "
        (announce env vni prefix (plain_hop standard underlay))

  unfoldable pub remove_prefix_route_if_exists : ℕ → Prefix → Addr → M (Unit {0})
  remove_prefix_route_if_exists vni prefix underlay =
      unless_ignored ignore_next_hop_not_found_error "error removing prefix route: "
        (withdraw env vni prefix (plain_hop standard underlay))

  unfoldable pub add_lb_target_route_if_not_exists : ℕ → Prefix → Addr → M (Unit {0})
  add_lb_target_route_if_not_exists vni prefix underlay =
      unless_ignored ignore_next_hop_already_exists_error "error adding lb target route: "
        (announce env vni prefix (plain_hop loadbalancer_target underlay))

  unfoldable pub remove_lb_target_route_if_exists : ℕ → Prefix → Addr → M (Unit {0})
  remove_lb_target_route_if_exists vni prefix underlay =
      unless_ignored ignore_next_hop_not_found_error "error removing prefix route: "
        (withdraw env vni prefix (plain_hop loadbalancer_target underlay))
