-- ===== src/Tests/WillingExamples.antt =====
-- An example in surroundings where no call fails.
use metalnet.Base.{◌⊎◌, not, ◌&&◌, ◌≡◌, refl, Bool, true, false, none, some, [], ◌∷◌}
use metalnet.Base.Result.{ok}
use metalnet.Netip.{is6, is_valid, ip6}
use metalnet.Api.{NetworkInterface, no_state}
use metalnet.Effects.{
  get_interface, create_interface, list_firewall_rules, call, on_cache, deref, Env, Call, Reply,
  gives, get_network, get_load_balancer_object, get_network_interface_object, ensure_finalizer,
  get_vni, list_routes, get_load_balancer, create_load_balancer, get_nat, create_nat,
  get_virtual_ip, create_virtual_ip, list_prefixes, list_lb_prefixes, create_prefix,
  create_lb_prefix,
}
use metalnet.Effects.Returning.{IsWilling}
use metalnet.Network.{reconcile_request}
use metalnet.Base.Exec.{attempt, context, ◌>>=◌}
use metalnet.Metalbond.Errors.{
  unless_ignored, ignore_next_hop_already_exists_error, is_next_hop_already_exists_error,
}
use metalnet.Metalbond.RouteUtil.{announce}
use metalnet.LoadBalancer.{
  reconcile, after_network, apply_load_balancer, apply_found, register,
  add_load_balancer_route_if_not_exists, after_apply, patch_status,
}
use metalnet.LoadBalancer.Reporting.{ensure, Reported, reconcile-reports}
use metalnet.Network.Progress.{reconcile_request-returns}
use metalnet.Wire.{DpdkNat, DpdkVirtualIp, DpdkPrefix, Underlay}
use metalnet.Tests.{env, network, balancer, balancers, networks, world, listed_routes, hosts}

abbrev interface : NetworkInterface
interface = record {
  meta = network.meta;
  spec = record {
    network_ref = "net";
    ip_families = [];
    ips = [];
    virtual_ip = none;
    prefixes = [];
    load_balancer_targets = [];
    nat = none;
    node_name = some "a";
    firewall_rules = [];
    metering_rate = none;
  };
  status = record {
    pci_address = none;
    virtual_ip = none;
    nat_ip = none;
    prefixes = [];
    load_balancer_targets = [];
    state = no_state;
  };
}

abbrev underlay : Underlay
underlay = record { vni = 7; underlay_route = some (ip6 5 "") }

abbrev nat : DpdkNat
nat = record { nat_ip = none; min_port = 1; max_port = 2; underlay_route = none }

abbrev virtual_ip : DpdkVirtualIp
virtual_ip = record { ip = none; underlay_route = none }

abbrev a_prefix : DpdkPrefix
a_prefix = record { prefix = hosts; underlay_route = none }

abbrev reply : (c : Call) → Reply c
reply (get_network k) = network
reply (get_load_balancer_object k) = balancer
reply (get_network_interface_object k) = interface
reply (ensure_finalizer o f) = false
reply (get_vni v t) = true
reply (list_routes v) = listed_routes
reply (get_load_balancer u) = underlay
reply (create_load_balancer u v a ps) = underlay
reply (get_nat u) = nat
reply (create_nat u a p q) = nat
reply (get_virtual_ip u) = virtual_ip
reply (create_virtual_ip u a) = virtual_ip
reply (list_prefixes u) = a_prefix ∷ []
reply (list_lb_prefixes u) = a_prefix ∷ []
reply (create_prefix u p) = a_prefix
reply (create_lb_prefix u p) = a_prefix
reply (get_interface u) = underlay
reply (create_interface u s) = underlay
reply (list_firewall_rules u) = "r1" ∷ []
reply _ = tt

abbrev willing : Env
willing = record env { answer = λ t c. gives (reply c) }

willing-IsWilling : IsWilling willing
willing-IsWilling t c = (reply c, refl)

valid : is_valid world.router.router_address ≡ true
unfolding is_valid
valid = refl

reconcile_request-returns_example :
    (b : Bool) × ((reconcile_request willing networks
        (record { key_namespace = "ns"; key_name = "net" })
        world).0
      ≡ ok b)
reconcile_request-returns_example =
    reconcile_request-returns willing networks (record { key_namespace = "ns"; key_name = "net" })
      world willing-IsWilling valid

reports : (reconcile willing balancers balancer world).0 ≡ ok false
unfolding reconcile after_network apply_load_balancer apply_found register
    add_load_balancer_route_if_not_exists after_apply patch_status unless_ignored announce attempt
    context ◌>>=◌ call on_cache deref is6 ignore_next_hop_already_exists_error
    is_next_hop_already_exists_error
reports = refl

reconcile-reports_example :
    let w' = (reconcile willing balancers balancer world).1 in
    ((false ≡ true) × (willing.answer world.trace (ensure willing balancers balancer) ≡ gives true))
    ⊎ ((false ≡ false)
        × (willing.answer world.trace (ensure willing balancers balancer) ≡ gives false)
        × ((not balancers.enable_ipv6_support && is6 balancer.spec.ip) ≡ false)
        × Reported willing balancers balancer
            (call willing (ensure willing balancers balancer) world).1
            w')
reconcile-reports_example = reconcile-reports willing balancers balancer world false reports
