-- ===== src/Tests/Interfaces.antt =====
-- An interface, and surroundings in which the reconciler runs to its end.
pub mod RoundExamples
pub mod PartExamples
pub mod WholeExamples
use metalnet.Base.{ℕ, Bool, true, false, Option, none, some, String, List, [], ◌∷◌}
use metalnet.Base.Result.{ok, err, plain, status, no_vm}
use metalnet.Netip.{Prefix, ip4, ip6}
use metalnet.Api.{NetworkInterface, FirewallRule, ipv4_protocol, ready, pos, NatDetails, negsuc}
use metalnet.Effects.{
  Env, Call, Trace, Reply, Answer, gives, fails, World, get_network, ensure_finalizer,
  remove_finalizer, patch_nic_status, get_interface, delete_interface, list_prefixes,
  list_lb_prefixes, list_firewall_rules, create_prefix, create_lb_prefix, delete_prefix,
  delete_lb_prefix, create_firewall_rule, delete_firewall_rule, get_nat, create_nat, delete_nat,
  announce_route, withdraw_route, get_network_interface_object,
}
use metalnet.Wire.{DpdkPrefix, DpdkNat, Underlay}
use metalnet.NetFns.{Manager}
use metalnet.Interface.Spec.{NetworkInterfaceReconciler, network_interface_finalizer}
use metalnet.Tests.{hosts, network, env, world}
use metalnet.Tests.FunctionExamples.{ghw, manager}

-- 10.0.1.0/24
abbrev pub more_hosts : Prefix
more_hosts = record { addr = ip4 0x0a000100; bits = some 24 }

abbrev pub rule : FirewallRule
rule = record {
  firewall_rule_id = "r2";
  direction = "Ingress";
  action = "Accept";
  priority = none;
  ip_family = ipv4_protocol;
  source_prefix = none;
  destination_prefix = some hosts;
  protocol_match = some (record {
    protocol_type = some "TCP";
    icmp = none;
    port_range = some (record {
      src_port = none;
      end_src_port = pos 0;
      dst_port = some (pos 80);
      end_dst_port = pos 90;
    });
  });
}

abbrev pub details : NatDetails
details = record { ip = some (ip4 0x0a640001); port = 1000; end_port = 2000 }

abbrev pub interface : NetworkInterface
interface = record {
  meta = record {
    namespace = "ns";
    name = "nic";
    uid = "u1";
    deleted = false;
    finalizers = network_interface_finalizer ∷ [];
  };
  spec = record {
    network_ref = "net";
    ip_families = ipv4_protocol ∷ [];
    ips = ip4 0x0a000005 ∷ [];
    virtual_ip = none;
    prefixes = more_hosts ∷ [];
    load_balancer_targets = more_hosts ∷ [];
    nat = some details;
    node_name = some "a";
    firewall_rules = rule ∷ [];
    metering_rate = none;
  };
  status = record {
    pci_address = none;
    virtual_ip = none;
    nat_ip = none;
    prefixes = [];
    load_balancer_targets = [];
    state = ready;
  };
}

abbrev pub underlay : Underlay
underlay = record { vni = 7; underlay_route = some (ip6 5 "") }

abbrev pub listed : List DpdkPrefix
listed = record { prefix = hosts; underlay_route = some (ip6 5 "") } ∷ []

-- The NAT that dp-service has, and the one that it creates.
abbrev pub old_nat : DpdkNat
old_nat = record {
  nat_ip = some (ip4 0x0a640001);
  min_port = 1;
  max_port = 2;
  underlay_route = some (ip6 5 "");
}

abbrev pub new_nat : DpdkNat
new_nat = record {
  nat_ip = some (ip4 0x0a640001);
  min_port = 1000;
  max_port = 2000;
  underlay_route = some (ip6 6 "");
}

-- The first answer, and the one after any call.
abbrev pub at_first : {A : Type 0} → Trace → A → A → A
at_first [] a b = a
at_first (e ∷ t) a b = b

abbrev pub nic_answers : Trace → (c : Call) → Answer (Reply c)
nic_answers t (get_network_interface_object k) = gives interface
nic_answers t (get_network k) = gives network
nic_answers t (ensure_finalizer o f) = gives false
nic_answers t (remove_finalizer o f) = gives tt
nic_answers t (patch_nic_status o s) = gives tt
nic_answers t (get_interface u) = gives underlay
nic_answers t (delete_interface u cs) = gives tt
nic_answers t (list_prefixes u) = gives (at_first t listed [])
nic_answers t (list_lb_prefixes u) = gives (at_first t listed [])
nic_answers t (list_firewall_rules u) = gives (at_first t ("r1" ∷ []) [])
nic_answers t (create_prefix u p) = gives (record { prefix = p; underlay_route = some (ip6 5 "") })
nic_answers t (create_lb_prefix u p) =
    gives (record { prefix = p; underlay_route = some (ip6 5 "") })
nic_answers t (delete_prefix u p cs) = gives tt
nic_answers t (delete_lb_prefix u p cs) = gives tt
nic_answers t (create_firewall_rule u s) = gives tt
nic_answers t (delete_firewall_rule u i cs) = gives tt
nic_answers t (get_nat u) = gives old_nat
nic_answers t (create_nat u a p q) = gives new_nat
nic_answers t (delete_nat u cs) = gives tt
nic_answers t (announce_route v d h) = gives tt
nic_answers t (withdraw_route v d h) = gives tt
nic_answers t c = fails (status no_vm "no such interface")

abbrev pub nic_env : Env
nic_env = record env { answer = nic_answers; is_status_error_code = λ e cs. true }

abbrev pub interfaces : NetworkInterfaceReconciler
interfaces = record {
  ghw = ghw;
  is_tap_store = false;
  sysfs = record {
    pci_device = λ a. err (plain "no such device");
    physfn = λ d. err (plain "no such device");
    address = λ d. err (plain "no such device");
    sriov = λ d. err (plain "no such device");
    virtfns = λ d. ok [];
  };
  pf_to_vf_offset = 3;
  node_name = "a";
  public_vni = 100;
  enable_ipv6_support = false;
  bluefield_detected = false;
  bluefield_host_default_bus_addr = "";
}

-- The pool with a store that works.
abbrev pub calm_manager : Manager
calm_manager = record manager { store = record { files = manager.store.files; faults = [] } }

abbrev pub nic_world : World
nic_world = record world { functions = calm_manager }
