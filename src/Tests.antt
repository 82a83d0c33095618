-- ===== src/Tests.antt =====
-- Surroundings in which the programs run to their end, and the examples that stand on them.
pub mod CacheExamples
pub mod RouteExamples
pub mod NetworkExamples
pub mod ServerExamples
pub mod WillingExamples
pub mod FunctionExamples
pub mod CardExamples
pub mod Interfaces
use metalnet.Base.{ℕ, Bool, true, false, Option, none, some, String, List, [], ◌∷◌, string_eq}
use metalnet.Base.Sets.{has}
use metalnet.Base.Result.{plain}
use metalnet.Netip.{Prefix, ip4, ip6}
use metalnet.Cache.{MetalnetCache}
use metalnet.Api.{ObjectMeta, Network, LoadBalancer, internal, ipv4_protocol, no_state}
use metalnet.Effects.{
  Env, Call, Trace, Reply, Answer, gives, fails, World, get_vni, list_routes, ensure_finalizer,
  remove_finalizer, get_load_balancer, create_route, delete_route, subscribe, unsubscribe,
  announce_route, withdraw_route, delete_load_balancer, get_routes_for_vni,
}
use metalnet.Wire.{DpdkRoute, Destination, NextHop, standard, ipv4}
use metalnet.Metalbond.Client.{ClientOptions}
use metalnet.Network.{NetworkReconciler}
use metalnet.LoadBalancer.{LoadBalancerReconciler, load_balancer_finalizer}

-- 10.0.0.0/24
abbrev pub hosts : Prefix
hosts = record { addr = ip4 0x0a000000; bits = some 24 }

abbrev pub listed_routes : List DpdkRoute
listed_routes =
    record { prefix = hosts; next_hop_vni = 7; next_hop_ip = ip6 1 "" }
    ∷ record { prefix = hosts; next_hop_vni = 9; next_hop_ip = ip6 1 "" }
    ∷ record { prefix = hosts; next_hop_vni = 8; next_hop_ip = ip6 1 "" }
    ∷ []

-- dp-service has every VNI, three routes and every load balancer, whatever was called before.
abbrev pub answers : Trace → (c : Call) → Answer (Reply c)
answers t (get_vni v k) = gives true
answers t (list_routes v) = gives listed_routes
answers t (ensure_finalizer o f) = gives false
answers t (remove_finalizer o f) = gives tt
answers t (get_load_balancer u) = gives (record { vni = 7; underlay_route = some (ip6 5 "") })
answers t (create_route v p n a cs) = gives tt
answers t (delete_route v p cs) = gives tt
answers t (subscribe v) = gives tt
answers t (unsubscribe v) = gives tt
answers t (get_routes_for_vni v) = gives tt
answers t (announce_route v d h) = gives tt
answers t (withdraw_route v d h) = gives tt
answers t (delete_load_balancer u cs) = gives tt
answers t c = fails (plain "refused")

abbrev pub env : Env
env = record {
  answer = answers;
  subscribed_vnis = λ t. 7 ∷ 9 ∷ 100 ∷ [];
  is_status_error_code = λ e cs. false;
  is_not_found = λ e. false;
  contains_finalizer = has;
  zero_hop_type = standard;
  returned_code = λ e. 0;
  protocol_value = λ s. 6;
}

-- VNI 7 has the peers 8 and 9.
abbrev pub cache : MetalnetCache
cache = record { lb_server_map = []; peered_prefixes = []; peered_vnis = (7, 8 ∷ 9 ∷ []) ∷ [] }

abbrev pub world : World
world = record {
  cache = cache;
  router = record { router_address = ip6 3 ""; public_vni = 100; set_by_subscription = false };
  functions = record {
    store = record { files = []; faults = [] };
    available = record { domain = "0000"; bus = "03"; device = "00"; function = "2" } ∷ [];
  };
  trace = [];
}

abbrev pub options : ClientOptions
options = record { ipv4_only = true; preferred_network = none }

abbrev pub networks : NetworkReconciler
networks = record { node_name = "a"; enable_ipv6_support = false; client = options }

abbrev pub network : Network
network = record {
  meta = record {
    namespace = "ns";
    name = "net";
    uid = "u";
    deleted = false;
    finalizers = "networking.metalnet.ironcore.dev/network-a" ∷ [];
  };
  spec = record { id = 7; peered_ids = 9 ∷ 10 ∷ []; peered_prefixes = [] };
}

abbrev pub balancers : LoadBalancerReconciler
balancers = record { node_name = "a"; public_vni = 100; enable_ipv6_support = true }

abbrev pub balancer : LoadBalancer
balancer = record {
  meta = record {
    namespace = "ns";
    name = "lb";
    uid = "u1";
    deleted = false;
    finalizers = load_balancer_finalizer ∷ [];
  };
  spec = record {
    network_ref = "net";
    lb_type = internal;
    ip_family = ipv4_protocol;
    ip = ip4 0x0a000105;
    ports = record { protocol = "TCP"; port = 80 } ∷ [];
    node_name = some "a";
  };
  state = no_state;
}

abbrev pub destination : Destination
destination = record { ip_version = ipv4; prefix = hosts }

-- 0.0.0.0/0
abbrev pub anywhere : Destination
anywhere = record { ip_version = ipv4; prefix = record { addr = ip4 0; bits = some 0 } }

abbrev pub hop : NextHop
hop = record {
  target_address = ip6 4 "";
  target_vni = 0;
  hop_type = standard;
  nat_port_range_from = 0;
  nat_port_range_to = 0;
}
