-- ===== src/Effects.antt =====
-- The program in its surroundings. dp-service, metalbond and the Kubernetes API are not under this
-- repository: an `Env` answers each call, from the calls that were made before it. Nothing is
-- assumed of the answers, so every run against any servers is the run of some `Env`; a theorem that
-- needs more of them says so. The `World` holds what the process itself keeps, and the calls made.
pub mod Traces
pub mod Invariants
pub mod Loops
pub mod Writes
pub mod Returning
use metalnet.Base.{ℕ, ◌%◌, ◌^◌, Bool, true, false, Option, none, some, String, List, [], ◌∷◌}
use metalnet.Base.Result.{Code, Err, Result, ok, err, panic}
use metalnet.Base.Exec.{Exec}
use metalnet.Netip.{Addr, Prefix}
use metalnet.Cache.{MetalnetCache}
use metalnet.Api.{ObjectKey, Network, LoadBalancer, NetworkInterface, State, NetworkInterfaceStatus}
use metalnet.Wire.{
  Destination, NextHop, HopType, DpdkRoute, Underlay, DpdkLbPort, DpdkNat, DpdkVirtualIp,
  DpdkPrefix, InterfaceSpec, FirewallRuleSpec,
}
use metalnet.NetFns.{Manager}

-- An object of the Kubernetes API.
pub data Object : Type 0 where
  network load_balancer network_interface : ObjectKey → Object

-- The calls that leave the program. A list of codes holds those that the call is told to ignore.
pub data Call : Type 0 where
  get_network : ObjectKey → Call
  get_load_balancer_object : ObjectKey → Call
  get_network_interface_object : ObjectKey → Call
  ensure_finalizer remove_finalizer : Object → String → Call
  patch_lb_status : Object → State → Call
  patch_nic_status : Object → NetworkInterfaceStatus → Call
  record_event : Object → String → Call
  get_vni : ℕ → ℕ → Call
  create_route : ℕ → Prefix → ℕ → Addr → List Code → Call
  delete_route : ℕ → Prefix → List Code → Call
  list_routes : ℕ → Call
  create_lb_target delete_lb_target : String → Addr → List Code → Call
  create_neighbor_nat delete_neighbor_nat : Addr → ℕ → ℕ → ℕ → Addr → List Code → Call
  get_load_balancer : String → Call
  create_load_balancer : String → ℕ → Addr → List DpdkLbPort → Call
  delete_load_balancer : String → List Code → Call
  get_nat get_virtual_ip : String → Call
  create_nat : String → Addr → ℕ → ℕ → Call
  create_virtual_ip : String → Addr → Call
  delete_nat delete_virtual_ip : String → List Code → Call
  list_prefixes list_lb_prefixes : String → Call
  create_prefix create_lb_prefix : String → Prefix → Call
  delete_prefix delete_lb_prefix : String → Prefix → List Code → Call
  subscribe unsubscribe get_routes_for_vni : ℕ → Call
  get_interface : String → Call
  create_interface : String → InterfaceSpec → Call
  delete_interface : String → List Code → Call
  list_firewall_rules : String → Call
  create_firewall_rule : String → FirewallRuleSpec → Call
  delete_firewall_rule : String → String → List Code → Call
  announce_route withdraw_route : ℕ → Destination → NextHop → Call

-- The calls of the Kubernetes API; all others go to dp-service and metalbond.
abbrev pub is_api : Call → Bool
is_api (get_network k) = true
is_api (get_load_balancer_object k) = true
is_api (get_network_interface_object k) = true
is_api (ensure_finalizer o f) = true
is_api (remove_finalizer o f) = true
is_api (patch_lb_status o s) = true
is_api (patch_nic_status o s) = true
is_api (record_event o e) = true
is_api _ = false

-- What a call that succeeds returns.
abbrev pub Reply : Call → Type 0
Reply (get_network k) = Network
Reply (get_load_balancer_object k) = LoadBalancer
Reply (get_network_interface_object k) = NetworkInterface
Reply (ensure_finalizer o f) = Bool
Reply (get_vni v t) = Bool
Reply (list_routes v) = List DpdkRoute
Reply (get_load_balancer u) = Underlay
Reply (create_load_balancer u v a ps) = Underlay
Reply (get_nat u) = DpdkNat
Reply (create_nat u a p q) = DpdkNat
Reply (get_virtual_ip u) = DpdkVirtualIp
Reply (create_virtual_ip u a) = DpdkVirtualIp
Reply (list_prefixes u) = List DpdkPrefix
Reply (list_lb_prefixes u) = List DpdkPrefix
Reply (create_prefix u p) = DpdkPrefix
Reply (create_lb_prefix u p) = DpdkPrefix
Reply (get_interface u) = Underlay
Reply (create_interface u s) = Underlay
Reply (list_firewall_rules u) = List String
Reply _ = Unit {0}

pub record Event : Type 0 where
  pub call : Call
  pub succeeded : Bool

-- The newest first.
abbrev pub Trace : Type 0
Trace = List Event

pub data Answer (A : Type 0) : Type 0 where
  gives : A → Answer A
  fails : Err → Answer A

pub record Env : Type 0 where
  pub answer : Trace → (c : Call) → Answer (Reply c)
  -- metalbond: GetSubscribedVnis
  pub subscribed_vnis : Trace → List ℕ
  -- dpservice-go: errors.IsStatusErrorCode
  pub is_status_error_code : Err → List Code → Bool
  -- apimachinery: errors.IsNotFound
  pub is_not_found : Err → Bool
  -- controller-runtime: controllerutil.ContainsFinalizer
  pub contains_finalizer : List String → String → Bool
  -- the metalbond hop type that is written by leaving the field out
  pub zero_hop_type : HopType
  -- dpservice-go: Status.Code of the object that a failed CreateFirewallRule returns beside the error
  pub returned_code : Err → ℕ
  -- dpservice-go: proto.Protocol_value
  pub protocol_value : String → ℕ

-- metalbond/route_util.go: DefaultRouterAddress without its lock
pub record DefaultRouterAddress : Type 0 where
  pub router_address : Addr
  pub public_vni : ℕ
  pub set_by_subscription : Bool

pub record World : Type 0 where
  pub cache : MetalnetCache
  pub router : DefaultRouterAddress
  -- the pool of functions that the network interface controller claims from
  pub functions : Manager
  pub trace : Trace

abbrev pub M : Type 0 → Type 0
M A = Exec World A

abbrev pub succeeds : {A : Type 0} → Answer A → Bool
succeeds (gives a) = true
succeeds (fails e) = false

abbrev pub to_result : {A : Type 0} → Answer A → Result A
to_result (gives a) = ok a
to_result (fails e) = err e

unfoldable pub call : Env → (c : Call) → M (Reply c)
call env c w = (
  to_result (env.answer w.trace c),
  record w { trace = record { call = c; succeeded = succeeds (env.answer w.trace c) } ∷ w.trace },
)

-- A call that returns nothing.
unfoldable pub note : Call → M (Unit {0})
note c w = (ok tt, record w { trace = record { call = c; succeeded = true } ∷ w.trace })

unfoldable pub on_cache : (MetalnetCache → MetalnetCache) → M (Unit {0})
on_cache f w = (ok tt, record w { cache = f w.cache })

-- An action of the pool of functions.
unfoldable pub on_functions : {A : Type 0} → Exec Manager A → M A
on_functions m w = let (r, f) = m w.functions in (r, record w { functions = f })

-- A dereference of a pointer that may be nil.
unfoldable pub deref : {A : Type 0} → Option A → M A
deref none w = (panic "invalid memory address or nil pointer dereference", w)
deref (some a) w = (ok a, w)

-- uint32(n)
abbrev pub u32 : ℕ → ℕ
u32 n = n % 2 ^ 32
