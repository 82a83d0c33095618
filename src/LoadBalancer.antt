-- ===== src/LoadBalancer.antt =====
-- controllers/loadbalancer_controller.go: the reconciler of load balancers. `Bool` results are the
-- `Requeue` of `ctrl.Result`. Both branches of applyLoadBalancer end alike: that end is `register`.
pub mod Applying
pub mod Deletion
pub mod Reporting
use Prim.Native.String.{◌++◌}
use metalnet.Base.{
  ℕ, Bool, true, false, not, ◌&&◌, Option, none, some, String, List, [], ◌∷◌, map, if◌then◌else◌,
  ◌==◌, string_eq,
}
use metalnet.Base.Result.{Err, Result, ok, err, panic, plain, wrap, not_found}
use metalnet.Base.Exec.{pure, raise, attempt, context, ◌>>=◌, ◌>>◌}
use metalnet.Netip.{Addr, Prefix, addr_string, bit_len, prefix_from, is6}
use metalnet.Cache.{add_load_balancer_server, remove_load_balancer_server}
use metalnet.Api.{
  ObjectKey, LoadBalancer, LoadBalancerType, internal, public_lb, LbPort, State, ready, pending,
  failed, Network,
}
use metalnet.Effects.{
  Env, M, Object, call, note, on_cache, deref, u32, get_network, get_load_balancer_object,
  ensure_finalizer, remove_finalizer, patch_lb_status, record_event, get_load_balancer,
  create_load_balancer, delete_load_balancer,
}
use metalnet.Wire.{NextHop, Underlay, DpdkLbPort}
use metalnet.Metalbond.Errors.{
  unless_ignored, ignore_next_hop_not_found_error, ignore_next_hop_already_exists_error,
}
use metalnet.Metalbond.RouteUtil.{announce, withdraw}

pub record LoadBalancerReconciler : Type 0 where
  pub node_name : String
  pub public_vni : ℕ
  pub enable_ipv6_support : Bool

abbrev pub load_balancer_finalizer : String
load_balancer_finalizer = "networking.metalnet.ironcore.dev/loadBalancer"

-- NetIPAddrPrefix of networkinterface_controller.go
unfoldable pub net_ip_addr_prefix : Addr → Prefix
net_ip_addr_prefix a = prefix_from a (bit_len a)

unfoldable pub load_balancer_object : LoadBalancer → Object
load_balancer_object lb =
    Object.load_balancer (record { key_namespace = lb.meta.namespace; key_name = lb.meta.name })

module _ (env : Env) (r : LoadBalancerReconciler) (lb : LoadBalancer) where
  -- The VNI in which the route of the load balancer is known.
  unfoldable pub local_vni : ℕ → ℕ
  local_vni vni = elim lb.spec.lb_type [ internal ↦ vni | public_lb ↦ u32 r.public_vni ]

  unfoldable pub next_hop : Addr → NextHop
  next_hop underlay = record {
    target_address = underlay;
    target_vni = 0;
    hop_type = env.zero_hop_type;
    nat_port_range_from = 0;
    nat_port_range_to = 0;
  }

  unfoldable pub remove_load_balancer_route_if_exists : Addr → ℕ → M (Unit {0})
  remove_load_balancer_route_if_exists underlay vni =
      unless_ignored ignore_next_hop_not_found_error "error removing loadbalancer route: "
        (withdraw env (local_vni vni) (net_ip_addr_prefix lb.spec.ip) (next_hop underlay))

  unfoldable pub add_load_balancer_route_if_not_exists : Addr → ℕ → M (Unit {0})
  add_load_balancer_route_if_not_exists underlay vni =
      unless_ignored ignore_next_hop_already_exists_error "error adding loadbalancer route: "
        (announce env (local_vni vni) (net_ip_addr_prefix lb.spec.ip) (next_hop underlay))

  unfoldable pub delete_load_balancer_parts : ℕ → Addr → M (Unit {0})
  delete_load_balancer_parts vni underlay = do
    context ("[Loadbalancer IP " ++ (addr_string lb.spec.ip ++ "] "))
        (remove_load_balancer_route_if_exists underlay vni)
    context "error deleting loadbalancer: "
        (call env (delete_load_balancer lb.meta.uid (not_found ∷ [])))

  -- The end of both branches of `delete`.
  unfoldable pub forget_server : M Bool
  forget_server = do
    on_cache (remove_load_balancer_server (addr_string lb.spec.ip) lb.meta.uid)
    context "error removing finalizer: "
        (call env (remove_finalizer (load_balancer_object lb) load_balancer_finalizer))
    pure false

  unfoldable pub delete_found : Result Underlay → M Bool
  delete_found (ok found) = do
    underlay ← deref found.underlay_route
    context "error deleting underlay route: " (delete_load_balancer_parts found.vni underlay)
    forget_server
  delete_found (err e) =
      if not (env.is_status_error_code e (not_found ∷ []))
      then raise (wrap "error getting dpdk loadbalancer: " e)
      else forget_server
  delete_found (panic p) = λ w. (panic p, w)

  unfoldable pub delete : M Bool
  delete =
      if not (env.contains_finalizer lb.meta.finalizers load_balancer_finalizer)
      then pure false
      else do found ← attempt (call env (get_load_balancer lb.meta.uid)); delete_found found

  unfoldable pub patch_status : State → M (Unit {0})
  patch_status state =
      context "error patching status: " (call env (patch_lb_status (load_balancer_object lb) state))

  unfoldable pub dpdk_ports : List LbPort → List DpdkLbPort
  dpdk_ports ports =
      map (λ p. record { port = u32 p.port; protocol = u32 (env.protocol_value p.protocol) }) ports

  -- The server goes to the cache, its route to metalbond.
  unfoldable pub register : ℕ → Underlay → M Addr
  register vni found = do
    on_cache (add_load_balancer_server vni (addr_string lb.spec.ip) lb.meta.uid)
    underlay ← deref found.underlay_route
    add_load_balancer_route_if_not_exists underlay vni
    pure underlay

  unfoldable pub apply_found : ℕ → Result Underlay → M Addr
  apply_found vni (ok found) = register vni found
  apply_found vni (err e) =
      if not (env.is_status_error_code e (not_found ∷ []))
      then raise (wrap "error getting dpdk loadbalancer: " e)
      else (do
        created ←
            context "error creating dpdk loadbalancer: " (
              call env (create_load_balancer lb.meta.uid vni lb.spec.ip (dpdk_ports lb.spec.ports)))
        register vni created)
  apply_found vni (panic p) = λ w. (panic p, w)

  unfoldable pub apply_load_balancer : ℕ → M Addr
  apply_load_balancer vni = do
    found ← attempt (call env (get_load_balancer lb.meta.uid))
    apply_found vni found

  -- An error that is returned after the status was patched; a failure to patch is only logged.
  unfoldable pub fail_with : Err → M Bool
  fail_with e = do patched ← attempt (patch_status failed); raise e

  unfoldable pub after_apply : Result Addr → M Bool
  after_apply (ok underlay) = do context "error patching status: " (patch_status ready); pure false
  after_apply (err e) = fail_with (wrap "error applying loadbalancer: " e)
  after_apply (panic p) = λ w. (panic p, w)

  unfoldable pub network_key : ObjectKey
  network_key = record { key_namespace = lb.meta.namespace; key_name = lb.spec.network_ref }

  unfoldable pub after_network : Result Network → M Bool
  after_network (ok network) = do
    applied ← attempt (apply_load_balancer (u32 network.spec.id))
    after_apply applied
  after_network (err e) =
      if not (env.is_not_found e)
      then raise (
          wrap
            ("error getting network "
              ++ (network_key.key_namespace ++ ("/" ++ (network_key.key_name ++ ": "))))
            e)
      else (do
        note (record_event (load_balancer_object lb) "NetworkNotFound")
        patch_status pending
        pure false)
  after_network (panic p) = λ w. (panic p, w)

  unfoldable pub reconcile : M Bool
  reconcile = do
    modified ←
        context "error ensuring finalizer: "
          (call env (ensure_finalizer (load_balancer_object lb) load_balancer_finalizer))
    if modified
        then pure true
        else if not r.enable_ipv6_support && is6 lb.spec.ip
        then fail_with (plain "ipv6 flag not enabled but ipv6 address set on loadbalancer")
        else (do network ← attempt (call env (get_network network_key)); after_network network)

  unfoldable pub reconcile_exists : M Bool
  reconcile_exists = if lb.meta.deleted then delete else reconcile

module _ (env : Env) (r : LoadBalancerReconciler) where
  -- Whether the load balancer is assigned to this node.
  unfoldable pub is_assigned : Option String → Bool
  is_assigned none = false
  is_assigned (some name) = name == r.node_name

  unfoldable pub after_get : Result LoadBalancer → M Bool
  after_get (ok lb) =
      if is_assigned lb.spec.node_name then reconcile_exists env r lb else pure false
  after_get (err e) = if env.is_not_found e then pure false else raise e
  after_get (panic p) = λ w. (panic p, w)

  unfoldable pub reconcile_request : ObjectKey → M Bool
  reconcile_request key = do
    found ← attempt (call env (get_load_balancer_object key))
    after_get found
