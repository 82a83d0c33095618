-- ===== src/LoadBalancer/Deletion.antt =====
-- The deletion of a load balancer: the calls that a complete one makes, and their order.
use metalnet.Base.{ℕ, ◌≡◌, ◌⊎◌, true, some, List, [], ◌∷◌, ◌++◌, nat_eq, string_eq}
use metalnet.Base.Result.{Err, not_found}
use metalnet.Netip.{Addr, addr_string}
use metalnet.Cache.{remove_load_balancer_server}
use metalnet.Api.{LoadBalancer}
use metalnet.Effects.{
  Env, Call, World, get_load_balancer, delete_load_balancer, withdraw_route, remove_finalizer,
  gives, fails,
}
use metalnet.Effects.Traces.{Made}
use metalnet.Wire.{Underlay}
use metalnet.Metalbond.RouteUtil.{to_destination}
use metalnet.LoadBalancer.{
  LoadBalancerReconciler, load_balancer_finalizer, load_balancer_object, local_vni, next_hop,
  net_ip_addr_prefix,
}

module _ (env : Env) (r : LoadBalancerReconciler) (lb : LoadBalancer) where
  abbrev pub look_up : Call
  look_up = get_load_balancer lb.meta.uid

  abbrev pub finish : Call
  finish = remove_finalizer (load_balancer_object lb) load_balancer_finalizer

  -- The route that was announced for this VNI and underlay address, then the load balancer.
  abbrev pub tear_down : ℕ → Addr → List Call
  tear_down vni underlay =
      withdraw_route (local_vni env r lb vni) (to_destination (net_ip_addr_prefix lb.spec.ip))
        (next_hop env r lb underlay)
      ∷ delete_load_balancer lb.meta.uid (not_found ∷ [])
      ∷ []

  -- What a deletion that returns nil has done.
  abbrev pub Finished : World → World → Type 0
  Finished w w' =
      (w'.cache ≡ remove_load_balancer_server (addr_string lb.spec.ip) lb.meta.uid w.cache)
      × (((f : Underlay) × (u : Addr) × (env.answer w.trace look_up ≡ gives f)
            × (f.underlay_route ≡ some u)
            × Made (look_up ∷ tear_down f.vni u ++ (finish ∷ [])) w w')
          ⊎ ((e : Err) × (env.answer w.trace look_up ≡ fails e)
              × (env.is_status_error_code e (not_found ∷ []) ≡ true)
              × Made (look_up ∷ finish ∷ []) w w'))
