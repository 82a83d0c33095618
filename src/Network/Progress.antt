-- ===== src/Network/Progress.antt =====
-- controllers/network_controller.go: the reconciler of networks where no call fails.
use metalnet.Base.{ℕ, ◌≡◌, refl, Bool, true, false, not, ◌&&◌, List, [], ◌∷◌, nat_eq}
use metalnet.Base.Sets.{difference}
use metalnet.Base.Result.{ok, no_vni, route_not_found, route_exists}
use metalnet.Base.Exec.{pure, attempt, ◌>>=◌}
use metalnet.Netip.{is_valid}
use metalnet.Api.{ObjectKey, Network}
use metalnet.Effects.{
  Env, Call, World, DefaultRouterAddress, call, u32, create_route, delete_route, list_routes,
  get_vni, subscribe, unsubscribe, get_routes_for_vni, ensure_finalizer, remove_finalizer,
  get_network,
}
use metalnet.Effects.Returning.{
  IsWilling, Returns, Returns-pure, Returns-gets, Returns-on_cache, Returns-call, Returns-if,
  Returns-context, Returns-bind, Returns-router, Returns-for_each, Returns-unless_ignored,
}
use metalnet.Metalbond.RouteUtil.{subscribe_vni, unsubscribe_vni, routes_for_vni}
use metalnet.Metalbond.Client.{
  cleanup_not_peered_routes, delete_stale, is_stale, default_route_prefix,
}
use metalnet.Network.{
  NetworkReconciler, network_finalizer, network_object, default_ipv6_route_prefix, is_empty,
  spec_peer_vnis, unsubscribe_if_subscribed, subscribe_if_not_subscribed, recycle_vni_subscription,
  create_default_routes_if_not_exist, delete_default_route_if_exists, after_missing, drop_missing,
  after_added, add_new, add_all_new, drop_if_unavailable, update_peers, reconcile_peered_vnis,
  delete_peered, delete_peered_vnis, cleanup_network, delete, reconcile_absent, reconcile_present,
  reconcile, reconcile_exists, after_get, reconcile_request,
}

module _ (env : Env) (r : NetworkReconciler) (router : DefaultRouterAddress)
    (willing : IsWilling env) where
  calling : (c : Call) → Returns router (call env c)
  calling c = Returns-call env c willing

  subscribe-Returns : (vni : ℕ) → Returns router (subscribe_if_not_subscribed env r vni)
  unfolding subscribe_if_not_subscribed subscribe_vni
  subscribe-Returns vni = Returns-unless_ignored _ _ _ (calling (subscribe vni))

  unsubscribe-Returns : (vni : ℕ) → Returns router (unsubscribe_if_subscribed env r vni)
  unfolding unsubscribe_if_subscribed unsubscribe_vni
  unsubscribe-Returns vni = Returns-unless_ignored _ _ _ (calling (unsubscribe vni))

  recycle-Returns : (vni : ℕ) → Returns router (recycle_vni_subscription env r vni)
  unfolding recycle_vni_subscription routes_for_vni
  recycle-Returns vni =
      Returns-context "error getting routes for vni: " _ (calling (get_routes_for_vni vni))

  cleanup-Returns : (vni : ℕ) → Returns router (cleanup_not_peered_routes env r.client vni)
  unfolding cleanup_not_peered_routes delete_stale
  cleanup-Returns vni =
      Returns-bind _ _ (Returns-context "error listing dpdk routes: " _ (calling (list_routes vni)))
        λ routes. Returns-bind _ _ (Returns-gets _) λ peers.
          Returns-for_each routes (delete_stale env r.client vni peers) λ x.
            Returns-if (is_stale vni peers x) _ (pure tt)
              (Returns-context "error deleting route: " _
                (calling (delete_route vni x.prefix (no_vni ∷ route_not_found ∷ []))))
              (Returns-pure tt)

  drop_missing-Returns :
      (vni : ℕ) (own : Bool) (peered : ℕ) → Returns router (drop_missing env r vni own peered)
  unfolding drop_missing after_missing
  drop_missing-Returns vni own peered = Returns-bind _ _ (calling (get_vni peered 0)) λ in_use.
      Returns-bind _ _ (Returns-on_cache _) λ _.
        Returns-if (not in_use) _ _ (unsubscribe-Returns peered) (
          Returns-if own _ _ (Returns-bind _ _ (cleanup-Returns vni) λ _. cleanup-Returns peered)
            (cleanup-Returns vni))

  add_new-Returns :
      (vni : ℕ) (own : Bool) (peered : ℕ) → Returns router (add_new env r vni own peered)
  unfolding add_new after_added
  add_new-Returns vni own peered = Returns-bind _ _ (calling (get_vni peered 0)) λ in_use.
      Returns-bind _ _ (Returns-on_cache _) λ _.
        Returns-bind _ _
          (Returns-if (own && not in_use) _ (pure tt) (subscribe-Returns peered) (Returns-pure tt))
          λ _.
            Returns-if (own && in_use) _ (pure tt)
              (Returns-bind _ _ (recycle-Returns vni) λ _. recycle-Returns peered) (Returns-pure tt)

  add_all_new-Returns :
      (vni : ℕ) (own : Bool) (added : List ℕ) → Returns router (add_all_new env r vni own added)
  unfolding add_all_new
  add_all_new-Returns vni own [] = Returns-pure tt
  add_all_new-Returns vni own (p ∷ rest) =
      Returns-if (not own) (pure tt) _ (Returns-pure tt)
        (Returns-bind _ _ (add_new-Returns vni own p) λ _. add_all_new-Returns vni own rest)

  reconcile_peered_vnis-Returns :
      (network : Network) (vni : ℕ) (own : Bool)
      → Returns router (reconcile_peered_vnis env r network vni own)
  unfolding reconcile_peered_vnis update_peers drop_if_unavailable
  reconcile_peered_vnis-Returns network vni own = Returns-bind _ _ (Returns-gets _) λ peers.
      Returns-bind _ _ (Returns-on_cache _) λ _.
        let missing = difference peers (spec_peer_vnis network) in
        let added = difference (spec_peer_vnis network) peers in
        Returns-if (is_empty missing && is_empty added) _ _
          (Returns-if (is_empty peers) (pure tt) _ (Returns-pure tt) (
            Returns-for_each peers (drop_if_unavailable env r vni own)
              λ p. Returns-if (not own) _ (pure tt) (Returns-on_cache _) (Returns-pure tt)))
          (Returns-bind _ _
            (Returns-for_each missing (drop_missing env r vni own) (drop_missing-Returns vni own))
            λ _. add_all_new-Returns vni own added)

  delete_default_route-Returns :
      (vni : ℕ) → Returns router (delete_default_route_if_exists env r vni)
  unfolding delete_default_route_if_exists
  delete_default_route-Returns vni =
      Returns-bind _ _
        (Returns-context "error deleting ipv4 route: " _
          (calling (delete_route vni default_route_prefix (no_vni ∷ route_not_found ∷ []))))
        λ _.
          Returns-if r.enable_ipv6_support _ (pure tt)
            (Returns-context "error deleting ipv6 route: " _ (
              calling (delete_route vni default_ipv6_route_prefix (no_vni ∷ route_not_found ∷ []))))
            (Returns-pure tt)

  cleanup_network-Returns : (vni : ℕ) → Returns router (cleanup_network env r vni)
  unfolding cleanup_network delete_peered_vnis delete_peered
  cleanup_network-Returns vni = Returns-bind _ _ (unsubscribe-Returns vni) λ _.
      Returns-bind _ _ (delete_default_route-Returns vni) λ _.
        Returns-bind _ _ (Returns-gets _) λ peers.
          Returns-for_each peers (delete_peered env r vni) λ p.
            Returns-bind _ _ (Returns-on_cache _) λ _.
              Returns-bind _ _ (calling (get_vni p 0))
                λ in_use. Returns-if (not in_use) _ _ (unsubscribe-Returns p) (cleanup-Returns p)

  delete-Returns : (network : Network) → Returns router (delete env r network)
  unfolding delete
  delete-Returns network =
      let c = remove_finalizer (network_object network) (network_finalizer env r) in
      Returns-if (not (env.contains_finalizer network.meta.finalizers (network_finalizer env r)))
        (pure false) _ (Returns-pure false)
        (Returns-bind _ _ (cleanup_network-Returns (u32 network.spec.id)) λ _.
          Returns-bind _ _ (Returns-context "error removing finalizer: " _ (calling c))
            λ _. Returns-pure false)

  reconcile_absent-Returns :
      (network : Network) (vni : ℕ) → Returns router (reconcile_absent env r network vni)
  unfolding reconcile_absent
  reconcile_absent-Returns network vni = Returns-bind _ _ (Returns-gets _) λ peered.
      Returns-bind _ _
        (Returns-if (not peered) _ (pure tt) (unsubscribe-Returns vni) (Returns-pure tt))
        λ _.
          Returns-bind _ _ (reconcile_peered_vnis-Returns network vni false) λ _. Returns-pure false

  module _ (valid : is_valid router.router_address ≡ true) where
    create_default_routes-Returns :
        (vni : ℕ) → Returns router (create_default_routes_if_not_exist env r vni)
    unfolding create_default_routes_if_not_exist
    create_default_routes-Returns vni = Returns-router _ (
        rw valid (
          Returns-bind _ _
            (Returns-context "error creating ipv4 route: " _ (
              calling (
                create_route vni default_route_prefix vni router.router_address
                  (route_exists ∷ []))))
            λ _.
              Returns-if r.enable_ipv6_support _ (pure tt)
                (Returns-context "error creating ipv6 route: " _ (
                  calling (
                    create_route vni default_ipv6_route_prefix vni router.router_address
                      (route_exists ∷ []))))
                (Returns-pure tt)))

    reconcile-Returns : (network : Network) → Returns router (reconcile env r network)
    unfolding reconcile reconcile_present
    reconcile-Returns network =
        let vni = u32 network.spec.id in
        Returns-bind _ _
          (Returns-context "error ensuring finalizer: " _
            (calling (ensure_finalizer (network_object network) (network_finalizer env r))))
          λ modified. Returns-if modified (pure true) _ (Returns-pure true) (
            Returns-bind _ _ (calling (get_vni vni 0)) λ in_use.
              Returns-if (not in_use) _ _ (reconcile_absent-Returns network vni) (
                Returns-bind _ _ (create_default_routes-Returns vni) λ _.
                  Returns-bind _ _ (reconcile_peered_vnis-Returns network vni true)
                    λ _. Returns-bind _ _ (subscribe-Returns vni) λ _. Returns-pure false))

-- If no call fails and the program knows a valid address of the default router, Reconcile of a
-- network returns nil, whatever is in the cache and in the specification, and does not panic.
pub reconcile_request-returns :
    (env : Env) (r : NetworkReconciler) (key : ObjectKey) (w : World)
    → IsWilling env
    → is_valid w.router.router_address ≡ true
    → (b : Bool) × ((reconcile_request env r key w).0 ≡ ok b)
unfolding reconcile_request after_get reconcile_exists attempt ◌>>=◌ call
reconcile_request-returns env r key w willing valid =
    let (network, e) = willing w.trace (get_network key) in
    let v = record w { trace = record { call = get_network key; succeeded = true } ∷ w.trace } in
    let (b, done, _) =
      (Returns-if network.meta.deleted _ _ (delete-Returns env r w.router willing network)
          (reconcile-Returns env r w.router willing valid network)).value
        v refl in
    rw e (b, done)
