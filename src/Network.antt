-- ===== src/Network.antt =====
-- controllers/network_controller.go: the reconciler of networks. `Bool` results are the `Requeue`
-- of `ctrl.Result`. The texts that wrap an error keep the source's words.
pub mod Frames
pub mod Rewiring
pub mod Peering
pub mod Deletion
pub mod Reconciling
pub mod Progress
use Prim.Native.String.{String, ◌++◌}
use metalnet.Base.{
  ℕ, Bool, true, false, not, ◌&&◌, ◌||◌, Option, none, some, List, [], ◌∷◌, map, if◌then◌else◌,
  nat_eq,
}
use metalnet.Base.Map.{Map, put}
use metalnet.Base.Sets.{has, of_list, difference}
use metalnet.Base.Result.{Err, Result, ok, err, panic, plain, no_vni, route_not_found, route_exists}
use metalnet.Base.Exec.{pure, raise, gets, attempt, context, for_each, ◌>>=◌, ◌>>◌}
use metalnet.Netip.{Addr, ip4, ip6, Prefix, is_valid}
use metalnet.Cache.{
  MetalnetCache, get_peer_vnis, is_vni_peered, set_peered_prefixes, add_vni_to_peer_vnis,
  remove_vni_from_peer_vnis,
}
use metalnet.Api.{ObjectKey, PeeredPrefix, Network, NetworkSpec}
use metalnet.Effects.{
  Env, Call, M, World, Object, call, on_cache, u32, create_route, delete_route, get_vni,
  ensure_finalizer, remove_finalizer, get_network,
}
use metalnet.Effects
use metalnet.Metalbond.Errors.{
  unless_ignored, ignore_already_subscribed_to_vni_error, ignore_already_unsubscribed_to_vni_error,
}
use metalnet.Metalbond.RouteUtil.{subscribe_vni, unsubscribe_vni, routes_for_vni}
use metalnet.Metalbond.Client.{ClientOptions, cleanup_not_peered_routes, default_route_prefix}

-- The settings of NetworkReconciler, and those of the metalbond client that it uses.
pub record NetworkReconciler : Type 0 where
  pub node_name : String
  pub enable_ipv6_support : Bool
  pub client : ClientOptions

-- ::/0
abbrev pub default_ipv6_route_prefix : Prefix
default_ipv6_route_prefix = record { addr = ip6 0 ""; bits = some 0 }

unfoldable pub is_empty : {A : Type 0} → List A → Bool
is_empty [] = true
is_empty (x ∷ xs) = false

-- The map of the allowed prefixes of each peer; a later entry for a peer replaces an earlier one.
unfoldable pub peered_prefixes_of : List PeeredPrefix → Map ℕ (List Prefix) → Map ℕ (List Prefix)
peered_prefixes_of [] m = m
peered_prefixes_of (p ∷ ps) m = peered_prefixes_of ps (put (u32 p.id) p.prefixes m)

unfoldable pub spec_peer_vnis : Network → List ℕ
spec_peer_vnis network = of_list (map u32 network.spec.peered_ids)

unfoldable pub network_object : Network → Object
network_object network =
    Object.network (record { key_namespace = network.meta.namespace; key_name = network.meta.name })

module _ (env : Env) (r : NetworkReconciler) where
  unfoldable pub network_finalizer : String
  network_finalizer = "networking.metalnet.ironcore.dev/network" ++ ("-" ++ r.node_name)

  unfoldable pub unsubscribe_if_subscribed : ℕ → M (Unit {0})
  unsubscribe_if_subscribed vni =
      unless_ignored ignore_already_unsubscribed_to_vni_error "error unsubscribing to vni: "
        (unsubscribe_vni env vni)

  unfoldable pub subscribe_if_not_subscribed : ℕ → M (Unit {0})
  subscribe_if_not_subscribed vni =
      unless_ignored ignore_already_subscribed_to_vni_error "error subscribing to vni: "
        (subscribe_vni env vni)

  unfoldable pub recycle_vni_subscription : ℕ → M (Unit {0})
  recycle_vni_subscription vni = context "error getting routes for vni: " (routes_for_vni env vni)

  unfoldable pub create_default_routes_if_not_exist : ℕ → M (Unit {0})
  create_default_routes_if_not_exist vni = do
    router ← gets (λ w. w.router)
    if not (is_valid router.router_address)
        then raise (plain "default router address is invalid")
        else do
          context "error creating ipv4 route: " (
              call env (
                create_route vni default_route_prefix vni router.router_address
                  (route_exists ∷ [])))
          if r.enable_ipv6_support
              then context "error creating ipv6 route: " (
                  call env (
                    create_route vni default_ipv6_route_prefix vni router.router_address
                      (route_exists ∷ [])))
              else pure tt

  unfoldable pub delete_default_route_if_exists : ℕ → M (Unit {0})
  delete_default_route_if_exists vni = do
    context "error deleting ipv4 route: "
        (call env (delete_route vni default_route_prefix (no_vni ∷ route_not_found ∷ [])))
    if r.enable_ipv6_support
        then context "error deleting ipv6 route: "
            (call env (delete_route vni default_ipv6_route_prefix (no_vni ∷ route_not_found ∷ [])))
        else pure tt

  -- What follows the removal of a peer from the cache.
  unfoldable pub after_missing : ℕ → Bool → ℕ → Bool → M (Unit {0})
  after_missing vni own peered in_use =
      if not in_use
      then unsubscribe_if_subscribed peered
      else if own
      then (do
        cleanup_not_peered_routes env r.client vni
        cleanup_not_peered_routes env r.client peered)
      else cleanup_not_peered_routes env r.client vni

  -- The body of the loop over the VNIs that are no peers any more.
  unfoldable pub drop_missing : ℕ → Bool → ℕ → M (Unit {0})
  drop_missing vni own peered = do
    in_use ← call env (get_vni peered 0)
    on_cache (remove_vni_from_peer_vnis vni peered)
    after_missing vni own peered in_use

  -- What follows the insertion of a peer in the cache.
  unfoldable pub after_added : ℕ → Bool → ℕ → Bool → M (Unit {0})
  after_added vni own peered in_use = do
    if own && not in_use then subscribe_if_not_subscribed peered else pure tt
    if own && in_use
        then (do recycle_vni_subscription vni; recycle_vni_subscription peered)
        else pure tt

  -- The loop over the new peers; the function returns nil in it if the own VNI is not in use.
  unfoldable pub add_new : ℕ → Bool → ℕ → M (Unit {0})
  add_new vni own peered = do
    in_use ← call env (get_vni peered 0)
    on_cache (add_vni_to_peer_vnis vni peered)
    after_added vni own peered in_use

  unfoldable pub add_all_new : ℕ → Bool → List ℕ → M (Unit {0})
  add_all_new vni own [] = pure tt
  add_all_new vni own (peered ∷ rest) =
      if not own then pure tt else (do add_new vni own peered; add_all_new vni own rest)

  unfoldable pub drop_if_unavailable : ℕ → Bool → ℕ → M (Unit {0})
  drop_if_unavailable vni own peered =
      if not own then on_cache (remove_vni_from_peer_vnis vni peered) else pure tt

  -- reconcilePeeredVNIs from the set of peers that it read.
  unfoldable pub update_peers : Network → ℕ → Bool → List ℕ → M (Unit {0})
  update_peers network vni own peers = do
    on_cache (set_peered_prefixes vni (peered_prefixes_of network.spec.peered_prefixes []))
    let spec = spec_peer_vnis network
    let missing = difference peers spec
    let added = difference spec peers
    if is_empty missing && is_empty added
        then (if is_empty peers then pure tt else for_each peers (drop_if_unavailable vni own))
        else (do for_each missing (drop_missing vni own); add_all_new vni own added)

  unfoldable pub reconcile_peered_vnis : Network → ℕ → Bool → M (Unit {0})
  reconcile_peered_vnis network vni own = do
    peers ← gets (λ w. (get_peer_vnis vni w.cache).0)
    update_peers network vni own peers

  -- The body of the loop of deletePeeredVNIs.
  unfoldable pub delete_peered : ℕ → ℕ → M (Unit {0})
  delete_peered vni peered = do
    on_cache (remove_vni_from_peer_vnis vni peered)
    in_use ← call env (get_vni peered 0)
    if not in_use
        then unsubscribe_if_subscribed peered
        else cleanup_not_peered_routes env r.client peered

  unfoldable pub delete_peered_vnis : ℕ → M (Unit {0})
  delete_peered_vnis vni = do
    peers ← gets (λ w. (get_peer_vnis vni w.cache).0)
    for_each peers (delete_peered vni)

  -- What `delete` does before it removes the finalizer.
  unfoldable pub cleanup_network : ℕ → M (Unit {0})
  cleanup_network vni = do
    unsubscribe_if_subscribed vni
    delete_default_route_if_exists vni
    delete_peered_vnis vni

  unfoldable pub delete : Network → M Bool
  delete network =
      if not (env.contains_finalizer network.meta.finalizers network_finalizer)
      then pure false
      else do
        cleanup_network (u32 network.spec.id)
        context "error removing finalizer: "
            (call env (remove_finalizer (network_object network) network_finalizer))
        pure false

  -- `reconcile` for a VNI that dp-service does not have, and for one that it has.
  unfoldable pub reconcile_absent : Network → ℕ → M Bool
  reconcile_absent network vni = do
    peered ← gets (λ w. is_vni_peered vni w.cache)
    if not peered then unsubscribe_if_subscribed vni else pure tt
    reconcile_peered_vnis network vni false
    pure false

  unfoldable pub reconcile_present : Network → ℕ → M Bool
  reconcile_present network vni = do
    create_default_routes_if_not_exist vni
    reconcile_peered_vnis network vni true
    subscribe_if_not_subscribed vni
    pure false

  unfoldable pub reconcile : Network → M Bool
  reconcile network = do
    modified ←
        context "error ensuring finalizer: "
          (call env (ensure_finalizer (network_object network) network_finalizer))
    if modified then pure true else do
      in_use ← call env (get_vni (u32 network.spec.id) 0)
      if not in_use
          then reconcile_absent network (u32 network.spec.id)
          else reconcile_present network (u32 network.spec.id)

  unfoldable pub reconcile_exists : Network → M Bool
  reconcile_exists network = if network.meta.deleted then delete network else reconcile network

  -- What a failure of the API's Get becomes: client.IgnoreNotFound.
  unfoldable pub after_get : Result Network → M Bool
  after_get (ok network) = reconcile_exists network
  after_get (err e) = if env.is_not_found e then pure false else raise e
  after_get (panic p) = λ w. (panic p, w)

  unfoldable pub reconcile_request : ObjectKey → M Bool
  reconcile_request key = do found ← attempt (call env (get_network key)); after_get found
