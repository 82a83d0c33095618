-- ===== src/Tests/NetworkExamples.antt =====
-- Examples for the networks.
use metalnet.Base.{◌≡◌, refl, true, false, nat_eq, string_eq}
use metalnet.Base.Map.{lookup, put}
use metalnet.Base.Sets.{has, difference, of_list, insert, delete}
use metalnet.Base.Result.{ok}
use metalnet.Base.Exec.{attempt, context, for_each, ◌>>=◌}
use metalnet.Netip.{is_valid}
use metalnet.Cache.{
  get_peer_vnis, set_peered_prefixes, remove_vni_from_peer_vnis, add_vni_to_peer_vnis,
}
use metalnet.Cache.Peers.{has_peer}
use metalnet.Effects.{call, on_cache}
use metalnet.Metalbond.Errors.{
  unless_ignored, ignore_already_subscribed_to_vni_error, is_already_subscribed_to_vni_error,
}
use metalnet.Metalbond.RouteUtil.{subscribe_vni, unsubscribe_vni, routes_for_vni}
use metalnet.Metalbond.Client.{cleanup_not_peered_routes, delete_stale, is_stale}
use metalnet.Network as Net
use metalnet.Network.{
  reconcile_peered_vnis, update_peers, drop_missing, after_missing, add_all_new, add_new,
  after_added, is_empty, spec_peer_vnis, subscribe_if_not_subscribed, unsubscribe_if_subscribed,
  recycle_vni_subscription, create_default_routes_if_not_exist, reconcile, reconcile_present,
  drop_if_unavailable, network_finalizer,
}
use metalnet.Network.Peering.{reconcile_peered_vnis-refines, reconcile_peered_vnis-withdraws}
use metalnet.Network.Deletion.{Deleted, delete-Deleted}
use metalnet.Network.Reconciling.{Present, reconcile-Present}
use metalnet.Tests.{env, networks, network, world}

peers_in_use : (reconcile_peered_vnis env networks network 7 true world).0 ≡ ok tt
unfolding reconcile_peered_vnis update_peers drop_missing after_missing add_all_new add_new
    after_added is_empty spec_peer_vnis subscribe_if_not_subscribed unsubscribe_if_subscribed
    recycle_vni_subscription cleanup_not_peered_routes delete_stale is_stale routes_for_vni
    subscribe_vni unsubscribe_vni unless_ignored attempt context for_each ◌>>=◌ call on_cache
    get_peer_vnis set_peered_prefixes remove_vni_from_peer_vnis add_vni_to_peer_vnis lookup put has
    difference of_list insert delete
peers_in_use = refl

reconcile_peered_vnis-refines_example :
    has_peer (reconcile_peered_vnis env networks network 7 true world).1.cache 7 10 ≡ true
unfolding has
reconcile_peered_vnis-refines_example =
    reconcile_peered_vnis-refines env networks 7 network world peers_in_use 7 10

peers_not_in_use : (reconcile_peered_vnis env networks network 7 false world).0 ≡ ok tt
unfolding reconcile_peered_vnis update_peers drop_missing after_missing add_all_new is_empty
    spec_peer_vnis cleanup_not_peered_routes delete_stale is_stale context for_each ◌>>=◌ call
    on_cache get_peer_vnis set_peered_prefixes remove_vni_from_peer_vnis lookup put has difference
    of_list insert delete
peers_not_in_use = refl

reconcile_peered_vnis-withdraws_example :
    has_peer (reconcile_peered_vnis env networks network 7 false world).1.cache 7 8 ≡ false
unfolding has difference of_list insert get_peer_vnis lookup spec_peer_vnis is_empty
reconcile_peered_vnis-withdraws_example =
    reconcile_peered_vnis-withdraws env networks 7 network world peers_not_in_use 7 8

has_finalizer :
    env.contains_finalizer network.meta.finalizers (network_finalizer env networks) ≡ true
unfolding has network_finalizer
has_finalizer = refl

delete-Deleted_example : Deleted env networks network world (Net.delete env networks network world)
delete-Deleted_example = delete-Deleted env networks network world has_finalizer

reconciles : (reconcile env networks network world).0 ≡ ok false
unfolding reconcile reconcile_present create_default_routes_if_not_exist reconcile_peered_vnis
    update_peers drop_missing after_missing add_all_new add_new after_added is_empty spec_peer_vnis
    subscribe_if_not_subscribed unsubscribe_if_subscribed recycle_vni_subscription
    cleanup_not_peered_routes delete_stale is_stale routes_for_vni subscribe_vni unsubscribe_vni
    unless_ignored attempt context for_each ◌>>=◌ call on_cache get_peer_vnis set_peered_prefixes
    remove_vni_from_peer_vnis add_vni_to_peer_vnis lookup put has difference of_list insert delete
    is_valid ignore_already_subscribed_to_vni_error is_already_subscribed_to_vni_error
reconciles = refl

reconcile-Present_example :
    (false ≡ false) × Present env networks network 7 world (reconcile env networks network world).1
reconcile-Present_example = reconcile-Present env networks network world false refl refl reconciles
