-- ===== src/Network/Frames.antt =====
-- What the parts of the network reconciler leave alone.
use metalnet.Base.{ℕ, ◌≡◌, refl, Bool, true, false, not, ◌&&◌, [], ◌∷◌}
use metalnet.Base.Result.{no_vni, route_not_found}
use metalnet.Base.Exec.{pure}
use metalnet.Cache.{MetalnetCache}
use metalnet.Effects.{Env, Call, call, on_cache, is_api, get_vni, delete_route}
use metalnet.Effects.Invariants.{
  Frame, Moves, Moves-pure, Moves-bind, Moves-context, Moves-if, Moves-for_each,
}
use metalnet.Metalbond.Errors.{
  ignore_already_subscribed_to_vni_error, ignore_already_unsubscribed_to_vni_error,
}
use metalnet.Metalbond.Client.{default_route_prefix}
use metalnet.Metalbond.Frames.{
  Moves-gets, Moves-unless_ignored, subscribe_vni-Moves, unsubscribe_vni-Moves,
  routes_for_vni-Moves, cleanup_not_peered_routes-Moves,
}
use metalnet.Network.{
  NetworkReconciler, default_ipv6_route_prefix, unsubscribe_if_subscribed,
  subscribe_if_not_subscribed, recycle_vni_subscription, delete_default_route_if_exists,
  after_missing, after_added, delete_peered, delete_peered_vnis, cleanup_network,
}

module _ (env : Env) (r : NetworkReconciler) (F : Frame)
    (net : (c : Call) → is_api c ≡ false → Moves F (call env c)) where
  pub unsubscribe_if_subscribed-Moves : (vni : ℕ) → Moves F (unsubscribe_if_subscribed env r vni)
  unfolding unsubscribe_if_subscribed
  unsubscribe_if_subscribed-Moves vni =
      Moves-unless_ignored ignore_already_unsubscribed_to_vni_error "error unsubscribing to vni: " _
        (unsubscribe_vni-Moves env F net vni)

  pub subscribe_if_not_subscribed-Moves :
      (vni : ℕ) → Moves F (subscribe_if_not_subscribed env r vni)
  unfolding subscribe_if_not_subscribed
  subscribe_if_not_subscribed-Moves vni =
      Moves-unless_ignored ignore_already_subscribed_to_vni_error "error subscribing to vni: " _
        (subscribe_vni-Moves env F net vni)

  pub recycle_vni_subscription-Moves : (vni : ℕ) → Moves F (recycle_vni_subscription env r vni)
  unfolding recycle_vni_subscription
  recycle_vni_subscription-Moves vni =
      Moves-context "error getting routes for vni: " _ (routes_for_vni-Moves env F net vni)

  pub delete_default_route_if_exists-Moves :
      (vni : ℕ) → Moves F (delete_default_route_if_exists env r vni)
  unfolding delete_default_route_if_exists
  delete_default_route_if_exists-Moves vni =
      Moves-bind _ _
        (Moves-context "error deleting ipv4 route: " _
          (net (delete_route vni default_route_prefix (no_vni ∷ route_not_found ∷ [])) refl))
        λ _.
          Moves-if r.enable_ipv6_support _ (pure tt)
            (Moves-context "error deleting ipv6 route: " _ (
              net (delete_route vni default_ipv6_route_prefix (no_vni ∷ route_not_found ∷ []))
                refl))
            (Moves-pure tt)

  pub after_missing-Moves :
      (vni : ℕ) (own : Bool) (peered : ℕ) (in_use : Bool)
      → Moves F (after_missing env r vni own peered in_use)
  unfolding after_missing
  after_missing-Moves vni own peered false = unsubscribe_if_subscribed-Moves peered
  after_missing-Moves vni true peered true =
      Moves-bind _ _ (cleanup_not_peered_routes-Moves env F net r.client vni)
        λ _. cleanup_not_peered_routes-Moves env F net r.client peered
  after_missing-Moves vni false peered true = cleanup_not_peered_routes-Moves env F net r.client vni

  pub after_added-Moves :
      (vni : ℕ) (own : Bool) (peered : ℕ) (in_use : Bool)
      → Moves F (after_added env r vni own peered in_use)
  unfolding after_added
  after_added-Moves vni own peered in_use =
      Moves-bind _ _
        (Moves-if (own && not in_use) _ (pure tt) (subscribe_if_not_subscribed-Moves peered)
          (Moves-pure tt))
        λ _.
          Moves-if (own && in_use) _ (pure tt)
            (Moves-bind _ _ (recycle_vni_subscription-Moves vni)
              λ _. recycle_vni_subscription-Moves peered)
            (Moves-pure tt)

  module _ (on : (f : MetalnetCache → MetalnetCache) → Moves F (on_cache f)) where
    pub delete_peered-Moves : (vni peered : ℕ) → Moves F (delete_peered env r vni peered)
    unfolding delete_peered
    delete_peered-Moves vni peered = Moves-bind _ _ (on _) λ _.
        Moves-bind _ _ (net (get_vni peered 0) refl) λ in_use.
          Moves-if (not in_use) _ _ (unsubscribe_if_subscribed-Moves peered)
            (cleanup_not_peered_routes-Moves env F net r.client peered)

    pub cleanup_network-Moves : (vni : ℕ) → Moves F (cleanup_network env r vni)
    unfolding cleanup_network delete_peered_vnis
    cleanup_network-Moves vni = Moves-bind _ _ (unsubscribe_if_subscribed-Moves vni) λ _.
        Moves-bind _ _ (delete_default_route_if_exists-Moves vni) λ _.
          Moves-bind _ _ (Moves-gets _)
            λ peers. Moves-for_each peers (delete_peered env r vni) (delete_peered-Moves vni)
