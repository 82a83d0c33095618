-- ===== src/Network/Reconciling.antt =====
-- A reconciliation of a network whose VNI dp-service has in use.
use metalnet.Base.{
  ℕ, ◌≡◌, refl, subst, Bool, true, false, not, some, [], ◌∷◌, map, if◌then◌else◌, arith, ◌==◌,
  nat_eq,
}
use metalnet.Base.Sets.{has}
use metalnet.Base.Result.{ok, route_exists}
use metalnet.Base.Exec.{pure, ◌>>=◌, >>=-ok, context}
use metalnet.Cache.Peers.{has_peer}
use metalnet.Netip.{is_valid}
use metalnet.Api.{Network}
use metalnet.Effects.{
  Env, Call, World, call, is_api, u32, ensure_finalizer, get_vni, create_route, subscribe, gives,
}
use metalnet.Effects.Traces.{newest}
use metalnet.Effects.Invariants.{
  Moves, keeps_cache, call-keeps_cache, Moves-if, Moves-bind, Moves-pure, Moves-raise,
  Moves-context,
}
use metalnet.Metalbond.Errors.{unless_ignored}
use metalnet.Metalbond.RouteUtil.{subscribe_vni}
use metalnet.Metalbond.Frames.{Moves-gets}
use metalnet.Metalbond.Client.{default_route_prefix}
use metalnet.Network.{
  NetworkReconciler, network_finalizer, network_object, default_ipv6_route_prefix,
  create_default_routes_if_not_exist, subscribe_if_not_subscribed, reconcile_peered_vnis,
  reconcile_present, reconcile,
}
use metalnet.Network.Frames.{subscribe_if_not_subscribed-Moves}
use metalnet.Network.Peering.{reconcile_peered_vnis-refines}

module _ (env : Env) (r : NetworkReconciler) where
  create_default_routes-keeps_cache :
      (vni : ℕ) → Moves keeps_cache (create_default_routes_if_not_exist env r vni)
  unfolding create_default_routes_if_not_exist
  create_default_routes-keeps_cache vni = Moves-bind _ _ (Moves-gets _) λ router.
      Moves-if (not (is_valid router.router_address)) _ _ (Moves-raise _) (
        Moves-bind _ _
          (Moves-context "error creating ipv4 route: " _ (
            call-keeps_cache env (
              create_route vni default_route_prefix vni router.router_address (route_exists ∷ []))))
          λ _.
            Moves-if r.enable_ipv6_support _ (pure tt)
              (Moves-context "error creating ipv6 route: " _ (
                call-keeps_cache env (
                  create_route vni default_ipv6_route_prefix vni router.router_address
                    (route_exists ∷ []))))
              (Moves-pure tt))

  newest-subscribe :
      (vni : ℕ) (w : World)
      → newest (subscribe_if_not_subscribed env r vni w).1.trace ≡ some (subscribe vni)
  unfolding subscribe_if_not_subscribed unless_ignored subscribe_vni call
  newest-subscribe vni w = refl

  module _ (network : Network) (vni : ℕ) where
    -- What a reconciliation for a VNI in use has done when it returns nil.
    abbrev pub Present : World → World → Type 0
    Present w w' =
        ((v q : ℕ)
          → has_peer w'.cache v q
            ≡ (if vni == v then has (map u32 network.spec.peered_ids) q else has_peer w.cache v q))
        × (newest w'.trace ≡ some (subscribe vni))

    reconcile_present-Present :
        (w : World) (b : Bool)
        → (reconcile_present env r network vni w).0 ≡ ok b
        → (b ≡ false) × Present w (reconcile_present env r network vni w).1
    unfolding reconcile_present
    reconcile_present-Present w b h =
        let (_, a₁, e₁) = >>=-ok (create_default_routes_if_not_exist env r vni) _ w h in
        let h₁ = rw e₁ at h in
        let (_, a₂, e₂) = >>=-ok (reconcile_peered_vnis env r network vni true) _ _ h₁ in
        let h₂ = rw e₂ at h₁ in
        let (_, a₃, e₃) = >>=-ok (subscribe_if_not_subscribed env r vni) _ _ h₂ in
        let u = (create_default_routes_if_not_exist env r vni w).1 in
        let net = λ (c : Call) (_ : is_api c ≡ false). call-keeps_cache env c in
        let kept =
          (subscribe_if_not_subscribed-Moves env r keeps_cache net vni).from
            (reconcile_peered_vnis env r network vni true u).1 in
        let first = (create_default_routes-keeps_cache vni).from w in
        let h₃ = rw e₃ at h₂ in
        let done = reconcile_peered_vnis-refines env r vni network u a₂ in
        (
          ground arith,
          rw (e₁, e₂, e₃)
              (
                (λ v q. rw kept (
                    subst
                      (λ c.
                        has_peer (reconcile_peered_vnis env r network vni true u).1.cache v q ≡ (
                          if vni == v
                          then has (map u32 network.spec.peered_ids) q
                          else has_peer c v q))
                      first (done v q))),
                newest-subscribe vni (reconcile_peered_vnis env r network vni true u).1,
              ),
        )

  -- If the finalizer was there and dp-service has the VNI in use, a reconciliation that returns nil
  -- does not ask to be run again, leaves the VNI with exactly the peers of the specification and
  -- other VNIs with the peers that they had, and its last call subscribes to the VNI.
  pub reconcile-Present :
      (network : Network) (w : World) (b : Bool)
      → let ensure = ensure_finalizer (network_object network) (network_finalizer env r) in
        let vni = u32 network.spec.id in
        env.answer w.trace ensure ≡ gives false
        → env.answer (record { call = ensure; succeeded = true } ∷ w.trace) (get_vni vni 0)
          ≡ gives true
        → (reconcile env r network w).0 ≡ ok b
        → (b ≡ false) × Present network vni w (reconcile env r network w).1
  unfolding reconcile ◌>>=◌ context call
  reconcile-Present network w b p q h =
      rw (p, q) (reconcile_present-Present network (u32 network.spec.id) _ b (rw (p, q) at h))
