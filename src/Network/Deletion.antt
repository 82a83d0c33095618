-- ===== src/Network/Deletion.antt =====
-- controllers/network_controller.go: the deletion of a network, its cleanup and its finalizer.
use metalnet.Base.{
  ℕ, ◌≡◌, ◌≢◌, refl, ◌⊎◌, inl, inr, Bool, true, false, not, ◌∷◌, arith, nat_eq, nat_beq_iff,
}
use metalnet.Base.Result.{Result, ok, err, panic, wrap_error}
use metalnet.Base.Exec.{pure, ◌>>=◌, >>=-ok, continue, context}
use metalnet.Cache.{get_peer_vnis, remove_vni_from_peer_vnis}
use metalnet.Cache.Peers.{has_peer}
use metalnet.Api.{Network}
use metalnet.Effects.{
  Env, Call, Event, M, World, call, get_vni, is_api, u32, remove_finalizer, succeeds, to_result,
}
use metalnet.Effects.Invariants.{
  keeps_cache, call-keeps_cache, Moves-if, Extends, only, call-only, on_cache-only,
}
use metalnet.Effects.Writes.{Writes, Writes-on_cache, Writes-kept, Writes-bind, Writes-for_each}
use metalnet.Metalbond.Frames.{cleanup_not_peered_routes-Moves}
use metalnet.Network.{
  NetworkReconciler, network_finalizer, network_object, unsubscribe_if_subscribed,
  delete_default_route_if_exists, delete_peered, delete_peered_vnis, cleanup_network, delete,
}
use metalnet.Network.Frames.{unsubscribe_if_subscribed-Moves, cleanup_network-Moves}
use metalnet.Network.Rewiring.{has_peer-remove_all}

-- The call goes to dp-service or metalbond.
abbrev pub IsDataPlane : Event → Type 0
IsDataPlane e = is_api e.call ≡ false

module _ (env : Env) (r : NetworkReconciler) (vni : ℕ) where
  delete_peered-Writes :
      (p : ℕ) → Writes (delete_peered env r vni p) (remove_vni_from_peer_vnis vni p)
  unfolding delete_peered
  delete_peered-Writes p =
      let net = λ (c : Call) (_ : is_api c ≡ false). call-keeps_cache env c in
      Writes-bind _ _ (remove_vni_from_peer_vnis vni p) (λ c. c) (Writes-on_cache _)
        λ _.
          Writes-bind _ _ (λ c. c) (λ c. c)
            (Writes-kept (call env (get_vni p 0)) (call-keeps_cache env (get_vni p 0)))
            λ in_use. Writes-kept _ (
              Moves-if (not in_use) _ _ (unsubscribe_if_subscribed-Moves env r keeps_cache net p)
                (cleanup_not_peered_routes-Moves env keeps_cache net r.client p))

  delete_peered_vnis-cache :
      (w : World)
      → (delete_peered_vnis env r vni w).0 ≡ ok tt
      → (q : ℕ) → has_peer (delete_peered_vnis env r vni w).1.cache vni q ≡ false
  unfolding delete_peered_vnis ◌>>=◌
  delete_peered_vnis-cache w h q =
      let peers = (get_peer_vnis vni w.cache).0 in
      rw
        (
          (Writes-for_each _ (delete_peered env r vni) delete_peered-Writes peers).on_ok w tt h,
          has_peer-remove_all vni peers vni q w.cache,
        )
        (ground (arith, nat_beq_iff vni vni))

  cleanup_network-cache :
      (w : World)
      → (cleanup_network env r vni w).0 ≡ ok tt
      → (q : ℕ) → has_peer (cleanup_network env r vni w).1.cache vni q ≡ false
  unfolding cleanup_network
  cleanup_network-cache w h q =
      let (_, _, e) = >>=-ok (unsubscribe_if_subscribed env r vni) _ w h in
      let h' = rw e at h in
      let (_, _, e') = >>=-ok (delete_default_route_if_exists env r vni) _ _ h' in
      rw (e, e') (delete_peered_vnis-cache _ (rw e' at h') q)

  cleanup_network-IsDataPlane : (w : World) → Extends IsDataPlane w (cleanup_network env r vni w).1
  cleanup_network-IsDataPlane w =
      (cleanup_network-Moves env r (only IsDataPlane) (λ c h. call-only IsDataPlane env c (λ _. h))
          (on_cache-only IsDataPlane) vni).from
        w

module _ (env : Env) (r : NetworkReconciler) (network : Network) where
  -- The call that removes the finalizer, and the answer to it.
  abbrev pub removal_event : World → Event
  removal_event w =
      let c = remove_finalizer (network_object network) (network_finalizer env r) in
      record { call = c; succeeded = succeeds (env.answer w.trace c) }

  -- What a deletion has done: the cleanup makes calls of dp-service and metalbond only. If it
  -- succeeded, the VNI has no peers left in the cache and one more call removes the finalizer;
  -- if not, nothing follows it and the deletion does not return nil.
  abbrev pub Deleted : World → Result Bool × World → Type 0
  Deleted w (res, w') =
      let c = cleanup_network env r (u32 network.spec.id) w in
      Extends IsDataPlane w c.1
      × (((c.0 ≡ ok tt)
            × ((q : ℕ) → has_peer w'.cache (u32 network.spec.id) q ≡ false)
            × (w'.trace ≡ removal_event c.1 ∷ c.1.trace))
          ⊎ ((c.0 ≢ ok tt) × (w' ≡ c.1) × ((b : Bool) → res ≢ ok b)))

  last_step : M Bool
  last_step =
      context "error removing finalizer: "
        (call env (remove_finalizer (network_object network) (network_finalizer env r)))
      >>= λ _. pure false

  world_of_pure :
      {A : Type 0} (res : Result A) (v : World) → (continue res (λ _. pure false) v).1 ≡ v
  world_of_pure (ok a) v = refl
  world_of_pure (err e) v = refl
  world_of_pure (panic e) v = refl

  last_step-world : (v : World) → (last_step v).1 ≡ record v { trace = removal_event v ∷ v.trace }
  unfolding last_step ◌>>=◌ context call
  last_step-world v =
      world_of_pure
        (wrap_error "error removing finalizer: " (
          to_result (
            env.answer v.trace
              (remove_finalizer (network_object network) (network_finalizer env r)))))
        (record v { trace = removal_event v ∷ v.trace })

  after_cleanup :
      (vni : ℕ) (res : Result (Unit {0})) (v : World)
      → (res ≡ ok tt → (q : ℕ) → has_peer v.cache vni q ≡ false)
      → let d = continue res (λ _. last_step) v in
        ((res ≡ ok tt)
          × ((q : ℕ) → has_peer d.1.cache vni q ≡ false)
          × (d.1.trace ≡ removal_event v ∷ v.trace))
        ⊎ ((res ≢ ok tt) × (d.1 ≡ v) × ((b : Bool) → d.0 ≢ ok b))
  after_cleanup vni (ok tt) v h =
      inl (refl, rw (last_step-world v) (h refl), rw (last_step-world v))
  after_cleanup vni (err e) v h = inr (λ q. cc, refl, λ b q. cc)
  after_cleanup vni (panic e) v h = inr (λ q. cc, refl, λ b q. cc)

  -- A deletion of a network that has the finalizer cleans up first, and removes the finalizer
  -- exactly if the cleanup succeeded.
  pub delete-Deleted :
      (w : World)
      → env.contains_finalizer network.meta.finalizers (network_finalizer env r) ≡ true
      → Deleted w (delete env r network w)
  unfolding delete ◌>>=◌ last_step
  delete-Deleted w h =
      let vni = u32 network.spec.id in
      let c = cleanup_network env r vni w in
      rw h (
        cleanup_network-IsDataPlane env r vni w,
        after_cleanup vni c.0 c.1 (cleanup_network-cache env r vni w),
      )
