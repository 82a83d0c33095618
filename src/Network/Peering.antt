-- ===== src/Network/Peering.antt =====
-- controllers/network_controller.go: reconcilePeeredVNIs and the peerings of the cache.
use metalnet.Base.{
  ℕ, ◌≡◌, ◌∙◌, ap, Bool, true, false, not, ◌&&◌, ◌||◌, List, [], ◌∷◌, map, if◌then◌else◌, ◌==◌,
  nat_eq,
}
use metalnet.Base.Sets.{has, difference, has-of_list}
use metalnet.Base.Result.{ok}
use metalnet.Base.Exec.{pure, ◌>>=◌, for_each}
use metalnet.Cache.{
  get_peer_vnis, set_peered_prefixes, add_vni_to_peer_vnis, remove_vni_from_peer_vnis,
}
use metalnet.Cache.Peers.{has_peer}
use metalnet.Api.{Network}
use metalnet.Effects.{Env, World, call, get_vni, u32}
use metalnet.Effects.Invariants.{keeps_cache, call-keeps_cache}
use metalnet.Effects.Writes.{
  Writes, Writes-pure, Writes-on_cache, Writes-kept, Writes-if, Writes-bind, Writes-for_each,
  apply_all,
}
use metalnet.Network.{
  NetworkReconciler, is_empty, peered_prefixes_of, spec_peer_vnis, drop_missing, add_new,
  add_all_new, drop_if_unavailable, reconcile_peered_vnis, update_peers,
}
use metalnet.Network.Frames.{after_missing-Moves, after_added-Moves}
use metalnet.Network.Rewiring.{
  remove_all, add_all, exchange, rewire, rewire-available, rewire-unavailable,
}

module _ (env : Env) (r : NetworkReconciler) (vni : ℕ) where
  drop_missing-Writes :
      (own : Bool) (p : ℕ) → Writes (drop_missing env r vni own p) (remove_vni_from_peer_vnis vni p)
  unfolding drop_missing
  drop_missing-Writes own p =
      Writes-bind _ _ (λ c. c) _
        (Writes-kept (call env (get_vni p 0)) (call-keeps_cache env (get_vni p 0)))
        λ in_use.
          Writes-bind _ _ (remove_vni_from_peer_vnis vni p) (λ c. c) (Writes-on_cache _)
            λ _. Writes-kept _ (
              after_missing-Moves env r keeps_cache (λ c _. call-keeps_cache env c) vni own p
                in_use)

  add_new-Writes :
      (own : Bool) (p : ℕ) → Writes (add_new env r vni own p) (add_vni_to_peer_vnis vni p)
  unfolding add_new
  add_new-Writes own p =
      Writes-bind _ _ (λ c. c) _
        (Writes-kept (call env (get_vni p 0)) (call-keeps_cache env (get_vni p 0)))
        λ in_use.
          Writes-bind _ _ (add_vni_to_peer_vnis vni p) (λ c. c) (Writes-on_cache _)
            λ _.
              Writes-kept _ (
                after_added-Moves env r keeps_cache (λ c _. call-keeps_cache env c) vni own p
                  in_use)

  add_all_new-Writes :
      (ps : List ℕ)
      → Writes (add_all_new env r vni true ps) (apply_all (add_vni_to_peer_vnis vni) ps)
  unfolding add_all_new
  add_all_new-Writes [] = Writes-pure tt
  add_all_new-Writes (p ∷ ps) =
      Writes-bind _ _ (add_vni_to_peer_vnis vni p) (apply_all (add_vni_to_peer_vnis vni) ps)
        (add_new-Writes true p) λ _. add_all_new-Writes ps

  drop_if_unavailable-Writes :
      (own : Bool) (p : ℕ)
      → Writes
          (drop_if_unavailable env r vni own p)
          (if not own then remove_vni_from_peer_vnis vni p else (λ c. c))
  unfolding drop_if_unavailable
  drop_if_unavailable-Writes own p =
      Writes-if (not own) _ (pure tt) _ (λ c. c) (Writes-on_cache _) (Writes-pure tt)

  add_all_new-unavailable : (ps : List ℕ) → Writes (add_all_new env r vni false ps) (λ c. c)
  unfolding add_all_new
  add_all_new-unavailable [] = Writes-pure tt
  add_all_new-unavailable (p ∷ ps) = Writes-pure tt

  exchange-Writes :
      (own : Bool) (peers spec : List ℕ)
      → Writes
          (for_each (difference peers spec) (drop_missing env r vni own) >>= λ _.
            add_all_new env r vni own (difference spec peers))
          (exchange vni own peers spec)
  exchange-Writes true peers spec =
      Writes-bind _ _ (remove_all vni (difference peers spec)) (add_all vni (difference spec peers))
        (Writes-for_each _ (drop_missing env r vni true) (drop_missing-Writes true)
          (difference peers spec))
        λ _. add_all_new-Writes (difference spec peers)
  exchange-Writes false peers spec =
      Writes-bind _ _ (remove_all vni (difference peers spec)) (λ c. c)
        (Writes-for_each _ (drop_missing env r vni false) (drop_missing-Writes false)
          (difference peers spec))
        λ _. add_all_new-unavailable (difference spec peers)

  update_peers-Writes :
      (network : Network) (own : Bool) (peers : List ℕ)
      → Writes (update_peers env r network vni own peers) (λ c.
        rewire vni own peers
          (spec_peer_vnis network)
          (set_peered_prefixes vni (peered_prefixes_of network.spec.peered_prefixes []) c))
  unfolding update_peers
  update_peers-Writes network own peers =
      let spec = spec_peer_vnis network in
      Writes-bind _ _ (set_peered_prefixes vni (peered_prefixes_of network.spec.peered_prefixes []))
        (rewire vni own peers spec) (Writes-on_cache _)
        λ _.
          Writes-if (is_empty (difference peers spec) && is_empty (difference spec peers)) _ _ _ _
            (Writes-if (is_empty peers) (pure tt) _ (λ c. c) _ (Writes-pure tt)
              (Writes-for_each _ (drop_if_unavailable env r vni own)
                (drop_if_unavailable-Writes own) peers))
            (exchange-Writes own peers spec)

  module _ (network : Network) (w : World) where
    -- If the VNI is in use and reconcilePeeredVNIs returns nil, the peers of the VNI in the cache
    -- are exactly those that the specification lists, and the peers of other VNIs are as before.
    pub reconcile_peered_vnis-refines :
        (reconcile_peered_vnis env r network vni true w).0 ≡ ok tt
        → (v q : ℕ)
        → has_peer (reconcile_peered_vnis env r network vni true w).1.cache v q
          ≡ (if vni == v then has (map u32 network.spec.peered_ids) q else has_peer w.cache v q)
    unfolding reconcile_peered_vnis ◌>>=◌ set_peered_prefixes get_peer_vnis spec_peer_vnis
    reconcile_peered_vnis-refines h v q =
        let ids = map u32 network.spec.peered_ids in
        rw ((update_peers-Writes network true (get_peer_vnis vni w.cache).0).on_ok w tt h) (
          rewire-available vni (spec_peer_vnis network)
            (set_peered_prefixes vni (peered_prefixes_of network.spec.peered_prefixes []) w.cache) v
            q
          ∙ ap (λ b. if vni == v then b else has_peer w.cache v q) (has-of_list q ids))

    -- If the VNI is not in use and reconcilePeeredVNIs returns nil, no peering is added: the VNI
    -- loses the peers that the specification does not list, all of them if the peers were exactly
    -- the listed ones, and the peers of other VNIs are as before.
    pub reconcile_peered_vnis-withdraws :
        (reconcile_peered_vnis env r network vni false w).0 ≡ ok tt
        → (v q : ℕ)
        → let peers = (get_peer_vnis vni w.cache).0 in
          let spec = spec_peer_vnis network in
          has_peer (reconcile_peered_vnis env r network vni false w).1.cache v q ≡ (
            has_peer w.cache v q
            && not (
                (vni == v)
                && (not (has spec q)
                    || is_empty (difference peers spec) && is_empty (difference spec peers))))
    unfolding reconcile_peered_vnis ◌>>=◌ set_peered_prefixes get_peer_vnis
    reconcile_peered_vnis-withdraws h v q =
        rw ((update_peers-Writes network false (get_peer_vnis vni w.cache).0).on_ok w tt h) (
          rewire-unavailable vni (spec_peer_vnis network)
            (set_peered_prefixes vni (peered_prefixes_of network.spec.peered_prefixes []) w.cache) v
            q)
