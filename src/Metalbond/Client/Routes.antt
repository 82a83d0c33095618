-- ===== src/Metalbond/Client/Routes.antt =====
-- Which routes of dp-service AddRoute and RemoveRoute change for a route of metalbond.
use metalnet.Base.{
  ℕ, ◌≡◌, ◌∙◌, Bool, true, false, inl, inr, not, ◌&&◌, Option, List, [], ◌∷◌, map, select,
  Bool-cases, String, ◌==◌, nat_eq, string_eq,
}
use metalnet.Base.Result.{Result, ok, err, panic, no_vni, route_not_found, route_exists}
use metalnet.Base.Exec.{context, ◌>>=◌, continue}
use metalnet.Base.Map.{Map}
use metalnet.Cache.{get_peer_vnis, get_peered_prefixes}
use metalnet.Netip.{Prefix, prefix_string}
use metalnet.Wire.{Destination, NextHop, standard}
use metalnet.Effects.{Env, Call, World, DefaultRouterAddress, create_route, delete_route}
use metalnet.Effects.Traces.{Made}
use metalnet.Effects.Invariants.{Moves, keeps_cache, call-keeps_cache, Moves-context}
use metalnet.Effects.Loops.{
  Does, IsCalm, Does-pure, Does-call, Does-context, IsCalm-pure, IsCalm-call, IsCalm-context,
}
use metalnet.Metalbond.Client.{
  ClientOptions, is_ipv4, is_standard, allows, add_by_type, add_local_route, add_peered_routes,
  add_to_peers, add_route, remove_by_type, remove_local_route, remove_peered_routes,
  remove_from_peers, remove_route, filter_default_route, joined,
}
use metalnet.Metalbond.Client.Noting.{noting-Made, noting-Does, joined-Does}
use metalnet.Metalbond.RouteUtil.{DefaultRouteOperation, add_default_route, remove_default_route}

-- Whether FilterDefaultRoute takes the route for the one to the default router.
abbrev pub is_default_route : DefaultRouterAddress → ℕ → Destination → Bool
is_default_route router vni dest =
    (vni == router.public_vni) && (prefix_string dest.prefix == "0.0.0.0/0")

module _ (env : Env) (config : ClientOptions) (vni : ℕ) (dest : Destination) (hop : NextHop) where
  -- The call that installs the route in a VNI, and the one that deletes it there.
  abbrev pub creation : ℕ → Call
  creation v = create_route v dest.prefix vni hop.target_address (route_exists ∷ [])

  abbrev pub removal : ℕ → Call
  removal v = delete_route v dest.prefix (no_vni ∷ route_not_found ∷ [])

  -- The route is one between hosts, and of a kind that the client installs.
  pub record IsPlain : Type 0 where
    pub accepted : (config.ipv4_only && not (is_ipv4 dest.ip_version)) ≡ false
    pub to_host : hop.hop_type ≡ standard

  filter_default_route-pass :
      (operation : DefaultRouteOperation) (w : World)
      → is_default_route w.router vni dest ≡ false
      → filter_default_route env config operation vni dest hop w ≡ (ok false, w)
  unfolding filter_default_route ◌>>=◌
  filter_default_route-pass operation w h = elim (Bool-cases (vni == w.router.public_vni)) [
    | inl p ↦ let q : (prefix_string dest.prefix == "0.0.0.0/0") ≡ false = rw p at h in rw (p, q)
    | inr p ↦ rw p
  ]

  is_standard-true : IsPlain → is_standard hop.hop_type ≡ true
  unfolding is_standard
  is_standard-true h = rw h.to_host

  add_local_route-Does :
      (v : ℕ) → IsPlain → Does (add_local_route env config vni v dest hop) (creation v ∷ [])
  unfolding add_local_route add_by_type
  add_local_route-Does v ok_hop =
      rw (ok_hop.accepted, ok_hop.to_host) (Does-context _ _ _ (Does-call env (creation v)))

  add_local_route-IsCalm : (v : ℕ) → IsPlain → IsCalm (add_local_route env config vni v dest hop)
  unfolding add_local_route add_by_type
  add_local_route-IsCalm v ok_hop =
      rw (ok_hop.accepted, ok_hop.to_host) (IsCalm-context _ _ (IsCalm-call env (creation v)))

  add_local_route-keeps_cache :
      (v : ℕ) → IsPlain → Moves keeps_cache (add_local_route env config vni v dest hop)
  unfolding add_local_route add_by_type
  add_local_route-keeps_cache v ok_hop =
      rw (ok_hop.accepted, ok_hop.to_host)
        (Moves-context "error creating route: " _ (call-keeps_cache env (creation v)))

  remove_local_route-Does :
      (v : ℕ) → IsPlain → Does (remove_local_route env config vni v dest hop) (removal v ∷ [])
  unfolding remove_local_route remove_by_type
  remove_local_route-Does v ok_hop =
      rw (ok_hop.accepted, ok_hop.to_host) (Does-context _ _ _ (Does-call env (removal v)))

  remove_local_route-IsCalm :
      (v : ℕ) → IsPlain → IsCalm (remove_local_route env config vni v dest hop)
  unfolding remove_local_route remove_by_type
  remove_local_route-IsCalm v ok_hop =
      rw (ok_hop.accepted, ok_hop.to_host) (IsCalm-context _ _ (IsCalm-call env (removal v)))

  remove_local_route-keeps_cache :
      (v : ℕ) → IsPlain → Moves keeps_cache (remove_local_route env config vni v dest hop)
  unfolding remove_local_route remove_by_type
  remove_local_route-keeps_cache v ok_hop =
      rw (ok_hop.accepted, ok_hop.to_host)
        (Moves-context "error deleting route: " _ (call-keeps_cache env (removal v)))

  add_peered_routes-Does :
      (prefixes : Option (Map ℕ (List Prefix))) (peers : List ℕ)
      → IsPlain
      → Does
          (add_peered_routes env config vni dest hop prefixes peers)
          (map creation (select (λ p. allows prefixes p dest.prefix.addr) peers))
  unfolding add_peered_routes
  add_peered_routes-Does prefixes [] h = Does-pure []
  add_peered_routes-Does prefixes (p ∷ peers) h =
      let rest = add_peered_routes-Does prefixes peers h in
      elim (Bool-cases (allows prefixes p dest.prefix.addr)) [
        | inl e ↦
            rw e (noting-Does _ _ _ _ (add_local_route-IsCalm p h) (add_local_route-Does p h) rest)
        | inr e ↦ rw e (noting-Does _ _ [] _ (IsCalm-pure tt) (Does-pure tt) rest)
      ]

  remove_peered_routes-Does :
      (peers : List ℕ)
      → IsPlain
      → Does (remove_peered_routes env config vni dest hop peers) (map removal peers)
  unfolding remove_peered_routes
  remove_peered_routes-Does [] h = Does-pure []
  remove_peered_routes-Does (p ∷ peers) h = rw (is_standard-true h) (
      noting-Does _ _ _ _ (remove_local_route-IsCalm p h) (remove_local_route-Does p h)
        (remove_peered_routes-Does peers h))

  run_joined :
      (w v : World) (cs : List Call) (r : Result (List String))
      → Made cs w v
      → Made cs w (continue r joined v).1
  run_joined w v cs (ok errs) h = (joined-Does errs).made v ∙ h
  run_joined w v cs (err e) h = h
  run_joined w v cs (panic p) h = h

  -- The peers of the VNI whose allowed prefixes, where some are set, have the destination.
  abbrev pub allowed_peers : World → List ℕ
  allowed_peers w =
      select (λ p. allows (get_peered_prefixes vni w.cache) p dest.prefix.addr)
        (get_peer_vnis vni w.cache).0

  -- AddRoute of a plain route that is not the one to the default router tries to install it in its
  -- own VNI and then in every VNI of its peers whose allowed prefixes, where some are set, have the
  -- destination, and makes no other call. This holds whether the single calls succeed or fail.
  pub add_route-installs :
      (w : World)
      → IsPlain
      → is_default_route w.router vni dest ≡ false
      → Made
          (creation vni ∷ map creation (allowed_peers w))
          w
          (add_route env config vni dest hop w).1
  unfolding add_route add_to_peers ◌>>=◌ context
  add_route-installs w h d =
      let rest : List Call = map creation (allowed_peers w) in
      rw (filter_default_route-pass add_default_route w d, is_standard-true h)
        (run_joined w _ (creation vni ∷ rest) _ (
          noting-Made _ _ (creation vni ∷ []) rest w (add_local_route-IsCalm vni h)
            ((add_local_route-Does vni h).made w)
            (rw ((add_local_route-keeps_cache vni h).from w) (
              (add_peered_routes-Does (get_peered_prefixes vni w.cache)
                  (get_peer_vnis vni w.cache).0 h).made
                (add_local_route env config vni vni dest hop w).1))))

  -- RemoveRoute of a plain route that is not the one to the default router tries to delete it in
  -- its own VNI and in every VNI of its peers, those too whose allowed prefixes do not have the
  -- destination, and makes no other call, whether the single calls succeed or fail.
  pub remove_route-deletes :
      (w : World)
      → IsPlain
      → is_default_route w.router vni dest ≡ false
      → Made
          (removal vni ∷ map removal (get_peer_vnis vni w.cache).0)
          w
          (remove_route env config vni dest hop w).1
  unfolding remove_route remove_from_peers ◌>>=◌ context
  remove_route-deletes w h d =
      let rest : List Call = map removal (get_peer_vnis vni w.cache).0 in
      rw (filter_default_route-pass remove_default_route w d) (
        run_joined w _ (removal vni ∷ rest) _ (
          noting-Made _ _ (removal vni ∷ []) rest w (remove_local_route-IsCalm vni h)
            ((remove_local_route-Does vni h).made w)
            (rw ((remove_local_route-keeps_cache vni h).from w) (
              (remove_peered_routes-Does (get_peer_vnis vni w.cache).0 h).made
                (remove_local_route env config vni vni dest hop w).1))))
