-- ===== src/Metalbond/Client.antt =====
-- metalbond/metalbond_client.go: routes that metalbond reports become routes, load balancer targets
-- and neighbour NATs of dp-service. The calls `NewMetalnetClient` and `SetMetalBond` only store
-- their arguments; the numbers that `uint32` converts are VNIs, which are such numbers already.
pub mod Cleanup
pub mod Noting
pub mod Routes
pub mod DefaultRoute
use Prim.Native.String.{String, ◌++◌}
use metalnet.Base.{
  ℕ, ◌==◌, nat_eq, string_eq, Bool, true, false, not, ◌&&◌, ◌||◌, Option, none, some, List, [], ◌∷◌,
  if◌then◌else◌,
}
use metalnet.Base.Map.{Map, lookup}
use metalnet.Base.Sets.{has}
use metalnet.Base.Result.{
  Err, Result, ok, err, panic, plain, wrap, message, no_vni, route_not_found, route_exists,
  already_exists, not_found, no_backip, no_lb,
}
use metalnet.Base.Exec.{pure, raise, gets, modify, attempt, context, for_each, ◌>>=◌, ◌>>◌}
use metalnet.Netip.{
  Addr, no_addr, ip4, Prefix, addr_string, prefix_string, decimal, ip_net_contains, contains,
}
use metalnet.Cache.{MetalnetCache, get_load_balancer_server, get_peer_vnis, get_peered_prefixes}
use metalnet.Wire.{
  IpVersion, ipv4, ipv6, no_version, Destination, NextHop, HopType, standard, nat,
  loadbalancer_target, other_hop, DpdkRoute,
}
use metalnet.Effects.{
  DefaultRouterAddress, Env, Call, M, World, call, create_route, delete_route, list_routes,
  create_lb_target, delete_lb_target, create_neighbor_nat, delete_neighbor_nat,
}
use metalnet.Metalbond.RouteUtil.{DefaultRouteOperation, add_default_route, remove_default_route}

pub record ClientOptions : Type 0 where
  pub ipv4_only : Bool
  pub preferred_network : Option Prefix

unfoldable pub is_ipv4 : IpVersion → Bool
is_ipv4 ipv4 = true
is_ipv4 _ = false

unfoldable pub is_standard : HopType → Bool
is_standard standard = true
is_standard _ = false

abbrev pub non_ipv4_route : Err
non_ipv4_route =
    plain "received non-IPv4 route will not be installed in kernel route table (IPv4-only mode)"

unfoldable pub no_registered_lb : ℕ → String → Err
no_registered_lb vni ip =
    plain
      ("no registered LoadBalancer on this client for vni " ++ (decimal vni ++ (" and ip " ++ ip)))

-- 0.0.0.0/0
abbrev pub default_route_prefix : Prefix
default_route_prefix = record { addr = ip4 0; bits = some 0 }

-- Whether the preferred network, if there is one, has the address.
unfoldable pub is_preferred : Option Prefix → Addr → Bool
is_preferred none a = true
is_preferred (some n) a = ip_net_contains n a

-- Whether the prefixes that are set for the peer, if any are, have the address.
unfoldable pub any_contains : List Prefix → Addr → Bool
any_contains [] a = false
any_contains (p ∷ ps) a = contains p a || any_contains ps a

unfoldable pub allows : Option (Map ℕ (List Prefix)) → ℕ → Addr → Bool
unfolding any_contains
allows none peered a = true
allows (some m) peered a = elim (lookup peered m) [ none ↦ true | some ps ↦ any_contains ps a ]

-- strings.Join(strs, "\n")
unfoldable pub join_lines : String → List String → String
join_lines s [] = s
join_lines s (t ∷ ts) = s ++ ("\n" ++ join_lines t ts)

unfoldable pub joined : List String → M (Unit {0})
unfolding join_lines
joined [] = pure tt
joined (s ∷ ss) = raise (plain (join_lines s ss))

-- if err := m(); err != nil { errStrs = append(errStrs, err.Error()) }, before what follows
unfoldable pub noting : M (Unit {0}) → M (List String) → M (List String)
unfolding ◌>>=◌ attempt
noting m rest = do
  r ← attempt m
  errs ← rest
  pure (elim r [ ok a ↦ errs | err e ↦ message e ∷ errs | panic p ↦ errs ])

-- Whether CleanupNotPeeredRoutes deletes a route of the VNI.
unfoldable pub is_stale : ℕ → List ℕ × Bool → DpdkRoute → Bool
is_stale vni (set, known) r = not (r.next_hop_vni == vni) && (known && not (has set r.next_hop_vni))

module _ (env : Env) (config : ClientOptions) where
  unfoldable pub add_lb_target : ℕ → Destination → NextHop → M (Unit {0})
  unfolding ◌>>=◌ context
  add_lb_target vni dest hop = do
    let ip = addr_string dest.prefix.addr
    server ← gets (λ w. get_load_balancer_server vni ip w.cache)
    elim server [
      | none ↦ raise (no_registered_lb vni ip)
      | some uid ↦
          if is_preferred config.preferred_network hop.target_address
          then context "error creating lb target: "
              (call env (create_lb_target uid hop.target_address (already_exists ∷ [])))
          else pure tt
    ]

  unfoldable pub add_by_type : ℕ → ℕ → Destination → NextHop → HopType → M (Unit {0})
  unfolding context
  add_by_type dest_vni vni dest hop loadbalancer_target = add_lb_target vni dest hop
  add_by_type dest_vni vni dest hop nat = context "error nat route: " (
      call env (
        create_neighbor_nat dest.prefix.addr vni hop.nat_port_range_from hop.nat_port_range_to
          hop.target_address (already_exists ∷ [])))
  add_by_type dest_vni vni dest hop _ =
      context "error creating route: "
        (call env (create_route vni dest.prefix dest_vni hop.target_address (route_exists ∷ [])))

  unfoldable pub add_local_route : ℕ → ℕ → Destination → NextHop → M (Unit {0})
  add_local_route dest_vni vni dest hop =
      if config.ipv4_only && not (is_ipv4 dest.ip_version)
      then raise non_ipv4_route
      else add_by_type dest_vni vni dest hop hop.hop_type

  unfoldable pub remove_lb_target : ℕ → Destination → NextHop → M (Unit {0})
  unfolding ◌>>=◌ context
  remove_lb_target vni dest hop = do
    let ip = addr_string dest.prefix.addr
    server ← gets (λ w. get_load_balancer_server vni ip w.cache)
    elim server [
      | none ↦ raise (no_registered_lb vni ip)
      | some uid ↦
          context "error deleting lb target: " (
            call env (delete_lb_target uid hop.target_address (not_found ∷ no_backip ∷ no_lb ∷ [])))
    ]

  unfoldable pub remove_by_type : ℕ → Destination → NextHop → HopType → M (Unit {0})
  unfolding context
  remove_by_type vni dest hop loadbalancer_target = remove_lb_target vni dest hop
  remove_by_type vni dest hop nat = context "error deleting nat route: " (
      call env (
        delete_neighbor_nat dest.prefix.addr vni hop.nat_port_range_from hop.nat_port_range_to
          hop.target_address (not_found ∷ [])))
  remove_by_type vni dest hop _ =
      context "error deleting route: "
        (call env (delete_route vni dest.prefix (no_vni ∷ route_not_found ∷ [])))

  unfoldable pub remove_local_route : ℕ → ℕ → Destination → NextHop → M (Unit {0})
  remove_local_route dest_vni vni dest hop =
      if config.ipv4_only && not (is_ipv4 dest.ip_version)
      then raise non_ipv4_route
      else remove_by_type vni dest hop hop.hop_type

  unfoldable pub set_default_router_address : Addr → M (Unit {0})
  set_default_router_address a w = (
    ok tt,
    record w { router = record w.router { router_address = a; set_by_subscription = true } },
  )

  -- The body of the loop of handleDefaultRouterChange. The lock is held over the loop, so the
  -- router does not change in it.
  unfoldable pub change_default_route :
      DefaultRouteOperation → DefaultRouterAddress → ℕ → M (Unit {0})
  unfolding context
  change_default_route remove_default_route router vni =
      if vni == router.public_vni
      then pure tt
      else context "error deleting default route: "
          (call env (delete_route vni default_route_prefix (no_vni ∷ route_not_found ∷ [])))
  change_default_route add_default_route router vni =
      if vni == router.public_vni
      then pure tt
      else context "error creating default route: " (
          call env
            (create_route vni default_route_prefix vni router.router_address (route_exists ∷ [])))

  unfoldable pub handle_default_router_change : DefaultRouteOperation → M (Unit {0})
  unfolding ◌>>=◌
  handle_default_router_change operation = do
    existing ← gets (λ w. env.subscribed_vnis w.trace)
    router ← gets (λ w. w.router)
    for_each existing (change_default_route operation router)

  unfoldable pub filter_default_route : DefaultRouteOperation → ℕ → Destination → NextHop → M Bool
  unfolding ◌>>=◌ context
  filter_default_route operation vni dest hop = do
    router ← gets (λ w. w.router)
    if not (vni == router.public_vni)
        then pure false
        else if not (prefix_string dest.prefix == "0.0.0.0/0")
        then pure false
        else do
          elim operation [
            | add_default_route ↦ set_default_router_address hop.target_address
            | remove_default_route ↦ set_default_router_address no_addr
          ]
          context "error handling default router change: " (handle_default_router_change operation)
          pure true

  unfoldable pub add_peered_routes :
      ℕ → Destination → NextHop → Option (Map ℕ (List Prefix)) → List ℕ → M (List String)
  unfolding noting
  add_peered_routes vni dest hop prefixes [] = pure []
  add_peered_routes vni dest hop prefixes (peered ∷ rest) =
      noting
        (if allows prefixes peered dest.prefix.addr
          then add_local_route vni peered dest hop
          else pure tt)
        (add_peered_routes vni dest hop prefixes rest)

  unfoldable pub add_to_peers : ℕ → Destination → NextHop → M (List String)
  unfolding ◌>>=◌
  add_to_peers vni dest hop = do
    peers ← gets (λ w. (get_peer_vnis vni w.cache).0)
    prefixes ← gets (λ w. get_peered_prefixes vni w.cache)
    add_peered_routes vni dest hop prefixes peers

  unfoldable pub add_route : ℕ → Destination → NextHop → M (Unit {0})
  unfolding ◌>>=◌ context noting
  add_route vni dest hop = do
    is_default ←
        context "error handling default router change: "
          (filter_default_route add_default_route vni dest hop)
    if is_default then pure tt else do
      errs ←
          noting (add_local_route vni vni dest hop)
            (if is_standard hop.hop_type then add_to_peers vni dest hop else pure [])
      joined errs

  unfoldable pub remove_peered_routes : ℕ → Destination → NextHop → List ℕ → M (List String)
  unfolding noting
  remove_peered_routes vni dest hop [] = pure []
  remove_peered_routes vni dest hop (peered ∷ rest) =
      noting (if is_standard hop.hop_type then remove_local_route vni peered dest hop else pure tt)
        (remove_peered_routes vni dest hop rest)

  unfoldable pub remove_from_peers : ℕ → Destination → NextHop → M (List String)
  unfolding ◌>>=◌
  remove_from_peers vni dest hop = do
    peers ← gets (λ w. (get_peer_vnis vni w.cache).0)
    remove_peered_routes vni dest hop peers

  unfoldable pub remove_route : ℕ → Destination → NextHop → M (Unit {0})
  unfolding ◌>>=◌ context noting
  remove_route vni dest hop = do
    is_default ←
        context "error handling default router change: "
          (filter_default_route remove_default_route vni dest hop)
    if is_default then pure tt else do
      errs ← noting (remove_local_route vni vni dest hop) (remove_from_peers vni dest hop)
      joined errs

  unfoldable pub delete_stale : ℕ → List ℕ × Bool → DpdkRoute → M (Unit {0})
  unfolding context
  delete_stale vni peers r =
      if is_stale vni peers r
      then context "error deleting route: "
          (call env (delete_route vni r.prefix (no_vni ∷ route_not_found ∷ [])))
      else pure tt

  unfoldable pub cleanup_not_peered_routes : ℕ → M (Unit {0})
  unfolding ◌>>=◌ context
  cleanup_not_peered_routes vni = do
    routes ← context "error listing dpdk routes: " (call env (list_routes vni))
    peers ← gets (λ w. get_peer_vnis vni w.cache)
    for_each routes (delete_stale vni peers)
