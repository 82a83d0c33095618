-- ===== src/Tests/RouteExamples.antt =====
-- Examples for the metalbond client.
use metalnet.Base.{
  ℕ, ◌≡◌, refl, true, false, not, List, [], ◌∷◌, ◌++◌, map, select, ◌==◌, nat_eq, string_eq,
}
use metalnet.Base.Result.{ok}
use metalnet.Netip.{prefix_string}
use metalnet.Cache.{get_peer_vnis}
use metalnet.Effects.{list_routes}
use metalnet.Effects.Traces.{Made}
use metalnet.Metalbond.RouteUtil.{add_default_route}
use metalnet.Metalbond.Client.{
  is_ipv4, cleanup_not_peered_routes, add_route, remove_route, filter_default_route,
}
use metalnet.Metalbond.Client.Cleanup.{Cleaned, cleanup_not_peered_routes-deletes}
use metalnet.Metalbond.Client.Routes.{
  is_default_route, creation, removal, IsPlain, allowed_peers, add_route-installs,
  remove_route-deletes,
}
use metalnet.Metalbond.Client.DefaultRoute.{new_router, change, filter_default_route-changes}
use metalnet.Tests.{env, options, world, listed_routes, destination, anywhere, hop}

is_plain : IsPlain env options 7 destination hop
unfolding is_ipv4
is_plain = record { accepted = refl; to_host = refl }

not_default : is_default_route world.router 7 destination ≡ false
not_default = refl

default_here : is_default_route world.router 100 anywhere ≡ true
unfolding prefix_string
default_here = refl

cleanup_not_peered_routes-deletes_example :
    let (res, w') = cleanup_not_peered_routes env options 7 world in
    Cleaned env options 7
      (get_peer_vnis 7 world.cache)
      listed_routes
      (record { call = list_routes 7; succeeded = true } ∷ world.trace)
      res
      w'.trace
cleanup_not_peered_routes-deletes_example =
    cleanup_not_peered_routes-deletes env options 7 world listed_routes refl

add_route-installs_example :
    Made
      (creation env options 7 destination hop 7
        ∷ map
            (creation env options 7 destination hop)
            (allowed_peers env options 7 destination hop world))
      world
      (add_route env options 7 destination hop world).1
add_route-installs_example =
    add_route-installs env options 7 destination hop world is_plain not_default

remove_route-deletes_example :
    Made
      (removal env options 7 destination hop 7
        ∷ map (removal env options 7 destination hop) (get_peer_vnis 7 world.cache).0)
      world
      (remove_route env options 7 destination hop world).1
remove_route-deletes_example =
    remove_route-deletes env options 7 destination hop world is_plain not_default

filter_default_route-changes_example :
    let w' = (filter_default_route env options add_default_route 100 anywhere hop world).1 in
    let r = new_router add_default_route hop world.router in
    (w'.router ≡ r)
    × (w'.cache ≡ world.cache)
    × ((done : List ℕ) × (left : List ℕ) × (7 ∷ 9 ∷ 100 ∷ [] ≡ done ++ left)
        × Made
            (map (change add_default_route r) (select (λ v. not (v == r.public_vni)) done))
            world
            w'
        × ((filter_default_route env options add_default_route 100 anywhere hop world).0 ≡ ok true
            → left ≡ []))
filter_default_route-changes_example =
    filter_default_route-changes env options add_default_route 100 anywhere hop world default_here
