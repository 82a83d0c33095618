-- ===== src/Tests/CacheExamples.antt =====
-- Examples for the cache.
use metalnet.Base.{ℕ, ◌≡◌, refl, ◌↔◌, true, none, some, String, [], ◌∷◌, nat_eq, string_eq}
use metalnet.Base.Sets.{has}
use metalnet.Base.Map.{Unique, lookup}
use metalnet.Cache.{
  MetalnetCache, get_load_balancer_server, add_load_balancer_server, remove_load_balancer_server,
  add_vni_to_peer_vnis, remove_vni_from_peer_vnis, is_vni_peered, get_peer_vnis,
}
use metalnet.Cache.Peers.{has_peer, has_peer-add, has_peer-remove, is_vni_peered_iff}
use metalnet.Cache.Servers.{get-add_load_balancer_server, get-remove_load_balancer_server}
use metalnet.Cache.WellFormed.{IsWellFormed}
use metalnet.Tests.{cache}

abbrev servers : MetalnetCache
servers = record {
  lb_server_map = (7, ("10.0.0.1", "u1") ∷ ("10.0.0.2", "u2") ∷ []) ∷ [];
  peered_prefixes = [];
  peered_vnis = [];
}

cache-IsWellFormed : IsWellFormed cache
unfolding has
cache-IsWellFormed = record {
  server_vnis = tt;
  servers = tt;
  prefix_vnis = tt;
  peer_vnis = (refl, tt);
  peer_sets = ((refl, (refl, tt)), tt);
}

has_peer-add_example : has_peer (add_vni_to_peer_vnis 7 10 cache) 7 9 ≡ true
unfolding get_peer_vnis lookup has
has_peer-add_example = has_peer-add 7 10 7 9 cache

has_peer-remove_example : has_peer (remove_vni_from_peer_vnis 7 9 cache) 7 8 ≡ true
unfolding get_peer_vnis lookup has
has_peer-remove_example = has_peer-remove 7 9 7 8 cache

is_vni_peered_iff_example : (is_vni_peered 9 cache ≡ true) ↔ ((v : ℕ) × (has_peer cache v 9 ≡ true))
is_vni_peered_iff_example = is_vni_peered_iff 9 cache cache-IsWellFormed.peer_vnis

servers-Unique : Unique {K = String} {V = String} (("10.0.0.1", "u1") ∷ ("10.0.0.2", "u2") ∷ [])
unfolding has
servers-Unique = (refl, (refl, tt))

get-add_load_balancer_server_example :
    get_load_balancer_server 7 "10.0.0.3" (add_load_balancer_server 7 "10.0.0.3" "u3" servers)
    ≡ some "u3"
get-add_load_balancer_server_example =
    get-add_load_balancer_server 7 7 "10.0.0.3" "10.0.0.3" "u3" servers

get-remove_load_balancer_server_example :
    get_load_balancer_server 7 "10.0.0.1" (remove_load_balancer_server "10.0.0.1" "u1" servers)
    ≡ none
unfolding get_load_balancer_server lookup
get-remove_load_balancer_server_example =
    get-remove_load_balancer_server 7 "10.0.0.1" "10.0.0.1" "u1" servers (servers-Unique, tt)
