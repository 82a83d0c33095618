-- ===== src/Cache.antt =====
-- internal/metalnet_cache.go: what the controllers and the metalbond client share. Each method is one
-- step on the record; those on the peers of a VNI hold a lock, the others hold none, and what
-- happens when two of these run at once is not modelled.
pub mod Peers
pub mod Servers
pub mod WellFormed
use metalnet.Base.{
  ℕ, ◌≡◌, refl, Bool, true, false, ◌&&◌, ◌||◌, Option, none, some, String, List, [], ◌∷◌, ◌==◌,
  nat_eq, string_eq, if◌then◌else◌,
}
use metalnet.Base.Map.{Map, lookup, put, remove}
use metalnet.Base.Sets.{has, insert, delete}
use metalnet.Netip.{Prefix}

pub record MetalnetCache : Type 0 where
  pub lb_server_map : Map ℕ (Map String String)
  pub peered_prefixes : Map ℕ (Map ℕ (List Prefix))
  pub peered_vnis : Map ℕ (List ℕ)

-- What is under the key, or else a new set or map.
abbrev pub or_empty : {A : Type 0} → Option (List A) → List A
or_empty none = []
or_empty (some s) = s

unfoldable pub new_metalnet_cache : MetalnetCache
new_metalnet_cache = record { lb_server_map = []; peered_prefixes = []; peered_vnis = [] }

unfoldable pub set_peered_prefixes : ℕ → Map ℕ (List Prefix) → MetalnetCache → MetalnetCache
set_peered_prefixes vni prefixes c = record c {
  peered_prefixes = put vni prefixes c.peered_prefixes;
}

-- The copy that the source makes is the same value.
unfoldable pub get_peered_prefixes : ℕ → MetalnetCache → Option (Map ℕ (List Prefix))
get_peered_prefixes vni c = lookup vni c.peered_prefixes

unfoldable pub any_has : Map ℕ (List ℕ) → ℕ → Bool
any_has [] vni = false
any_has ((k, vnis) ∷ m) vni = has vnis vni || any_has m vni

unfoldable pub is_vni_peered : ℕ → MetalnetCache → Bool
unfolding any_has
is_vni_peered vni c = any_has c.peered_vnis vni

-- The set, and whether the map has one for the VNI.
unfoldable pub get_peer_vnis : ℕ → MetalnetCache → List ℕ × Bool
get_peer_vnis vni c = elim (lookup vni c.peered_vnis) [
  | none ↦ ([], false)
  | some vnis ↦ (vnis, true)
]

unfoldable pub add_vni_to_peer_vnis : ℕ → ℕ → MetalnetCache → MetalnetCache
add_vni_to_peer_vnis vni peered c = record c {
  peered_vnis = put vni (insert peered (or_empty (lookup vni c.peered_vnis))) c.peered_vnis;
}

unfoldable pub remove_vni_from_peer_vnis : ℕ → ℕ → MetalnetCache → MetalnetCache
remove_vni_from_peer_vnis vni peered c = elim (lookup vni c.peered_vnis) [
  | none ↦ c
  | some vnis ↦ record c { peered_vnis = put vni (delete peered vnis) c.peered_vnis }
]

unfoldable pub add_load_balancer_server : ℕ → String → String → MetalnetCache → MetalnetCache
add_load_balancer_server vni ip uid c = record c {
  lb_server_map = put vni (put ip uid (or_empty (lookup vni c.lb_server_map))) c.lb_server_map;
}

-- if ip == keyIp && value == uid { delete(innerMap, ip) }, for every entry of one inner map
unfoldable pub drop_server : String → String → Map String String → Map String String
drop_server ip uid [] = []
drop_server ip uid ((key_ip, value) ∷ m) =
    if (ip == key_ip) && (value == uid)
    then drop_server ip uid m
    else ((key_ip, value) ∷ drop_server ip uid m)

unfoldable pub drop_servers :
    String → String → Map ℕ (Map String String) → Map ℕ (Map String String)
unfolding drop_server
drop_servers ip uid [] = []
drop_servers ip uid ((vni, servers) ∷ m) = (vni, drop_server ip uid servers) ∷ drop_servers ip uid m

unfoldable pub remove_load_balancer_server : String → String → MetalnetCache → MetalnetCache
unfolding drop_servers
remove_load_balancer_server ip uid c = record c {
  lb_server_map = drop_servers ip uid c.lb_server_map;
}

unfoldable pub get_load_balancer_server : ℕ → String → MetalnetCache → Option String
get_load_balancer_server vni ip c = elim (lookup vni c.lb_server_map) [
  | none ↦ none
  | some servers ↦ lookup ip servers
]
