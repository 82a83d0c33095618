-- ===== src/Cache/Servers.antt =====
-- The load balancer servers of internal/metalnet_cache.go.
use metalnet.Base.{
  ℕ, ◌≡◌, refl, inl, inr, false, ◌&&◌, Option, none, some, String, [], ◌∷◌, ◌==◌, nat_eq, string_eq,
  if◌then◌else◌, arith, Bool-cases, Option-cases, subst, nat_beq_iff,
}
use text.Mathlib.TextEquality.{eq_iff}
use metalnet.Base.Map.{Map, lookup, put, lookup-put, Unique, keys, lookup-has-keys}
use metalnet.Base.Sets.{has}
use metalnet.Cache.{
  MetalnetCache, get_load_balancer_server, add_load_balancer_server, remove_load_balancer_server,
  drop_server, drop_servers, or_empty,
}

lookup-nil : (i : String) → lookup {V = String} i [] ≡ none
unfolding lookup
lookup-nil i = refl

-- The server that was registered last for a VNI and an address is the one that is found.
pub get-add_load_balancer_server :
    (vni v : ℕ) (ip i uid : String) (c : MetalnetCache)
    → get_load_balancer_server v i (add_load_balancer_server vni ip uid c)
      ≡ (if (vni == v) && (ip == i) then some uid else get_load_balancer_server v i c)
unfolding get_load_balancer_server add_load_balancer_server
get-add_load_balancer_server vni v ip i uid c = ground (
  arith,
  lookup-put vni v (put ip uid (or_empty (lookup vni c.lb_server_map))) c.lb_server_map,
  lookup-put ip i uid (or_empty (lookup vni c.lb_server_map)),
  nat_beq_iff vni v,
  lookup-nil i,
)

-- `o` without the entry that has the value `uid`.
abbrev pub unless_is : String → Option String → Option String
unless_is uid none = none
unless_is uid (some u) = if u == uid then none else some u

lookup-none : (i : String) (m : Map String String) → has (keys m) i ≡ false → lookup i m ≡ none
lookup-none i m h = elim (Option-cases (lookup i m)) [
  | inl e ↦ e
  | inr (v, e) ↦ cc (lookup-has-keys i v m e)
]

lookup_drop :
    (ip uid i : String) (m : Map String String)
    → Unique m
    → lookup i (drop_server ip uid m) ≡ (if ip == i then unless_is uid (lookup i m) else lookup i m)
unfolding drop_server lookup
lookup_drop ip uid i [] u = ground arith
lookup_drop ip uid i ((k, v) ∷ m) u = ground (
  arith,
  lookup_drop ip uid i m u.1,
  eq_iff ip k,
  eq_iff ip i,
  eq_iff k i,
  eq_iff v uid,
  lookup-none i m,
)

lookup-drop_servers :
    (ip uid : String) (vni : ℕ) (m : Map ℕ (Map String String))
    → lookup vni (drop_servers ip uid m)
      ≡ elim (lookup vni m) [ none ↦ none | some s ↦ some (drop_server ip uid s) ]
unfolding drop_servers lookup
lookup-drop_servers ip uid vni [] = refl
lookup-drop_servers ip uid vni ((k, s) ∷ m) = ground (arith, lookup-drop_servers ip uid vni m)

-- Every VNI has one map, and each map one entry for an address.
abbrev pub UniqueServers : Map ℕ (Map String String) → Type 0
UniqueServers [] = Unit
UniqueServers ((vni, m) ∷ ms) = Unique m × UniqueServers ms

lookup-UniqueServers :
    (ms : Map ℕ (Map String String)) (vni : ℕ) (m : Map String String)
    → UniqueServers ms
    → lookup vni ms ≡ some m
    → Unique m
unfolding lookup
lookup-UniqueServers [] vni m u h = cc
lookup-UniqueServers ((k, s) ∷ ms) vni m u h = elim (Bool-cases (k == vni)) [
  | inl p ↦ let q : s ≡ m = ground arith in subst Unique q u.0
  | inr p ↦ lookup-UniqueServers ms vni m u.1 (rw p at h)
]

-- Removing a server forgets that registration under every VNI, and no other.
pub get-remove_load_balancer_server :
    (vni : ℕ) (ip i uid : String) (c : MetalnetCache)
    → UniqueServers c.lb_server_map
    → get_load_balancer_server vni i (remove_load_balancer_server ip uid c) ≡ (
        if ip == i
        then unless_is uid (get_load_balancer_server vni i c)
        else get_load_balancer_server vni i c)
unfolding get_load_balancer_server remove_load_balancer_server
get-remove_load_balancer_server vni ip i uid c u =
    elim (Option-cases (lookup vni c.lb_server_map)) [
      | inl e ↦ ground (arith, lookup-drop_servers ip uid vni c.lb_server_map)
      | inr (m, e) ↦ ground (
        arith,
        lookup-drop_servers ip uid vni c.lb_server_map,
        lookup_drop ip uid i m (lookup-UniqueServers c.lb_server_map vni m u e),
      )
    ]
