-- ===== src/Cache/WellFormed.antt =====
-- The representation invariant of internal/metalnet_cache.go: one entry for each key in every
-- map, and no repetition in a set of peers.
use metalnet.Base.{
  ℕ, ◌≡◌, refl, inl, inr, false, ◌&&◌, some, String, List, [], ◌∷◌, ◌==◌, nat_eq, string_eq, arith,
  Bool-cases, Option-cases, subst,
}
use metalnet.Base.Map.{Map, lookup, put, Unique, keys, put-Unique}
use metalnet.Base.Sets.{has, insert, delete, Distinct, insert-Distinct, delete-Distinct}
use metalnet.Netip.{Prefix}
use metalnet.Cache.{
  MetalnetCache, new_metalnet_cache, set_peered_prefixes, add_vni_to_peer_vnis,
  remove_vni_from_peer_vnis, add_load_balancer_server, remove_load_balancer_server, drop_server,
  drop_servers, or_empty,
}

-- Each value of a map satisfies `P`.
abbrev pub Values : {K V : Type 0} → (V → Type 0) → Map K V → Type 0
Values P [] = Unit
Values P ((k, v) ∷ m) = P v × Values P m

module _ {V : Type 0} (P : V → Type 0) where
  put-Values : (k : ℕ) (v : V) (m : Map ℕ V) → P v → Values P m → Values P (put k v m)
  unfolding put
  put-Values k v [] p h = (p, tt)
  put-Values k v ((j, w) ∷ m) p h = elim (Bool-cases (j == k)) [
    | inl e ↦ rw e (p, h.1)
    | inr e ↦ rw e (h.0, put-Values k v m p h.1)
  ]

  lookup-Values : (k : ℕ) (v : V) (m : Map ℕ V) → lookup k m ≡ some v → Values P m → P v
  unfolding lookup
  lookup-Values k v [] e h = cc
  lookup-Values k v ((j, w) ∷ m) e h = elim (Bool-cases (j == k)) [
    | inl q ↦ let r : w ≡ v = ground arith in subst P r h.0
    | inr q ↦ lookup-Values k v m (rw q at e) h.1
  ]

module _ {A : Type 0} (P : List A → Type 0) where
  or_empty-Values : (k : ℕ) (m : Map ℕ (List A)) → P [] → Values P m → P (or_empty (lookup k m))
  or_empty-Values k m e h = elim (Option-cases (lookup k m)) [
    | inl q ↦ rw q e
    | inr (v, q) ↦ rw q (lookup-Values P k v m q h)
  ]

pub record IsWellFormed (c : MetalnetCache) : Type 0 where
  pub server_vnis : Unique c.lb_server_map
  pub servers : Values (Unique {V = String}) c.lb_server_map
  pub prefix_vnis : Unique c.peered_prefixes
  pub peer_vnis : Unique c.peered_vnis
  pub peer_sets : Values Distinct c.peered_vnis

pub new_metalnet_cache-IsWellFormed : IsWellFormed new_metalnet_cache
unfolding new_metalnet_cache
new_metalnet_cache-IsWellFormed = record {
  server_vnis = tt;
  servers = tt;
  prefix_vnis = tt;
  peer_vnis = tt;
  peer_sets = tt;
}

has-keys-drop_server :
    (ip uid k : String) (m : Map String String)
    → has (keys m) k ≡ false
    → has (keys (drop_server ip uid m)) k ≡ false
unfolding drop_server has
has-keys-drop_server ip uid k [] h = refl
has-keys-drop_server ip uid k ((j, v) ∷ m) h = ground (arith, has-keys-drop_server ip uid k m)

drop_server-Unique :
    (ip uid : String) (m : Map String String) → Unique m → Unique (drop_server ip uid m)
unfolding drop_server
drop_server-Unique ip uid [] u = tt
drop_server-Unique ip uid ((k, v) ∷ m) u = elim (Bool-cases ((ip == k) && (v == uid))) [
  | inl e ↦ rw e (drop_server-Unique ip uid m u.1)
  | inr e ↦ rw e (has-keys-drop_server ip uid k m u.0, drop_server-Unique ip uid m u.1)
]

drop_servers-Values :
    (ip uid : String) (ms : Map ℕ (Map String String))
    → Values (Unique {V = String}) ms
    → Values (Unique {V = String}) (drop_servers ip uid ms)
unfolding drop_servers
drop_servers-Values ip uid [] h = tt
drop_servers-Values ip uid ((k, m) ∷ ms) h =
    (drop_server-Unique ip uid m h.0, drop_servers-Values ip uid ms h.1)

keys-drop_servers :
    (ip uid : String) (ms : Map ℕ (Map String String)) → keys (drop_servers ip uid ms) ≡ keys ms
unfolding drop_servers
keys-drop_servers ip uid [] = refl
keys-drop_servers ip uid ((k, m) ∷ ms) = rw (keys-drop_servers ip uid ms)

-- The methods that write the cache.
pub data Write : Type 0 where
  set_prefixes : ℕ → Map ℕ (List Prefix) → Write
  add_vni remove_vni : ℕ → ℕ → Write
  add_server : ℕ → String → String → Write
  remove_server : String → String → Write

abbrev pub write : Write → MetalnetCache → MetalnetCache
write (set_prefixes vni prefixes) = set_peered_prefixes vni prefixes
write (add_vni vni peered) = add_vni_to_peer_vnis vni peered
write (remove_vni vni peered) = remove_vni_from_peer_vnis vni peered
write (add_server vni ip uid) = add_load_balancer_server vni ip uid
write (remove_server ip uid) = remove_load_balancer_server ip uid

-- Every method that writes the cache keeps the representation well formed.
pub write-IsWellFormed : (w : Write) (c : MetalnetCache) → IsWellFormed c → IsWellFormed (write w c)
unfolding set_peered_prefixes add_vni_to_peer_vnis remove_vni_from_peer_vnis
    add_load_balancer_server remove_load_balancer_server
write-IsWellFormed (set_prefixes vni prefixes) c h = record {
  server_vnis = h.server_vnis;
  servers = h.servers;
  prefix_vnis = put-Unique vni prefixes c.peered_prefixes h.prefix_vnis;
  peer_vnis = h.peer_vnis;
  peer_sets = h.peer_sets;
}
write-IsWellFormed (add_vni vni peered) c h =
    let s = or_empty (lookup vni c.peered_vnis) in
    record {
      server_vnis = h.server_vnis;
      servers = h.servers;
      prefix_vnis = h.prefix_vnis;
      peer_vnis = put-Unique vni (insert peered s) c.peered_vnis h.peer_vnis;
      peer_sets =
          put-Values Distinct vni (insert peered s) c.peered_vnis
            (insert-Distinct peered s (or_empty-Values Distinct vni c.peered_vnis tt h.peer_sets))
            h.peer_sets;
    }
write-IsWellFormed (remove_vni vni peered) c h = elim (Option-cases (lookup vni c.peered_vnis)) [
  | inl e ↦ rw (e, remove_vni_from_peer_vnis) h
  | inr (s, e) ↦
      rw (e, remove_vni_from_peer_vnis)
        (record {
          server_vnis = h.server_vnis;
          servers = h.servers;
          prefix_vnis = h.prefix_vnis;
          peer_vnis = put-Unique vni (delete peered s) c.peered_vnis h.peer_vnis;
          peer_sets =
              put-Values Distinct vni (delete peered s) c.peered_vnis
                (delete-Distinct peered s
                  (lookup-Values Distinct vni s c.peered_vnis e h.peer_sets))
                h.peer_sets;
        })
]
write-IsWellFormed (add_server vni ip uid) c h =
    let m = or_empty (lookup vni c.lb_server_map) in
    record {
      server_vnis = put-Unique vni (put ip uid m) c.lb_server_map h.server_vnis;
      servers =
          put-Values (Unique {V = String}) vni (put ip uid m) c.lb_server_map
            (put-Unique ip uid m
              (or_empty-Values (Unique {V = String}) vni c.lb_server_map tt h.servers))
            h.servers;
      prefix_vnis = h.prefix_vnis;
      peer_vnis = h.peer_vnis;
      peer_sets = h.peer_sets;
    }
write-IsWellFormed (remove_server ip uid) c h = record {
  server_vnis = rw (keys-drop_servers ip uid c.lb_server_map) h.server_vnis;
  servers = drop_servers-Values ip uid c.lb_server_map h.servers;
  prefix_vnis = h.prefix_vnis;
  peer_vnis = h.peer_vnis;
  peer_sets = h.peer_sets;
}
