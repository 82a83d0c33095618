-- ===== src/Cache/Peers.antt =====
-- The peerings of internal/metalnet_cache.go, seen as the relation "the set of vni has peered".
use metalnet.Base.{
  ℕ, ◌≡◌, refl, ◌↔◌, inl, inr, Bool, true, false, ◌&&◌, ◌||◌, not, some, List, [], ◌∷◌, ◌==◌,
  nat_eq, string_eq, arith, Bool-cases, Option-cases, nat_beq_iff,
}
use metalnet.Base.Map.{Map, lookup, lookup-put, Unique, lookup-has-keys}
use metalnet.Base.Sets.{has, insert, delete, has-insert, has-delete}
use metalnet.Cache.{
  MetalnetCache, get_peer_vnis, add_vni_to_peer_vnis, remove_vni_from_peer_vnis, is_vni_peered,
  any_has, or_empty,
}

-- The set of `vni` has `peered`.
abbrev pub has_peer : MetalnetCache → ℕ → ℕ → Bool
has_peer c vni peered = has (get_peer_vnis vni c).0 peered

has-nil : (p : ℕ) → has [] p ≡ false
unfolding has
has-nil p = refl

-- Adding one peering adds it, and changes no other.
pub has_peer-add :
    (vni peered v p : ℕ) (c : MetalnetCache)
    → has_peer (add_vni_to_peer_vnis vni peered c) v p
      ≡ (((vni == v) && (peered == p)) || has_peer c v p)
unfolding add_vni_to_peer_vnis get_peer_vnis
has_peer-add vni peered v p c = ground (
  arith,
  lookup-put vni v (insert peered (or_empty (lookup vni c.peered_vnis))) c.peered_vnis,
  has-insert peered p (or_empty (lookup vni c.peered_vnis)),
  nat_beq_iff vni v,
  has-nil p,
)

-- Removing one peering removes it, and changes no other.
pub has_peer-remove :
    (vni peered v p : ℕ) (c : MetalnetCache)
    → has_peer (remove_vni_from_peer_vnis vni peered c) v p
      ≡ (not ((vni == v) && (peered == p)) && has_peer c v p)
unfolding remove_vni_from_peer_vnis get_peer_vnis
has_peer-remove vni peered v p c = ground (
  arith,
  lookup-put vni v (delete peered (or_empty (lookup vni c.peered_vnis))) c.peered_vnis,
  has-delete peered p (or_empty (lookup vni c.peered_vnis)),
  nat_beq_iff vni v,
  has-nil p,
)

any_has_sound :
    (m : Map ℕ (List ℕ)) (p : ℕ)
    → Unique m
    → any_has m p ≡ true
    → (v : ℕ) × (s : List ℕ) × (lookup v m ≡ some s) × (has s p ≡ true)
unfolding any_has lookup has
any_has_sound [] p u h = cc
any_has_sound ((k, s) ∷ m) p u h = elim (Bool-cases (has s p)) [
  | inl q ↦ (k, s, ground (arith, nat_beq_iff k k), q)
  | inr q ↦
      let (v, t, l, r) = any_has_sound m p u.1 (rw q at h) in
      (v, t, ground (arith, lookup-has-keys v t m, nat_beq_iff k v), r)
]

any_has_complete :
    (m : Map ℕ (List ℕ)) (v p : ℕ) (s : List ℕ)
    → lookup v m ≡ some s
    → has s p ≡ true
    → any_has m p ≡ true
unfolding any_has lookup
any_has_complete [] v p s l h = cc
any_has_complete ((k, t) ∷ m) v p s l h = ground (arith, any_has_complete m v p s)

-- IsVniPeered answers yes exactly when some network has the VNI among its peers.
pub is_vni_peered_iff :
    (p : ℕ) (c : MetalnetCache)
    → Unique c.peered_vnis
    → (is_vni_peered p c ≡ true) ↔ ((v : ℕ) × (has_peer c v p ≡ true))
unfolding is_vni_peered get_peer_vnis
is_vni_peered_iff p c u = (
  λ h. let (v, s, l, r) = any_has_sound c.peered_vnis p u h in (v, ground (arith)),
  λ (v, h). elim (Option-cases (lookup v c.peered_vnis)) [
    | inl e ↦ ground (arith, has-nil p)
    | inr (s, e) ↦ any_has_complete c.peered_vnis v p s e (ground arith)
  ],
)
