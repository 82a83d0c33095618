-- ===== src/Network/Rewiring.antt =====
-- controllers/network_controller.go: what reconcilePeeredVNIs writes to the cache, as one function.
use metalnet.Base.{
  ℕ, ◌≡◌, refl, inl, inr, Bool, true, false, not, ◌&&◌, ◌||◌, List, [], ◌∷◌, if◌then◌else◌, arith,
  Bool-cases, ◌==◌, nat_eq, nat_beq_iff,
}
use metalnet.Base.Sets.{has, difference, has-difference}
use metalnet.Cache.{MetalnetCache, get_peer_vnis, add_vni_to_peer_vnis, remove_vni_from_peer_vnis}
use metalnet.Cache.Peers.{has_peer, has_peer-add, has_peer-remove}
use metalnet.Effects.Writes.{apply_all}
use metalnet.Network.{is_empty}

pub has_peer-remove_all :
    (vni : ℕ) (ps : List ℕ) (v q : ℕ) (c : MetalnetCache)
    → has_peer (apply_all (remove_vni_from_peer_vnis vni) ps c) v q
      ≡ (not ((vni == v) && has ps q) && has_peer c v q)
has_peer-remove_all vni [] v q c = unfold has in ground arith
has_peer-remove_all vni (p ∷ ps) v q c =
    go (has_peer-remove_all vni ps v q (remove_vni_from_peer_vnis vni p c))
      (has_peer-remove vni p v q c)
  where
    go :
        has_peer
            (apply_all (remove_vni_from_peer_vnis vni) ps (remove_vni_from_peer_vnis vni p c))
            v
            q
          ≡ (not ((vni == v) && has ps q) && has_peer (remove_vni_from_peer_vnis vni p c) v q)
        → has_peer (remove_vni_from_peer_vnis vni p c) v q
          ≡ (not ((vni == v) && (p == q)) && has_peer c v q)
        → has_peer (apply_all (remove_vni_from_peer_vnis vni) (p ∷ ps) c) v q
          ≡ (not ((vni == v) && has (p ∷ ps) q) && has_peer c v q)
    go x y = unfold has in ground arith

has_peer-add_all :
    (vni : ℕ) (ps : List ℕ) (v q : ℕ) (c : MetalnetCache)
    → has_peer (apply_all (add_vni_to_peer_vnis vni) ps c) v q
      ≡ (((vni == v) && has ps q) || has_peer c v q)
has_peer-add_all vni [] v q c = unfold has in ground arith
has_peer-add_all vni (p ∷ ps) v q c =
    go (has_peer-add_all vni ps v q (add_vni_to_peer_vnis vni p c)) (has_peer-add vni p v q c)
  where
    go :
        has_peer (apply_all (add_vni_to_peer_vnis vni) ps (add_vni_to_peer_vnis vni p c)) v q
          ≡ (((vni == v) && has ps q) || has_peer (add_vni_to_peer_vnis vni p c) v q)
        → has_peer (add_vni_to_peer_vnis vni p c) v q ≡ (((vni == v) && (p == q)) || has_peer c v q)
        → has_peer (apply_all (add_vni_to_peer_vnis vni) (p ∷ ps) c) v q
          ≡ (((vni == v) && has (p ∷ ps) q) || has_peer c v q)
    go x y = unfold has in ground arith

has-empty : (s : List ℕ) (q : ℕ) → is_empty s ≡ true → has s q ≡ false
unfolding is_empty has
has-empty [] q h = refl
has-empty (x ∷ s) q h = cc

module _ (vni : ℕ) where
  abbrev pub remove_all : List ℕ → MetalnetCache → MetalnetCache
  remove_all = apply_all (remove_vni_from_peer_vnis vni)

  abbrev pub add_all : List ℕ → MetalnetCache → MetalnetCache
  add_all = apply_all (add_vni_to_peer_vnis vni)

  abbrev pub drop_all : Bool → List ℕ → MetalnetCache → MetalnetCache
  drop_all own = apply_all (λ p. if not own then remove_vni_from_peer_vnis vni p else (λ c. c))

  abbrev pub exchange : Bool → List ℕ → List ℕ → MetalnetCache → MetalnetCache
  exchange true peers spec c =
      add_all (difference spec peers) (remove_all (difference peers spec) c)
  exchange false peers spec c = remove_all (difference peers spec) c

  -- The change of the cache, from the peers that it has and those of the specification.
  abbrev pub rewire : Bool → List ℕ → List ℕ → MetalnetCache → MetalnetCache
  rewire own peers spec =
      if is_empty (difference peers spec) && is_empty (difference spec peers)
      then (if is_empty peers then (λ c. c) else drop_all own peers)
      else exchange own peers spec

  drop_all-available : (ps : List ℕ) (c : MetalnetCache) → drop_all true ps c ≡ c
  drop_all-available [] c = refl
  drop_all-available (p ∷ ps) c = drop_all-available ps c

  drop_all-unavailable : (ps : List ℕ) (c : MetalnetCache) → drop_all false ps c ≡ remove_all ps c
  drop_all-unavailable [] c = refl
  drop_all-unavailable (p ∷ ps) c = drop_all-unavailable ps (remove_vni_from_peer_vnis vni p c)

  same_elements :
      (peers spec : List ℕ) (q : ℕ)
      → (is_empty (difference peers spec) && is_empty (difference spec peers)) ≡ true
      → has peers q ≡ has spec q
  same_elements peers spec q h =
      let a : is_empty (difference peers spec) ≡ true = ground arith in
      let b : is_empty (difference spec peers) ≡ true = ground arith in
      ground (
        arith,
        has-empty (difference peers spec) q a,
        has-empty (difference spec peers) q b,
        has-difference q peers spec,
        has-difference q spec peers,
      )

  unchanged-if-empty :
      (b : Bool) (peers : List ℕ) (c : MetalnetCache)
      → (if is_empty peers then (λ c. c) else drop_all true peers) c ≡ c
  unchanged-if-empty b peers c = elim (Bool-cases (is_empty peers)) [
    | inl e ↦ rw e
    | inr e ↦ rw e (drop_all-available peers c)
  ]

  pub rewire-available :
      (spec : List ℕ) (c : MetalnetCache) (v q : ℕ)
      → has_peer (rewire true (get_peer_vnis vni c).0 spec c) v q
        ≡ (if vni == v then has spec q else has_peer c v q)
  rewire-available spec c v q =
      let peers = (get_peer_vnis vni c).0 in
      elim (Bool-cases (is_empty (difference peers spec) && is_empty (difference spec peers))) [
        | inl e ↦
            rw (e, unchanged-if-empty true peers c)
              (ground (arith, same_elements peers spec q e, nat_beq_iff vni v))
        | inr e ↦
            rw
              (
                e,
                has_peer-add_all vni (difference spec peers) v q
                    (remove_all (difference peers spec) c),
                has_peer-remove_all vni (difference peers spec) v q c,
              )
              (ground (
                arith,
                has-difference q peers spec,
                has-difference q spec peers,
                nat_beq_iff vni v,
              ))
      ]

  pub rewire-unavailable :
      (spec : List ℕ) (c : MetalnetCache) (v q : ℕ)
      → has_peer (rewire false (get_peer_vnis vni c).0 spec c) v q ≡ (
          has_peer c v q
          && not (
              (vni == v)
              && (not (has spec q)
                  || is_empty (difference (get_peer_vnis vni c).0 spec)
                    && is_empty (difference spec (get_peer_vnis vni c).0))))
  rewire-unavailable spec c v q =
      let peers = (get_peer_vnis vni c).0 in
      elim (Bool-cases (is_empty (difference peers spec) && is_empty (difference spec peers))) [
        | inl e ↦ elim (Bool-cases (is_empty peers)) [
          | inl p ↦ rw (e, p) (ground (arith, has-empty peers q p, nat_beq_iff vni v))
          | inr p ↦
              rw (e, p, drop_all-unavailable peers c, has_peer-remove_all vni peers v q c)
                (ground (arith, nat_beq_iff vni v))
        ]
        | inr e ↦
            rw (e, has_peer-remove_all vni (difference peers spec) v q c)
              (ground (arith, has-difference q peers spec, nat_beq_iff vni v))
      ]
