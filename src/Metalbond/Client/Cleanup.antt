-- ===== src/Metalbond/Client/Cleanup.antt =====
-- Which routes CleanupNotPeeredRoutes deletes.
use metalnet.Base.{
  ℕ, ◌≡◌, ◌≢◌, refl, ap, ◌↔◌, ◌⊎◌, inl, inr, Bool, true, false, List, [], ◌∷◌, ◌++◌, map, nat_eq,
  nat_beq_iff, arith, Bool-cases,
}
use metalnet.Base.Sets.{has}
use metalnet.Base.Result.{Err, Result, ok, err, wrap, no_vni, route_not_found}
use metalnet.Base.Exec.{for_each, context, ◌>>=◌}
use metalnet.Cache.{get_peer_vnis}
use metalnet.Wire.{DpdkRoute}
use metalnet.Effects.{Env, gives, Call, Trace, World, call, delete_route, list_routes}
use metalnet.LoadBalancer.Applying.{Answer-cases}
use metalnet.Metalbond.Client.{ClientOptions, cleanup_not_peered_routes, is_stale, delete_stale}

-- The call that deletes a route of the VNI.
abbrev pub deletion : ℕ → DpdkRoute → Call
deletion vni r = delete_route vni r.prefix (no_vni ∷ route_not_found ∷ [])

-- A trace after some more calls that succeed, in the order in which they are made.
abbrev pub then_done : Trace → List Call → Trace
then_done t [] = t
then_done t (c ∷ cs) = then_done (record { call = c; succeeded = true } ∷ t) cs

-- The second list has exactly those elements of the first that have the property, in their order.
pub data Selected {A : Type 0} (P : A → Type 0) : List A → List A → Type 0 where
  none_left : Selected P [] []
  taken : {x : A} {xs ys : List A} → P x → Selected P xs ys → Selected P (x ∷ xs) (x ∷ ys)
  passed : {x : A} {xs ys : List A} → (P x → ⊥) → Selected P xs ys → Selected P (x ∷ xs) ys

module _ (env : Env) (config : ClientOptions) (vni : ℕ) where
  -- With the peers of the VNI, of which the second component says whether the cache knows a set:
  -- the route leads to another VNI, which is not a peer.
  abbrev pub IsStale : List ℕ × Bool → DpdkRoute → Type 0
  IsStale peers r = (r.next_hop_vni ≢ vni) × (peers.1 ≡ true) × (has peers.0 r.next_hop_vni ≡ false)

  is_stale_iff :
      (peers : List ℕ × Bool) (r : DpdkRoute) → (is_stale vni peers r ≡ true) ↔ IsStale peers r
  unfolding is_stale
  is_stale_iff (set, known) r = ground (arith, nat_beq_iff r.next_hop_vni vni)

  -- All routes were handled: those that are stale were deleted, and every deletion succeeded.
  abbrev pub Completed : List ℕ × Bool → List DpdkRoute → Trace → Result (Unit {0}) → Trace → Type 0
  Completed peers routes t res t' =
      (gone : List DpdkRoute) × Selected (IsStale peers) routes gone
      × (res ≡ ok tt)
      × (t' ≡ then_done t (map (deletion vni) gone))

  -- The routes before a stale one were handled, its deletion failed, and nothing was done after it.
  abbrev pub Stopped : List ℕ × Bool → List DpdkRoute → Trace → Result (Unit {0}) → Trace → Type 0
  Stopped peers routes t res t' =
      (done : List DpdkRoute) × (r : DpdkRoute) × (left : List DpdkRoute) × (gone : List DpdkRoute)
      × (e : Err) × (routes ≡ done ++ (r ∷ left))
      × Selected (IsStale peers) done gone
      × IsStale peers r
      × (res ≡ err (wrap "error deleting route: " e))
      × (t'
          ≡ record { call = deletion vni r; succeeded = false }
            ∷ then_done t (map (deletion vni) gone))

  abbrev pub Cleaned : List ℕ × Bool → List DpdkRoute → Trace → Result (Unit {0}) → Trace → Type 0
  Cleaned peers routes t res t' = Completed peers routes t res t' ⊎ Stopped peers routes t res t'

  for_each-Cleaned :
      (peers : List ℕ × Bool) (routes : List DpdkRoute) (w : World)
      → let (res, w') = for_each routes (delete_stale env config vni peers) w in
        Cleaned peers routes w.trace res w'.trace
  unfolding for_each delete_stale context ◌>>=◌ call
  for_each-Cleaned peers [] w = inl ([], none_left, refl, refl)
  for_each-Cleaned peers (r ∷ rs) w =
      let (there, back) = is_stale_iff peers r in
      elim (Bool-cases (is_stale vni peers r)) [
        | inr n ↦ rw n (elim (for_each-Cleaned peers rs w) [
          | inl (gone, s, o, t) ↦ inl (gone, passed (λ p. cc (n, back p)) s, o, t)
          | inr (done, q, left, gone, e, p, s, l, o, t) ↦
              inr
                (r ∷ done, q, left, gone, e, ap (◌∷◌ r) p, passed (λ k. cc (n, back k)) s, l, o, t)
        ])
        | inl y ↦ elim (Answer-cases (env.answer w.trace (deletion vni r))) [
          | inr (e, a) ↦ rw (y, a) (inr ([], r, rs, [], e, refl, none_left, there y, refl, refl))
          | inl (u, a) ↦
              let v = record w {
                trace = record { call = deletion vni r; succeeded = true } ∷ w.trace;
              } in
              rw (y, a)
                (elim (for_each-Cleaned peers rs v) [
                  | inl (gone, s, o, t) ↦ inl (r ∷ gone, taken (there y) s, o, t)
                  | inr (done, q, left, gone, e, p, s, l, o, t) ↦
                      inr (r ∷ done, q, left, r ∷ gone, e, ap (◌∷◌ r) p, taken (there y) s, l, o, t)
                ])
        ]
      ]

  -- Of the routes that dp-service lists, CleanupNotPeeredRoutes deletes exactly those that are
  -- stale, in the order of the list: their next hop is another VNI that is not among the peers,
  -- while the cache knows a set of peers. If all these deletions succeed, it returns nil. The first
  -- that fails ends it: its error is returned, wrapped, and no call follows.
  pub cleanup_not_peered_routes-deletes :
      (w : World) (routes : List DpdkRoute)
      → env.answer w.trace (list_routes vni) ≡ gives routes
      → let (res, w') = cleanup_not_peered_routes env config vni w in
        Cleaned
          (get_peer_vnis vni w.cache)
          routes
          (record { call = list_routes vni; succeeded = true } ∷ w.trace)
          res
          w'.trace
  unfolding cleanup_not_peered_routes call context ◌>>=◌
  cleanup_not_peered_routes-deletes w routes e = rw e (
      for_each-Cleaned (get_peer_vnis vni w.cache) routes
        (record w { trace = record { call = list_routes vni; succeeded = true } ∷ w.trace }))
