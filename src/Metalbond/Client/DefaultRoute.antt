-- ===== src/Metalbond/Client/DefaultRoute.antt =====
-- What a route to the default router changes.
use metalnet.Base.{
  ℕ, ◌≡◌, refl, Bool, true, not, List, [], ◌∷◌, ◌++◌, map, if◌then◌else◌, select, arith, ◌==◌,
  nat_eq, string_eq,
}
use metalnet.Base.Result.{Result, ok, err, panic, no_vni, route_not_found, route_exists, wrap_error}
use metalnet.Base.Exec.{pure, context, ◌>>=◌, continue, for_each}
use metalnet.Netip.{Addr, no_addr, prefix_string}
use metalnet.Wire.{Destination, NextHop}
use metalnet.Effects.{Env, Call, World, DefaultRouterAddress, call, create_route, delete_route}
use metalnet.Effects.Traces.{Made}
use metalnet.Effects.Invariants.{
  Moves, Frame, keeps_router, keeps_cache, call-keeps_router, call-keeps_cache, Moves-context,
  Moves-for_each, Moves-pure, Moves-if,
}
use metalnet.Effects.Loops.{
  Does, Does-pure, Does-call, Does-context, Does-if, calls_for, for_each-Handles,
}
use metalnet.Metalbond.Client.{
  ClientOptions, default_route_prefix, change_default_route, handle_default_router_change,
  filter_default_route, set_default_router_address,
}
use metalnet.Metalbond.Client.Routes.{is_default_route}
use metalnet.Metalbond.RouteUtil.{DefaultRouteOperation, add_default_route, remove_default_route}

-- The address that the operation leaves.
abbrev pub new_address : DefaultRouteOperation → NextHop → Addr
new_address add_default_route hop = hop.target_address
new_address remove_default_route hop = no_addr

-- The router after the operation.
abbrev pub new_router :
    DefaultRouteOperation → NextHop → DefaultRouterAddress → DefaultRouterAddress
new_router operation hop r = record r {
  router_address = new_address operation hop;
  set_by_subscription = true;
}

-- The call that changes the default route of a VNI.
abbrev pub change : DefaultRouteOperation → DefaultRouterAddress → ℕ → Call
change remove_default_route r v =
    delete_route v default_route_prefix (no_vni ∷ route_not_found ∷ [])
change add_default_route r v =
    create_route v default_route_prefix v r.router_address (route_exists ∷ [])

calls_for-select :
    (p : ℕ → Bool) (f : ℕ → Call) (vs : List ℕ)
    → calls_for (λ v. if p v then [] else f v ∷ []) vs ≡ map f (select (λ v. not (p v)) vs)
calls_for-select p f [] = refl
calls_for-select p f (v ∷ vs) = ground (arith, calls_for-select p f vs)

module _ (env : Env) (config : ClientOptions) where
  change_default_route-Does :
      (operation : DefaultRouteOperation) (r : DefaultRouterAddress) (v : ℕ)
      → Does
          (change_default_route env config operation r v)
          (if v == r.public_vni then [] else change operation r v ∷ [])
  unfolding change_default_route
  change_default_route-Does remove_default_route r v =
      Does-if (v == r.public_vni) (pure tt) _ [] _ (Does-pure tt) (
        Does-context "error deleting default route: " _ _
          (Does-call env (change remove_default_route r v)))
  change_default_route-Does add_default_route r v =
      Does-if (v == r.public_vni) (pure tt) _ [] _ (Does-pure tt) (
        Does-context "error creating default route: " _ _
          (Does-call env (change add_default_route r v)))

  change_default_route-Moves :
      (F : Frame) (operation : DefaultRouteOperation) (r : DefaultRouterAddress) (v : ℕ)
      → ((c : Call) → Moves F (call env c))
      → Moves F (change_default_route env config operation r v)
  unfolding change_default_route
  change_default_route-Moves F remove_default_route r v h =
      Moves-if (v == r.public_vni) (pure tt) _ (Moves-pure tt)
        (Moves-context _ _ (h (change remove_default_route r v)))
  change_default_route-Moves F add_default_route r v h =
      Moves-if (v == r.public_vni) (pure tt) _ (Moves-pure tt)
        (Moves-context _ _ (h (change add_default_route r v)))

  -- The loop over the subscribed VNIs, from the world where the new address is set.
  abbrev loop : DefaultRouteOperation → DefaultRouterAddress → World → Result (Unit {0}) × World
  loop operation r w =
      for_each (env.subscribed_vnis w.trace) (change_default_route env config operation r)
        (record w { router = r })

  abbrev finish : Result (Unit {0}) × World → Result Bool × World
  finish (r, v) =
      continue (wrap_error "error handling default router change: " r) (λ _. pure true) v

  finish-world : (r : Result (Unit {0})) (v : World) → (finish (r, v)).1 ≡ v
  finish-world (ok a) v = refl
  finish-world (err a) v = refl
  finish-world (panic a) v = refl

  finish-ok : (r : Result (Unit {0})) (v : World) → (finish (r, v)).0 ≡ ok true → r ≡ ok tt
  finish-ok (ok a) v h = refl
  finish-ok (err a) v h = cc
  finish-ok (panic a) v h = cc

  filter_default_route-loop :
      (operation : DefaultRouteOperation) (vni : ℕ) (dest : Destination) (hop : NextHop) (w : World)
      → is_default_route w.router vni dest ≡ true
      → filter_default_route env config operation vni dest hop w
        ≡ finish (loop operation (new_router operation hop w.router) w)
  unfolding filter_default_route handle_default_router_change set_default_router_address ◌>>=◌
      context
  filter_default_route-loop add_default_route vni dest hop w h =
      let p : (vni == w.router.public_vni) ≡ true = ground arith in
      let q : (prefix_string dest.prefix == "0.0.0.0/0") ≡ true = ground arith in rw (p, q)
  filter_default_route-loop remove_default_route vni dest hop w h =
      let p : (vni == w.router.public_vni) ≡ true = ground arith in
      let q : (prefix_string dest.prefix == "0.0.0.0/0") ≡ true = ground arith in rw (p, q)

  loop-Moves :
      (F : Frame) (operation : DefaultRouteOperation) (r : DefaultRouterAddress) (w : World)
      → ((c : Call) → Moves F (call env c))
      → F.rel (record w { router = r }) (loop operation r w).1
  loop-Moves F operation r w h =
      (Moves-for_each (env.subscribed_vnis w.trace) (change_default_route env config operation r)
          (λ v. change_default_route-Moves F operation r v h)).from
        _

  module _ (operation : DefaultRouteOperation) (vni : ℕ) (dest : Destination) (hop : NextHop) where
    -- A change of the route to the default router: the program's router address is the new one
    -- (none after a withdrawal), the cache is as before, and the VNIs that metalbond is subscribed
    -- to, except the public one, have their default route changed in order, up to the first error.
    pub filter_default_route-changes :
        (w : World)
        → is_default_route w.router vni dest ≡ true
        → let w' = (filter_default_route env config operation vni dest hop w).1 in
          let r = new_router operation hop w.router in
          (w'.router ≡ r)
          × (w'.cache ≡ w.cache)
          × ((done : List ℕ) × (left : List ℕ) × (env.subscribed_vnis w.trace ≡ done ++ left)
              × Made (map (change operation r) (select (λ v. not (v == r.public_vni)) done)) w w'
              × ((filter_default_route env config operation vni dest hop w).0 ≡ ok true
                  → left ≡ []))
    filter_default_route-changes w h =
        let r = new_router operation hop w.router in
        let (res, v) = loop operation r w in
        let (done, left, split, made, all) =
          for_each-Handles _ (change_default_route env config operation r)
            (change_default_route-Does operation r) (env.subscribed_vnis w.trace)
            (record w { router = r }) in
        rw (filter_default_route-loop operation vni dest hop w h, finish-world res v)
          (
            loop-Moves keeps_router operation r w (call-keeps_router env),
            loop-Moves keeps_cache operation r w (call-keeps_cache env),
            (
              done,
              left,
              split,
              rw (← calls_for-select (λ v. v == r.public_vni) (change operation r) done) made,
              λ q. all (finish-ok res v q),
            ),
          )
