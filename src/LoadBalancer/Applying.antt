-- ===== src/LoadBalancer/Applying.antt =====
-- applyLoadBalancer: what it leaves in the cache and tells metalbond.
use metalnet.Base.{
  ℕ, ◌≡◌, refl, ◌∙◌, ap, subst, ◌⊎◌, inl, inr, true, false, ◌&&◌, Option, none, some, String, [],
  ◌∷◌, if◌then◌else◌, arith, Bool-cases, ◌==◌, nat_eq, string_eq,
}
use metalnet.Base.Result.{Err, ok, not_found}
use metalnet.Base.Exec.{attempt, context, ◌>>=◌, >>=-ok}
use metalnet.Netip.{Addr, addr_string}
use metalnet.Cache.{get_load_balancer_server, add_load_balancer_server}
use metalnet.Cache.Servers.{get-add_load_balancer_server}
use metalnet.Api.{LoadBalancer}
use metalnet.Effects.{
  Env, World, call, on_cache, deref, get_load_balancer, create_load_balancer, announce_route,
  Answer, gives, fails,
}
use metalnet.Effects.Traces.{newest}
use metalnet.Wire.{Underlay}
use metalnet.Metalbond.Errors.{unless_ignored}
use metalnet.Metalbond.RouteUtil.{to_destination, announce}
use metalnet.LoadBalancer.{
  LoadBalancerReconciler, local_vni, next_hop, net_ip_addr_prefix,
  add_load_balancer_route_if_not_exists, register, apply_found, apply_load_balancer, dpdk_ports,
}

pub Answer-cases :
    {A : Type 0} (x : Answer A) → ((a : A) × (x ≡ gives a)) ⊎ ((e : Err) × (x ≡ fails e))
Answer-cases (gives a) = inl (a, refl)
Answer-cases (fails e) = inr (e, refl)

pub deref-ok :
    {A : Type 0} (o : Option A) (w : World) {a : A}
    → (deref o w).0 ≡ ok a
    → (o ≡ some a) × ((deref o w).1 ≡ w)
unfolding deref
deref-ok none w h = cc
deref-ok (some a) w h = (ground arith, refl)

module _ (env : Env) (r : LoadBalancerReconciler) (lb : LoadBalancer) (vni : ℕ) where
  -- The cache has the server, everything else in it is as before, and the newest call announces
  -- the address of the load balancer with this underlay address.
  abbrev pub Registered : World → Addr → World → Type 0
  Registered w underlay w' =
      ((v : ℕ) (i : String)
        → get_load_balancer_server v i w'.cache ≡ (
            if (vni == v) && (addr_string lb.spec.ip == i)
            then some lb.meta.uid
            else get_load_balancer_server v i w.cache))
      × (newest w'.trace
          ≡ some (
              announce_route (local_vni env r lb vni)
                (to_destination (net_ip_addr_prefix lb.spec.ip)) (next_hop env r lb underlay)))

  added :
      (w : World) (v : ℕ) (i : String)
      → get_load_balancer_server v i
          (on_cache (add_load_balancer_server vni (addr_string lb.spec.ip) lb.meta.uid) w).1.cache
        ≡ (if (vni == v) && (addr_string lb.spec.ip == i)
            then some lb.meta.uid
            else get_load_balancer_server v i w.cache)
  unfolding on_cache
  added w v i = get-add_load_balancer_server vni v (addr_string lb.spec.ip) i lb.meta.uid w.cache

  newest-announce :
      (a : Addr) (w : World)
      → let v = (add_load_balancer_route_if_not_exists env r lb a vni w).1 in
        (v.cache ≡ w.cache)
        × (newest v.trace
            ≡ some (
                announce_route
                  (local_vni env r lb vni)
                  (to_destination (net_ip_addr_prefix lb.spec.ip))
                  (next_hop env r lb a)))
  unfolding add_load_balancer_route_if_not_exists unless_ignored announce call
  newest-announce a w = (refl, refl)

  register-Registered :
      (found : Underlay) (w : World) (a : Addr)
      → (register env r lb vni found w).0 ≡ ok a
      → (found.underlay_route ≡ some a) × Registered w a (register env r lb vni found w).1
  unfolding register
  register-Registered found w a h =
      let add = add_load_balancer_server vni (addr_string lb.spec.ip) lb.meta.uid in
      let (_, _, e₁) = >>=-ok (on_cache add) _ w h in
      let h₁ = rw e₁ at h in
      let (b, a₂, e₂) = >>=-ok (deref found.underlay_route) _ _ h₁ in
      let h₂ = rw e₂ at h₁ in
      let (_, _, e₃) = >>=-ok (add_load_balancer_route_if_not_exists env r lb b vni) _ _ h₂ in
      let h₃ = rw e₃ at h₂ in
      let (o, same) = deref-ok found.underlay_route (on_cache add w).1 a₂ in
      let q : b ≡ a = ground arith in
      let u = (deref found.underlay_route (on_cache add w).1).1 in
      let (kept, new) = newest-announce b u in
      rw (e₁, e₂, e₃)
        (subst
          (λ x.
            (found.underlay_route ≡ some x)
            × Registered w x (add_load_balancer_route_if_not_exists env r lb b vni u).1)
          q
          (
            o,
            (
              (λ v i.
                  ap (get_load_balancer_server v i) (kept ∙ ap (λ x. x.cache) same) ∙ added w v i),
              new,
            ),
          ))

  -- The underlay address is that of the load balancer that dp-service has, or has just created.
  abbrev pub Given : World → Addr → Type 0
  Given w a =
      (f : Underlay) × (f.underlay_route ≡ some a)
      × ((env.answer w.trace (get_load_balancer lb.meta.uid) ≡ gives f)
          ⊎ ((e : Err) × (env.answer w.trace (get_load_balancer lb.meta.uid) ≡ fails e)
              × (env.is_status_error_code e (not_found ∷ []) ≡ true)
              × (env.answer
                    (record { call = get_load_balancer lb.meta.uid; succeeded = false } ∷ w.trace)
                    (create_load_balancer lb.meta.uid vni lb.spec.ip
                      (dpdk_ports env r lb lb.spec.ports))
                  ≡ gives f)))

  -- If applyLoadBalancer returns an underlay address, dp-service has given it, the cache has the
  -- server under its VNI and address and is else as before, and the newest call announces the route.
  pub apply_load_balancer-Registered :
      (w : World) (a : Addr)
      → (apply_load_balancer env r lb vni w).0 ≡ ok a
      → Given w a × Registered w a (apply_load_balancer env r lb vni w).1
  unfolding apply_load_balancer apply_found ◌>>=◌ attempt context call
  apply_load_balancer-Registered w a h =
      elim (Answer-cases (env.answer w.trace (get_load_balancer lb.meta.uid))) [
        | inl (f, e) ↦
            let v = record w {
              trace = record { call = get_load_balancer lb.meta.uid; succeeded = true } ∷ w.trace;
            } in
            let (o, done) = register-Registered f v a (rw e at h) in rw e ((f, o, inl refl), done)
        | inr (x, e) ↦ elim (Bool-cases (env.is_status_error_code x (not_found ∷ []))) [
          | inr n ↦ absurd (cc (rw (e, n) at h))
          | inl y ↦
              let t =
                record { call = get_load_balancer lb.meta.uid; succeeded = false } ∷ w.trace in
              let c =
                create_load_balancer lb.meta.uid vni lb.spec.ip
                  (dpdk_ports env r lb lb.spec.ports) in
              elim (Answer-cases (env.answer t c)) [
                | inr (z, n) ↦ absurd (cc (rw (e, y, n) at h))
                | inl (f, g) ↦
                    let v = record w { trace = record { call = c; succeeded = true } ∷ t } in
                    let (o, done) = register-Registered f v a (rw (e, y, g) at h) in
                    rw (e, y, g) ((f, o, inr (x, refl, y, refl)), done)
              ]
        ]
      ]
