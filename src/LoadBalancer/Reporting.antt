-- ===== src/LoadBalancer/Reporting.antt =====
-- The status that a reconciliation of a load balancer reports.
use metalnet.Base.{
  ◌≡◌, ◌≢◌, refl, ◌∙◌, ◌⊎◌, inl, inr, Bool, true, false, not, ◌&&◌, ◌∷◌, arith, Bool-cases,
}
use metalnet.Base.Result.{Err, Result, ok, err, panic}
use metalnet.Base.Exec.{attempt, attempt-ok, context, ◌>>=◌, >>=-ok}
use metalnet.Netip.{Addr, is6}
use metalnet.Api.{LoadBalancer, Network, State, ready, pending, failed}
use metalnet.Effects.{
  Env, Call, World, call, note, u32, get_network, ensure_finalizer, patch_lb_status, record_event,
  gives, fails,
}
use metalnet.LoadBalancer.{
  LoadBalancerReconciler, load_balancer_finalizer, load_balancer_object, network_key,
  apply_load_balancer, patch_status, fail_with, after_apply, after_network, reconcile,
}
use metalnet.LoadBalancer.Applying.{Answer-cases}

module _ (env : Env) (r : LoadBalancerReconciler) (lb : LoadBalancer) where
  -- The last call has set the status.
  abbrev pub Patched : State → World → World → Type 0
  Patched state v w' = w' ≡ record v {
    trace =
        record { call = patch_lb_status (load_balancer_object lb) state; succeeded = true }
        ∷ v.trace;
  }

  fail_with-fails : (e : Err) (w : World) (b : Bool) → (fail_with env r lb e w).0 ≢ ok b
  unfolding fail_with
  fail_with-fails e w b h =
      let (_, _, q) = >>=-ok (attempt (patch_status env r lb failed)) _ w h in cc (rw q at h)

  after_apply-Patched :
      (a : Addr) (v : World) (b : Bool)
      → (after_apply env r lb (ok a) v).0 ≡ ok b
      → (b ≡ false) × Patched ready v (after_apply env r lb (ok a) v).1
  unfolding after_apply patch_status context ◌>>=◌ call
  after_apply-Patched a v b h =
      elim (Answer-cases (env.answer v.trace (patch_lb_status (load_balancer_object lb) ready))) [
        | inl (u, e) ↦ rw e (ground (arith, rw e at h), refl)
        | inr (x, e) ↦ absurd (cc (rw e at h))
      ]

  after_apply-ok :
      (res : Result Addr) (v : World) (b : Bool)
      → (after_apply env r lb res v).0 ≡ ok b
      → (a : Addr) × (res ≡ ok a)
  after_apply-ok (ok a) v b h = (a, refl)
  after_apply-ok (err e) v b h = absurd (unfold after_apply in fail_with-fails _ v b h)
  after_apply-ok (panic p) v b h = unfold after_apply in cc

  -- The load balancer was applied for the VNI of the network, and the status says that it is ready.
  abbrev pub IsReady : Network → World → World → Type 0
  IsReady network v w' =
      ((a : Addr) × ((apply_load_balancer env r lb (u32 network.spec.id) v).0 ≡ ok a))
      × Patched ready (apply_load_balancer env r lb (u32 network.spec.id) v).1 w'

  -- An event was recorded, nothing was applied, and the status says that it is pending.
  abbrev pub IsPending : World → World → Type 0
  IsPending v w' =
      Patched pending
        (record v {
          trace =
              record {
                call = record_event (load_balancer_object lb) "NetworkNotFound";
                succeeded = true;
              }
              ∷ v.trace;
        })
        w'

  abbrev pub ensure : Call
  ensure = ensure_finalizer (load_balancer_object lb) load_balancer_finalizer

  -- Finds the network of the load balancer.
  abbrev pub look_up : Call
  look_up = get_network (network_key env r lb)

  -- The API gave the network, or said that there is none; `u` is the world before that call.
  abbrev pub Reported : World → World → Type 0
  Reported u w' =
      ((network : Network) × (env.answer u.trace look_up ≡ gives network)
        × IsReady network (call env look_up u).1 w')
      ⊎ ((e : Err) × (env.answer u.trace look_up ≡ fails e)
          × (env.is_not_found e ≡ true)
          × IsPending (call env look_up u).1 w')

  found-IsReady :
      (network : Network) (v : World) (b : Bool)
      → (after_network env r lb (ok network) v).0 ≡ ok b
      → (b ≡ false) × IsReady network v (after_network env r lb (ok network) v).1
  unfolding after_network
  found-IsReady network v b h =
      let m = apply_load_balancer env r lb (u32 network.spec.id) in
      let (res, o, e) = >>=-ok (attempt m) _ v h in
      let (p, moved) = attempt-ok m v o in
      let h₁ = rw (e, moved) at h in
      let (a, q) = after_apply-ok res (m v).1 b h₁ in
      let (n, done) = after_apply-Patched a (m v).1 b (rw q at h₁) in
      rw (e, moved, q) (n, ((a, p ∙ q), done))

  absent-IsPending :
      (x : Err) (v : World) (b : Bool)
      → (after_network env r lb (err x) v).0 ≡ ok b
      → (b ≡ false) × (env.is_not_found x ≡ true) × IsPending v (after_network env r lb (err x) v).1
  unfolding after_network patch_status context ◌>>=◌ note call
  absent-IsPending x v b h = elim (Bool-cases (env.is_not_found x)) [
    | inr n ↦ absurd (cc (rw n at h))
    | inl y ↦
        let t =
          record {
            call = record_event (load_balancer_object lb) "NetworkNotFound";
            succeeded = true;
          }
          ∷ v.trace in
        elim (Answer-cases (env.answer t (patch_lb_status (load_balancer_object lb) pending))) [
          | inl (u, e) ↦ rw (y, e) (ground (arith, rw (y, e) at h), refl, refl)
          | inr (z, e) ↦ absurd (cc (rw (y, e) at h))
        ]
  ]

  -- A reconciliation that returns nil asks to be run again exactly if the finalizer was missing.
  -- Otherwise its last call has reported the outcome. If the API then gave the network, the load
  -- balancer was applied for the VNI of that network, next and without an error, and is reported as
  -- ready. If the API said that the network does not exist, nothing was applied, and it is reported
  -- as pending. An IPv6 address without IPv6 support is neither.
  pub reconcile-reports :
      (w : World) (b : Bool)
      → let w' = (reconcile env r lb w).1 in
        (reconcile env r lb w).0 ≡ ok b
        → ((b ≡ true) × (env.answer w.trace ensure ≡ gives true))
          ⊎ ((b ≡ false)
              × (env.answer w.trace ensure ≡ gives false)
              × ((not r.enable_ipv6_support && is6 lb.spec.ip) ≡ false)
              × Reported (call env ensure w).1 w')
  unfolding reconcile context ◌>>=◌ attempt call
  reconcile-reports w b h = elim (Answer-cases (env.answer w.trace ensure)) [
    | inr (x, e) ↦ absurd (cc (rw e at h))
    | inl (true, e) ↦ inl (ground (arith, rw e at h), e)
    | inl (false, e) ↦
        let t = record { call = ensure; succeeded = true } ∷ w.trace in
        elim (Bool-cases (not r.enable_ipv6_support && is6 lb.spec.ip)) [
          | inl y ↦ absurd (fail_with-fails _ (record w { trace = t }) b (rw (e, y) at h))
          | inr n ↦ elim (Answer-cases (env.answer t look_up)) [
            | inl (network, g) ↦
                let v = record w { trace = record { call = look_up; succeeded = true } ∷ t } in
                let (q, done) = found-IsReady network v b (rw (e, n, g) at h) in
                rw (e, n, g) (inr (q, refl, refl, inl (network, refl, done)))
            | inr (x, g) ↦
                let v = record w { trace = record { call = look_up; succeeded = false } ∷ t } in
                let (q, y, done) = absent-IsPending x v b (rw (e, n, g) at h) in
                rw (e, n, g) (inr (q, refl, refl, inr (x, refl, y, done)))
          ]
        ]
  ]
