-- ===== src/Interface/Removal.antt =====
-- The deletion of an interface: what it has done to the pool of functions, and its last calls.
use metalnet.Base.{
  ℕ, ◌≡◌, ◌≢◌, refl, sym, ◌∙◌, ap, subst, ◌⊎◌, inl, inr, Bool, true, false, Option, none, some,
  String, List, [], ◌∷◌, string_eq, All, Bool-cases,
}
use metalnet.Base.Map
use metalnet.Base.Result.{Err, Result, ok, err, panic, wrap, wrap_error, not_found}
use metalnet.Base.Exec.{attempt, context, context-ok, continue, ◌>>=◌, ◌>>◌, >>=-ok}
use metalnet.Netip.{Addr}
use metalnet.Api.{PciAddress, NetworkInterface}
use metalnet.Effects.{
  Env, Call, M, World, call, deref, on_functions, get_interface, delete_interface, remove_finalizer,
  gives, fails,
}
use metalnet.Effects.Invariants.{keeps_functions, call-keeps_functions}
use metalnet.Effects.Traces.{calls}
use metalnet.Wire.{Underlay}
use metalnet.NetFns.{Manager, release, is_claim_not_found}
use metalnet.NetFns.Conservation.{IsSound, Conserved}
use metalnet.NetFns.Releasing.{release-Conserved}
use metalnet.NetFns.Honesty.{IsHonest, release-unclaimed}
use metalnet.LoadBalancer.Applying.{Answer-cases, deref-ok}
use metalnet.Interface.Spec.{
  NetworkInterfaceReconciler, network_interface_finalizer, interface_object,
  get_network_interface_ips,
}
use metalnet.Interface.Routes.{remove_interface_routes_if_exist}
use metalnet.Interface.Frames.{remove_interface_routes_if_exist-Moves}
use metalnet.Interface.PartFrames.{drop_parts-Moves}
use metalnet.Interface.Deleting.{
  judge_release, release_net_fn_if_claim_exists, delete_dpdk_interface_if_exists, drop_finalizer,
  drop_interface, drop_parts, delete_found, delete,
}

module _ (env : Env) (r : NetworkInterfaceReconciler) (nic : NetworkInterface)
    (pci : r.is_tap_store ≡ false)
    (reads_back : (t : String) (a : PciAddress)
      → r.ghw.from_string t ≡ some a
      → r.ghw.from_string (r.ghw.to_string a) ≡ some a) where
  -- Every address is held as often as before, and the file of the interface's claim is gone.
  abbrev pub Unclaimed : Manager → Manager → Type 0
  Unclaimed m m' = Conserved r.ghw m m' × (Map.lookup nic.meta.uid m'.store.files ≡ none)

  -- The pool is sound, and no failing access reports a missing claim.
  abbrev pub IsOrderly : Manager → Type 0
  IsOrderly m = IsSound r.ghw m × All IsHonest m.store.faults

  -- A release that the reconciler accepts.
  abbrev IsAccepted : Result (Unit {0}) → Type 0
  IsAccepted x = (x ≡ ok tt) ⊎ ((e : Err) × (x ≡ err e) × (is_claim_not_found e ≡ true))

  accepted-Unclaimed :
      (m : Manager) (t : Bool)
      → t ≡ false
      → IsOrderly m
      → let (x, m') = release r.ghw t nic.meta.uid m in IsAccepted x → Unclaimed m m'
  accepted-Unclaimed m true p o c = cc
  accepted-Unclaimed m false p (s, honest) (inl o) =
      let (kept, out) = release-Conserved r.ghw reads_back nic.meta.uid m s in
      elim out [ inl (_, gone, _) ↦ (kept, gone) | inr (e, q, _, _) ↦ absurd (cc (o, q)) ]
  accepted-Unclaimed m false p (s, honest) (inr (e, q, y)) =
      let (kept, out) = release-Conserved r.ghw reads_back nic.meta.uid m s in
      elim out [
        | inl (o, _, _) ↦ absurd (cc (o, q))
        | inr (x, _, files, _) ↦
            (kept, rw files (release-unclaimed r.ghw nic.meta.uid m e honest q y))
      ]

  judge-IsAccepted :
      (x : Result (Unit {0})) (v : World)
      → ((attempt (λ (w : World). (x, v)) >>= judge_release env r nic) v).0 ≡ ok tt
      → IsAccepted x × (((attempt (λ (w : World). (x, v)) >>= judge_release env r nic) v).1 ≡ v)
  unfolding attempt ◌>>=◌ judge_release
  judge-IsAccepted (ok a) v h = (inl refl, refl)
  judge-IsAccepted (err e) v h = elim (Bool-cases (is_claim_not_found e)) [
    | inl y ↦ rw y (inr (e, refl, y), refl)
    | inr n ↦ absurd (cc (rw n at h))
  ]
  judge-IsAccepted (panic p) v h = cc

  released-Unclaimed :
      (w : World)
      → IsOrderly w.functions
      → (release_net_fn_if_claim_exists env r nic w).0 ≡ ok tt
      → Unclaimed w.functions (release_net_fn_if_claim_exists env r nic w).1.functions
        × ((release_net_fn_if_claim_exists env r nic w).1.trace ≡ w.trace)
  unfolding release_net_fn_if_claim_exists on_functions attempt ◌>>=◌
  released-Unclaimed w o h =
      let (x, m') = release r.ghw r.is_tap_store nic.meta.uid w.functions in
      let v = record w { functions = m' } in
      let (c, same) = judge-IsAccepted x v (unfold attempt ◌>>=◌ in h) in
      subst (λ (z : World). Unclaimed w.functions z.functions × (z.trace ≡ w.trace)) (sym same)
        (accepted-Unclaimed w.functions r.is_tap_store pci o c, refl)

  abbrev pub finish : Call
  finish = remove_finalizer (interface_object nic) network_interface_finalizer

  abbrev pub removal : Call
  removal = delete_interface nic.meta.uid (not_found ∷ [])

  -- Nil, or the error of the removal of the finalizer.
  abbrev pub IsLast : Result Bool → Type 0
  IsLast res =
      ((b : Bool) × (res ≡ ok b)) ⊎ ((e : Err) × (res ≡ err (wrap "error removing finalizer: " e)))

  -- A step whose errors are not those of the removal of the finalizer.
  abbrev IsEarlier : {A : Type 0} → M A → Type 0
  IsEarlier m = (w : World) (e : Err) → (m w).0 ≢ err (wrap "error removing finalizer: " e)

  context-IsEarlier :
      {A : Type 0} (t : String) (m : M A)
      → ((e e' : Err) → wrap t e ≢ wrap "error removing finalizer: " e')
      → IsEarlier (context t m)
  unfolding context
  context-IsEarlier {A} t m other w e = go (m w).0
    where
      go : (x : Result A) → wrap_error t x ≢ err (wrap "error removing finalizer: " e)
      go (ok a) p = cc
      go (err x) p = other x e (cc p)
      go (panic x) p = cc

  bind-IsEarlier :
      {A B : Type 0} (m : M A) (k : A → M B)
      → IsEarlier m
      → ((a : A) → IsEarlier (k a))
      → IsEarlier (m >>= k)
  unfolding ◌>>=◌
  bind-IsEarlier {A} m k p q w e = go (m w).0 (m w).1 (p w e)
    where
      go :
          (x : Result A) (v : World)
          → x ≢ err (wrap "error removing finalizer: " e)
          → (continue x k v).0 ≢ err (wrap "error removing finalizer: " e)
      go (ok a) v n l = q a v e l
      go (err x) v n l = n (ap err (cc l))
      go (panic x) v n l = cc

  deref-IsEarlier : {A : Type 0} (o : Option A) → IsEarlier (deref o)
  unfolding deref
  deref-IsEarlier none w e p = cc
  deref-IsEarlier (some a) w e p = cc

  past :
      {A : Type 0} (m : M A) (k : A → M Bool) (w : World)
      → IsEarlier m
      → IsLast ((m >>= k) w).0
      → (a : A) × ((m w).0 ≡ ok a) × ((m >>= k) w ≡ k a (m w).1)
  unfolding ◌>>=◌
  past {A} m k w early h = go (m w).0 (m w).1 (early w) h
    where
      go :
          (x : Result A) (v : World)
          → ((e : Err) → x ≢ err (wrap "error removing finalizer: " e))
          → IsLast (continue x k v).0
          → (a : A) × (x ≡ ok a) × (continue x k v ≡ k a v)
      go (ok a) v n l = (a, refl, refl)
      go (err e) v n (inl (b, p)) = cc
      go (err e) v n (inr (e', p)) = absurd (n e' (ap err (cc p)))
      go (panic p) v n (inl (b, q)) = cc
      go (panic p) v n (inr (e', q)) = cc

  drop_parts-IsEarlier : (vni : ℕ) → IsEarlier (drop_parts env r nic vni)
  unfolding drop_parts
  drop_parts-IsEarlier vni =
      bind-IsEarlier _ _ (context-IsEarlier "error deleting prefixes: " _ (λ e e' p. cc p)) λ _.
        bind-IsEarlier _ _ (context-IsEarlier "error deleting lb targets: " _ (λ e e' p. cc p)) λ _.
          bind-IsEarlier _ _
            (context-IsEarlier "error deleting firewall rules: " _ (λ e e' p. cc p))
            λ _.
              bind-IsEarlier _ _ (context-IsEarlier "error deleting nat ip: " _ (λ e e' p. cc p))
                λ _. context-IsEarlier "error deleting virtual ip: " _ (λ e e' p. cc p)

  drop_finalizer-last :
      (w : World)
      → ((drop_finalizer env r nic w).0 ≢ ok true)
        × ((drop_finalizer env r nic w).1.functions ≡ w.functions)
        × (calls (drop_finalizer env r nic w).1.trace ≡ finish ∷ calls w.trace)
  unfolding drop_finalizer ◌>>=◌ call context
  drop_finalizer-last w = elim (Answer-cases (env.answer w.trace finish)) [
    | inl (a, e) ↦ rw e (λ h. cc, refl, refl)
    | inr (x, e) ↦ rw e (λ h. cc, refl, refl)
  ]

  drop_interface-Unclaimed :
      (vni : ℕ) (u : Addr) (w : World)
      → IsOrderly w.functions
      → (drop_interface env r nic vni u w).0 ≡ ok tt
      → Unclaimed w.functions (drop_interface env r nic vni u w).1.functions
        × ((rest : List Call) × (calls (drop_interface env r nic vni u w).1.trace ≡ removal ∷ rest))
  unfolding drop_interface
  drop_interface-Unclaimed vni u w o h =
      let routes = remove_interface_routes_if_exist env r vni (get_network_interface_ips nic) u in
      let (_, _, e₁) = >>=-ok routes _ w h in
      let h₁ = rw e₁ at h in
      let v = (routes w).1 in
      let kept : v.functions ≡ w.functions =
        (remove_interface_routes_if_exist-Moves env r keeps_functions (call-keeps_functions env) vni
            (get_network_interface_ips nic) u).from
          w in
      let (_, _, e₂) = >>=-ok (delete_dpdk_interface_if_exists env r nic) _ v h₁ in
      let h₂ = rw e₂ at h₁ in
      let v' = (delete_dpdk_interface_if_exists env r nic v).1 in
      let (kept', made) = deleted v in
      let same = kept' ∙ kept in
      let (gone, traced) = released-Unclaimed v' (rw (kept', kept) o) h₂ in
      rw (e₁, e₂) (rw same at gone, (calls v.trace, ap calls traced ∙ made))
    where
      deleted :
          (v : World)
          → ((delete_dpdk_interface_if_exists env r nic v).1.functions ≡ v.functions)
            × (calls (delete_dpdk_interface_if_exists env r nic v).1.trace
                ≡ removal ∷ calls v.trace)
      deleted v = unfold delete_dpdk_interface_if_exists context call in (refl, refl)

  abbrev pub look_up : Call
  look_up = get_interface nic.meta.uid

  drop_parts-kept : (vni : ℕ) (w : World) → (drop_parts env r nic vni w).1.functions ≡ w.functions
  drop_parts-kept vni w =
      (drop_parts-Moves env r keeps_functions (call-keeps_functions env) nic vni).from w

  drop_interface-IsEarlier :
      (vni : ℕ) (u : Addr)
      → IsEarlier (context "error deleting underlay route: " (drop_interface env r nic vni u))
  drop_interface-IsEarlier vni u = context-IsEarlier _ _ (λ e e' p. cc p)

  release-IsEarlier :
      IsEarlier (context "error removing claim: " (release_net_fn_if_claim_exists env r nic))
  release-IsEarlier = context-IsEarlier _ _ (λ e e' p. cc p)

  err_injective : {x y : Err} → ◌≡◌ {A = Result Bool} (err x) (err y) → x ≡ y
  err_injective h = cc

  not_ok : {x : Err} {b : Bool} → ◌≡◌ {A = Result Bool} (err x) (ok b) → ⊥
  not_ok h = cc

  other_error :
      (e e' : Err) → wrap "error getting dpdk interface: " e ≢ wrap "error removing finalizer: " e'
  other_error e e' p = cc p

  lookup-IsLast : (x : Err) → IsLast (err (wrap "error getting dpdk interface: " x)) → ⊥
  lookup-IsLast x (inl (b, k)) = not_ok k
  lookup-IsLast x (inr (y, k)) = other_error x y (err_injective k)

  found-Unclaimed :
      (f : Underlay) (w : World)
      → IsOrderly w.functions
      → IsLast (delete_found env r nic (ok f) w).0
      → ((delete_found env r nic (ok f) w).0 ≢ ok true)
        × Unclaimed w.functions (delete_found env r nic (ok f) w).1.functions
        × ((rest : List Call) × (calls (delete_found env r nic (ok f) w).1.trace
              ≡ finish ∷ removal ∷ rest))
  unfolding delete_found
  found-Unclaimed f w o h =
      let (_, _, e₁) = past (drop_parts env r nic f.vni) _ w (drop_parts-IsEarlier f.vni) h in
      let h₁ = rw e₁ at h in
      let v = (drop_parts env r nic f.vni w).1 in
      let kept = drop_parts-kept f.vni w in
      let (u, a₂, e₂) = past (deref f.underlay_route) _ v (deref-IsEarlier f.underlay_route) h₁ in
      let (_, same) = deref-ok f.underlay_route v a₂ in
      let h₂ = rw (e₂, same) at h₁ in
      let m = drop_interface env r nic f.vni u in
      let (_, a₃, e₃) = past _ _ v (drop_interface-IsEarlier f.vni u) h₂ in
      let (done, moved) = context-ok "error deleting underlay route: " m v a₃ in
      let (gone, (rest, made)) = drop_interface-Unclaimed f.vni u v (rw kept o) done in
      let (n, still, last) = drop_finalizer-last (m v).1 in
      rw (e₁, e₂, same, e₃, moved)
        (n, rw still (rw kept at gone), (rest, last ∙ ap (◌∷◌ finish) made))

  missing-Unclaimed :
      (v : World)
      → IsOrderly v.functions
      → let m =
          context "error removing claim: " (release_net_fn_if_claim_exists env r nic)
          >> drop_finalizer env r nic in
        IsLast (m v).0
        → ((m v).0 ≢ ok true)
          × Unclaimed v.functions (m v).1.functions
          × (calls (m v).1.trace ≡ finish ∷ calls v.trace)
  missing-Unclaimed v o h =
      let m = release_net_fn_if_claim_exists env r nic in
      let (_, a₁, e₁) = past _ _ v release-IsEarlier h in
      let (done, moved) = context-ok "error removing claim: " m v a₁ in
      let (gone, traced) = released-Unclaimed v o done in
      let (n, still, last) = drop_finalizer-last (m v).1 in
      rw (e₁, moved) (n, rw still gone, last ∙ ap (λ t. finish ∷ calls t) traced)

  -- With a store of PCI functions whose writes, when they fail, leave no file, and whose failing
  -- accesses do not report a missing claim, addresses that can be read back from their text once
  -- they were read from one, and a sound pool: a deletion of an interface with the finalizer that
  -- returns nil, or fails only in removing the finalizer, has conserved every address of the pool
  -- and left no claim of the interface; so the claim is gone before the finalizer is. If dp-service
  -- has the interface, its last two calls delete the interface there and remove the finalizer, in
  -- that order; if dp-service says that it has none, the removal of the finalizer is the only call
  -- after that. It does not ask to be run again.
  pub delete-Unclaimed :
      (w : World)
      → IsOrderly w.functions
      → env.contains_finalizer nic.meta.finalizers network_interface_finalizer ≡ true
      → IsLast (delete env r nic w).0
      → let (res, w') = delete env r nic w in
        (res ≢ ok true)
        × Unclaimed w.functions w'.functions
        × (((f : Underlay) × (env.answer w.trace look_up ≡ gives f)
              × ((rest : List Call) × (calls w'.trace ≡ finish ∷ removal ∷ rest)))
            ⊎ ((e : Err) × (env.answer w.trace look_up ≡ fails e)
                × (env.is_status_error_code e (not_found ∷ []) ≡ true)
                × (calls w'.trace ≡ finish ∷ look_up ∷ calls w.trace)))
  unfolding delete delete_found ◌>>=◌ attempt call
  delete-Unclaimed w o p h = elim (Answer-cases (env.answer w.trace look_up)) [
    | inl (f, e) ↦
        let v = record w { trace = record { call = look_up; succeeded = true } ∷ w.trace } in
        let (n, gone, made) = found-Unclaimed f v o (rw (p, e) at h) in
        rw (p, e) (n, gone, inl (f, refl, made))
    | inr (x, e) ↦ elim (Bool-cases (env.is_status_error_code x (not_found ∷ []))) [
      | inr q ↦ absurd (lookup-IsLast x (rw (p, e, q) at h))
      | inl y ↦
          let v = record w { trace = record { call = look_up; succeeded = false } ∷ w.trace } in
          let (n, gone, last) = missing-Unclaimed v o (rw (p, e, y) at h) in
          rw (p, e, y) (n, gone, inr (x, refl, y, last))
    ]
  ]
