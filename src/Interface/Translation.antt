-- ===== src/Interface/Translation.antt =====
-- The NAT address of an interface: the calls that bring dp-service and metalbond to it.
use metalnet.Base.{
  ℕ, ◌%◌, ◌^◌, ◌∙◌, ◌≡◌, refl, subst, ◌⊎◌, inl, inr, true, false, ◌↔◌, Option, some, String, List,
  [], ◌∷◌, ◌++◌, nat_eq, string_eq, nat_beq_iff, arith, Bool-cases, if◌then◌else◌,
}
use metalnet.Base.Result.{Err, ok, no_vm, snat_no_data}
use metalnet.Base.Exec.{attempt, context, context-ok, ◌>>=◌, ◌>>◌, >>=-ok}
use metalnet.Netip.{Addr, addr_beq_iff}
use metalnet.Api.{NatDetails}
use metalnet.Effects.{
  Env, Call, World, call, deref, u32, get_nat, create_nat, delete_nat, announce_route,
  withdraw_route, gives, fails,
}
use metalnet.Effects.Traces.{Made, Made-trans, call-ok, call-Made}
use metalnet.Wire.{DpdkNat, NextHop, standard, nat}
use metalnet.Metalbond.Errors.{unless_ignored}
use metalnet.Metalbond.RouteUtil.{announce, withdraw, to_destination}
use metalnet.LoadBalancer.{net_ip_addr_prefix}
use metalnet.LoadBalancer.Applying.{Answer-cases, deref-ok}
use metalnet.Interface.Spec.{NetworkInterfaceReconciler}
use metalnet.Interface.Routes.{plain_hop}
use metalnet.Interface.Nat.{
  nat_hop, remove_nat_ip_route_if_exists, add_nat_ip_route_if_not_exists,
  delete_dpdk_nat_ip_if_exists, delete_existing_nat_ip, create_nat_ip, is_nat_current,
  apply_found_nat, apply_nat_ip, delete_found_nat, delete_nat_ip,
}

module _ (env : Env) (r : NetworkInterfaceReconciler) (uid : String) (vni : ℕ) where
  -- The next hops of the two routes of a NAT: the underlay address alone, and with the ports.
  abbrev pub public_hop : Addr → NextHop
  public_hop u = record {
    target_address = u;
    target_vni = 0;
    hop_type = standard;
    nat_port_range_from = 0;
    nat_port_range_to = 0;
  }

  abbrev pub own_hop : DpdkNat → Addr → NextHop
  own_hop n u = record {
    target_address = u;
    target_vni = 0;
    hop_type = nat;
    nat_port_range_from = n.min_port % 2 ^ 16;
    nat_port_range_to = n.max_port % 2 ^ 16;
  }

  -- The public route of a NAT address and the one in its own VNI, with the ports.
  abbrev pub announced : DpdkNat → Addr → Addr → List Call
  announced n a u =
      announce_route (u32 r.public_vni) (to_destination (net_ip_addr_prefix a)) (public_hop u)
      ∷ announce_route vni (to_destination (net_ip_addr_prefix a)) (own_hop n u)
      ∷ []

  -- The same two routes, and the NAT of dp-service.
  abbrev pub torn_down : DpdkNat → Addr → Addr → List Call
  torn_down n a u =
      withdraw_route (u32 r.public_vni) (to_destination (net_ip_addr_prefix a)) (public_hop u)
      ∷ withdraw_route vni (to_destination (net_ip_addr_prefix a)) (own_hop n u)
      ∷ delete_nat uid (no_vm ∷ [])
      ∷ []

  -- The address and the underlay address of a NAT that has both.
  abbrev pub HasBoth : DpdkNat → Addr → Addr → Type 0
  HasBoth n a u = (n.nat_ip ≡ some a) × (n.underlay_route ≡ some u)

  add-Made :
      (n : DpdkNat) (u : Addr) (w : World)
      → (add_nat_ip_route_if_not_exists env r n u vni w).0 ≡ ok tt
      → (a : Addr) × (n.nat_ip ≡ some a)
        × Made (announced n a u) w (add_nat_ip_route_if_not_exists env r n u vni w).1
  unfolding add_nat_ip_route_if_not_exists unless_ignored announce call nat_hop plain_hop
  add-Made n u w h =
      let (a, a₁, e₁) = >>=-ok (deref n.nat_ip) _ w h in
      let (o, same) = deref-ok n.nat_ip w a₁ in
      let (_, _, e₂) = >>=-ok _ _ w (rw (e₁, same) at h) in (a, o, rw (e₁, same, e₂) refl)

  existing-Made :
      (n : DpdkNat) (u : Addr) (w : World)
      → (delete_existing_nat_ip env r uid n u vni w).0 ≡ ok tt
      → (a : Addr) × (n.nat_ip ≡ some a)
        × Made (torn_down n a u) w (delete_existing_nat_ip env r uid n u vni w).1
  unfolding delete_existing_nat_ip remove_nat_ip_route_if_exists delete_dpdk_nat_ip_if_exists
      unless_ignored withdraw context call nat_hop plain_hop
  existing-Made n u w h =
      let (_, a₀, e₀) = >>=-ok (remove_nat_ip_route_if_exists env r n u vni) _ w h in
      let (a, a₁, e₁) = >>=-ok (deref n.nat_ip) _ w a₀ in
      let (o, same) = deref-ok n.nat_ip w a₁ in
      let (_, _, e₂) = >>=-ok _ _ w (rw (e₁, same) at a₀) in (a, o, rw (e₀, e₁, same, e₂) refl)

  abbrev pub creation : NatDetails → Addr → Call
  creation d ip = create_nat uid ip (u32 d.port) (u32 d.end_port)

  -- After the calls `before`, the NAT was created, and the routes of the NAT that dp-service
  -- answered to that call were announced, with its underlay address and its ports.
  abbrev pub Renewed : List Call → NatDetails → Addr → World → World → Type 0
  Renewed before d ip w w' =
      (v : World) × (c : DpdkNat) × (a : Addr) × (u : Addr) × Made before w v
      × (env.answer v.trace (creation d ip) ≡ gives c)
      × HasBoth c a u
      × Made (creation d ip ∷ announced c a u) v w'

  create-Made :
      (d : NatDetails) (ip : Addr) (w : World)
      → (create_nat_ip env r uid d ip vni w).0 ≡ ok tt
      → Renewed [] d ip w (create_nat_ip env r uid d ip vni w).1
  unfolding create_nat_ip
  create-Made d ip w h =
      let m = context "error creating dpdk nat ip: " (call env (creation d ip)) in
      let (c, a₁, e₁) = >>=-ok m _ w h in
      let (got, moved) =
        context-ok "error creating dpdk nat ip: " (call env (creation d ip)) w a₁ in
      let h₁ = rw (e₁, moved) at h in
      let v = (call env (creation d ip) w).1 in
      let (u, a₂, e₂) = >>=-ok (deref c.underlay_route) _ v h₁ in
      let (o, same) = deref-ok c.underlay_route v a₂ in
      let (a, p, made) = add-Made c u v (rw (e₂, same) at h₁) in
      (
        w,
        c,
        a,
        u,
        refl,
        call-ok env (creation d ip) w got,
        (p, o),
        rw (e₁, moved, e₂, same)
            (Made-trans (creation d ip ∷ []) (announced c a u) w v
              (add_nat_ip_route_if_not_exists env r c u vni v).1 (call-Made env (creation d ip) w)
              made),
      )

  -- dp-service holds what the specification asks for.
  abbrev pub IsCurrent : DpdkNat → Addr → NatDetails → Addr → Type 0
  IsCurrent n a d ip = (a ≡ ip) × (n.min_port ≡ u32 d.port) × (n.max_port ≡ u32 d.end_port)

  IsCurrent-test :
      (n : DpdkNat) (a : Addr) (d : NatDetails) (ip : Addr)
      → (is_nat_current env r n a d ip ≡ true) ↔ IsCurrent n a d ip
  unfolding is_nat_current
  IsCurrent-test n a d ip = ground (
    arith,
    addr_beq_iff a ip,
    nat_beq_iff n.min_port (u32 d.port),
    nat_beq_iff n.max_port (u32 d.end_port),
  )

  abbrev pub look_up : Call
  look_up = get_nat uid

  -- The calls for a NAT that dp-service has, after those before.
  abbrev pub Turned : List Call → NatDetails → Addr → DpdkNat → World → World → Type 0
  Turned before d ip n w w' =
      (a : Addr) × (u : Addr) × HasBoth n a u
      × ((IsCurrent n a d ip × Made (before ++ announced n a u) w w')
          ⊎ ((IsCurrent n a d ip → ⊥) × Renewed (before ++ torn_down n a u) d ip w w'))

  same_address : (o : Option Addr) (a b : Addr) → o ≡ some a → o ≡ some b → b ≡ a
  same_address o a b p q = ground (arith, p, q)

  choose-Made :
      (d : NatDetails) (ip : Addr) (n : DpdkNat) (a u : Addr) (w : World)
      → n.nat_ip ≡ some a
      → let m =
          if is_nat_current env r n a d ip
          then add_nat_ip_route_if_not_exists env r n u vni
          else delete_existing_nat_ip env r uid n u vni >> create_nat_ip env r uid d ip vni in
        (m w).0 ≡ ok tt
        → (IsCurrent n a d ip × Made (announced n a u) w (m w).1)
          ⊎ ((IsCurrent n a d ip → ⊥) × Renewed (torn_down n a u) d ip w (m w).1)
  choose-Made d ip n a u w p h =
      let (there, back) = IsCurrent-test n a d ip in
      elim (Bool-cases (is_nat_current env r n a d ip)) [
        | inl y ↦
            let (b, q, made) = add-Made n u w (rw y at h) in
            rw y (
              inl (
                there y,
                subst
                    (λ x.
                      Made (announced n x u) w (add_nat_ip_route_if_not_exists env r n u vni w).1)
                    (same_address n.nat_ip a b p q) made,
              ))
        | inr f ↦
            let m = delete_existing_nat_ip env r uid n u vni in
            let h₁ = rw f at h in
            let (_, a₁, e₁) = >>=-ok m (λ _. create_nat_ip env r uid d ip vni) w h₁ in
            let (b, q, made) = existing-Made n u w a₁ in
            let gone =
              subst (λ x. Made (torn_down n x u) w (m w).1) (same_address n.nat_ip a b p q) made in
            let (x, c, b', v, none_more, got, both, made') =
              create-Made d ip (m w).1 (rw e₁ at h₁) in
            rw (f, e₁)
              (inr
                (λ k. absurd (cc (back k, f)), (x, c, b', v, none_more ∙ gone, got, both, made')))
      ]

  turn-Made :
      (d : NatDetails) (ip : Addr) (n : DpdkNat) (w : World)
      → (apply_found_nat env r uid d ip vni (ok n) w).0 ≡ ok tt
      → Turned [] d ip n w (apply_found_nat env r uid d ip vni (ok n) w).1
  unfolding apply_found_nat
  turn-Made d ip n w h =
      let (a, a₁, e₁) = >>=-ok (deref n.nat_ip) _ w h in
      let (p, same₁) = deref-ok n.nat_ip w a₁ in
      let h₁ = rw (e₁, same₁) at h in
      let (u, a₂, e₂) = >>=-ok (deref n.underlay_route) _ w h₁ in
      let (q, same₂) = deref-ok n.underlay_route w a₂ in
      rw (e₁, same₁, e₂, same₂) (a, u, (p, q), choose-Made d ip n a u w p (rw (e₂, same₂) at h₁))

  -- If applyNATIP returns nil, it has looked the NAT up once and made exactly these calls more, in
  -- order. If dp-service has a NAT with this address and these ports: its public route and its own
  -- are announced. If dp-service has another NAT: both routes of that one are withdrawn, with its
  -- underlay address and ports, it is deleted, the new one is created, and the two routes of the NAT
  -- that dp-service answered to the creation are announced, with the underlay address and the ports
  -- of that answer. If dp-service says that it has none: it is created and its routes are announced
  -- in the same way.
  pub apply_nat_ip-Made :
      (d : NatDetails) (ip : Addr) (w : World)
      → (apply_nat_ip env r uid d ip vni w).0 ≡ ok tt
      → let w' = (apply_nat_ip env r uid d ip vni w).1 in
        ((n : DpdkNat) × (env.answer w.trace look_up ≡ gives n) × Turned (look_up ∷ []) d ip n w w')
        ⊎ ((e : Err) × (env.answer w.trace look_up ≡ fails e)
            × (env.is_status_error_code e (no_vm ∷ snat_no_data ∷ []) ≡ true)
            × Renewed (look_up ∷ []) d ip w w')
  unfolding apply_nat_ip apply_found_nat ◌>>=◌ attempt call
  apply_nat_ip-Made d ip w h = elim (Answer-cases (env.answer w.trace look_up)) [
    | inl (n, e) ↦
        let v = record w { trace = record { call = look_up; succeeded = true } ∷ w.trace } in
        rw e (inl (n, refl, turn-Made d ip n v (rw e at h)))
    | inr (x, e) ↦ elim (Bool-cases (env.is_status_error_code x (no_vm ∷ snat_no_data ∷ []))) [
      | inr q ↦ absurd (cc (rw (e, q) at h))
      | inl y ↦
          let v = record w { trace = record { call = look_up; succeeded = false } ∷ w.trace } in
          let new = create-Made d ip v (rw (e, y) at h) in rw (e, y) (inr (x, refl, y, new))
    ]
  ]

  found-Made :
      (n : DpdkNat) (w : World)
      → (delete_found_nat env r uid vni (ok n) w).0 ≡ ok tt
      → (a : Addr) × (u : Addr) × HasBoth n a u
        × Made (torn_down n a u) w (delete_found_nat env r uid vni (ok n) w).1
  unfolding delete_found_nat
  found-Made n w h =
      let (u, a₁, e₁) = >>=-ok (deref n.underlay_route) _ w h in
      let (q, same) = deref-ok n.underlay_route w a₁ in
      let (a, p, made) = existing-Made n u w (rw (e₁, same) at h) in
      rw (e₁, same) (a, u, (p, q), made)

  -- If deleteNATIP returns nil, it has looked the NAT up once and, if dp-service has one, withdrawn
  -- both its routes, with its underlay address and ports, and deleted it, with no call more; if
  -- dp-service says that it has none, it has made no call more.
  pub delete_nat_ip-Made :
      (w : World)
      → (delete_nat_ip env r uid vni w).0 ≡ ok tt
      → let w' = (delete_nat_ip env r uid vni w).1 in
        ((n : DpdkNat) × (a : Addr) × (u : Addr) × (env.answer w.trace look_up ≡ gives n)
          × HasBoth n a u
          × Made (look_up ∷ torn_down n a u) w w')
        ⊎ ((e : Err) × (env.answer w.trace look_up ≡ fails e)
            × (env.is_status_error_code e (no_vm ∷ snat_no_data ∷ []) ≡ true)
            × Made (look_up ∷ []) w w')
  unfolding delete_nat_ip delete_found_nat ◌>>=◌ attempt call
  delete_nat_ip-Made w h = elim (Answer-cases (env.answer w.trace look_up)) [
    | inl (n, e) ↦
        let v = record w { trace = record { call = look_up; succeeded = true } ∷ w.trace } in
        let (a, u, both, made) = found-Made n v (rw e at h) in
        rw e (inl (n, a, u, refl, both, made))
    | inr (x, e) ↦ elim (Bool-cases (env.is_status_error_code x (no_vm ∷ snat_no_data ∷ []))) [
      | inr q ↦ absurd (cc (rw (e, q) at h))
      | inl y ↦ rw (e, y) (inr (x, refl, y, refl))
    ]
  ]
