-- ===== src/Interface/Frames.antt =====
-- What the routes and addresses of an interface leave alone.
use metalnet.Base.{ℕ, not, Option, none, some, String, List, [], ◌∷◌, ◌==◌}
use metalnet.Base.Result.{Result, ok, err, panic, no_vm, snat_no_data}
use metalnet.Netip.{Addr, Prefix, is6, addr_eq}
use metalnet.Api.{NatDetails, NetworkInterface}
use metalnet.Effects.{
  Env, Call, call, u32, announce_route, withdraw_route, get_nat, create_nat, delete_nat,
  get_virtual_ip, create_virtual_ip, delete_virtual_ip,
}
use metalnet.Effects.Invariants.{
  Frame, Moves, Moves-pure, Moves-raise, Moves-deref, Moves-bind, Moves-context, Moves-if,
  Moves-attempt, Moves-for_each,
}
use metalnet.Wire.{NextHop, DpdkNat, DpdkVirtualIp}
use metalnet.Metalbond.RouteUtil.{announce, withdraw, to_destination}
use metalnet.Metalbond.Frames.{Moves-unless_ignored}
use metalnet.Interface.Spec.{NetworkInterfaceReconciler}
use metalnet.Interface.Routes.{
  remove_virtual_ip_route_if_exists, add_virtual_ip_route_if_not_exists,
  add_interface_route_if_not_exists, add_address_routes, add_interface_routes_if_not_exist,
  remove_interface_route_if_exists, remove_address_routes, remove_interface_routes_if_exist,
  add_prefix_route_if_not_exists, remove_prefix_route_if_exists, add_lb_target_route_if_not_exists,
  remove_lb_target_route_if_exists,
}
use metalnet.Interface.Nat.{
  remove_nat_ip_route_if_exists, add_nat_ip_route_if_not_exists, delete_dpdk_nat_ip_if_exists,
  delete_dpdk_virtual_ip_if_exists, delete_existing_nat_ip, create_nat_ip, is_nat_current,
  apply_found_nat, apply_nat_ip, delete_found_nat, delete_nat_ip, reconcile_nat_ip,
  delete_existing_virtual_ip, make_virtual_ip, apply_found_virtual_ip, apply_virtual_ip,
  delete_found_virtual_ip, drop_virtual_ip, reconcile_virtual_ip,
}

module _ (env : Env) (r : NetworkInterfaceReconciler) (F : Frame)
    (net : (c : Call) → Moves F (call env c)) where
  pub Moves-panic : {A : Type 0} (p : String) → Moves {A = A} F (λ w. (panic p, w))
  Moves-panic p = record { from = F.same }

  announce-Moves : (vni : ℕ) (p : Prefix) (h : NextHop) → Moves F (announce env vni p h)
  unfolding announce
  announce-Moves vni p h = net (announce_route vni (to_destination p) h)

  withdraw-Moves : (vni : ℕ) (p : Prefix) (h : NextHop) → Moves F (withdraw env vni p h)
  unfolding withdraw
  withdraw-Moves vni p h = net (withdraw_route vni (to_destination p) h)

  remove_virtual_ip_route_if_exists-Moves :
      (a u : Addr) → Moves F (remove_virtual_ip_route_if_exists env r a u)
  unfolding remove_virtual_ip_route_if_exists
  remove_virtual_ip_route_if_exists-Moves a u = Moves-unless_ignored _ _ _ (withdraw-Moves _ _ _)

  add_virtual_ip_route_if_not_exists-Moves :
      (a u : Addr) → Moves F (add_virtual_ip_route_if_not_exists env r a u)
  unfolding add_virtual_ip_route_if_not_exists
  add_virtual_ip_route_if_not_exists-Moves a u = Moves-unless_ignored _ _ _ (announce-Moves _ _ _)

  add_interface_route_if_not_exists-Moves :
      (vni : ℕ) (a u : Addr) → Moves F (add_interface_route_if_not_exists env r vni a u)
  unfolding add_interface_route_if_not_exists
  add_interface_route_if_not_exists-Moves vni a u =
      Moves-unless_ignored _ _ _ (announce-Moves _ _ _)

  remove_interface_route_if_exists-Moves :
      (vni : ℕ) (a u : Addr) → Moves F (remove_interface_route_if_exists env r vni a u)
  unfolding remove_interface_route_if_exists
  remove_interface_route_if_exists-Moves vni a u = Moves-unless_ignored _ _ _ (withdraw-Moves _ _ _)

  pub add_prefix_route_if_not_exists-Moves :
      (vni : ℕ) (p : Prefix) (u : Addr) → Moves F (add_prefix_route_if_not_exists env r vni p u)
  unfolding add_prefix_route_if_not_exists
  add_prefix_route_if_not_exists-Moves vni p u = Moves-unless_ignored _ _ _ (announce-Moves _ _ _)

  pub remove_prefix_route_if_exists-Moves :
      (vni : ℕ) (p : Prefix) (u : Addr) → Moves F (remove_prefix_route_if_exists env r vni p u)
  unfolding remove_prefix_route_if_exists
  remove_prefix_route_if_exists-Moves vni p u = Moves-unless_ignored _ _ _ (withdraw-Moves _ _ _)

  pub add_lb_target_route_if_not_exists-Moves :
      (vni : ℕ) (p : Prefix) (u : Addr) → Moves F (add_lb_target_route_if_not_exists env r vni p u)
  unfolding add_lb_target_route_if_not_exists
  add_lb_target_route_if_not_exists-Moves vni p u =
      Moves-unless_ignored _ _ _ (announce-Moves _ _ _)

  pub remove_lb_target_route_if_exists-Moves :
      (vni : ℕ) (p : Prefix) (u : Addr) → Moves F (remove_lb_target_route_if_exists env r vni p u)
  unfolding remove_lb_target_route_if_exists
  remove_lb_target_route_if_exists-Moves vni p u = Moves-unless_ignored _ _ _ (withdraw-Moves _ _ _)

  pub add_interface_routes_if_not_exist-Moves :
      (vni : ℕ) (ips : List Addr) (u : Addr)
      → Moves F (add_interface_routes_if_not_exist env r vni ips u)
  unfolding add_interface_routes_if_not_exist add_address_routes
  add_interface_routes_if_not_exist-Moves vni ips u = Moves-for_each ips _ λ ip.
      Moves-bind _ _ (Moves-context _ _ (add_interface_route_if_not_exists-Moves vni ip u))
        λ _. Moves-if (is6 ip) _ _ (add_virtual_ip_route_if_not_exists-Moves ip u) (Moves-pure tt)

  pub remove_interface_routes_if_exist-Moves :
      (vni : ℕ) (ips : List Addr) (u : Addr)
      → Moves F (remove_interface_routes_if_exist env r vni ips u)
  unfolding remove_interface_routes_if_exist remove_address_routes
  remove_interface_routes_if_exist-Moves vni ips u = Moves-for_each ips _ λ ip.
      Moves-bind _ _ (Moves-context _ _ (remove_interface_route_if_exists-Moves vni ip u))
        λ _. Moves-if (is6 ip) _ _ (remove_virtual_ip_route_if_exists-Moves ip u) (Moves-pure tt)

  remove_nat_ip_route-Moves :
      (n : DpdkNat) (u : Addr) (vni : ℕ) → Moves F (remove_nat_ip_route_if_exists env r n u vni)
  unfolding remove_nat_ip_route_if_exists
  remove_nat_ip_route-Moves n u vni = Moves-bind _ _ (Moves-deref n.nat_ip) λ ip.
      Moves-bind _ _ (Moves-unless_ignored _ _ _ (withdraw-Moves _ _ _))
        λ _. Moves-unless_ignored _ _ _ (withdraw-Moves _ _ _)

  add_nat_ip_route-Moves :
      (n : DpdkNat) (u : Addr) (vni : ℕ) → Moves F (add_nat_ip_route_if_not_exists env r n u vni)
  unfolding add_nat_ip_route_if_not_exists
  add_nat_ip_route-Moves n u vni = Moves-bind _ _ (Moves-deref n.nat_ip) λ ip.
      Moves-bind _ _ (Moves-unless_ignored _ _ _ (announce-Moves _ _ _))
        λ _. Moves-unless_ignored _ _ _ (announce-Moves _ _ _)

  delete_existing_nat_ip-Moves :
      (uid : String) (n : DpdkNat) (u : Addr) (vni : ℕ)
      → Moves F (delete_existing_nat_ip env r uid n u vni)
  unfolding delete_existing_nat_ip delete_dpdk_nat_ip_if_exists
  delete_existing_nat_ip-Moves uid n u vni =
      Moves-bind _ _ (remove_nat_ip_route-Moves n u vni)
        λ _. Moves-context _ _ (net (delete_nat uid (no_vm ∷ [])))

  create_nat_ip-Moves :
      (uid : String) (d : NatDetails) (ip : Addr) (vni : ℕ)
      → Moves F (create_nat_ip env r uid d ip vni)
  unfolding create_nat_ip
  create_nat_ip-Moves uid d ip vni =
      Moves-bind _ _ (Moves-context _ _ (net (create_nat uid ip (u32 d.port) (u32 d.end_port))))
        λ c. Moves-bind _ _ (Moves-deref c.underlay_route) λ u. add_nat_ip_route-Moves c u vni

  apply_found_nat-Moves :
      (uid : String) (d : NatDetails) (ip : Addr) (vni : ℕ) (x : Result DpdkNat)
      → Moves F (apply_found_nat env r uid d ip vni x)
  unfolding apply_found_nat
  apply_found_nat-Moves uid d ip vni (ok n) = Moves-bind _ _ (Moves-deref n.nat_ip) λ a.
      Moves-bind _ _ (Moves-deref n.underlay_route) λ u.
        Moves-if (is_nat_current env r n a d ip) _ _ (add_nat_ip_route-Moves n u vni) (
          Moves-bind _ _ (delete_existing_nat_ip-Moves uid n u vni)
            λ _. create_nat_ip-Moves uid d ip vni)
  apply_found_nat-Moves uid d ip vni (err e) =
      Moves-if (not (env.is_status_error_code e (no_vm ∷ snat_no_data ∷ []))) _ _ (Moves-raise _)
        (create_nat_ip-Moves uid d ip vni)
  apply_found_nat-Moves uid d ip vni (panic p) = Moves-panic p

  delete_found_nat-Moves :
      (uid : String) (vni : ℕ) (x : Result DpdkNat) → Moves F (delete_found_nat env r uid vni x)
  unfolding delete_found_nat
  delete_found_nat-Moves uid vni (ok n) =
      Moves-bind _ _ (Moves-deref n.underlay_route) λ u. delete_existing_nat_ip-Moves uid n u vni
  delete_found_nat-Moves uid vni (err e) =
      Moves-if (not (env.is_status_error_code e (no_vm ∷ snat_no_data ∷ []))) _ _ (Moves-raise _)
        (Moves-pure tt)
  delete_found_nat-Moves uid vni (panic p) = Moves-panic p

  pub delete_nat_ip-Moves : (uid : String) (vni : ℕ) → Moves F (delete_nat_ip env r uid vni)
  unfolding delete_nat_ip
  delete_nat_ip-Moves uid vni =
      Moves-bind _ _ (Moves-attempt _ (net (get_nat uid))) (delete_found_nat-Moves uid vni)

  pub reconcile_nat_ip-Moves :
      (nic : NetworkInterface) (vni : ℕ) → Moves F (reconcile_nat_ip env r nic vni)
  unfolding reconcile_nat_ip apply_nat_ip
  reconcile_nat_ip-Moves nic vni = go nic.spec.nat
    where
      at :
          (d : NatDetails) (a : Option Addr)
          → Moves F (elim a [
            | none ↦ delete_nat_ip env r nic.meta.uid vni
            | some ip ↦ apply_nat_ip env r nic.meta.uid d ip vni
          ])
      at d none = delete_nat_ip-Moves nic.meta.uid vni
      at d (some a) =
          Moves-bind _ _ (Moves-attempt _ (net (get_nat nic.meta.uid)))
            (apply_found_nat-Moves nic.meta.uid d a vni)

      go :
          (d : Option NatDetails)
          → Moves F (elim d [
            | none ↦ delete_nat_ip env r nic.meta.uid vni
            | some details ↦ elim details.ip [
              | none ↦ delete_nat_ip env r nic.meta.uid vni
              | some ip ↦ apply_nat_ip env r nic.meta.uid details ip vni
            ]
          ])
      go none = delete_nat_ip-Moves nic.meta.uid vni
      go (some d) = at d d.ip

  delete_existing_virtual_ip-Moves :
      (uid : String) (a u : Addr) → Moves F (delete_existing_virtual_ip env r uid a u)
  unfolding delete_existing_virtual_ip delete_dpdk_virtual_ip_if_exists
  delete_existing_virtual_ip-Moves uid a u =
      Moves-bind _ _ (remove_virtual_ip_route_if_exists-Moves a u)
        λ _. Moves-context _ _ (net (delete_virtual_ip uid (no_vm ∷ [])))

  make_virtual_ip-Moves : (uid : String) (a : Addr) → Moves F (make_virtual_ip env r uid a)
  unfolding make_virtual_ip
  make_virtual_ip-Moves uid a =
      Moves-bind _ _ (Moves-context _ _ (net (create_virtual_ip uid a))) λ c.
        Moves-bind _ _ (Moves-deref c.underlay_route) (add_virtual_ip_route_if_not_exists-Moves a)

  apply_found_virtual_ip-Moves :
      (uid : String) (a : Addr) (x : Result DpdkVirtualIp)
      → Moves F (apply_found_virtual_ip env r uid a x)
  unfolding apply_found_virtual_ip
  apply_found_virtual_ip-Moves uid a (ok f) = Moves-bind _ _ (Moves-deref f.ip) λ b.
      Moves-bind _ _ (Moves-deref f.underlay_route) λ u.
        Moves-if (b == a) _ _ (add_virtual_ip_route_if_not_exists-Moves a u) (
          Moves-bind _ _ (delete_existing_virtual_ip-Moves uid b u)
            λ _. make_virtual_ip-Moves uid a)
  apply_found_virtual_ip-Moves uid a (err e) =
      Moves-if (not (env.is_status_error_code e (no_vm ∷ snat_no_data ∷ []))) _ _ (Moves-raise _)
        (make_virtual_ip-Moves uid a)
  apply_found_virtual_ip-Moves uid a (panic p) = Moves-panic p

  delete_found_virtual_ip-Moves :
      (uid : String) (x : Result DpdkVirtualIp) → Moves F (delete_found_virtual_ip env r uid x)
  unfolding delete_found_virtual_ip
  delete_found_virtual_ip-Moves uid (ok f) =
      Moves-bind _ _ (Moves-deref f.ip)
        λ a. Moves-bind _ _ (Moves-deref f.underlay_route) (delete_existing_virtual_ip-Moves uid a)
  delete_found_virtual_ip-Moves uid (err e) =
      Moves-if (not (env.is_status_error_code e (no_vm ∷ snat_no_data ∷ []))) _ _ (Moves-raise _)
        (Moves-pure tt)
  delete_found_virtual_ip-Moves uid (panic p) = Moves-panic p

  pub drop_virtual_ip-Moves : (uid : String) → Moves F (drop_virtual_ip env r uid)
  unfolding drop_virtual_ip
  drop_virtual_ip-Moves uid =
      Moves-bind _ _ (Moves-attempt _ (net (get_virtual_ip uid)))
        (delete_found_virtual_ip-Moves uid)

  pub reconcile_virtual_ip-Moves :
      (nic : NetworkInterface) → Moves F (reconcile_virtual_ip env r nic)
  unfolding reconcile_virtual_ip apply_virtual_ip
  reconcile_virtual_ip-Moves nic = go nic.spec.virtual_ip
    where
      go :
          (a : Option Addr)
          → Moves F (elim a [
            | none ↦ drop_virtual_ip env r nic.meta.uid
            | some ip ↦ apply_virtual_ip env r nic.meta.uid ip
          ])
      go none = drop_virtual_ip-Moves nic.meta.uid
      go (some a) =
          Moves-bind _ _ (Moves-attempt _ (net (get_virtual_ip nic.meta.uid)))
            (apply_found_virtual_ip-Moves nic.meta.uid a)
