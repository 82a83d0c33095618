-- ===== src/Interface/ControlFrames.antt =====
-- What the reconciliation of an interface as a whole leaves alone, from what its accesses to the
-- pool of functions do.
use metalnet.Base.{ℕ, Bool, true, false, not, ◌&&◌, Option, none, some, String, [], ◌∷◌, string_eq}
use metalnet.Base.Result.{Err, Result, ok, err, panic, wrap, not_found}
use metalnet.Base.Exec.{pure, lift, ◌>>=◌}
use metalnet.Netip.{Addr}
use metalnet.Api.{
  ObjectKey, PciAddress, Network, NetworkInterface, NetworkInterfaceStatus, pending, ready, failed,
}
use metalnet.Effects.{
  Env, Call, M, call, note, u32, on_functions, get_network, get_network_interface_object,
  ensure_finalizer, remove_finalizer, patch_nic_status, record_event, get_interface,
  create_interface, delete_interface,
}
use metalnet.Effects.Invariants.{
  Frame, Moves, Moves-pure, Moves-raise, Moves-deref, Moves-bind, Moves-context, Moves-if,
  Moves-attempt,
}
use metalnet.Wire.{Underlay}
use metalnet.NetFns.{get, get_or_claim, release, is_claim_not_found}
use metalnet.Interface.Spec.{
  NetworkInterfaceReconciler, network_interface_finalizer, interface_object,
  get_network_interface_ips, is_valid_interface_spec, get_interface_metering_params,
}
use metalnet.Interface.Device.{convert_to_dpdk_device, representor}
use metalnet.Interface.Applying.{
  Applied, bare_status, patch_status, make_interface, keep_interface, apply_found, apply_interface,
}
use metalnet.Interface.Deleting.{
  judge_release, release_net_fn_if_claim_exists, delete_dpdk_interface_if_exists, drop_finalizer,
  drop_interface, delete_found, delete,
}
use metalnet.Interface.Control.{
  is_ready, fail_with, toggle, part, final_status, reconcile_parts, after_apply, after_validation,
  network_key, after_network, reconcile, reconcile_exists, is_assigned, after_get,
  reconcile_request,
}
use metalnet.Interface.Frames.{
  Moves-panic, add_interface_routes_if_not_exist-Moves, remove_interface_routes_if_exist-Moves,
  reconcile_nat_ip-Moves, reconcile_virtual_ip-Moves,
}
use metalnet.Interface.PartFrames.{
  reconcile_prefixes-Moves, reconcile_lb_targets-Moves, reconcile_firewall_rules-Moves,
  drop_parts-Moves, report-Moves,
}

module _ (env : Env) (r : NetworkInterfaceReconciler) (F : Frame)
    (net : (c : Call) → Moves F (call env c)) (noted : (c : Call) → Moves F (note c))
    (claim : (uid : String) → Moves F (on_functions (get_or_claim r.ghw r.is_tap_store uid)))
    (look : (uid : String) → Moves F (on_functions (get r.ghw r.is_tap_store uid)))
    (free : (uid : String) → Moves F (on_functions (release r.ghw r.is_tap_store uid))) where
  Moves-lift : {A : Type 0} (x : Result A) → Moves F (lift x)
  Moves-lift x = record { from = F.same }

  representor-Moves : (a : PciAddress) (n : ℕ) (x : Result String) → Moves F (representor r a n x)
  unfolding representor
  representor-Moves a n (ok d) = Moves-bind _ _ (Moves-context _ _ (Moves-lift _)) λ p.
      Moves-bind _ _ (Moves-context _ _ (Moves-lift _))
        λ q. Moves-bind _ _ (Moves-context _ _ (Moves-lift _)) λ s. Moves-pure _
  representor-Moves a n (err e) = Moves-pure _
  representor-Moves a n (panic p) = Moves-panic env r F net p

  convert-Moves : (a : PciAddress) → Moves F (convert_to_dpdk_device r a)
  unfolding convert_to_dpdk_device
  convert-Moves a =
      Moves-if (metalnet.Metalbond.Errors.contains a.device "tap") _ _ (Moves-pure _) (
        Moves-bind _ _ (Moves-context _ _ (Moves-lift _)) λ f.
          Moves-bind _ _ (Moves-context _ _ (Moves-lift _))
            λ d. Moves-bind _ _ (Moves-attempt _ (Moves-lift _)) λ x. representor-Moves a _ x)

  module _ (nic : NetworkInterface) where
    patch_status-Moves : (s : NetworkInterfaceStatus) → Moves F (patch_status env r nic s)
    unfolding patch_status
    patch_status-Moves s = Moves-context _ _ (net (patch_nic_status (interface_object nic) s))

    make_interface-Moves : (vni : ℕ) → Moves F (make_interface env r nic vni)
    unfolding make_interface
    make_interface-Moves vni = Moves-bind _ _ (Moves-context _ _ (claim nic.meta.uid)) λ a.
        Moves-bind _ _ (Moves-context _ _ (convert-Moves a)) λ d.
          Moves-bind _ _ (Moves-lift _) λ ip4. Moves-bind _ _ (Moves-lift _) λ ip6.
            Moves-bind _ _
              (Moves-context _ _ (
                net (
                  create_interface nic.meta.uid (record {
                    vni = vni;
                    device = d;
                    ipv4 = ip4;
                    ipv6 = ip6;
                    metering = get_interface_metering_params nic;
                  }))))
              λ c. Moves-bind _ _ (Moves-deref c.underlay_route) λ u.
                Moves-bind _ _
                  (add_interface_routes_if_not_exist-Moves env r F net vni
                    (get_network_interface_ips nic) u)
                  λ _. Moves-pure _

    keep_interface-Moves : (vni : ℕ) (f : Underlay) → Moves F (keep_interface env r nic vni f)
    unfolding keep_interface
    keep_interface-Moves vni f = Moves-bind _ _ (Moves-context _ _ (look nic.meta.uid)) λ a.
        Moves-bind _ _ (Moves-deref f.underlay_route) λ u.
          Moves-bind _ _
            (add_interface_routes_if_not_exist-Moves env r F net vni (get_network_interface_ips nic)
              u)
            λ _. Moves-pure _

    apply_found-Moves : (vni : ℕ) (x : Result Underlay) → Moves F (apply_found env r nic vni x)
    unfolding apply_found
    apply_found-Moves vni (ok f) = keep_interface-Moves vni f
    apply_found-Moves vni (err e) =
        Moves-if (not (env.is_status_error_code e (not_found ∷ []))) _ _ (Moves-raise _)
          (make_interface-Moves vni)
    apply_found-Moves vni (panic p) = Moves-panic env r F net p

    pub apply_interface-Moves : (vni : ℕ) → Moves F (apply_interface env r nic vni)
    unfolding apply_interface
    apply_interface-Moves vni =
        Moves-bind _ _ (Moves-attempt _ (net (get_interface nic.meta.uid))) (apply_found-Moves vni)

    fail_with-Moves : (e : Err) → Moves F (fail_with env r nic e)
    unfolding fail_with
    fail_with-Moves e =
        Moves-bind _ _ (Moves-attempt _ (patch_status-Moves (bare_status failed)))
          λ _. Moves-raise e

    toggle-Moves : (b : Bool) → Moves F (toggle env r nic b)
    unfolding toggle
    toggle-Moves b =
        Moves-if (b && is_ready nic.status.state) _ _
          (Moves-bind _ _ (Moves-attempt _ (patch_status-Moves (bare_status pending))) λ _.
            Moves-bind _ _ (Moves-attempt _ (patch_status-Moves (bare_status ready)))
              λ _. Moves-pure _)
          (Moves-pure _)

    part-Moves :
        (t event : String) (m : M (Unit {0})) → Moves F m → Moves F (part env r nic t event m)
    unfolding part
    part-Moves t event m p = Moves-bind _ _ (Moves-attempt m p) go
      where
        go :
            (x : Result (Unit {0}))
            → Moves {A = Option Err} F (elim x [
              | ok a ↦ pure none
              | err e ↦
                  (note (record_event (interface_object nic) event) >>= λ _. pure (some (wrap t e)))
              | panic q ↦ (λ w. (panic q, w))
            ])
        go (ok a) = Moves-pure none
        go (err e) = Moves-bind _ _ (noted _) λ _. Moves-pure _
        go (panic q) = Moves-panic env r F net q

    reconcile_parts-Moves :
        (vni : ℕ) (s : NetworkInterfaceStatus) (a : PciAddress)
        → Moves F (reconcile_parts env r nic vni s a)
    unfolding reconcile_parts
    reconcile_parts-Moves vni s a =
        Moves-bind _ _ (part-Moves _ _ _ (reconcile_virtual_ip-Moves env r F net nic)) λ e₁.
          Moves-bind _ _ (part-Moves _ _ _ (reconcile_nat_ip-Moves env r F net nic vni)) λ e₂.
            Moves-bind _ _ (part-Moves _ _ _ (reconcile_lb_targets-Moves env r F net vni nic)) λ e₃.
              Moves-bind _ _ (part-Moves _ _ _ (reconcile_prefixes-Moves env r F net vni nic)) λ e₄.
                Moves-bind _ _ (part-Moves _ _ _ (reconcile_firewall_rules-Moves env r F net nic))
                  λ e₅.
                    Moves-bind _ _
                      (Moves-context _ _
                        (patch_status-Moves (final_status env r nic s a e₁ e₂ e₃ e₄)))
                      λ _. Moves-bind _ _ (report-Moves env r F net _ _) λ _. Moves-pure false

    after_apply-Moves : (vni : ℕ) (x : Result Applied) → Moves F (after_apply env r nic vni x)
    unfolding after_apply
    after_apply-Moves vni (ok a) =
        Moves-bind _ _ (toggle-Moves a.is_created) λ s. reconcile_parts-Moves vni s a.pci
    after_apply-Moves vni (err e) = fail_with-Moves _
    after_apply-Moves vni (panic p) = Moves-panic env r F net p

    after_validation-Moves :
        (n : Network) (x : Result (Unit {0})) → Moves F (after_validation env r nic n x)
    unfolding after_validation
    after_validation-Moves n (ok a) =
        Moves-bind _ _ (Moves-attempt _ (apply_interface-Moves (u32 n.spec.id)))
          (after_apply-Moves (u32 n.spec.id))
    after_validation-Moves n (err e) = fail_with-Moves _
    after_validation-Moves n (panic p) = Moves-panic env r F net p

    after_network-Moves : (x : Result Network) → Moves F (after_network env r nic x)
    unfolding after_network
    after_network-Moves (ok n) = after_validation-Moves n (is_valid_interface_spec r nic.spec)
    after_network-Moves (err e) = Moves-if (not (env.is_not_found e)) _ _ (Moves-raise _) (
        Moves-bind _ _ (noted _)
          λ _. Moves-bind _ _ (patch_status-Moves (bare_status pending)) λ _. Moves-pure false)
    after_network-Moves (panic p) = Moves-panic env r F net p

    reconcile-Moves : Moves F (reconcile env r nic)
    unfolding reconcile
    reconcile-Moves =
        Moves-bind _ _
          (Moves-context _ _
            (net (ensure_finalizer (interface_object nic) network_interface_finalizer)))
          λ m. Moves-if m _ _ (Moves-pure true) (
            Moves-bind _ _ (Moves-attempt _ (net (get_network (network_key env r nic))))
              after_network-Moves)

    judge_release-Moves : (x : Result (Unit {0})) → Moves F (judge_release env r nic x)
    unfolding judge_release
    judge_release-Moves (ok a) = Moves-pure tt
    judge_release-Moves (err e) =
        Moves-if (is_claim_not_found e) _ _ (Moves-pure tt) (Moves-raise _)
    judge_release-Moves (panic p) = Moves-panic env r F net p

    release-Moves : Moves F (release_net_fn_if_claim_exists env r nic)
    unfolding release_net_fn_if_claim_exists
    release-Moves = Moves-bind _ _ (Moves-attempt _ (free nic.meta.uid)) judge_release-Moves

    drop_finalizer-Moves : Moves F (drop_finalizer env r nic)
    unfolding drop_finalizer
    drop_finalizer-Moves =
        Moves-bind _ _
          (Moves-context _ _
            (net (remove_finalizer (interface_object nic) network_interface_finalizer)))
          λ _. Moves-pure false

    drop_interface-Moves : (vni : ℕ) (u : Addr) → Moves F (drop_interface env r nic vni u)
    unfolding drop_interface delete_dpdk_interface_if_exists
    drop_interface-Moves vni u =
        Moves-bind _ _
          (remove_interface_routes_if_exist-Moves env r F net vni (get_network_interface_ips nic) u)
          λ _.
            Moves-bind _ _
              (Moves-context _ _ (net (delete_interface nic.meta.uid (not_found ∷ []))))
              λ _. release-Moves

    delete_found-Moves : (x : Result Underlay) → Moves F (delete_found env r nic x)
    unfolding delete_found
    delete_found-Moves (ok f) = Moves-bind _ _ (drop_parts-Moves env r F net nic f.vni) λ _.
        Moves-bind _ _ (Moves-deref f.underlay_route) λ u.
          Moves-bind _ _ (Moves-context _ _ (drop_interface-Moves f.vni u))
            λ _. drop_finalizer-Moves
    delete_found-Moves (err e) =
        Moves-if (not (env.is_status_error_code e (not_found ∷ []))) _ _ (Moves-raise _)
          (Moves-bind _ _ (Moves-context _ _ release-Moves) λ _. drop_finalizer-Moves)
    delete_found-Moves (panic p) = Moves-panic env r F net p

    delete-Moves : Moves F (delete env r nic)
    unfolding delete
    delete-Moves =
        Moves-if (not (env.contains_finalizer nic.meta.finalizers network_interface_finalizer)) _ _
          (Moves-pure false)
          (Moves-bind _ _ (Moves-attempt _ (net (get_interface nic.meta.uid))) delete_found-Moves)

    reconcile_exists-Moves : Moves F (reconcile_exists env r nic)
    unfolding reconcile_exists
    reconcile_exists-Moves = Moves-if nic.meta.deleted _ _ delete-Moves reconcile-Moves

  after_get-Moves : (x : Result NetworkInterface) → Moves F (after_get env r x)
  unfolding after_get
  after_get-Moves (ok nic) =
      Moves-if (is_assigned env r nic.spec.node_name) _ _ (reconcile_exists-Moves nic)
        (Moves-pure false)
  after_get-Moves (err e) = Moves-if (env.is_not_found e) _ _ (Moves-pure false) (Moves-raise e)
  after_get-Moves (panic p) = Moves-panic env r F net p

  pub reconcile_request-Moves : (key : ObjectKey) → Moves F (reconcile_request env r key)
  unfolding reconcile_request
  reconcile_request-Moves key =
      Moves-bind _ _ (Moves-attempt _ (net (get_network_interface_object key))) after_get-Moves
