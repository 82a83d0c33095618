-- ===== src/Interface/Deleting.antt =====
-- controllers/networkinterface_controller.go: the deletion of an interface and of all its parts.
-- `Bool` results are the `Requeue` of `ctrl.Result`.
use metalnet.Base.{ℕ, Bool, false, not, [], ◌∷◌, if◌then◌else◌, string_eq}
use metalnet.Base.Result.{Result, ok, err, panic, wrap, not_found}
use metalnet.Base.Exec.{pure, raise, attempt, context, ◌>>=◌, ◌>>◌}
use metalnet.Netip.{Addr}
use metalnet.Api.{NetworkInterface}
use metalnet.Effects.{
  Env, M, call, deref, on_functions, remove_finalizer, get_interface, delete_interface,
}
use metalnet.Wire.{Underlay}
use metalnet.NetFns.{release, is_claim_not_found}
use metalnet.Interface.Spec.{
  NetworkInterfaceReconciler, network_interface_finalizer, interface_object,
  get_network_interface_ips,
}
use metalnet.Interface.Routes.{remove_interface_routes_if_exist}
use metalnet.Interface.Nat.{delete_nat_ip, drop_virtual_ip}
use metalnet.Interface.Parts.{delete_prefixes, delete_lb_targets, delete_firewall_rules}

module _ (env : Env) (r : NetworkInterfaceReconciler) (nic : NetworkInterface) where
  unfoldable pub judge_release : Result (Unit {0}) → M (Unit {0})
  judge_release (ok a) = pure tt
  judge_release (err e) =
      if is_claim_not_found e then pure tt else raise (wrap "error releasing claim: " e)
  judge_release (panic p) = λ w. (panic p, w)

  unfoldable pub release_net_fn_if_claim_exists : M (Unit {0})
  release_net_fn_if_claim_exists = do
    released ← attempt (on_functions (release r.ghw r.is_tap_store nic.meta.uid))
    judge_release released

  unfoldable pub delete_dpdk_interface_if_exists : M (Unit {0})
  delete_dpdk_interface_if_exists =
      context "error deleting interface: "
        (call env (delete_interface nic.meta.uid (not_found ∷ [])))

  -- The end of both branches of `delete`.
  unfoldable pub drop_finalizer : M Bool
  drop_finalizer = do
    context "error removing finalizer: "
        (call env (remove_finalizer (interface_object nic) network_interface_finalizer))
    pure false

  -- deleteInterface
  unfoldable pub drop_interface : ℕ → Addr → M (Unit {0})
  drop_interface vni underlay = do
    remove_interface_routes_if_exist env r vni (get_network_interface_ips nic) underlay
    delete_dpdk_interface_if_exists
    release_net_fn_if_claim_exists

  -- What `delete` does before it looks at the underlay route.
  unfoldable pub drop_parts : ℕ → M (Unit {0})
  drop_parts vni = do
    context "error deleting prefixes: " (delete_prefixes env r nic.meta.uid vni)
    context "error deleting lb targets: " (delete_lb_targets env r nic.meta.uid vni)
    context "error deleting firewall rules: " (delete_firewall_rules env r nic.meta.uid)
    context "error deleting nat ip: " (delete_nat_ip env r nic.meta.uid vni)
    context "error deleting virtual ip: " (drop_virtual_ip env r nic.meta.uid)

  unfoldable pub delete_found : Result Underlay → M Bool
  delete_found (ok found) = do
    drop_parts found.vni
    underlay ← deref found.underlay_route
    context "error deleting underlay route: " (drop_interface found.vni underlay)
    drop_finalizer
  delete_found (err e) =
      if not (env.is_status_error_code e (not_found ∷ []))
      then raise (wrap "error getting dpdk interface: " e)
      else (do context "error removing claim: " release_net_fn_if_claim_exists; drop_finalizer)
  delete_found (panic p) = λ w. (panic p, w)

  unfoldable pub delete : M Bool
  delete =
      if not (env.contains_finalizer nic.meta.finalizers network_interface_finalizer)
      then pure false
      else (do found ← attempt (call env (get_interface nic.meta.uid)); delete_found found)
