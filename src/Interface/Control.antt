-- ===== src/Interface/Control.antt =====
-- controllers/networkinterface_controller.go: the reconciliation of an interface, which puts its
-- parts together. `Bool` results are the `Requeue` of `ctrl.Result`. The object in memory is taken
-- to be as it was after a patch: what the API answers to one is not read back.
use Prim.Native.String.{◌++◌}
use metalnet.Base.{
  ℕ, Bool, true, false, not, ◌&&◌, Option, none, some, String, List, [], ◌∷◌, if◌then◌else◌, ◌==◌,
  string_eq,
}
use metalnet.Base.Result.{Err, Result, ok, err, panic, wrap}
use metalnet.Base.Exec.{pure, raise, attempt, context, ◌>>=◌, ◌>>◌}
use metalnet.Api.{
  ObjectKey, PciAddress, State, ready, pending, failed, Network, NetworkInterface,
  NetworkInterfaceStatus,
}
use metalnet.Effects.{
  Env, M, call, note, u32, get_network, get_network_interface_object, ensure_finalizer,
  record_event,
}
use metalnet.Interface.Spec.{
  NetworkInterfaceReconciler, network_interface_finalizer, interface_object,
  is_valid_interface_spec,
}
use metalnet.Interface.Nat.{reconcile_nat_ip, reconcile_virtual_ip}
use metalnet.Interface.Parts.{
  reconcile_prefixes, reconcile_lb_targets, reconcile_firewall_rules, report,
}
use metalnet.Interface.Applying.{Applied, bare_status, patch_status, apply_interface}
use metalnet.Interface.Deleting.{delete}

abbrev pub is_ready : State → Bool
is_ready ready = true
is_ready _ = false

module _ (env : Env) (r : NetworkInterfaceReconciler) (nic : NetworkInterface) where
  -- A status that is patched before an error is returned; a failure to patch is only logged.
  unfoldable pub fail_with : Err → M Bool
  fail_with e = do patched ← attempt (patch_status env r nic (bare_status failed)); raise e

  -- The status in memory, after an interface that was ready has been created again.
  unfoldable pub toggle : Bool → M NetworkInterfaceStatus
  toggle is_created =
      if is_created && is_ready nic.status.state
      then (do
        first ← attempt (patch_status env r nic (bare_status pending))
        second ← attempt (patch_status env r nic (bare_status ready))
        pure (bare_status ready))
      else pure nic.status

  -- A part of the interface, of which an error is recorded and kept for the end.
  unfoldable pub part : String → String → M (Unit {0}) → M (Option Err)
  part text event m = do
    done ← attempt m
    elim done [
      | ok a ↦ pure none
      | err e ↦ (do note (record_event (interface_object nic) event); pure (some (wrap text e)))
      | panic p ↦ (λ w. (panic p, w))
    ]

  -- The errors of the virtual address, the NAT address, the targets, the prefixes and the rules.
  abbrev pub errors_of : List (Option Err) → List Err
  errors_of [] = []
  errors_of (none ∷ es) = errors_of es
  errors_of (some e ∷ es) = e ∷ errors_of es

  abbrev pub unless {ℓ} : {A : Type ℓ} → Option Err → A → A → A
  unless none new old = new
  unless (some e) new old = old

  -- With a Bluefield the bus is the one that the host sees.
  unfoldable pub shown_address : PciAddress → PciAddress
  shown_address pci =
      if r.bluefield_detected then record pci { bus = r.bluefield_host_default_bus_addr } else pci

  unfoldable pub final_status :
      NetworkInterfaceStatus
      → PciAddress
      → Option Err
      → Option Err
      → Option Err
      → Option Err
      → NetworkInterfaceStatus
  final_status before pci virtual_err nat_err target_err prefix_err = record {
    pci_address = some (shown_address pci);
    virtual_ip = unless virtual_err nic.spec.virtual_ip before.virtual_ip;
    nat_ip = unless nat_err nic.spec.nat none;
    prefixes = unless prefix_err nic.spec.prefixes before.prefixes;
    load_balancer_targets =
        unless target_err nic.spec.load_balancer_targets before.load_balancer_targets;
    state = ready;
  }

  unfoldable pub reconcile_parts : ℕ → NetworkInterfaceStatus → PciAddress → M Bool
  reconcile_parts vni before pci = do
    virtual_err ←
        part "error reconciling virtual ip: " "ErrorReconcilingVirtualIP"
          (reconcile_virtual_ip env r nic)
    nat_err ←
        part "error reconciling nat ip: " "ErrorReconcilingNATIP" (reconcile_nat_ip env r nic vni)
    target_err ←
        part "error reconciling lb target: " "ErrorReconcilingLBTargets"
          (reconcile_lb_targets env r vni nic)
    prefix_err ←
        part "error reconciling prefixes: " "ErrorReconcilingPrefixes"
          (reconcile_prefixes env r vni nic)
    rule_err ←
        part "error reconciling firewall rules: " "ErrorReconcilingFirewallRules"
          (reconcile_firewall_rules env r nic)
    context "error patching status: "
        (patch_status env r nic (final_status before pci virtual_err nat_err target_err prefix_err))
    report "error applying network interface parts: "
        (errors_of (virtual_err ∷ nat_err ∷ target_err ∷ prefix_err ∷ rule_err ∷ []))
    pure false

  unfoldable pub after_apply : ℕ → Result Applied → M Bool
  after_apply vni (ok applied) = do
    before ← toggle applied.is_created
    reconcile_parts vni before applied.pci
  after_apply vni (err e) = fail_with (wrap "error applying interface: " e)
  after_apply vni (panic p) = λ w. (panic p, w)

  unfoldable pub after_validation : Network → Result (Unit {0}) → M Bool
  after_validation network (ok a) = do
    applied ← attempt (apply_interface env r nic (u32 network.spec.id))
    after_apply (u32 network.spec.id) applied
  after_validation network (err e) = fail_with (wrap "interface spec validation error: " e)
  after_validation network (panic p) = λ w. (panic p, w)

  unfoldable pub network_key : ObjectKey
  network_key = record { key_namespace = nic.meta.namespace; key_name = nic.spec.network_ref }

  unfoldable pub after_network : Result Network → M Bool
  after_network (ok network) = after_validation network (is_valid_interface_spec r nic.spec)
  after_network (err e) =
      if not (env.is_not_found e)
      then raise (
          wrap
            ("error getting network "
              ++ (network_key.key_namespace ++ ("/" ++ (network_key.key_name ++ ": "))))
            e)
      else (do
        note (record_event (interface_object nic) "NetworkNotFound")
        patch_status env r nic (bare_status pending)
        pure false)
  after_network (panic p) = λ w. (panic p, w)

  unfoldable pub reconcile : M Bool
  reconcile = do
    modified ←
        context "error ensuring finalizer: "
          (call env (ensure_finalizer (interface_object nic) network_interface_finalizer))
    if modified
        then pure true
        else (do network ← attempt (call env (get_network network_key)); after_network network)

  unfoldable pub reconcile_exists : M Bool
  reconcile_exists = if nic.meta.deleted then delete env r nic else reconcile

module _ (env : Env) (r : NetworkInterfaceReconciler) where
  -- Whether the interface is assigned to this node.
  unfoldable pub is_assigned : Option String → Bool
  is_assigned none = false
  is_assigned (some name) = name == r.node_name

  unfoldable pub after_get : Result NetworkInterface → M Bool
  after_get (ok nic) =
      if is_assigned nic.spec.node_name then reconcile_exists env r nic else pure false
  after_get (err e) = if env.is_not_found e then pure false else raise e
  after_get (panic p) = λ w. (panic p, w)

  unfoldable pub reconcile_request : ObjectKey → M Bool
  reconcile_request key = do
    found ← attempt (call env (get_network_interface_object key))
    after_get found
