-- ===== src/Interface/Parts.antt =====
-- controllers/networkinterface_controller.go: the alias prefixes, load balancer targets and
-- firewall rules of an interface. Each handler reads what dp-service holds, compares it with the
-- specification and goes on after an error; the errors come back together.
use Prim.Native.String.{◌++◌}
use metalnet.Base.{
  ℕ, not, ◌&&◌, none, String, List, [], ◌∷◌, map, length, select, ltb, if◌then◌else◌, ◌==◌,
  string_eq,
}
use metalnet.Base.Sets.{has, of_list}
use metalnet.Base.Sorting.{sorted}
use metalnet.Base.Result.{Err, Result, ok, err, panic, message, plain, wrap, no_vm, not_found}
use metalnet.Base.Exec.{pure, raise, attempt, context, gather, ◌>>=◌, ◌>>◌}
use metalnet.Netip.{Addr, addr_eq, Prefix, prefix_eq, is4, addr_string, prefix_string}
use metalnet.Api.{NetworkInterface, FirewallRule}
use metalnet.Effects.{
  Env, M, call, deref, list_prefixes, list_lb_prefixes, list_firewall_rules, create_prefix,
  create_lb_prefix, delete_prefix, delete_lb_prefix,
}
use metalnet.Wire.{DpdkPrefix}
use metalnet.Interface.Spec.{NetworkInterfaceReconciler}
use metalnet.Interface.Routes.{
  add_prefix_route_if_not_exists, remove_prefix_route_if_exists, add_lb_target_route_if_not_exists,
  remove_lb_target_route_if_exists,
}
use metalnet.Interface.Firewall.{create_dpdk_fw_rule, delete_dpdk_fw_rule_id_if_exists}

-- The set that the loop goes over, in the order of the texts: the larger one of the two.
unfoldable pub to_visit {ℓ} : {A : Type ℓ} → (A → String) → List A → List A → List A
to_visit text dpdk spec =
    if ltb (length dpdk) (length spec) then sorted text spec else sorted text dpdk

unfoldable pub separated : List Err → String
separated [] = ""
separated (e ∷ []) = message e
separated (e ∷ es) = message e ++ (" " ++ separated es)

-- if len(errs) > 0 { return fmt.Errorf("text: %v", errs) }
unfoldable pub report : String → List Err → M (Unit {0})
report text [] = pure tt
report text (e ∷ es) = raise (plain (text ++ ("[" ++ (separated (e ∷ es) ++ "]"))))

-- The same where the deletions wrap the error of the listing, which is nil.
unfoldable pub report_nothing : String → List Err → M (Unit {0})
report_nothing text [] = pure tt
report_nothing text (e ∷ es) = raise (plain (text ++ "%!w(<nil>)"))

unfoldable pub label_prefix : Prefix → Err → Err
label_prefix p = wrap ("[prefix " ++ (prefix_string p ++ "] "))

unfoldable pub label_target : Prefix → Err → Err
label_target p = wrap ("[lb target " ++ (prefix_string p ++ "] "))

-- Only the address of the prefix is compared.
unfoldable pub get_underlay_route_from_prefixes_list : List DpdkPrefix → Prefix → M Addr
get_underlay_route_from_prefixes_list [] p =
    raise (plain ("no underlayroute for lb prefix " ++ addr_string p.addr))
get_underlay_route_from_prefixes_list (item ∷ items) p =
    let later = get_underlay_route_from_prefixes_list items p in
    if item.prefix.addr == p.addr then deref item.underlay_route else later

unfoldable pub dpdk_set : List DpdkPrefix → List Prefix
dpdk_set items = of_list (map (λ item. item.prefix) items)

-- only ipv4 is supported for now
unfoldable pub spec_set : NetworkInterface → List Prefix
spec_set nic = of_list (select (λ p. is4 p.addr) nic.spec.prefixes)

unfoldable pub spec_targets : NetworkInterface → List Prefix
spec_targets nic = of_list nic.spec.load_balancer_targets

unfoldable pub spec_rules : NetworkInterface → List String
spec_rules nic = of_list (map (λ rule. rule.firewall_rule_id) nic.spec.firewall_rules)

module _ (env : Env) where
  unfoldable pub delete_dpdk_prefix_if_exists : String → Prefix → M (Unit {0})
  delete_dpdk_prefix_if_exists uid p =
      context "error deleting prefix: " (call env (delete_prefix uid p (no_vm ∷ not_found ∷ [])))

  unfoldable pub delete_dpdk_lb_target_if_exists : String → Prefix → M (Unit {0})
  delete_dpdk_lb_target_if_exists uid p =
      context "error deleting lb prefix: "
        (call env (delete_lb_prefix uid p (no_vm ∷ not_found ∷ [])))

-- The zero value of a rule, which the loop variable holds at first.
abbrev pub zero_rule : FirewallRule
zero_rule = record {
  firewall_rule_id = "";
  direction = "";
  action = "";
  priority = none;
  ip_family = metalnet.Api.IpFamily.other_family "";
  source_prefix = none;
  destination_prefix = none;
  protocol_match = none;
}

-- The value of the loop variable when the search for the rule stops.
unfoldable pub seek_rule : String → FirewallRule → List FirewallRule → FirewallRule
seek_rule id last [] = last
seek_rule id last (rule ∷ rules) =
    let later = seek_rule id rule rules in if rule.firewall_rule_id == id then rule else later

module _ (env : Env) (r : NetworkInterfaceReconciler) where
  -- The body of the loop of reconcilePrefixes.
  unfoldable pub turn_prefix : String → ℕ → List DpdkPrefix → List Prefix → Prefix → M (Unit {0})
  turn_prefix uid vni items spec p =
      if has (dpdk_set items) p && not (has spec p)
      then (do
        underlay ← get_underlay_route_from_prefixes_list items p
        remove_prefix_route_if_exists env r vni p underlay
        delete_dpdk_prefix_if_exists env uid p)
      else if has spec p && not (has (dpdk_set items) p)
      then (do
        created ← call env (create_prefix uid p)
        underlay ← deref created.underlay_route
        add_prefix_route_if_not_exists env r vni p underlay)
      else (do
        underlay ← get_underlay_route_from_prefixes_list items p
        add_prefix_route_if_not_exists env r vni p underlay)

  unfoldable pub reconcile_prefixes : ℕ → NetworkInterface → M (Unit {0})
  reconcile_prefixes vni nic = do
    items ← context "error listing alias prefixes: " (call env (list_prefixes nic.meta.uid))
    errs ←
        gather (to_visit prefix_string (dpdk_set items) (spec_set nic))
          (turn_prefix nic.meta.uid vni items (spec_set nic)) label_prefix
    report "error(s) reconciling prefix(es): " errs

  -- The body of the loop of reconcileLBTargets; an update removes the route and adds it again.
  unfoldable pub turn_target : String → ℕ → List DpdkPrefix → List Prefix → Prefix → M (Unit {0})
  turn_target uid vni items spec p =
      if has (dpdk_set items) p && not (has spec p)
      then (do
        underlay ← get_underlay_route_from_prefixes_list items p
        remove_lb_target_route_if_exists env r vni p underlay
        delete_dpdk_lb_target_if_exists env uid p)
      else if has spec p && not (has (dpdk_set items) p)
      then (do
        created ← call env (create_lb_prefix uid p)
        underlay ← deref created.underlay_route
        add_lb_target_route_if_not_exists env r vni p underlay)
      else (do
        underlay ← get_underlay_route_from_prefixes_list items p
        remove_lb_target_route_if_exists env r vni p underlay
        add_lb_target_route_if_not_exists env r vni p underlay)

  unfoldable pub reconcile_lb_targets : ℕ → NetworkInterface → M (Unit {0})
  reconcile_lb_targets vni nic = do
    items ← context "error listing lb targets: " (call env (list_lb_prefixes nic.meta.uid))
    errs ←
        gather (to_visit prefix_string (dpdk_set items) (spec_targets nic))
          (turn_target nic.meta.uid vni items (spec_targets nic)) label_target
    report "error(s) reconciling lb target: " errs

  -- The body of the loop of reconcileFirewallRules.
  unfoldable pub turn_rule :
      String → List FirewallRule → List String → List String → String → M (Unit {0})
  turn_rule uid rules dpdk spec id =
      if has dpdk id && not (has spec id)
      then delete_dpdk_fw_rule_id_if_exists env uid id
      else if has spec id && not (has dpdk id)
      then create_dpdk_fw_rule env uid (seek_rule id zero_rule rules)
      else pure tt

  unfoldable pub reconcile_firewall_rules : NetworkInterface → M (Unit {0})
  reconcile_firewall_rules nic = do
    ids ← context "error listing firewall rule: " (call env (list_firewall_rules nic.meta.uid))
    errs ←
        gather (to_visit (λ id. id) (of_list ids) (spec_rules nic))
          (turn_rule nic.meta.uid nic.spec.firewall_rules (of_list ids) (spec_rules nic))
          (λ id. wrap ("[fwRuleID " ++ (id ++ "] ")))
    report "error(s) reconciling fwRuleID(es): " errs

  -- The body of the loop of deletePrefixes.
  unfoldable pub drop_prefix : String → ℕ → DpdkPrefix → M (Unit {0})
  drop_prefix uid vni item = do
    underlay ← deref item.underlay_route
    remove_prefix_route_if_exists env r vni item.prefix underlay
    delete_dpdk_prefix_if_exists env uid item.prefix

  -- What follows a listing: the loop over the items, or no more to do for an interface that is gone.
  unfoldable pub drop_listed :
      {A : Type 0}
      → String
      → (A → M (Unit {0}))
      → (A → Err → Err)
      → String
      → Result (List A)
      → M (Unit {0})
  drop_listed text drop label failure (ok items) = do
    errs ← gather items drop label
    report_nothing failure errs
  drop_listed text drop label failure (err e) =
      if not (env.is_status_error_code e (no_vm ∷ [])) then raise (wrap text e) else pure tt
  drop_listed text drop label failure (panic p) = λ w. (panic p, w)

  unfoldable pub delete_prefixes : String → ℕ → M (Unit {0})
  delete_prefixes uid vni = do
    found ← attempt (call env (list_prefixes uid))
    drop_listed "error listing prefixes: " (drop_prefix uid vni) (λ i. label_prefix i.prefix)
        "error(s) deleting prefix(es): " found

  unfoldable pub drop_target : String → ℕ → DpdkPrefix → M (Unit {0})
  drop_target uid vni item = do
    underlay ← deref item.underlay_route
    remove_lb_target_route_if_exists env r vni item.prefix underlay
    delete_dpdk_lb_target_if_exists env uid item.prefix

  unfoldable pub delete_lb_targets : String → ℕ → M (Unit {0})
  delete_lb_targets uid vni = do
    found ← attempt (call env (list_lb_prefixes uid))
    drop_listed "error listing lb targets: " (drop_target uid vni) (λ i. label_target i.prefix)
        "error(s) deleting lb target(s): " found

  unfoldable pub delete_firewall_rules : String → M (Unit {0})
  delete_firewall_rules uid = do
    found ← attempt (call env (list_firewall_rules uid))
    drop_listed "error listing firewall rules: " (delete_dpdk_fw_rule_id_if_exists env uid)
        (λ id. wrap ("[firewall rule " ++ (id ++ "] "))) "error(s) deleting firewall rule(s): "
        found
