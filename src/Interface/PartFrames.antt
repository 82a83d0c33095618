-- ===== src/Interface/PartFrames.antt =====
-- What the prefixes, targets and rules of an interface leave alone.
use metalnet.Base.{ℕ, not, ◌&&◌, String, List, [], ◌∷◌, ◌==◌, nat_eq, string_eq}
use metalnet.Base.Result.{Err, Result, ok, err, panic, no_vm, not_found}
use metalnet.Base.Sets.{has, of_list}
use metalnet.Netip.{Prefix, addr_eq, prefix_eq}
use metalnet.Api.{NetworkInterface, FirewallRule}
use metalnet.Effects.{
  Env, Call, M, call, list_prefixes, list_lb_prefixes, list_firewall_rules, create_prefix,
  create_lb_prefix, delete_prefix, delete_lb_prefix, create_firewall_rule, delete_firewall_rule,
}
use metalnet.Effects.Invariants.{
  Frame, Moves, Moves-pure, Moves-raise, Moves-deref, Moves-bind, Moves-context, Moves-if,
  Moves-attempt, Moves-gather,
}
use metalnet.Wire.{DpdkPrefix}
use metalnet.Interface.Spec.{NetworkInterfaceReconciler}
use metalnet.Interface.Firewall.{
  rule_spec, protocol_filter, judge_creation, create_dpdk_fw_rule, delete_dpdk_fw_rule_id_if_exists,
}
use metalnet.Interface.Parts.{
  report, report_nothing, get_underlay_route_from_prefixes_list, delete_dpdk_prefix_if_exists,
  delete_dpdk_lb_target_if_exists, zero_rule, seek_rule, turn_prefix, reconcile_prefixes,
  turn_target, reconcile_lb_targets, turn_rule, reconcile_firewall_rules, drop_listed, drop_prefix,
  delete_prefixes, drop_target, delete_lb_targets, delete_firewall_rules, dpdk_set, spec_set,
  spec_targets, spec_rules,
}
use metalnet.Interface.Deleting.{drop_parts}
use metalnet.Interface.Frames.{
  delete_nat_ip-Moves, drop_virtual_ip-Moves, Moves-panic, add_prefix_route_if_not_exists-Moves,
  remove_prefix_route_if_exists-Moves, add_lb_target_route_if_not_exists-Moves,
  remove_lb_target_route_if_exists-Moves,
}

module _ (env : Env) (r : NetworkInterfaceReconciler) (F : Frame)
    (net : (c : Call) → Moves F (call env c)) where
  look_up-Moves :
      (items : List DpdkPrefix) (p : Prefix)
      → Moves F (get_underlay_route_from_prefixes_list items p)
  unfolding get_underlay_route_from_prefixes_list
  look_up-Moves [] p = Moves-raise _
  look_up-Moves (i ∷ items) p =
      Moves-if (i.prefix.addr == p.addr) _ _ (Moves-deref i.underlay_route) (look_up-Moves items p)

  pub report-Moves : (t : String) (errs : List Err) → Moves F (report t errs)
  unfolding report
  report-Moves t [] = Moves-pure tt
  report-Moves t (e ∷ es) = Moves-raise _

  report_nothing-Moves : (t : String) (errs : List Err) → Moves F (report_nothing t errs)
  unfolding report_nothing
  report_nothing-Moves t [] = Moves-pure tt
  report_nothing-Moves t (e ∷ es) = Moves-raise _

  delete_prefix-Moves :
      (uid : String) (p : Prefix) → Moves F (delete_dpdk_prefix_if_exists env uid p)
  unfolding delete_dpdk_prefix_if_exists
  delete_prefix-Moves uid p = Moves-context _ _ (net (delete_prefix uid p (no_vm ∷ not_found ∷ [])))

  delete_target-Moves :
      (uid : String) (p : Prefix) → Moves F (delete_dpdk_lb_target_if_exists env uid p)
  unfolding delete_dpdk_lb_target_if_exists
  delete_target-Moves uid p =
      Moves-context _ _ (net (delete_lb_prefix uid p (no_vm ∷ not_found ∷ [])))

  delete_rule-Moves : (uid id : String) → Moves F (delete_dpdk_fw_rule_id_if_exists env uid id)
  unfolding delete_dpdk_fw_rule_id_if_exists
  delete_rule-Moves uid id =
      Moves-context _ _ (net (delete_firewall_rule uid id (no_vm ∷ not_found ∷ [])))

  judge_creation-Moves : (x : Result (Unit {0})) → Moves F (judge_creation env x)
  unfolding judge_creation
  judge_creation-Moves (ok a) = Moves-pure tt
  judge_creation-Moves (err e) =
      Moves-if (env.returned_code e == 0) _ _ (Moves-raise _) (Moves-pure tt)
  judge_creation-Moves (panic p) = Moves-panic env r F net p

  create_rule-Moves :
      (uid : String) (rule : FirewallRule) → Moves F (create_dpdk_fw_rule env uid rule)
  unfolding create_dpdk_fw_rule
  create_rule-Moves uid rule = Moves-bind _ _ (Moves-deref rule.protocol_match) λ m.
      Moves-bind _ _ (Moves-deref m.protocol_type) λ t.
        Moves-bind _ _
          (Moves-attempt _ (net (create_firewall_rule uid (rule_spec rule (protocol_filter m t)))))
          judge_creation-Moves

  turn_prefix-Moves :
      (uid : String) (vni : ℕ) (items : List DpdkPrefix) (spec : List Prefix) (p : Prefix)
      → Moves F (turn_prefix env r uid vni items spec p)
  unfolding turn_prefix
  turn_prefix-Moves uid vni items spec p =
      Moves-if (has (dpdk_set items) p && not (has spec p)) _ _
        (Moves-bind _ _ (look_up-Moves items p) λ u.
          Moves-bind _ _ (remove_prefix_route_if_exists-Moves env r F net vni p u)
            λ _. delete_prefix-Moves uid p)
        (Moves-if (has spec p && not (has (dpdk_set items) p)) _ _
          (Moves-bind _ _ (net (create_prefix uid p)) λ c.
            Moves-bind _ _ (Moves-deref c.underlay_route)
              λ u. add_prefix_route_if_not_exists-Moves env r F net vni p u)
          (Moves-bind _ _ (look_up-Moves items p)
            λ u. add_prefix_route_if_not_exists-Moves env r F net vni p u))

  turn_target-Moves :
      (uid : String) (vni : ℕ) (items : List DpdkPrefix) (spec : List Prefix) (p : Prefix)
      → Moves F (turn_target env r uid vni items spec p)
  unfolding turn_target
  turn_target-Moves uid vni items spec p =
      Moves-if (has (dpdk_set items) p && not (has spec p)) _ _
        (Moves-bind _ _ (look_up-Moves items p) λ u.
          Moves-bind _ _ (remove_lb_target_route_if_exists-Moves env r F net vni p u)
            λ _. delete_target-Moves uid p)
        (Moves-if (has spec p && not (has (dpdk_set items) p)) _ _
          (Moves-bind _ _ (net (create_lb_prefix uid p)) λ c.
            Moves-bind _ _ (Moves-deref c.underlay_route)
              λ u. add_lb_target_route_if_not_exists-Moves env r F net vni p u)
          (Moves-bind _ _ (look_up-Moves items p) λ u.
            Moves-bind _ _ (remove_lb_target_route_if_exists-Moves env r F net vni p u)
              λ _. add_lb_target_route_if_not_exists-Moves env r F net vni p u))

  pub reconcile_prefixes-Moves :
      (vni : ℕ) (nic : NetworkInterface) → Moves F (reconcile_prefixes env r vni nic)
  unfolding reconcile_prefixes
  reconcile_prefixes-Moves vni nic =
      Moves-bind _ _ (Moves-context _ _ (net (list_prefixes nic.meta.uid))) λ items.
        Moves-bind _ _
          (Moves-gather _ _ _ (turn_prefix-Moves nic.meta.uid vni items (spec_set nic)))
          (report-Moves _)

  pub reconcile_lb_targets-Moves :
      (vni : ℕ) (nic : NetworkInterface) → Moves F (reconcile_lb_targets env r vni nic)
  unfolding reconcile_lb_targets
  reconcile_lb_targets-Moves vni nic =
      Moves-bind _ _ (Moves-context _ _ (net (list_lb_prefixes nic.meta.uid))) λ items.
        Moves-bind _ _
          (Moves-gather _ _ _ (turn_target-Moves nic.meta.uid vni items (spec_targets nic)))
          (report-Moves _)

  turn_rule-Moves :
      (uid : String) (rules : List FirewallRule) (ids spec : List String) (id : String)
      → Moves F (turn_rule env r uid rules ids spec id)
  unfolding turn_rule
  turn_rule-Moves uid rules ids spec id =
      Moves-if (has ids id && not (has spec id)) _ _ (delete_rule-Moves uid id) (
        Moves-if (has spec id && not (has ids id)) _ _
          (create_rule-Moves uid (seek_rule id zero_rule rules)) (Moves-pure tt))

  pub reconcile_firewall_rules-Moves :
      (nic : NetworkInterface) → Moves F (reconcile_firewall_rules env r nic)
  unfolding reconcile_firewall_rules
  reconcile_firewall_rules-Moves nic =
      Moves-bind _ _ (Moves-context _ _ (net (list_firewall_rules nic.meta.uid))) λ ids.
        Moves-bind _ _
          (Moves-gather _ _ _
            (turn_rule-Moves nic.meta.uid nic.spec.firewall_rules (of_list ids) (spec_rules nic)))
          (report-Moves _)

  drop_listed-Moves :
      {A : Type 0} (t : String) (drop : A → M (Unit {0})) (label : A → Err → Err) (t' : String)
      (x : Result (List A))
      → ((a : A) → Moves F (drop a))
      → Moves F (drop_listed env r t drop label t' x)
  unfolding drop_listed
  drop_listed-Moves t drop label t' (ok items) h =
      Moves-bind _ _ (Moves-gather items drop label h) (report_nothing-Moves t')
  drop_listed-Moves t drop label t' (err e) h =
      Moves-if (not (env.is_status_error_code e (no_vm ∷ []))) _ _ (Moves-raise _) (Moves-pure tt)
  drop_listed-Moves t drop label t' (panic p) h = Moves-panic env r F net p

  pub delete_prefixes-Moves : (uid : String) (vni : ℕ) → Moves F (delete_prefixes env r uid vni)
  unfolding delete_prefixes drop_prefix
  delete_prefixes-Moves uid vni = Moves-bind _ _ (Moves-attempt _ (net (list_prefixes uid))) λ x.
      drop_listed-Moves _ _ _ _ x λ i. Moves-bind _ _ (Moves-deref i.underlay_route) λ u.
        Moves-bind _ _ (remove_prefix_route_if_exists-Moves env r F net vni i.prefix u)
          λ _. delete_prefix-Moves uid i.prefix

  pub delete_lb_targets-Moves : (uid : String) (vni : ℕ) → Moves F (delete_lb_targets env r uid vni)
  unfolding delete_lb_targets drop_target
  delete_lb_targets-Moves uid vni =
      Moves-bind _ _ (Moves-attempt _ (net (list_lb_prefixes uid))) λ x.
        drop_listed-Moves _ _ _ _ x λ i. Moves-bind _ _ (Moves-deref i.underlay_route) λ u.
          Moves-bind _ _ (remove_lb_target_route_if_exists-Moves env r F net vni i.prefix u)
            λ _. delete_target-Moves uid i.prefix

  pub delete_firewall_rules-Moves : (uid : String) → Moves F (delete_firewall_rules env r uid)
  unfolding delete_firewall_rules
  delete_firewall_rules-Moves uid =
      Moves-bind _ _ (Moves-attempt _ (net (list_firewall_rules uid)))
        λ x. drop_listed-Moves _ _ _ _ x (delete_rule-Moves uid)

  pub drop_parts-Moves : (nic : NetworkInterface) (vni : ℕ) → Moves F (drop_parts env r nic vni)
  unfolding drop_parts
  drop_parts-Moves nic vni =
      Moves-bind _ _ (Moves-context _ _ (delete_prefixes-Moves nic.meta.uid vni)) λ _.
        Moves-bind _ _ (Moves-context _ _ (delete_lb_targets-Moves nic.meta.uid vni)) λ _.
          Moves-bind _ _ (Moves-context _ _ (delete_firewall_rules-Moves nic.meta.uid)) λ _.
            Moves-bind _ _ (Moves-context _ _ (delete_nat_ip-Moves env r F net nic.meta.uid vni))
              λ _. Moves-context _ _ (drop_virtual_ip-Moves env r F net nic.meta.uid)
