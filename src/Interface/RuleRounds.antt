-- ===== src/Interface/RuleRounds.antt =====
-- The rounds of reconcileFirewallRules.
use metalnet.Base.{
  ◌≡◌, refl, ap, inl, inr, Bool, true, ◌&&◌, not, String, List, [], ◌∷◌, map, if◌then◌else◌, ◌==◌,
  string_eq, nat_eq, beq_refl, beq-eq, arith, Bool-cases,
}
use metalnet.Base.Sets.{has, insert, delete, of_list, has-of_list, of_list-Distinct}
use metalnet.Base.Result.{Result, ok, err, panic}
use metalnet.Base.Exec.{attempt}
use metalnet.Api.{NetworkInterface, FirewallRule}
use metalnet.Effects.{
  Env, Call, World, call, list_firewall_rules, create_firewall_rule, delete_firewall_rule,
}
use metalnet.Wire.{ProtocolFilter}
use metalnet.Interface.Spec.{NetworkInterfaceReconciler}
use metalnet.Interface.Firewall.{
  rule_spec, protocol_filter, judge_creation, create_dpdk_fw_rule, delete_dpdk_fw_rule_id_if_exists,
}
use metalnet.Interface.Parts.{zero_rule, seek_rule, spec_rules, turn_rule, reconcile_firewall_rules}
use metalnet.Interface.Visits.{
  Asks, Asks-pure, Asks-raise, Asks-deref, Asks-call, Asks-attempt, Asks-context, Asks-bind,
  Asks-if, Asks-either, Asks-when, Asks-same,
}
use metalnet.Interface.Turns.{turn}
use metalnet.Interface.Rounds.{Leaves, Shows, handler-settles}

-- What a call asks of the IDs of the rules that dp-service holds for the interface `uid`.
unfoldable pub rule_change : String → Call → List String → List String
rule_change uid (create_firewall_rule u spec) s = if u == uid then insert spec.rule_id s else s
rule_change uid (delete_firewall_rule u id cs) s = if u == uid then delete id s else s
rule_change uid _ s = s

-- The search for a rule that the list has ends at that rule.
seek_rule-id :
    (id : String) (last : FirewallRule) (rules : List FirewallRule)
    → has (map (λ rule. rule.firewall_rule_id) rules) id ≡ true
    → (seek_rule id last rules).firewall_rule_id ≡ id
unfolding seek_rule has
seek_rule-id id last [] h = cc
seek_rule-id id last (x ∷ rules) h = elim (Bool-cases (x.firewall_rule_id == id)) [
  | inl p ↦ rw p (beq-eq x.firewall_rule_id id p)
  | inr p ↦ rw p (seek_rule-id id x rules (ground (arith, h, p)))
]

module _ (env : Env) (uid : String) where
  judge-Asks : (res : Result (Unit {0})) → Asks (rule_change uid) (judge_creation env res) (λ s. s)
  unfolding judge_creation
  judge-Asks (ok a) = Asks-pure (rule_change uid) tt
  judge-Asks (err e) =
      Asks-either (rule_change uid) (env.returned_code e == 0) _ _ _
        (Asks-raise (rule_change uid) _) (Asks-pure (rule_change uid) tt)
  judge-Asks (panic p) = record { on_ok = λ w b h. cc }

  creation-Asks :
      (rule : FirewallRule) (filter : ProtocolFilter)
      → Asks
          (rule_change uid)
          (attempt (call env (create_firewall_rule uid (rule_spec rule filter))))
          (insert rule.firewall_rule_id)
  unfolding rule_change rule_spec
  creation-Asks rule filter =
      Asks-same (rule_change uid) _ _ _ (λ s. rw (beq_refl uid) refl)
        (Asks-attempt (rule_change uid) env (create_firewall_rule uid (rule_spec rule filter)))

  create-Asks :
      (rule : FirewallRule)
      → Asks (rule_change uid) (create_dpdk_fw_rule env uid rule) (insert rule.firewall_rule_id)
  unfolding create_dpdk_fw_rule
  create-Asks rule =
      Asks-bind (rule_change uid) _ _ (λ s. s) _ (Asks-deref (rule_change uid) rule.protocol_match)
        (λ m.
          Asks-bind (rule_change uid) _ _ (λ s. s) _ (Asks-deref (rule_change uid) m.protocol_type)
            (λ t.
              Asks-bind (rule_change uid) _ _ (insert rule.firewall_rule_id) (λ s. s)
                (creation-Asks rule (protocol_filter m t)) judge-Asks))

  delete-Asks :
      (id : String)
      → Asks (rule_change uid) (delete_dpdk_fw_rule_id_if_exists env uid id) (delete id)
  unfolding delete_dpdk_fw_rule_id_if_exists rule_change
  delete-Asks id =
      Asks-same (rule_change uid) _ _ _ (λ s. rw (beq_refl uid) refl)
        (Asks-context (rule_change uid) _ _ _
          (Asks-call (rule_change uid) env (delete_firewall_rule uid id _)))

module _ (env : Env) (r : NetworkInterfaceReconciler) (nic : NetworkInterface) where
  named :
      (id : String)
      → has (spec_rules nic) id ≡ true
      → has (map (λ rule. rule.firewall_rule_id) nic.spec.firewall_rules) id ≡ true
  unfolding spec_rules
  named id h =
      rw (has-of_list id (map (λ rule. rule.firewall_rule_id) nic.spec.firewall_rules)) at h

  turn_rule-Asks :
      (ids : List String) (id : String)
      → Asks
          (rule_change nic.meta.uid)
          (turn_rule env r nic.meta.uid nic.spec.firewall_rules ids (spec_rules nic) id)
          (turn ids (spec_rules nic) id)
  unfolding turn_rule turn
  turn_rule-Asks ids id =
      let spec = spec_rules nic in
      let rule = seek_rule id zero_rule nic.spec.firewall_rules in
      let found : (has spec id && not (has ids id)) ≡ true → rule.firewall_rule_id ≡ id =
        λ b. seek_rule-id id zero_rule nic.spec.firewall_rules (named id (ground (arith, b))) in
      Asks-if (rule_change nic.meta.uid) _ _ _ _ _ (delete-Asks env nic.meta.uid id) (
        Asks-when (rule_change nic.meta.uid) _ _ _ (insert id) _
          (λ b.
            Asks-same (rule_change nic.meta.uid) _ (insert rule.firewall_rule_id) _
              (λ s. ap (λ x. insert x s) (found b)) (create-Asks env nic.meta.uid rule))
          (Asks-pure (rule_change nic.meta.uid) tt))

  abbrev pub rule_listing : Call
  rule_listing = list_firewall_rules nic.meta.uid

  -- The IDs that the calls ask for, from those that are listed.
  abbrev pub RulesLeft : List String → (String → Bool) → World → World → Type 0
  RulesLeft = Leaves (rule_change nic.meta.uid) env rule_listing of_list

  -- The last world lists what the calls of the first run have left.
  abbrev pub RulesShown : List String → List Call → World → World → World → Type 0
  RulesShown = Shows (rule_change nic.meta.uid) env rule_listing of_list

  -- If reconcileFirewallRules returns nil twice, and the second time dp-service lists the IDs that
  -- the calls of the first run left, then the second run leaves exactly the IDs of the specified
  -- rules: two runs are enough, from any set of rules.
  pub reconcile_firewall_rules-settles :
      (w v : World) (first : List String) (cs : List Call)
      → (reconcile_firewall_rules env r nic w).0 ≡ ok tt
      → (reconcile_firewall_rules env r nic v).0 ≡ ok tt
      → RulesShown first cs w (reconcile_firewall_rules env r nic w).1 v
      → (ids : List String) × RulesLeft ids
          (has (spec_rules nic))
          v
          (reconcile_firewall_rules env r nic v).1
  unfolding reconcile_firewall_rules spec_rules
  reconcile_firewall_rules-settles w v first cs h k shown =
      handler-settles (rule_change nic.meta.uid) env rule_listing of_list (λ id. id)
        "error listing firewall rule: " (spec_rules nic)
        (λ i. turn_rule env r nic.meta.uid nic.spec.firewall_rules (of_list i) (spec_rules nic)) _
        "error(s) reconciling fwRuleID(es): " (λ i. turn_rule-Asks (of_list i)) w v first cs
        (λ i. of_list-Distinct i) (of_list-Distinct _) h k shown
