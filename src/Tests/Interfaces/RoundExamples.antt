-- ===== src/Tests/Interfaces/RoundExamples.antt =====
-- Examples for the rounds over prefixes, targets and rules.
use metalnet.Base.{
  ◌≡◌, refl, ◌&&◌, ◌||◌, ltb, length, if◌then◌else◌, List, [], ◌∷◌, String, string_eq,
}
use metalnet.Base.Sets.{has, insert, delete, of_list}
use metalnet.Base.Sorting.{sorted, put_in_order}
use metalnet.Base.Result.{ok, no_vm, not_found}
use metalnet.Base.Exec.{◌>>=◌, context, gather, attempt}
use metalnet.Netip.{ip6, is4, is6, prefix_eq, prefix_beq, addr_beq, bits_beq, prefix_string}
use metalnet.Effects.{
  Call, World, call, deref, withdraw_route, delete_prefix, delete_lb_prefix, delete_firewall_rule,
}
use metalnet.Wire.{DpdkPrefix, standard, loadbalancer_target}
use metalnet.Metalbond.Errors.{
  unless_ignored, ignore_next_hop_already_exists_error, ignore_next_hop_not_found_error,
  is_destination_not_found_error, is_next_hop_already_exists_error, is_next_hop_not_found_error,
  is_vni_not_found_error,
}
use metalnet.Metalbond.RouteUtil.{announce, withdraw, net_ip_addr_ip_version, to_destination}
use metalnet.Interface.Routes.{
  plain_hop, add_prefix_route_if_not_exists, remove_prefix_route_if_exists,
  add_lb_target_route_if_not_exists, remove_lb_target_route_if_exists,
}
use metalnet.Interface.Firewall.{
  delete_dpdk_fw_rule_id_if_exists, create_dpdk_fw_rule, rule_spec, protocol_filter,
  fill_tcp_udp_filter, port_filter, judge_creation,
}
use metalnet.Interface.Parts.{
  reconcile_prefixes, reconcile_lb_targets, reconcile_firewall_rules, spec_set, dpdk_set,
  spec_targets, spec_rules, to_visit, report, turn_prefix, turn_target, turn_rule,
  delete_dpdk_prefix_if_exists, delete_dpdk_lb_target_if_exists,
  get_underlay_route_from_prefixes_list, seek_rule,
}
use metalnet.Interface.Visits.{replay}
use metalnet.Interface.Prefixes.{
  prefix_change, PrefixesLeft, PrefixesShown, reconcile_prefixes-leaves, reconcile_prefixes-settles,
}
use metalnet.Interface.Targets.{
  target_change, TargetsLeft, TargetsShown, reconcile_lb_targets-settles,
}
use metalnet.Interface.RuleRounds.{
  rule_change, RulesLeft, RulesShown, reconcile_firewall_rules-settles,
}
use metalnet.Tests.{hosts}
use metalnet.Tests.Interfaces.{interface, nic_env, interfaces, nic_world, listed}

abbrev prefixes_after : World
prefixes_after = (reconcile_prefixes nic_env interfaces 7 interface nic_world).1

prefixes_ok : (reconcile_prefixes nic_env interfaces 7 interface nic_world).0 ≡ ok tt
unfolding reconcile_prefixes turn_prefix spec_set delete_dpdk_prefix_if_exists
    add_prefix_route_if_not_exists remove_prefix_route_if_exists dpdk_set prefix_beq addr_beq
    bits_beq get_underlay_route_from_prefixes_list prefix_string unless_ignored
    ignore_next_hop_already_exists_error ignore_next_hop_not_found_error
    is_destination_not_found_error is_next_hop_already_exists_error is_next_hop_not_found_error
    is_vni_not_found_error announce withdraw net_ip_addr_ip_version to_destination plain_hop is4 is6
    ◌>>=◌ context call gather to_visit of_list sorted put_in_order deref attempt has insert report
prefixes_ok = refl

prefixes_ok_again : (reconcile_prefixes nic_env interfaces 7 interface prefixes_after).0 ≡ ok tt
unfolding reconcile_prefixes turn_prefix spec_set delete_dpdk_prefix_if_exists
    add_prefix_route_if_not_exists remove_prefix_route_if_exists dpdk_set prefix_beq addr_beq
    bits_beq get_underlay_route_from_prefixes_list prefix_string unless_ignored
    ignore_next_hop_already_exists_error ignore_next_hop_not_found_error
    is_destination_not_found_error is_next_hop_already_exists_error is_next_hop_not_found_error
    is_vni_not_found_error announce withdraw net_ip_addr_ip_version to_destination plain_hop is4 is6
    ◌>>=◌ context call gather to_visit of_list sorted put_in_order deref attempt has insert report
prefixes_ok_again = refl

-- As many are specified as are listed: the first run deletes only.
abbrev prefixes_calls : List Call
prefixes_calls =
    withdraw_route 7 (to_destination hosts) (plain_hop standard (ip6 5 ""))
    ∷ delete_prefix "u1" hosts (no_vm ∷ not_found ∷ [])
    ∷ []

prefixes_shown :
    PrefixesShown nic_env interfaces 7 interface listed prefixes_calls nic_world prefixes_after
      prefixes_after
unfolding reconcile_prefixes turn_prefix spec_set delete_dpdk_prefix_if_exists
    add_prefix_route_if_not_exists remove_prefix_route_if_exists dpdk_set prefix_beq addr_beq
    bits_beq get_underlay_route_from_prefixes_list prefix_string unless_ignored
    ignore_next_hop_already_exists_error ignore_next_hop_not_found_error
    is_destination_not_found_error is_next_hop_already_exists_error is_next_hop_not_found_error
    is_vni_not_found_error announce withdraw net_ip_addr_ip_version to_destination plain_hop is4 is6
    ◌>>=◌ context call gather to_visit of_list sorted put_in_order deref attempt has insert report
    replay prefix_change delete
prefixes_shown = (refl, refl, ([], refl, λ p. refl))

reconcile_prefixes-settles_example :
    (items : List DpdkPrefix) × PrefixesLeft nic_env interfaces 7 interface items
      (has (spec_set interface))
      prefixes_after
      (reconcile_prefixes nic_env interfaces 7 interface prefixes_after).1
reconcile_prefixes-settles_example =
    reconcile_prefixes-settles nic_env interfaces 7 interface nic_world prefixes_after listed
      prefixes_calls prefixes_ok prefixes_ok_again prefixes_shown

abbrev targets_after : World
targets_after = (reconcile_lb_targets nic_env interfaces 7 interface nic_world).1

targets_ok : (reconcile_lb_targets nic_env interfaces 7 interface nic_world).0 ≡ ok tt
unfolding reconcile_lb_targets turn_target spec_targets delete_dpdk_lb_target_if_exists
    add_lb_target_route_if_not_exists remove_lb_target_route_if_exists dpdk_set prefix_beq addr_beq
    bits_beq get_underlay_route_from_prefixes_list prefix_string unless_ignored
    ignore_next_hop_already_exists_error ignore_next_hop_not_found_error
    is_destination_not_found_error is_next_hop_already_exists_error is_next_hop_not_found_error
    is_vni_not_found_error announce withdraw net_ip_addr_ip_version to_destination plain_hop is4 is6
    ◌>>=◌ context call gather to_visit of_list sorted put_in_order deref attempt has insert report
targets_ok = refl

targets_ok_again : (reconcile_lb_targets nic_env interfaces 7 interface targets_after).0 ≡ ok tt
unfolding reconcile_lb_targets turn_target spec_targets delete_dpdk_lb_target_if_exists
    add_lb_target_route_if_not_exists remove_lb_target_route_if_exists dpdk_set prefix_beq addr_beq
    bits_beq get_underlay_route_from_prefixes_list prefix_string unless_ignored
    ignore_next_hop_already_exists_error ignore_next_hop_not_found_error
    is_destination_not_found_error is_next_hop_already_exists_error is_next_hop_not_found_error
    is_vni_not_found_error announce withdraw net_ip_addr_ip_version to_destination plain_hop is4 is6
    ◌>>=◌ context call gather to_visit of_list sorted put_in_order deref attempt has insert report
targets_ok_again = refl

-- As many are specified as are listed: the first run deletes only.
abbrev targets_calls : List Call
targets_calls =
    withdraw_route 7 (to_destination hosts) (plain_hop loadbalancer_target (ip6 5 ""))
    ∷ delete_lb_prefix "u1" hosts (no_vm ∷ not_found ∷ [])
    ∷ []

targets_shown :
    TargetsShown nic_env interfaces 7 interface listed targets_calls nic_world targets_after
      targets_after
unfolding reconcile_lb_targets turn_target spec_targets delete_dpdk_lb_target_if_exists
    add_lb_target_route_if_not_exists remove_lb_target_route_if_exists dpdk_set prefix_beq addr_beq
    bits_beq get_underlay_route_from_prefixes_list prefix_string unless_ignored
    ignore_next_hop_already_exists_error ignore_next_hop_not_found_error
    is_destination_not_found_error is_next_hop_already_exists_error is_next_hop_not_found_error
    is_vni_not_found_error announce withdraw net_ip_addr_ip_version to_destination plain_hop is4 is6
    ◌>>=◌ context call gather to_visit of_list sorted put_in_order deref attempt has insert report
    replay target_change delete
targets_shown = (refl, refl, ([], refl, λ p. refl))

reconcile_lb_targets-settles_example :
    (items : List DpdkPrefix) × TargetsLeft nic_env interfaces 7 interface items
      (has (spec_targets interface))
      targets_after
      (reconcile_lb_targets nic_env interfaces 7 interface targets_after).1
reconcile_lb_targets-settles_example =
    reconcile_lb_targets-settles nic_env interfaces 7 interface nic_world targets_after listed
      targets_calls targets_ok targets_ok_again targets_shown

abbrev rules_after : World
rules_after = (reconcile_firewall_rules nic_env interfaces interface nic_world).1

rules_ok : (reconcile_firewall_rules nic_env interfaces interface nic_world).0 ≡ ok tt
unfolding reconcile_firewall_rules turn_rule spec_rules delete_dpdk_fw_rule_id_if_exists
    create_dpdk_fw_rule rule_spec protocol_filter fill_tcp_udp_filter port_filter judge_creation
    seek_rule ◌>>=◌ context call gather to_visit of_list sorted put_in_order deref attempt has
    insert report
rules_ok = refl

rules_ok_again : (reconcile_firewall_rules nic_env interfaces interface rules_after).0 ≡ ok tt
unfolding reconcile_firewall_rules turn_rule spec_rules delete_dpdk_fw_rule_id_if_exists
    create_dpdk_fw_rule rule_spec protocol_filter fill_tcp_udp_filter port_filter judge_creation
    seek_rule ◌>>=◌ context call gather to_visit of_list sorted put_in_order deref attempt has
    insert report
rules_ok_again = refl

-- As many are specified as are listed: the first run deletes only.
abbrev rules_calls : List Call
rules_calls = delete_firewall_rule "u1" "r1" (no_vm ∷ not_found ∷ []) ∷ []

rules_shown :
    RulesShown nic_env interfaces interface
      ("r1" ∷ [])
      rules_calls
      nic_world
      rules_after
      rules_after
unfolding reconcile_firewall_rules turn_rule spec_rules delete_dpdk_fw_rule_id_if_exists
    create_dpdk_fw_rule rule_spec protocol_filter fill_tcp_udp_filter port_filter judge_creation
    seek_rule ◌>>=◌ context call gather to_visit of_list sorted put_in_order deref attempt has
    insert report replay rule_change delete
rules_shown = (refl, refl, ([], refl, λ p. refl))

reconcile_firewall_rules-settles_example :
    (items : List String) × RulesLeft nic_env interfaces interface items
      (has (spec_rules interface))
      rules_after
      (reconcile_firewall_rules nic_env interfaces interface rules_after).1
reconcile_firewall_rules-settles_example =
    reconcile_firewall_rules-settles nic_env interfaces interface nic_world rules_after ("r1" ∷ [])
      rules_calls rules_ok rules_ok_again rules_shown

reconcile_prefixes-leaves_example :
    (items : List DpdkPrefix) × PrefixesLeft nic_env interfaces 7 interface items
      (λ p.
        if ltb (length (dpdk_set items)) (length (spec_set interface))
        then has (dpdk_set items) p || has (spec_set interface) p
        else has (dpdk_set items) p && has (spec_set interface) p)
      nic_world
      prefixes_after
reconcile_prefixes-leaves_example =
    reconcile_prefixes-leaves nic_env interfaces 7 interface nic_world prefixes_ok
