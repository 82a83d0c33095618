-- ===== src/Tests/Interfaces/WholeExamples.antt =====
-- Examples for the whole reconciliation and deletion of an interface.
use metalnet.Api.{ObjectKey, pci_beq}
use metalnet.Base.{
  Bool, List, [], arith, false, inl, inr, refl, string_eq, true, ℕ, ◌∷◌, ◌≡◌, ◌≢◌, ◌≤◌, ◌⊎◌,
}
use metalnet.Base.Exec.{attempt, context, for_each, gather, ◌>>=◌}
use metalnet.Base.Map.{lookup, remove}
use metalnet.Base.Result.{Err, message, not_found, ok}
use metalnet.Base.Sets.{has}
use metalnet.Effects.{Call, call, deref, fails, gives, on_functions}
use metalnet.Effects.Traces.{calls}
use metalnet.Interface.Conserving.{reconcile_request-Conserved}
use metalnet.Interface.Control.{reconcile_request}
use metalnet.Interface.Deleting.{
  delete, delete_dpdk_interface_if_exists, delete_found, drop_finalizer, drop_interface, drop_parts,
  judge_release, release_net_fn_if_claim_exists,
}
use metalnet.Interface.Firewall.{delete_dpdk_fw_rule_id_if_exists}
use metalnet.Interface.Nat.{
  delete_dpdk_nat_ip_if_exists, delete_existing_nat_ip, delete_found_nat, delete_found_virtual_ip,
  delete_nat_ip, drop_virtual_ip, nat_hop, remove_nat_ip_route_if_exists,
}
use metalnet.Interface.Parts.{
  delete_dpdk_lb_target_if_exists, delete_dpdk_prefix_if_exists, delete_firewall_rules,
  delete_lb_targets, delete_prefixes, drop_listed, drop_prefix, drop_target, report, report_nothing,
}
use metalnet.Interface.Removal.{Unclaimed, delete-Unclaimed, finish, look_up, removal}
use metalnet.Interface.Routes.{
  plain_hop, remove_address_routes, remove_interface_route_if_exists,
  remove_interface_routes_if_exist, remove_lb_target_route_if_exists, remove_prefix_route_if_exists,
}
use metalnet.Interface.Spec.{
  get_network_interface_ips, interface_object, network_interface_finalizer,
}
use metalnet.LoadBalancer.{net_ip_addr_prefix}
use metalnet.Metalbond.Errors.{
  ignore_next_hop_not_found_error, is_destination_not_found_error, is_next_hop_not_found_error,
  is_vni_not_found_error, unless_ignored,
}
use metalnet.Metalbond.RouteUtil.{withdraw}
use metalnet.NetFns.{
  access, decode, delete_claim, get_claim, is_claim_not_found, on_store, release, remove_file,
}
use metalnet.NetFns.Conservation.{Conserved, IsSound}
use metalnet.Netip.Values.{is6}
use metalnet.Tests.FunctionExamples.{ghw, manager-IsSound, reads_back}
use metalnet.Tests.Interfaces.{calm_manager, interface, interfaces, nic_env, nic_world}
use metalnet.Wire.{Underlay}

calm_manager-IsSound : IsSound ghw calm_manager
calm_manager-IsSound = record {
  exclusive = manager-IsSound.exclusive;
  one_file = manager-IsSound.one_file;
  readable = manager-IsSound.readable;
  clean = tt;
}

abbrev key : ObjectKey
key = record { key_namespace = "ns"; key_name = "nic" }

reconcile_request-Conserved_example :
    Conserved ghw calm_manager (reconcile_request nic_env interfaces key nic_world).1.functions
reconcile_request-Conserved_example =
    reconcile_request-Conserved nic_env interfaces refl reads_back key nic_world
      calm_manager-IsSound

deletes : (delete nic_env interfaces interface nic_world).0 ≡ ok false
unfolding delete ◌>>=◌ attempt call delete_found drop_parts context delete_prefixes drop_listed
    gather report_nothing delete_lb_targets delete_firewall_rules delete_nat_ip delete_found_nat
    deref delete_existing_nat_ip pci_beq for_each on_functions delete_dpdk_interface_if_exists
    drop_finalizer drop_interface judge_release release_net_fn_if_claim_exists
    delete_dpdk_fw_rule_id_if_exists delete_dpdk_nat_ip_if_exists drop_virtual_ip
    delete_found_virtual_ip nat_hop remove_nat_ip_route_if_exists delete_dpdk_lb_target_if_exists
    delete_dpdk_prefix_if_exists drop_prefix drop_target plain_hop remove_address_routes
    remove_interface_route_if_exists remove_interface_routes_if_exist
    remove_lb_target_route_if_exists remove_prefix_route_if_exists get_network_interface_ips
    interface_object net_ip_addr_prefix unless_ignored ignore_next_hop_not_found_error
    is_destination_not_found_error is_next_hop_not_found_error is_vni_not_found_error withdraw
    access decode delete_claim get_claim is_claim_not_found on_store release remove_file is6 message
    report metalnet.Base.Map.lookup metalnet.Base.Map.remove has
deletes = refl

has_finalizer :
    nic_env.contains_finalizer interface.meta.finalizers network_interface_finalizer ≡ true
unfolding has
has_finalizer = refl

delete-Unclaimed_example :
    let (res, w') = delete nic_env interfaces interface nic_world in
    (res ≢ ok true)
    × Unclaimed nic_env interfaces interface refl reads_back nic_world.functions w'.functions
    × (((f : Underlay) × (nic_env.answer nic_world.trace
              (look_up nic_env interfaces interface refl reads_back)
            ≡ gives f)
          × ((rest : List Call) × (calls w'.trace
                ≡ finish nic_env interfaces interface refl reads_back
                  ∷ removal nic_env interfaces interface refl reads_back
                  ∷ rest)))
        ⊎ ((e : Err) × (nic_env.answer nic_world.trace
                (look_up nic_env interfaces interface refl reads_back)
              ≡ fails e)
            × (nic_env.is_status_error_code e (not_found ∷ []) ≡ true)
            × (calls w'.trace
                ≡ finish nic_env interfaces interface refl reads_back
                  ∷ look_up nic_env interfaces interface refl reads_back
                  ∷ calls nic_world.trace)))
delete-Unclaimed_example =
    delete-Unclaimed nic_env interfaces interface refl reads_back nic_world
      (calm_manager-IsSound, tt) has_finalizer (inl (false, deletes))
