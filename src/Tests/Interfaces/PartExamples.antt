-- ===== src/Tests/Interfaces/PartExamples.antt =====
-- Examples for the validation, the rules, the NAT address and the device of an interface.
use Prim.Native.String.{◌++◌}
use metalnet.Base.{
  ℕ, ◌+◌, ◌*◌, ◌≡◌, refl, ◌↔◌, ◌⊎◌, ◌≤◌, length, true, false, [], ◌∷◌, arith, nat_eq, string_eq,
}
use metalnet.Base.Result.{Err, ok, err, panic, plain, no_vm, snat_no_data}
use metalnet.Base.Exec.{◌>>=◌, context, attempt}
use metalnet.Netip.{Addr, ip4, decimal, addr_beq}
use metalnet.Api.{ProtocolMatch, ipv4_protocol, ipv6_protocol, PciAddress}
use metalnet.Effects.{call, deref, gives, fails}
use metalnet.Effects.Traces.{Made}
use metalnet.Wire.{DpdkNat, no_filter}
use metalnet.Metalbond.Errors.{
  contains, unless_ignored, ignore_next_hop_already_exists_error, ignore_next_hop_not_found_error,
  is_destination_not_found_error, is_next_hop_already_exists_error, is_next_hop_not_found_error,
  is_vni_not_found_error,
}
use metalnet.Metalbond.RouteUtil.{announce, withdraw}
use metalnet.NetFns.Functions.{virtual_function}
use metalnet.Interface.Spec.{is_valid_interface_spec, get_ip}
use metalnet.Interface.Families.{
  AreValid, IsMetered, IsFirst, is_valid_interface_spec_iff, get_ip-panics_iff,
}
use metalnet.Interface.Firewall.{create_dpdk_fw_rule, protocol_filter}
use metalnet.Interface.Rules.{Outcome, create_dpdk_fw_rule-Outcome}
use metalnet.Interface.Nat.{
  apply_nat_ip, apply_found_nat, is_nat_current, delete_existing_nat_ip,
  remove_nat_ip_route_if_exists, delete_dpdk_nat_ip_if_exists, create_nat_ip,
  add_nat_ip_route_if_not_exists, delete_nat_ip, delete_found_nat,
}
use metalnet.Interface.Translation.{
  look_up, Turned, Renewed, HasBoth, torn_down, apply_nat_ip-Made, delete_nat_ip-Made,
}
use metalnet.Interface.Device.{parse_uint, parse_digits, digit_value, convert_to_dpdk_device}
use metalnet.Interface.Positions.{convert_to_dpdk_device-index}
use metalnet.Tests.Interfaces.{interface, details, rule, nic_env, interfaces, nic_world}

is_valid_interface_spec_iff_example :
    (is_valid_interface_spec interfaces interface.spec ≡ ok tt) ↔ (
      AreValid interfaces interface.spec.ips interface.spec.ip_families
      × IsMetered interface.spec.metering_rate)
is_valid_interface_spec_iff_example = is_valid_interface_spec_iff interfaces interface.spec

get_ip-panics_iff_example :
    (get_ip ipv6_protocol (ipv4_protocol ∷ ipv6_protocol ∷ []) (ip4 1 ∷ [])
      ≡ panic "index out of range")
    ↔ ((i : ℕ) × IsFirst ipv6_protocol (ipv4_protocol ∷ ipv6_protocol ∷ []) i
        × (length (ip4 1 ∷ []) ≤ i))
get_ip-panics_iff_example =
    get_ip-panics_iff ipv6_protocol (ipv4_protocol ∷ ipv6_protocol ∷ []) (ip4 1 ∷ [])

create_dpdk_fw_rule-Outcome_example :
    Outcome nic_env "u1" rule nic_world (create_dpdk_fw_rule nic_env "u1" rule nic_world)
create_dpdk_fw_rule-Outcome_example = create_dpdk_fw_rule-Outcome nic_env "u1" rule nic_world

applies : (apply_nat_ip nic_env interfaces "u1" details (ip4 0x0a640001) 7 nic_world).0 ≡ ok tt
unfolding apply_nat_ip apply_found_nat is_nat_current delete_existing_nat_ip
    remove_nat_ip_route_if_exists delete_dpdk_nat_ip_if_exists create_nat_ip
    add_nat_ip_route_if_not_exists unless_ignored ignore_next_hop_already_exists_error
    ignore_next_hop_not_found_error is_destination_not_found_error is_next_hop_already_exists_error
    is_next_hop_not_found_error is_vni_not_found_error announce withdraw call deref attempt context
    ◌>>=◌ addr_beq
applies = refl

apply_nat_ip-Made_example :
    let w' = (apply_nat_ip nic_env interfaces "u1" details (ip4 0x0a640001) 7 nic_world).1 in
    let look = look_up nic_env interfaces "u1" 7 in
    ((n : DpdkNat) × (nic_env.answer nic_world.trace look ≡ gives n)
      × Turned nic_env interfaces "u1" 7 (look ∷ []) details (ip4 0x0a640001) n nic_world w')
    ⊎ ((e : Err) × (nic_env.answer nic_world.trace look ≡ fails e)
        × (nic_env.is_status_error_code e (no_vm ∷ snat_no_data ∷ []) ≡ true)
        × Renewed nic_env interfaces "u1" 7 (look ∷ []) details (ip4 0x0a640001) nic_world w')
apply_nat_ip-Made_example =
    apply_nat_ip-Made nic_env interfaces "u1" 7 details (ip4 0x0a640001) nic_world applies

deletes : (delete_nat_ip nic_env interfaces "u1" 7 nic_world).0 ≡ ok tt
unfolding delete_nat_ip delete_found_nat delete_existing_nat_ip remove_nat_ip_route_if_exists
    delete_dpdk_nat_ip_if_exists unless_ignored ignore_next_hop_not_found_error
    is_destination_not_found_error is_next_hop_not_found_error is_vni_not_found_error withdraw call
    deref attempt context ◌>>=◌
deletes = refl

delete_nat_ip-Made_example :
    let w' = (delete_nat_ip nic_env interfaces "u1" 7 nic_world).1 in
    let look = look_up nic_env interfaces "u1" 7 in
    ((n : DpdkNat) × (a : Addr) × (u : Addr) × (nic_env.answer nic_world.trace look ≡ gives n)
      × HasBoth nic_env interfaces "u1" 7 n a u
      × Made (look ∷ torn_down nic_env interfaces "u1" 7 n a u) nic_world w')
    ⊎ ((e : Err) × (nic_env.answer nic_world.trace look ≡ fails e)
        × (nic_env.is_status_error_code e (no_vm ∷ snat_no_data ∷ []) ≡ true)
        × Made (look ∷ []) nic_world w')
delete_nat_ip-Made_example = delete_nat_ip-Made nic_env interfaces "u1" 7 nic_world deletes

-- Virtual function 6 of the base 00.0, with the offset 3.
abbrev ninth : PciAddress
ninth = record { domain = "0000"; bus = "03"; device = "01"; function = "1" }

no_tap : contains "01" "tap" ≡ false
unfolding contains
no_tap = refl

ninth_device : parse_uint 16 "01" ≡ ok (virtual_function 0 0 (3 + 6)).0
unfolding parse_uint parse_digits digit_value virtual_function
ninth_device = refl

ninth_function : parse_uint 8 "1" ≡ ok (virtual_function 0 0 (3 + 6)).1
unfolding parse_uint parse_digits digit_value virtual_function
ninth_function = refl

convert_to_dpdk_device-index_example : convert_to_dpdk_device interfaces ninth nic_world ≡ (
  ok ("0000" ++ (":" ++ ("03" ++ (":00.0_representor_vf" ++ decimal (0 * 8 + (0 + 6)))))),
  nic_world,
)
convert_to_dpdk_device-index_example =
    convert_to_dpdk_device-index interfaces ninth (plain "no such device") 0 0 6 nic_world no_tap
      ninth_device ninth_function refl (omega arith)

parsed : parse_uint 16 "1f" ≡ ok 31
unfolding parse_uint parse_digits digit_value
parsed = refl

not_octal : parse_uint 8 "8" ≡ err (plain "strconv.ParseUint: invalid syntax")
unfolding parse_uint parse_digits digit_value
not_octal = refl

-- A type in lower case stands for no filter, with the ports that go with it.
lower_case : (m : ProtocolMatch) → protocol_filter m "tcp" ≡ no_filter
unfolding protocol_filter
lower_case m = refl
