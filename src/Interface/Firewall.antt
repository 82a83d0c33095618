-- ===== src/Interface/Firewall.antt =====
-- controllers/networkinterface_controller.go: the firewall rules of an interface, from the
-- specification to what dp-service is asked for.
use metalnet.Base.{ℕ, Option, none, some, String, [], ◌∷◌, if◌then◌else◌, ◌==◌, string_eq, nat_eq}
use metalnet.Base.Result.{Result, ok, err, panic, wrap, no_vm, not_found}
use metalnet.Base.Exec.{pure, raise, attempt, context, ◌>>=◌}
use metalnet.Netip.{Prefix, ip4}
use metalnet.Api.{ℤ, negsuc, IcmpMatch, PortMatch, ProtocolMatch, FirewallRule}
use metalnet.Effects.{Env, M, call, deref, u32, create_firewall_rule, delete_firewall_rule}
use metalnet.Wire.{
  PortFilter, ProtocolFilter, no_filter, icmp_filter, tcp_filter, udp_filter, FirewallRuleSpec,
}

abbrev pub default_firewall_rule_prio : ℕ
default_firewall_rule_prio = 100

-- 0.0.0.0/0
abbrev pub default_firewall_rule_prefix : Prefix
default_firewall_rule_prefix = record { addr = ip4 0; bits = some 0 }

abbrev pub minus_one : ℤ
minus_one = negsuc 0

-- What an absent value becomes.
abbrev pub or_any : Option ℤ → ℤ
or_any none = minus_one
or_any (some n) = n

-- The upper end of a range counts only beside a lower one.
abbrev pub upper_end : Option ℤ → ℤ → ℤ
upper_end none upper = minus_one
upper_end (some lower) upper = upper

unfoldable pub port_filter : Option PortMatch → PortFilter
port_filter none = record {
  src_port_lower = minus_one;
  src_port_upper = minus_one;
  dst_port_lower = minus_one;
  dst_port_upper = minus_one;
}
port_filter (some m) = record {
  src_port_lower = or_any m.src_port;
  src_port_upper = upper_end m.src_port m.end_src_port;
  dst_port_lower = or_any m.dst_port;
  dst_port_upper = upper_end m.dst_port m.end_dst_port;
}

-- fillTCPUDPFilter, which leaves the filter as it is for any other type
unfoldable pub fill_tcp_udp_filter : Option PortMatch → String → ProtocolFilter → ProtocolFilter
fill_tcp_udp_filter ports type before =
    if type == "TCP"
    then tcp_filter (port_filter ports)
    else if type == "UDP"
    then udp_filter (port_filter ports)
    else before

unfoldable pub icmp_of : Option IcmpMatch → ProtocolFilter
icmp_of none = icmp_filter minus_one minus_one
icmp_of (some m) = icmp_filter (or_any m.icmp_type) (or_any m.icmp_code)

unfoldable pub protocol_filter : ProtocolMatch → String → ProtocolFilter
protocol_filter m type =
    if type == "ICMP"
    then icmp_of m.icmp
    else if type == "UDP"
    then fill_tcp_udp_filter m.port_range type no_filter
    else if type == "TCP"
    then fill_tcp_udp_filter m.port_range type no_filter
    else no_filter

abbrev pub or_default_prefix : Option Prefix → Prefix
or_default_prefix none = default_firewall_rule_prefix
or_default_prefix (some p) = p

abbrev pub priority_of : Option ℕ → ℕ
priority_of none = default_firewall_rule_prio
priority_of (some n) = u32 n

unfoldable pub rule_spec : FirewallRule → ProtocolFilter → FirewallRuleSpec
rule_spec rule filter = record {
  rule_id = rule.firewall_rule_id;
  traffic_direction = rule.direction;
  firewall_action = rule.action;
  priority = priority_of rule.priority;
  source_prefix = or_default_prefix rule.source_prefix;
  destination_prefix = or_default_prefix rule.destination_prefix;
  filter = filter;
}

module _ (env : Env) where
  -- An error counts only if the object beside it has no code of dp-service.
  unfoldable pub judge_creation : Result (Unit {0}) → M (Unit {0})
  judge_creation (ok a) = pure tt
  judge_creation (err e) =
      if env.returned_code e == 0 then raise (wrap "error adding firewall rule: " e) else pure tt
  judge_creation (panic p) = λ w. (panic p, w)

  unfoldable pub create_dpdk_fw_rule : String → FirewallRule → M (Unit {0})
  create_dpdk_fw_rule uid rule = do
    matched ← deref rule.protocol_match
    type ← deref matched.protocol_type
    created ←
        attempt
          (call env (create_firewall_rule uid (rule_spec rule (protocol_filter matched type))))
    judge_creation created

  unfoldable pub delete_dpdk_fw_rule_id_if_exists : String → String → M (Unit {0})
  delete_dpdk_fw_rule_id_if_exists uid rule =
      context "error deleting firewall rule: "
        (call env (delete_firewall_rule uid rule (no_vm ∷ not_found ∷ [])))
