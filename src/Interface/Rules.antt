-- ===== src/Interface/Rules.antt =====
-- What createDPDKFwRule asks of dp-service for a rule, and what becomes of its errors.
use metalnet.Base.{
  ℕ, ◌%◌, ◌^◌, ◌≡◌, ◌≢◌, refl, ◌⊎◌, inl, inr, false, if◌then◌else◌, Option, none, some, String, [],
  ◌∷◌, ◌==◌, nat_eq, string_eq, Bool-cases, Option-cases, beq-eq,
}
use metalnet.Base.Result.{Err, Result, ok, err, panic, wrap}
use metalnet.Base.Exec.{attempt, ◌>>=◌}
use metalnet.Netip.{Prefix, ip4}
use metalnet.Api.{ℤ, negsuc, IcmpMatch, PortMatch, FirewallRule, ProtocolMatch}
use metalnet.Wire.{
  PortFilter, ProtocolFilter, no_filter, icmp_filter, tcp_filter, udp_filter, FirewallRuleSpec,
}
use metalnet.Effects.{Env, Call, Reply, World, call, deref, create_firewall_rule, gives, fails}
use metalnet.Effects.Traces.{Made}
use metalnet.LoadBalancer.Applying.{Answer-cases}
use metalnet.Interface.Firewall.{
  or_any, upper_end, port_filter, fill_tcp_udp_filter, icmp_of, protocol_filter, or_default_prefix,
  priority_of, rule_spec, judge_creation, create_dpdk_fw_rule,
}

-- An optional value, or a default where it is absent.
pub data Given {A : Type 0} (default : A) : Option A → A → Type 0 where
  absent : Given default none default
  present : (a : A) → Given default (some a) a

-- The sent range of ports: both ends are -1 without a lower one, and else they are the given ones.
pub data Range : Option ℤ → ℤ → ℤ → ℤ → Type 0 where
  any_port : (upper : ℤ) → Range none upper (negsuc 0) (negsuc 0)
  ports : (lower upper : ℤ) → Range (some lower) upper lower upper

pub data FromPorts : Option PortMatch → PortFilter → Type 0 where
  all_ports :
      (p : PortFilter)
      → Range none (negsuc 0) p.src_port_lower p.src_port_upper
      → Range none (negsuc 0) p.dst_port_lower p.dst_port_upper
      → FromPorts none p
  some_ports :
      (m : PortMatch) (p : PortFilter)
      → Range m.src_port m.end_src_port p.src_port_lower p.src_port_upper
      → Range m.dst_port m.end_dst_port p.dst_port_lower p.dst_port_upper
      → FromPorts (some m) p

pub data FromIcmp : Option IcmpMatch → ℤ → ℤ → Type 0 where
  all_icmp : FromIcmp none (negsuc 0) (negsuc 0)
  some_icmp :
      (m : IcmpMatch) (type code : ℤ)
      → Given (negsuc 0) m.icmp_type type
      → Given (negsuc 0) m.icmp_code code
      → FromIcmp (some m) type code

-- The filter of a protocol match with a type, whose names are in upper case.
pub data Filtered (m : ProtocolMatch) (type : String) : ProtocolFilter → Type 0 where
  tcp : (p : PortFilter) → type ≡ "TCP" → FromPorts m.port_range p → Filtered m type (tcp_filter p)
  udp : (p : PortFilter) → type ≡ "UDP" → FromPorts m.port_range p → Filtered m type (udp_filter p)
  icmp : (t c : ℤ) → type ≡ "ICMP" → FromIcmp m.icmp t c → Filtered m type (icmp_filter t c)
  other : type ≢ "TCP" → type ≢ "UDP" → type ≢ "ICMP" → Filtered m type no_filter

-- What dp-service is asked for, field by field.
pub record Translated (rule : FirewallRule) (m : ProtocolMatch) (type : String)
    (s : FirewallRuleSpec) : Type 0 where
  pub id : s.rule_id ≡ rule.firewall_rule_id
  pub direction : s.traffic_direction ≡ rule.direction
  pub action : s.firewall_action ≡ rule.action
  pub priority : (n : ℕ) × Given 100 rule.priority n × (s.priority ≡ n % 2 ^ 32)
  pub source : Given (record { addr = ip4 0; bits = some 0 }) rule.source_prefix s.source_prefix
  pub destination :
      Given (record { addr = ip4 0; bits = some 0 }) rule.destination_prefix s.destination_prefix
  pub filter : Filtered m type s.filter

or_any-Given : (o : Option ℤ) → Given (negsuc 0) o (or_any o)
or_any-Given none = absent
or_any-Given (some n) = present n

or_default_prefix-Given :
    (o : Option Prefix) → Given (record { addr = ip4 0; bits = some 0 }) o (or_default_prefix o)
or_default_prefix-Given none = absent
or_default_prefix-Given (some p) = present p

priority_of-Given : (o : Option ℕ) → (n : ℕ) × Given 100 o n × (priority_of o ≡ n % 2 ^ 32)
priority_of-Given none = (100, absent, refl)
priority_of-Given (some n) = (n, present n, refl)

Range-ends :
    (lower : Option ℤ) (upper : ℤ) → Range lower upper (or_any lower) (upper_end lower upper)
Range-ends none upper = any_port upper
Range-ends (some lower) upper = ports lower upper

port_filter-FromPorts : (o : Option PortMatch) → FromPorts o (port_filter o)
unfolding port_filter
port_filter-FromPorts none = all_ports _ (any_port (negsuc 0)) (any_port (negsuc 0))
port_filter-FromPorts (some m) =
    some_ports m _ (Range-ends m.src_port m.end_src_port) (Range-ends m.dst_port m.end_dst_port)

icmp_of-Filtered :
    (m : ProtocolMatch) (type : String) (o : Option IcmpMatch)
    → m.icmp ≡ o
    → type ≡ "ICMP"
    → Filtered m type (icmp_of o)
unfolding icmp_of
icmp_of-Filtered m type none e h = icmp _ _ h (rw e all_icmp)
icmp_of-Filtered m type (some i) e h =
    icmp _ _ h (rw e (some_icmp i _ _ (or_any-Given i.icmp_type) (or_any-Given i.icmp_code)))

differs : (a b : String) → (a == b) ≡ false → a ≢ b
differs a b n e = cc (n, (string_eq.beq_iff a b).1 e)

protocol_filter-Filtered :
    (m : ProtocolMatch) (type : String) → Filtered m type (protocol_filter m type)
unfolding protocol_filter fill_tcp_udp_filter
protocol_filter-Filtered m type = elim (Bool-cases (type == "ICMP")) [
  | inl y ↦ rw y (icmp_of-Filtered m type m.icmp refl (beq-eq type "ICMP" y))
  | inr n₁ ↦ elim (Bool-cases (type == "UDP")) [
    | inl y ↦
        let not_tcp : (type == "TCP") ≡ false = rw (beq-eq type "UDP" y) refl in
        rw (n₁, y, not_tcp) (udp _ (beq-eq type "UDP" y) (port_filter-FromPorts m.port_range))
    | inr n₂ ↦ elim (Bool-cases (type == "TCP")) [
      | inl y ↦ rw (n₁, n₂, y) (tcp _ (beq-eq type "TCP" y) (port_filter-FromPorts m.port_range))
      | inr n₃ ↦
          rw (n₁, n₂, n₃)
            (other (differs type "TCP" n₃) (differs type "UDP" n₂) (differs type "ICMP" n₁))
    ]
  ]
]

rule_spec-Translated :
    (rule : FirewallRule) (m : ProtocolMatch) (type : String)
    → Translated rule m type (rule_spec rule (protocol_filter m type))
unfolding rule_spec
rule_spec-Translated rule m type = record {
  id = refl;
  direction = refl;
  action = refl;
  priority = priority_of-Given rule.priority;
  source = or_default_prefix-Given rule.source_prefix;
  destination = or_default_prefix-Given rule.destination_prefix;
  filter = protocol_filter-Filtered m type;
}

module _ (env : Env) (uid : String) (rule : FirewallRule) where
  -- The rule names a protocol match with a type.
  abbrev pub Typed : ProtocolMatch → String → Type 0
  Typed m type = (rule.protocol_match ≡ some m) × (m.protocol_type ≡ some type)

  -- What the answer of dp-service becomes.
  abbrev pub Judged : World → Call → Result (Unit {0}) → Type 0
  Judged w c res =
      ((a : Reply c) × (env.answer w.trace c ≡ gives a) × (res ≡ ok tt))
      ⊎ ((e : Err) × (env.answer w.trace c ≡ fails e)
          × (res ≡ (
              if env.returned_code e == 0
              then err (wrap "error adding firewall rule: " e)
              else ok tt)))

  abbrev pub Outcome : World → Result (Unit {0}) × World → Type 0
  Outcome w (res, w') =
      ((m : ProtocolMatch) × (type : String) × Typed m type
        × ((s : FirewallRuleSpec) × Translated rule m type s
            × Made (create_firewall_rule uid s ∷ []) w w'
            × Judged w (create_firewall_rule uid s) res))
      ⊎ ((w' ≡ w)
          × (res ≡ panic "invalid memory address or nil pointer dereference")
          × ((rule.protocol_match ≡ none)
              ⊎ ((m : ProtocolMatch) × (rule.protocol_match ≡ some m) × (m.protocol_type ≡ none))))

  -- For a rule that names a protocol match with a type, createDPDKFwRule makes one call, which
  -- creates a rule with its ID, direction and action, its priority in 32 bits or else 100, its two
  -- prefixes or else 0.0.0.0/0, and the filter of its type: ports for TCP and UDP, the ICMP type
  -- and code for ICMP, where -1 stands for any, and none for another type. It returns the error of
  -- that call, wrapped, if the object beside the error has the code 0, and nil otherwise. For any
  -- other rule it panics before it has called anything.
  pub create_dpdk_fw_rule-Outcome : (w : World) → Outcome w (create_dpdk_fw_rule env uid rule w)
  unfolding create_dpdk_fw_rule judge_creation deref ◌>>=◌ attempt call
  create_dpdk_fw_rule-Outcome w = elim (Option-cases rule.protocol_match) [
    | inl n ↦ rw n (inr (refl, refl, inl refl))
    | inr (m, p) ↦ elim (Option-cases m.protocol_type) [
      | inl n ↦ simp (p, n) (inr (refl, refl, inr (m, refl, n)))
      | inr (t, q) ↦
          let tr = rule_spec-Translated rule m t in
          elim (Answer-cases (
            env.answer w.trace (create_firewall_rule uid (rule_spec rule (protocol_filter m t))))) [
              | inl (a, e) ↦
                  simp (p, q, e)
                    (inl (
                      m,
                      t,
                      (refl, q),
                      (rule_spec rule (protocol_filter m t), tr, refl, inl (a, e, refl)),
                    ))
              | inr (x, e) ↦ elim (Bool-cases (env.returned_code x == 0)) [
                | inl z ↦
                    simp (p, q, e, z)
                      (inl (
                        m,
                        t,
                        (refl, q),
                        (rule_spec rule (protocol_filter m t), tr, refl, inr (x, e, simp z refl)),
                      ))
                | inr z ↦
                    simp (p, q, e, z)
                      (inl (
                        m,
                        t,
                        (refl, q),
                        (rule_spec rule (protocol_filter m t), tr, refl, inr (x, e, simp z refl)),
                      ))
              ]
            ]
    ]
  ]
