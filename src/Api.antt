-- ===== src/Api.antt =====
-- api/v1alpha1: the objects that the controllers reconcile. An `int32` that the schema bounds from
-- below by 0 is a native number; a `uint64` too. A pointer is an `Option`, an embedded `ObjectMeta`
-- the fields of it that the program reads. The IDs of peers, which the schema does not bound, are
-- taken from 0 on.
use metalnet.Base.{
  ℕ, Bool, true, Option, String, List, ◌≡◌, ◌↔◌, arith, Equality, ◌==◌, ◌&&◌, string_eq,
}
use text.Mathlib.TextEquality.{eq_iff}
use metalnet.Netip.{Addr, Prefix}

pub record ObjectMeta : Type 0 where
  pub namespace : String
  pub name : String
  pub uid : String
  -- whether DeletionTimestamp is set
  pub deleted : Bool
  pub finalizers : List String

-- metav1.ObjectMeta's key
pub record ObjectKey : Type 0 where
  pub key_namespace : String
  pub key_name : String

pub record PeeredPrefix : Type 0 where
  pub id : ℕ
  pub prefixes : List Prefix

pub record NetworkSpec : Type 0 where
  pub id : ℕ
  pub peered_ids : List ℕ
  pub peered_prefixes : List PeeredPrefix

pub record Network : Type 0 where
  pub meta : ObjectMeta
  pub spec : NetworkSpec

pub data IpFamily : Type 0 where
  ipv4_protocol ipv6_protocol : IpFamily
  other_family : String → IpFamily

pub data LoadBalancerType : Type 0 where
  internal public_lb : LoadBalancerType

-- The state `failed` is the source's "Error"; `no_state` is the empty string.
pub data State : Type 0 where
  no_state ready pending failed : State

pub record LbPort : Type 0 where
  pub protocol : String
  pub port : ℕ

pub record LoadBalancerSpec : Type 0 where
  pub network_ref : String
  pub lb_type : LoadBalancerType
  pub ip_family : IpFamily
  pub ip : Addr
  pub ports : List LbPort
  pub node_name : Option String

pub record LoadBalancer : Type 0 where
  pub meta : ObjectMeta
  pub spec : LoadBalancerSpec
  -- LoadBalancerStatus has one field.
  pub state : State

pub record NatDetails : Type 0 where
  pub ip : Option Addr
  pub port : ℕ
  pub end_port : ℕ

pub record MeteringParameters : Type 0 where
  pub total_rate : Option ℕ
  pub public_rate : Option ℕ

-- The address of the API, which calls the device its slot, and the one of ghw.
pub record PciAddress : Type 0 where
  pub domain : String
  pub bus : String
  pub device : String
  pub function : String

unfoldable pub pci_beq : PciAddress → PciAddress → Bool
pci_beq a b =
    (a.domain == b.domain)
    && ((a.bus == b.bus) && ((a.device == b.device) && (a.function == b.function)))

pub pci_beq_iff : (a b : PciAddress) → (pci_beq a b ≡ true) ↔ (a ≡ b)
unfolding pci_beq
pci_beq_iff a b = ground (
  arith,
  eq_iff a.domain b.domain,
  eq_iff a.bus b.bus,
  eq_iff a.device b.device,
  eq_iff a.function b.function,
)

instance abbrev pub pci_eq : Equality PciAddress
pci_eq = record { beq = pci_beq; beq_iff = pci_beq_iff }

-- An int32 that may be negative.
pub data ℤ : Type 0 where
  pos negsuc : ℕ → ℤ

pub record IcmpMatch : Type 0 where
  pub icmp_type : Option ℤ
  pub icmp_code : Option ℤ

pub record PortMatch : Type 0 where
  pub src_port : Option ℤ
  pub end_src_port : ℤ
  pub dst_port : Option ℤ
  pub end_dst_port : ℤ

-- The strings of types, directions and actions are kept: the schema bounds some of them only.
pub record ProtocolMatch : Type 0 where
  pub protocol_type : Option String
  pub icmp : Option IcmpMatch
  pub port_range : Option PortMatch

pub record FirewallRule : Type 0 where
  pub firewall_rule_id : String
  pub direction : String
  pub action : String
  pub priority : Option ℕ
  pub ip_family : IpFamily
  pub source_prefix : Option Prefix
  pub destination_prefix : Option Prefix
  pub protocol_match : Option ProtocolMatch

pub record NetworkInterfaceSpec : Type 0 where
  pub network_ref : String
  pub ip_families : List IpFamily
  pub ips : List Addr
  pub virtual_ip : Option Addr
  pub prefixes : List Prefix
  pub load_balancer_targets : List Prefix
  pub nat : Option NatDetails
  pub node_name : Option String
  pub firewall_rules : List FirewallRule
  pub metering_rate : Option MeteringParameters

pub record NetworkInterfaceStatus : Type 0 where
  pub pci_address : Option PciAddress
  pub virtual_ip : Option Addr
  pub nat_ip : Option NatDetails
  pub prefixes : List Prefix
  pub load_balancer_targets : List Prefix
  pub state : State

pub record NetworkInterface : Type 0 where
  pub meta : ObjectMeta
  pub spec : NetworkInterfaceSpec
  pub status : NetworkInterfaceStatus
