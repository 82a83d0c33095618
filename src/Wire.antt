-- ===== src/Wire.antt =====
-- What the program sends to and receives from dp-service and metalbond: the fields of their data
-- types that it reads or writes.
use metalnet.Base.{String, ℕ, Option}
use metalnet.Netip.{Addr, Prefix}
use metalnet.Api.{ℤ}

pub data IpVersion : Type 0 where
  ipv4 ipv6 no_version : IpVersion

-- mb.Destination
pub record Destination : Type 0 where
  pub ip_version : IpVersion
  pub prefix : Prefix

pub data HopType : Type 0 where
  standard nat loadbalancer_target : HopType
  other_hop : ℕ → HopType

-- mb.NextHop
pub record NextHop : Type 0 where
  pub target_address : Addr
  pub target_vni : ℕ
  pub hop_type : HopType
  pub nat_port_range_from : ℕ
  pub nat_port_range_to : ℕ

-- An item of dpdk's ListRoutes.
pub record DpdkRoute : Type 0 where
  pub prefix : Prefix
  pub next_hop_vni : ℕ
  pub next_hop_ip : Addr

-- The answer of GetLoadBalancer, CreateLoadBalancer, GetInterface and CreateInterface; a nil
-- underlay route is `none`.
pub record Underlay : Type 0 where
  pub vni : ℕ
  pub underlay_route : Option Addr

pub record DpdkLbPort : Type 0 where
  pub port : ℕ
  pub protocol : ℕ

pub record DpdkNat : Type 0 where
  pub nat_ip : Option Addr
  pub min_port : ℕ
  pub max_port : ℕ
  pub underlay_route : Option Addr

pub record DpdkVirtualIp : Type 0 where
  pub ip : Option Addr
  pub underlay_route : Option Addr

-- An item of ListPrefixes and ListLoadBalancerPrefixes.
pub record DpdkPrefix : Type 0 where
  pub prefix : Prefix
  pub underlay_route : Option Addr

pub record MeteringParams : Type 0 where
  pub total_rate : ℕ
  pub public_rate : ℕ

pub record InterfaceSpec : Type 0 where
  pub vni : ℕ
  pub device : String
  pub ipv4 : Addr
  pub ipv6 : Addr
  pub metering : MeteringParams

-- The ports from and to, of the source and of the destination.
pub record PortFilter : Type 0 where
  pub src_port_lower : ℤ
  pub src_port_upper : ℤ
  pub dst_port_lower : ℤ
  pub dst_port_upper : ℤ

-- dpdkproto.ProtocolFilter's Filter; nil is `no_filter`.
pub data ProtocolFilter : Type 0 where
  no_filter : ProtocolFilter
  icmp_filter : ℤ → ℤ → ProtocolFilter
  tcp_filter udp_filter : PortFilter → ProtocolFilter

pub record FirewallRuleSpec : Type 0 where
  pub rule_id : String
  pub traffic_direction : String
  pub firewall_action : String
  pub priority : ℕ
  pub source_prefix : Prefix
  pub destination_prefix : Prefix
  pub filter : ProtocolFilter
