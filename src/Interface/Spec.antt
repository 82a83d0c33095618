-- ===== src/Interface/Spec.antt =====
-- controllers/networkinterface_controller.go: the reconciler's fields, what is read from the
-- specification of an interface, and the tests that it passes.
use metalnet.Base.{
  ℕ, suc, Bool, true, false, not, ◌&&◌, ◌||◌, Option, none, some, String, List, [], ◌∷◌, get_elem?,
  leb, ltb, if◌then◌else◌, ◌==◌, ◌≡◌, ◌↔◌, arith, Equality, string_eq,
}
use text.Mathlib.TextEquality.{eq_iff}
use metalnet.Base.Sets.{has}
use metalnet.Base.Result.{Result, ok, err, panic, plain}
use metalnet.Netip.{Addr, no_addr, ip4, ip6, is4, is6}
use metalnet.Api.{
  IpFamily, ipv4_protocol, ipv6_protocol, other_family, MeteringParameters, NetworkInterface,
  NetworkInterfaceSpec,
}
use metalnet.Effects.{Object, network_interface}
use metalnet.Wire.{MeteringParams}
use metalnet.NetFns.{Ghw}
use metalnet.Sysfs.{SysFs}

pub record NetworkInterfaceReconciler : Type 0 where
  -- of the claim store
  pub ghw : Ghw
  pub is_tap_store : Bool
  pub sysfs : SysFs
  pub pf_to_vf_offset : ℕ
  pub node_name : String
  pub public_vni : ℕ
  pub enable_ipv6_support : Bool
  pub bluefield_detected : Bool
  pub bluefield_host_default_bus_addr : String

abbrev pub network_interface_finalizer : String
network_interface_finalizer = "networking.metalnet.ironcore.dev/networkInterface"

unfoldable pub family_beq : IpFamily → IpFamily → Bool
family_beq ipv4_protocol ipv4_protocol = true
family_beq ipv6_protocol ipv6_protocol = true
family_beq (other_family s) (other_family t) = s == t
family_beq _ _ = false

pub family_beq_iff : (a b : IpFamily) → (family_beq a b ≡ true) ↔ (a ≡ b)
unfolding family_beq
family_beq_iff (other_family s) (other_family t) = ground (arith, eq_iff s t)
family_beq_iff _ _ = ground arith

instance abbrev pub family_eq : Equality IpFamily
family_eq = record { beq = family_beq; beq_iff = family_beq_iff }

-- The address that stands for a family without one.
unfoldable pub unspecified : IpFamily → Addr
unspecified ipv6_protocol = ip6 0 ""
unspecified ipv4_protocol = ip4 0
unspecified (other_family s) = no_addr

-- ips[i]
unfoldable pub ip_at : List Addr → ℕ → Result Addr
ip_at ips i = elim (get_elem? ips i) [ none ↦ panic "index out of range" | some a ↦ ok a ]

-- The loop of getIP from index `i` on.
unfoldable pub get_ip_from : ℕ → IpFamily → List IpFamily → List Addr → Result Addr
get_ip_from i wanted [] ips = ok (unspecified wanted)
get_ip_from i wanted (family ∷ rest) ips =
    let later = get_ip_from (suc i) wanted rest ips in
    if wanted == family then ip_at ips i else later

unfoldable pub get_ip : IpFamily → List IpFamily → List Addr → Result Addr
get_ip wanted families ips = get_ip_from 0 wanted families ips

unfoldable pub get_network_interface_ip : IpFamily → NetworkInterface → Result Addr
get_network_interface_ip wanted nic = get_ip wanted nic.spec.ip_families nic.spec.ips

unfoldable pub get_network_interface_ips : NetworkInterface → List Addr
get_network_interface_ips nic = nic.spec.ips

unfoldable pub interface_object : NetworkInterface → Object
interface_object nic =
    network_interface (record { key_namespace = nic.meta.namespace; key_name = nic.meta.name })

-- ipv4Count and ipv6Count after the loop.
unfoldable pub count_families : List Addr → ℕ × ℕ
count_families [] = (0, 0)
count_families (ip ∷ ips) =
    let (n4, n6) = count_families ips in
    if is4 ip then (suc n4, n6) else if is6 ip then (n4, suc n6) else (n4, n6)

-- The loop over the families, with the set of those that were seen.
unfoldable pub check_families : List IpFamily → List IpFamily → Result (Unit {0})
check_families seen [] = ok tt
check_families seen (family ∷ rest) =
    let later = check_families (family ∷ seen) rest in
    if has seen family then err (plain "duplicate IPFamily is not allowed") else later

-- The pair of `false` and an error is that error.
unfoldable pub is_valid_ip_configuration :
    NetworkInterfaceReconciler → List Addr → List IpFamily → Result (Unit {0})
is_valid_ip_configuration r ips families =
    let (n4, n6) = count_families ips in
    if not r.enable_ipv6_support && leb 1 n6
    then err (plain "ipv6 flag not enabled but ipv6 address set on interface")
    else if ltb 1 n4 || ltb 1 n6
    then err (plain "more than one IPv4 or IPv6 address is not allowed ")
    else check_families [] families

unfoldable pub is_valid_metering_params : Option MeteringParameters → Result (Unit {0})
is_valid_metering_params none = ok tt
is_valid_metering_params (some m) = elim m.total_rate [
  | none ↦ ok tt
  | some total ↦ elim m.public_rate [
    | none ↦ ok tt
    | some rate ↦
        if ltb total rate then err (plain "total rate cannot be less than public rate") else ok tt
  ]
]

unfoldable pub is_valid_interface_spec :
    NetworkInterfaceReconciler → NetworkInterfaceSpec → Result (Unit {0})
is_valid_interface_spec r spec = elim (is_valid_ip_configuration r spec.ips spec.ip_families) [
  | ok a ↦ is_valid_metering_params spec.metering_rate
  | err e ↦ err e
  | panic p ↦ panic p
]

abbrev or_zero : Option ℕ → ℕ
or_zero none = 0
or_zero (some n) = n

unfoldable pub get_interface_metering_params : NetworkInterface → MeteringParams
get_interface_metering_params nic = elim nic.spec.metering_rate [
  | none ↦ record { total_rate = 0; public_rate = 0 }
  | some m ↦ record { total_rate = or_zero m.total_rate; public_rate = or_zero m.public_rate }
]
