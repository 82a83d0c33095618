-- ===== src/Netip/Values.antt =====
-- netip.Addr and netip.Prefix.
use metalnet.Base.{
  ℕ, ◌-◌, ◌/◌, ◌%◌, ◌^◌, ◌≡◌, ◌↔◌, Bool, true, false, ◌&&◌, Option, none, some, String, arith, leb,
  Equality, ◌==◌, if◌then◌else◌, nat_eq, string_eq, nat_beq_iff,
}
use text.Mathlib.TextEquality.{eq_iff}

pub data Addr : Type 0 where
  no_addr : Addr
  ip4 : ℕ → Addr
  ip6 : ℕ → String → Addr

-- `bits` is `none` where Go's `Bits()` is -1.
pub record Prefix : Type 0 where
  pub addr : Addr
  pub bits : Option ℕ

unfoldable pub addr_beq : Addr → Addr → Bool
addr_beq no_addr no_addr = true
addr_beq (ip4 a) (ip4 b) = a == b
addr_beq (ip6 a z) (ip6 b y) = (a == b) && (z == y)
addr_beq _ _ = false

pub addr_beq_iff : (a b : Addr) → (addr_beq a b ≡ true) ↔ (a ≡ b)
unfolding addr_beq
addr_beq_iff (ip4 a) (ip4 b) = ground (arith, nat_beq_iff a b)
addr_beq_iff (ip6 a z) (ip6 b y) = ground (arith, nat_beq_iff a b, eq_iff z y)
addr_beq_iff _ _ = ground arith

instance abbrev pub addr_eq : Equality Addr
addr_eq = record { beq = addr_beq; beq_iff = addr_beq_iff }

unfoldable pub bits_beq : Option ℕ → Option ℕ → Bool
bits_beq none none = true
bits_beq (some a) (some b) = a == b
bits_beq _ _ = false

pub bits_beq_iff : (a b : Option ℕ) → (bits_beq a b ≡ true) ↔ (a ≡ b)
unfolding bits_beq
bits_beq_iff (some a) (some b) = ground (arith, nat_beq_iff a b)
bits_beq_iff _ _ = ground arith

unfoldable pub prefix_beq : Prefix → Prefix → Bool
prefix_beq p q = (p.addr == q.addr) && bits_beq p.bits q.bits

pub prefix_beq_iff : (p q : Prefix) → (prefix_beq p q ≡ true) ↔ (p ≡ q)
unfolding prefix_beq
prefix_beq_iff p q = ground (arith, addr_beq_iff p.addr q.addr, bits_beq_iff p.bits q.bits)

instance abbrev pub prefix_eq : Equality Prefix
prefix_eq = record { beq = prefix_beq; beq_iff = prefix_beq_iff }

unfoldable pub is4 : Addr → Bool
is4 (ip4 a) = true
is4 _ = false

unfoldable pub is6 : Addr → Bool
is6 (ip6 a z) = true
is6 _ = false

unfoldable pub is_valid : Addr → Bool
is_valid no_addr = false
is_valid _ = true

unfoldable pub bit_len : Addr → ℕ
bit_len no_addr = 0
bit_len (ip4 a) = 32
bit_len (ip6 a z) = 128

unfoldable pub without_zone : Addr → Addr
without_zone (ip6 a z) = ip6 a ""
without_zone a = a

-- netip.PrefixFrom(addr, bits)
unfoldable pub prefix_from : Addr → ℕ → Prefix
unfolding is_valid bit_len without_zone
prefix_from a n = record {
  addr = without_zone a;
  bits = if is_valid a && leb n (bit_len a) then some n else none;
}

-- p.Contains(a): the addresses are of one family, and their first bits are the same.
unfoldable pub same_net : Addr → ℕ → Addr → Bool
same_net (ip4 p) n (ip4 a) = leb n 32 && (p / 2 ^ (32 - n) == a / 2 ^ (32 - n))
same_net (ip6 p y) n (ip6 a z) =
    (z == "") && (leb n 128 && (p / 2 ^ (128 - n) == a / 2 ^ (128 - n)))
same_net _ n _ = false

unfoldable pub contains : Prefix → Addr → Bool
unfolding same_net
contains p a = elim p.bits [ none ↦ false | some n ↦ same_net p.addr n a ]

-- An IPv4-mapped IPv6 address as the IPv4 address.
unfoldable pub to4 : Addr → Addr
to4 (ip6 a z) = if a / 2 ^ 32 == 0xffff then ip4 (a % 2 ^ 32) else ip6 a z
to4 a = a

-- Contains of net.IPNet, at the address that net.ParseIP reads from the text of `a`.
unfoldable pub ip_net_contains : Prefix → Addr → Bool
unfolding same_net to4
ip_net_contains p (ip6 a z) = elim p.bits [
  | none ↦ false
  | some n ↦
      (z == "")
      && same_net (to4 p.addr) (if is4 (to4 p.addr) && is6 p.addr then n - 96 else n)
          (to4 (ip6 a z))
]
ip_net_contains p a = elim p.bits [
  | none ↦ false
  | some n ↦ same_net (to4 p.addr) (if is4 (to4 p.addr) && is6 p.addr then n - 96 else n) a
]
