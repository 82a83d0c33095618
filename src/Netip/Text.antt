-- ===== src/Netip/Text.antt =====
-- Addr.String and Prefix.String of net/netip.
use Prim.Native.String.{◌++◌}
use metalnet.Base.{
  ℕ, zero, suc, ◌+◌, ◌-◌, ◌*◌, ◌/◌, ◌%◌, ◌^◌, Bool, true, false, ◌&&◌, none, some, String, List, [],
  ◌∷◌, get_elem?, leb, ltb, nat_beq, if◌then◌else◌, ◌≡◌, refl,
}
use metalnet.Netip.Values.{Addr, no_addr, ip4, ip6, Prefix}

abbrev digits : List String
digits =
    "0" ∷ "1" ∷ "2" ∷ "3" ∷ "4" ∷ "5" ∷ "6" ∷ "7" ∷ "8" ∷ "9" ∷ "a" ∷ "b" ∷ "c" ∷ "d" ∷ "e" ∷ "f"
    ∷ []

digit : ℕ → String
digit d = elim (get_elem? digits d) [ none ↦ "" | some s ↦ s ]

-- The digits of `n` in the base, on fuel for the number of digits.
numeral : ℕ → ℕ → ℕ → String
unfolding digit
numeral zero base n = ""
numeral (suc fuel) base n =
    let front = numeral fuel base (n / base) in
    if ltb n base then digit n else front ++ digit (n % base)

-- %d of a number below 10 ^ 40, which every number of 128 bits is.
unfoldable pub decimal : ℕ → String
unfolding numeral
decimal n = numeral 40 10 n

-- %x of such a number
unfoldable pub hexadecimal : ℕ → String
unfolding numeral
hexadecimal n = numeral 40 16 n

string4 : ℕ → String
unfolding decimal
string4 a =
    decimal (a / 2 ^ 24 % 256)
    ++ ("."
        ++ (decimal (a / 2 ^ 16 % 256)
            ++ ("." ++ (decimal (a / 2 ^ 8 % 256) ++ ("." ++ decimal (a % 256))))))

-- The last `k` groups of 16 bits, the first of them first.
groups : ℕ → ℕ → List ℕ
groups zero a = []
groups (suc k) a = (a / 2 ^ (16 * k)) % 2 ^ 16 ∷ groups k a

zero_run : List ℕ → ℕ
zero_run [] = 0
zero_run (g ∷ gs) = let rest = zero_run gs in if nat_beq g 0 then suc rest else 0

-- The first longest run of two zero groups or more: where it starts and its length.
best_run : ℕ → ℕ × ℕ → List ℕ → ℕ × ℕ
unfolding zero_run
best_run i best [] = best
best_run i best (g ∷ gs) =
    let l = zero_run (g ∷ gs) in
    best_run (suc i) (if leb 2 l && ltb best.1 l then (i, l) else best) gs

-- The groups from number `i` on; `skip` groups of the run are still to be passed over.
hex_groups : ℕ → ℕ → ℕ × ℕ → Bool → List ℕ → String
unfolding numeral
hex_groups i skip run sep [] = ""
hex_groups i (suc skip) run sep (g ∷ gs) = hex_groups (suc i) skip run sep gs
hex_groups i zero run sep (g ∷ gs) =
    let here = numeral 4 16 g ++ hex_groups (suc i) 0 run true gs in
    let passed = "::" ++ hex_groups (suc i) (run.1 - 1) run false gs in
    if leb 2 run.1 && nat_beq i run.0 then passed else (if sep then ":" ++ here else here)

string6 : ℕ → String
unfolding groups best_run hex_groups
string6 a = let gs = groups 8 a in hex_groups 0 0 (best_run 0 (0, 0) gs) false gs

zoned : String → String → String
zoned s z = if nat_beq (Prim.Native.String.len z) 0 then s else s ++ ("%" ++ z)

unfoldable pub addr_string : Addr → String
unfolding string4 string6 zoned
addr_string no_addr = "invalid IP"
addr_string (ip4 a) = string4 a
addr_string (ip6 a z) =
    if nat_beq (a / 2 ^ 32) 0xffff then zoned ("::ffff:" ++ string4 a) z else zoned (string6 a) z

unfoldable pub prefix_string : Prefix → String
unfolding addr_string decimal
prefix_string p = elim p.bits [
  | none ↦ "invalid Prefix"
  | some n ↦ addr_string p.addr ++ ("/" ++ decimal n)
]

text_of_prefix : prefix_string (record { addr = ip4 0x0a000102; bits = some 24 }) ≡ "10.0.1.2/24"
unfolding prefix_string
text_of_prefix = refl

text_of_run : addr_string (ip6 (0x20010db8 * 2 ^ 96 + 0x10000) "") ≡ "2001:db8::1:0"
unfolding addr_string
text_of_run = refl

text_of_mapped : addr_string (ip6 (0xffff * 2 ^ 32 + 0x7f000001) "eth0") ≡ "::ffff:127.0.0.1%eth0"
unfolding addr_string
text_of_mapped = refl
