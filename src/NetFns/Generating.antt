-- ===== src/NetFns/Generating.antt =====
-- netfns/netfns.go: GenerateVirtualFunctions. Go's `int` is a number of 64 bits, whose sums wrap
-- around. The text of an error of strconv.Atoi is without the text that was parsed.
use Prim.Native.Char.{code}
use Prim.Native.String.{◌++◌}
use metalnet.Base.{
  ℕ, zero, suc, ◌+◌, ◌-◌, ◌*◌, ◌/◌, ◌%◌, ◌^◌, ◌&&◌, Option, none, some, String, List, [], ◌∷◌, leb,
  ltb, if◌then◌else◌, ◌==◌, nat_eq,
}
use metalnet.Base.Result.{Result, ok, err, panic, plain, message}
use metalnet.Netip.{hexadecimal}
use metalnet.Api.{PciAddress, ℤ, pos, negsuc}
use metalnet.NetFns.{Ghw}
use metalnet.NetFns.Collecting.{on_ok}

-- The digits that are left, and the value so far.
unfoldable pub decimal_digits : ℕ → String → Option ℕ
decimal_digits n String.[] = some n
decimal_digits n (String.◌∷◌ c s) =
    let rest = decimal_digits (n * 10 + (code c - 48)) s in
    if leb 48 (code c) && leb (code c) 57 then rest else none

unfoldable pub unsigned : String → Option ℕ
unsigned String.[] = none
unsigned (String.◌∷◌ c s) = decimal_digits 0 (String.◌∷◌ c s)

unfoldable pub positive : Option ℕ → Result ℤ
positive none = err (plain "strconv.Atoi: invalid syntax")
positive (some n) =
    if ltb n (2 ^ 63) then ok (pos n) else err (plain "strconv.Atoi: value out of range")

unfoldable pub negative : Option ℕ → Result ℤ
negative none = err (plain "strconv.Atoi: invalid syntax")
negative (some zero) = ok (pos 0)
negative (some (suc n)) =
    if ltb n (2 ^ 63) then ok (negsuc n) else err (plain "strconv.Atoi: value out of range")

-- strconv.Atoi, with an optional sign
unfoldable pub atoi : String → Result ℤ
atoi String.[] = positive none
atoi (String.◌∷◌ c s) =
    if code c == 45
    then negative (unsigned s)
    else if code c == 43
    then positive (unsigned s)
    else positive (unsigned (String.◌∷◌ c s))

-- The 64 bits of an `int`, and the `int` with these bits.
unfoldable pub bits : ℤ → ℕ
bits (pos n) = n % 2 ^ 64
bits (negsuc n) = 2 ^ 64 - suc (n % 2 ^ 64)

unfoldable pub from_bits : ℕ → ℤ
from_bits u = if ltb u (2 ^ 63) then pos u else negsuc (2 ^ 64 - suc u)

unfoldable pub plus : ℤ → ℤ → ℤ
plus a b = from_bits ((bits a + bits b) % 2 ^ 64)

-- %x and %02x of an `int`
unfoldable pub hex : ℤ → String
hex (pos n) = hexadecimal n
hex (negsuc n) = "-" ++ hexadecimal (suc n)

unfoldable pub hex2 : ℤ → String
hex2 (pos n) = if ltb n 16 then "0" ++ hexadecimal n else hexadecimal n
hex2 (negsuc n) = hex (negsuc n)

-- A function beyond the eight of a device belongs to a later device.
unfoldable pub carry : ℤ → ℤ → ℤ × ℤ
carry device (pos function) =
    if ltb 0x7 function
    then (plus device (pos (function / 0x8)), pos (function % 0x8))
    else (device, pos function)
carry device (negsuc function) = (device, negsuc function)

unfoldable pub address_text : PciAddress → ℤ × ℤ → String
address_text base (device, function) =
    base.domain ++ (":" ++ (base.bus ++ (":" ++ (hex2 device ++ ("." ++ hex function)))))

-- How often a loop runs that counts from 0 up to an `int`.
unfoldable pub rounds : ℤ → ℕ
rounds (pos n) = n
rounds (negsuc n) = 0

-- *ghw.PCIAddressFromString(...), and the addresses after it
abbrev pub read_first : Option PciAddress → Result (List PciAddress) → Result (List PciAddress)
read_first none rest = panic "invalid memory address or nil pointer dereference"
read_first (some a) rest = on_ok rest (λ addrs. ok (a ∷ addrs))

-- return nil, fmt.Errorf("text: %v", err)
abbrev pub numbered : String → Result ℤ → Result ℤ
numbered text (ok n) = ok n
numbered text (err e) = err (plain (text ++ message e))
numbered text (panic p) = panic p

module _ (ghw : Ghw) where
  -- The loop, from `i` on for some more rounds.
  unfoldable pub generate_from : PciAddress → ℤ → ℤ → ℤ → ℕ → ℕ → Result (List PciAddress)
  generate_from base device function offset i zero = ok []
  generate_from base device function offset i (suc n) =
      let rest = generate_from base device function offset (suc i) n in
      let place = carry device (plus (plus function offset) (pos i)) in
      read_first (ghw.from_string (address_text base place)) rest

  unfoldable pub generate_for : ℤ → ℤ → Option PciAddress → Result (List PciAddress)
  generate_for num_vfs offset none = panic "invalid memory address or nil pointer dereference"
  generate_for num_vfs offset (some base) =
      on_ok (numbered "error parsing device number: " (atoi base.device)) (λ device.
        on_ok (numbered "error parsing function number: " (atoi base.function))
          (λ function. generate_from base device function offset 0 (rounds num_vfs)))

  unfoldable pub generate_virtual_functions : String → ℤ → ℤ → Result (List PciAddress)
  generate_virtual_functions pf_device num_vfs offset =
      generate_for num_vfs offset (ghw.from_string pf_device)
