-- ===== src/Metalbond/Errors.antt =====
-- metalbond/errors.go: metalbond's errors are told apart by their text. `none` is nil.
use Prim.Native.String.{String}
use text.Mathlib.Text.{find?}
use metalnet.Base.{◌≡◌, refl, Bool, true, false, ◌||◌, Option, none, some, if◌then◌else◌}
use metalnet.Base.Result.{Err, Result, ok, err, panic, message, plain, wrap}
use metalnet.Base.Exec.{Exec}

-- strings.Contains
unfoldable pub contains : String → String → Bool
contains s t = elim (find? s t) [ none ↦ false | some i ↦ true ]

mentions : String → Option Err → Bool
unfolding contains message
mentions text none = false
mentions text (some e) = contains (message e) text

unfoldable pub is_already_subscribed_to_vni_error : Option Err → Bool
unfolding mentions
is_already_subscribed_to_vni_error = mentions "Already subscribed to VNI"

unfoldable pub ignore_already_subscribed_to_vni_error : Option Err → Option Err
ignore_already_subscribed_to_vni_error e = if is_already_subscribed_to_vni_error e then none else e

unfoldable pub is_already_unsubscribed_to_vni_error : Option Err → Bool
unfolding mentions
is_already_unsubscribed_to_vni_error = mentions "Already unsubscribed from VNI"

unfoldable pub ignore_already_unsubscribed_to_vni_error : Option Err → Option Err
ignore_already_unsubscribed_to_vni_error e =
    if is_already_unsubscribed_to_vni_error e then none else e

unfoldable pub is_not_subscribed_to_vni_error : Option Err → Bool
unfolding mentions
is_not_subscribed_to_vni_error = mentions "Not subscribed to VNI"

unfoldable pub ignore_not_subscribed_to_vni_error : Option Err → Option Err
ignore_not_subscribed_to_vni_error e = if is_not_subscribed_to_vni_error e then none else e

unfoldable pub is_next_hop_already_exists_error : Option Err → Bool
unfolding mentions
is_next_hop_already_exists_error = mentions "Nexthop already exists"

unfoldable pub ignore_next_hop_already_exists_error : Option Err → Option Err
ignore_next_hop_already_exists_error e = if is_next_hop_already_exists_error e then none else e

unfoldable pub is_vni_not_found_error : Option Err → Bool
unfolding mentions
is_vni_not_found_error = mentions "VNI does not exist"

unfoldable pub is_destination_not_found_error : Option Err → Bool
unfolding mentions
is_destination_not_found_error = mentions "Destination does not exist"

unfoldable pub is_next_hop_not_found_error : Option Err → Bool
unfolding mentions
is_next_hop_not_found_error = mentions "Nexthop does not exist"

unfoldable pub ignore_next_hop_not_found_error : Option Err → Option Err
ignore_next_hop_not_found_error e =
    if is_next_hop_not_found_error e
      || (is_vni_not_found_error e || is_destination_not_found_error e)
    then none
    else e

-- if err := m(); ignore(err) != nil { return fmt.Errorf("text: %w", err) }
abbrev pub judge : (Option Err → Option Err) → String → Result (Unit {0}) → Result (Unit {0})
judge ignore text (ok a) = elim (ignore none) [ none ↦ ok tt | some e ↦ ok tt ]
judge ignore text (err e) = elim (ignore (some e)) [ none ↦ ok tt | some _ ↦ err (wrap text e) ]
judge ignore text (panic p) = panic p

unfoldable pub unless_ignored :
    {S : Type 0} → (Option Err → Option Err) → String → Exec S (Unit {0}) → Exec S (Unit {0})
unless_ignored ignore text m s = let (r, s') = m s in (judge ignore text r, s')

recognised :
    is_next_hop_not_found_error (some (wrap "x: " (plain "Nexthop does not exist!"))) ≡ true
unfolding is_next_hop_not_found_error
recognised = refl

not_recognised : is_vni_not_found_error (some (plain "VNI does not")) ≡ false
unfolding is_vni_not_found_error
not_recognised = refl
