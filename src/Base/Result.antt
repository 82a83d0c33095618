-- ===== src/Base/Result.antt =====
-- Go's `error` values and results. `wrap` is `fmt.Errorf("...: %w", err)`, `status` a status error
-- of dp-service with its code, `plain` any other error. A run-time panic leaves the function, and
-- its callers, at once.
use Prim.Native.Nat.{ℕ}
use Prim.Native.String.{String}
use Prim.Native.String.{◌++◌}
use mathlib.Core.Option.{Option, none, some}

-- The codes of dp-service that the program names.
pub data Code : Type 0 where
  no_vni no_vm no_lb no_backip not_found already_exists route_exists route_not_found : Code
  snat_no_data : Code
  other_code : ℕ → Code

pub data Err : Type 0 where
  plain : String → Err
  status : Code → String → Err
  wrap : String → Err → Err
  claim_not_found claim_already_exists no_address_available : Err

-- err.Error()
unfoldable pub message : Err → String
message (plain s) = s
message (status c s) = s
message (wrap s e) = s ++ message e
message claim_not_found = "claim not found"
message claim_already_exists = "claim already exists"
message no_address_available = "no address available"

pub data Result {ℓ} (A : Type ℓ) : Type ℓ where
  ok : A → Result A
  err : Err → Result A
  panic : String → Result A

-- A function that returns only an `error`: nil is `ok tt`.
abbrev pub from_error : Option Err → Result (Unit {0})
from_error none = ok tt
from_error (some e) = err e

-- if err != nil { return fmt.Errorf("s: %w", err) }
abbrev pub wrap_error {ℓ} : {A : Type ℓ} → String → Result A → Result A
wrap_error s (ok a) = ok a
wrap_error s (err e) = err (wrap s e)
wrap_error s (panic p) = panic p
