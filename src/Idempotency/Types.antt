-- ===== src/Idempotency/Types.antt =====
-- What a reservation is (src/betting/types.ts, src/types/betting.ts), and its key
-- (src/betting/idempotency.ts). The record that the shared store holds has neither a key nor a time
-- of expiry in it.
use Prim.Native.String.{◌++◌ as str_append}
use crash.Prelude.{String, Bool, false, Option, none, some}

pub data Status : Type 0 where
  pending completed failed expired unknown : Status

pub record PlacementResult : Type 0 where
  pub success : Bool
  pub bet_id : Option String
  pub error : Option String

pub record IdempotencyRecord : Type 0 where
  pub key : Option String
  pub status : Status
  pub bet_id : Option String
  pub round_id : String
  pub session_id : String
  pub created_at : String
  pub expires_at : Option String
  pub result : Option PlacementResult

abbrev pub generate_key : String → String → String
generate_key session round = str_append session (str_append ":" round)

-- `{ success: false, error: reason }`.
abbrev pub failure : String → PlacementResult
failure reason = record { success = false; bet_id = none; error = some reason }

-- The status and the result that the three calls after a reservation write.
abbrev pub with_result : Status → PlacementResult → IdempotencyRecord → IdempotencyRecord
with_result s p r = record r { status = s; result = some p }
