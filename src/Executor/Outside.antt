-- ===== src/Executor/Outside.antt =====
-- What a placement reads and what it leaves: the request, the result, the errors
-- (src/betting/live-executor.ts), what the page, the observer and the database do, and the state
-- of the executor with its guard, books, store, rows and counter.
use crash.Prelude.{ℕ, String, Bool, true, false, List, Option, some}
use crash.Capital.Limits as Limits
use crash.Capital.Limits.{Guard}
use crash.Settlement.Ledger.{Db}
use crash.Daily.Counter.{Counter}
use crash.Executor.Gate.{Environment, BlockReason}
use crash.Executor.Safeguards.{Tracker, Sample, Refusal}
use crash.Executor.Bets.{BetState, placed, failed, Bet}

pub record PlaceBetRequest : Type 0 where
  pub bet_id : String
  pub round_id : String
  pub session_id : String
  pub stake : ℕ
  pub target : ℕ
  pub dry_run : Bool

pub data PlaceError : Type 0 where
  executor_stopped selectors_missing settlement_intent_failed idempotency_collision : PlaceError
  db_error telemetry_noise_skip live_execution_error not_observed : PlaceError
  blocked : BlockReason → PlaceError
  pre_flight : Refusal → PlaceError
  capital : Limits.Reason → PlaceError
  message : String → PlaceError

pub record LiveBetResult : Type 0 where
  pub is_placed : Bool
  pub state : BetState
  pub error : Option PlaceError
  pub retry_count : ℕ

-- An error that is thrown at the executor: a TimeoutError, or any other.
pub data Fault : Type 0 where
  timeout fault : String → Fault

abbrev pub text_of : Fault → String
text_of (timeout m) = m
text_of (fault m) = m

-- The page: the click goes through, or an error comes before it or after it.
pub data Dom : Type 0 where
  clicks fails_before fails_after : Dom

pub data Seen : Type 0 where
  observed unseen : Seen
  observation_fails : String → Seen

-- What one attempt meets. `none` is a call that does not throw.
pub record Meets : Type 0 where
  pub now : ℕ
  pub velocity_allows : Bool
  pub noise_skips : Bool
  pub reserving : Option Fault
  pub dom : Dom
  pub seen : Seen
  pub marking_throws : Bool
  pub placing : Option Fault
  pub telling : Option Fault

-- What a placement meets before, between and after its attempts. `row_id` is the identifier that
-- the database makes, `none` where the insertion throws; `client_order_id` is the order's, `none`
-- where no registry or no settlement engine is wired.
pub record Outside : Type 0 where
  pub environment : Environment
  pub selectors_present : Bool
  pub day_key : String
  pub later_key : String
  pub tracker : Tracker
  pub history : List Sample
  pub client_order_id : Option String
  pub now : ℕ
  pub row_id : Option String
  pub attempts : ℕ → Meets
  pub failed_at : ℕ
  pub marking_throws : Bool

pub record World (S : Type 0) : Type 0 where
  pub stopped : Bool
  pub guard : Guard
  pub books : Db
  pub store : S
  pub bets : List Bet
  pub counter : Counter
  pub clicked : ℕ

-- How an attempt ends: with a result, a LiveExecutionError, or another error.
pub data Ending : Type 0 where
  gives : LiveBetResult → Ending
  live_error : Ending
  throws : Fault → Ending

-- How the loop ends: with a result, or with an error that it throws on.
pub data Looped : Type 0 where
  ends : LiveBetResult → Looped
  escapes : ℕ → Fault → Looped

abbrev is_placed_state : BetState → Bool
is_placed_state placed = true
is_placed_state _ = false

abbrev pub build_result : BetState → Option PlaceError → ℕ → LiveBetResult
build_result state error retries = record {
  is_placed = is_placed_state state;
  state = state;
  error = error;
  retry_count = retries;
}

abbrev pub rejected : PlaceError → LiveBetResult
rejected e = build_result failed (some e) 0
