-- ===== src/Executor/Stop.antt =====
-- The class EmergencyStop of src/core/emergency-stop.ts, over the live executor that it stops. What
-- the database and the bus of events throw is an argument, the rows are newest first, and a
-- snapshot that is only logged is left out.
pub mod Halts
mod Examples
use crash.Prelude.{
  ℕ, zero, suc, String, Bool, true, false, if◌then◌else◌, List, [], ◌∷◌, ◌++◌, Option, none, some,
  not,
}
use crash.Executor.Bets.{BetState, pending, reserved, failed, Bet, update_bet}
use crash.Executor.Place.{World, stop}

pub data StopState : Type 0 where
  armed triggered resetting idle : StopState

pub record StopConfig : Type 0 where
  pub attempt_cancel_pending : Bool
  pub preserve_state : Bool
  pub notify_operator : Bool

abbrev pub default_config : StopConfig
default_config = record {
  attempt_cancel_pending = true;
  preserve_state = true;
  notify_operator = true;
}

-- A reason as it was given, or with what happened.
pub data StopReason : Type 0 where
  given already_triggered : String → StopReason
  execution_error : (reason message : String) → StopReason

pub record StopResult : Type 0 where
  pub was_triggered : Bool
  pub state : StopState
  pub halted_executors : Bool
  pub cancelled_pending_bets : ℕ
  pub preserved_state : Bool
  pub operator_notified : Bool
  pub timestamp : String
  pub reason : StopReason

pub record EmergencyStop : Type 0 where
  pub state : StopState
  pub last_result : Option StopResult
  pub trigger_reason : Option String
  pub config : StopConfig

abbrev pub create : StopConfig → EmergencyStop
create c = record { state = armed; last_result = none; trigger_reason = none; config = c }

unfoldable pub is_triggered : EmergencyStop → Bool
is_triggered s = elim s.state [ triggered ↦ true | _ ↦ false ]

-- What a trigger meets: the queries and the updates that throw, by the identifier of the row, the
-- snapshot's queries, and the bus.
pub record StopOutside : Type 0 where
  pub timestamp : String
  pub query_throws : Bool
  pub update_throws : String → Bool
  pub snapshot_throws : Bool
  pub emitting : Option String

abbrev pub in_state : BetState → BetState → Bool
in_state pending pending = true
in_state reserved reserved = true
in_state _ _ = false

-- `findByState` for the two states that are asked for: the newest rows, so many at most.
unfoldable pub find_by_state : BetState → ℕ → List Bet → List Bet
find_by_state s zero bs = []
find_by_state s (suc n) [] = []
find_by_state s (suc n) (b ∷ bs) =
    let here = find_by_state s n bs in
    let rest = find_by_state s (suc n) bs in if in_state b.state s then b ∷ here else rest

abbrev pub cancelled : Bet → Bet
cancelled b = record b { state = failed; failure_reason = some "Cancelled by emergency stop" }

-- The loop over the rows to cancel: an update that throws is logged.
unfoldable pub cancel_each : (String → Bool) → List Bet → List Bet → List Bet × ℕ
cancel_each throws [] bets = (bets, 0)
cancel_each throws (b ∷ bs) bets =
    if throws b.id
    then cancel_each throws bs bets
    else (let (bets', n) = cancel_each throws bs (update_bet b.id cancelled bets) in (bets', suc n))

unfoldable pub cancel_pending_bets : StopOutside → List Bet → List Bet × ℕ
cancel_pending_bets o bets =
    if o.query_throws
    then (bets, 0)
    else cancel_each o.update_throws
        (find_by_state pending 100 bets ++ find_by_state reserved 100 bets) bets

conclude : Option String → StopOutside → String → ℕ → Bool → EmergencyStop → StopResult
conclude none o reason n preserved s = record {
  was_triggered = true;
  state = triggered;
  halted_executors = true;
  cancelled_pending_bets = n;
  preserved_state = preserved;
  operator_notified = s.config.notify_operator;
  timestamp = o.timestamp;
  reason = given reason;
}
conclude (some message) o reason n preserved s = record {
  was_triggered = true;
  state = triggered;
  halted_executors = true;
  cancelled_pending_bets = n;
  preserved_state = preserved;
  operator_notified = false;
  timestamp = o.timestamp;
  reason = execution_error reason message;
}

abbrev cancel_if : Bool → StopOutside → List Bet → List Bet × ℕ
cancel_if true o bets = cancel_pending_bets o bets
cancel_if false o bets = (bets, 0)

abbrev repeated : StopOutside → String → StopResult
repeated o reason = record {
  was_triggered = true;
  state = triggered;
  halted_executors = false;
  cancelled_pending_bets = 0;
  preserved_state = false;
  operator_notified = false;
  timestamp = o.timestamp;
  reason = already_triggered reason;
}

module _ {S : Type 0} where
  abbrev halt_executor : Bool → World S → World S
  halt_executor true w = stop w
  halt_executor false w = w

  -- The first trigger. The live executor is stopped where one is handed over.
  run_stop :
      StopOutside → String → Bool → EmergencyStop → World S → EmergencyStop × World S × StopResult
  unfolding conclude
  run_stop o reason has_live s w =
      let w' = halt_executor has_live w in
      let (bets, n) = cancel_if s.config.attempt_cancel_pending o w'.bets in
      let preserved = if s.config.preserve_state then not o.snapshot_throws else false in
      let result = conclude o.emitting o reason n preserved s in
      (
        record s { state = triggered; last_result = some result; trigger_reason = some reason },
        record w' { bets = bets },
        result,
      )

  trigger_if :
      Bool
      → StopOutside
      → String
      → Bool
      → EmergencyStop
      → World S
      → EmergencyStop × World S × StopResult
  unfolding run_stop
  trigger_if true o reason has_live s w = (s, w, repeated o reason)
  trigger_if false o reason has_live s w = run_stop o reason has_live s w

  unfoldable pub trigger :
      StopOutside → String → Bool → EmergencyStop → World S → EmergencyStop × World S × StopResult
  unfolding trigger_if
  trigger o reason has_live s w = trigger_if (is_triggered s) o reason has_live s w

-- The state is RESETTING only in the middle of the call.
unfoldable pub reset : EmergencyStop → EmergencyStop
reset s = if is_triggered s then record s { state = armed; trigger_reason = none } else s
