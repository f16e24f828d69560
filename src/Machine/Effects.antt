-- ===== src/Machine/Effects.antt =====
-- What an event does to the context, before the guard and after the transition, and the reason
-- that a failure is reported with (src/core/state-machine/machine.ts).
use crash.Machine.Instance.{
  FailureReason, halted_for, system_halted, placement_failed, degraded, data_stale, unknown_error,
}
use crash.Prelude.{ℕ, suc, true, false, none, some}
use crash.Machine.Types.{BettingState, Event}
use crash.Machine.Context.{Context}
use crash.Machine.Dates.{Dates}

unfoldable pub preload_context : Context → Event → Context
preload_context c (Event.round_started id r) = record c {
  current_round_id = some id;
  round_state = some r;
}
preload_context c _ = c

-- What an event does to the context once its transition is taken: the conditional blocks of the
-- source, which each test the event's type.
unfoldable pub event_effects : Event → Context → Context
event_effects (Event.pause_requested _) c = record c { paused = true }
event_effects Event.resume_requested c = record c { paused = false }
event_effects (Event.round_started id r) c = record c {
  current_round_id = some id;
  round_state = some r;
}
event_effects (Event.bet_confirmed id) c = record c {
  open_bet_exists = true;
  current_bet_id = some id;
  consecutive_errors = 0;
}
event_effects (Event.bet_submitted id) c = record c { current_bet_id = some id }
event_effects (Event.cash_out_confirmed _ _) c = record c {
  open_bet_exists = false;
  current_bet_id = none;
  cash_out_failures = 0;
}
event_effects (Event.round_crashed _) c = record c {
  open_bet_exists = false;
  current_bet_id = none;
}
event_effects (Event.halt _) c = record c { kill_switch = true }
event_effects Event.reset c = record c {
  consecutive_errors = 0;
  cash_out_failures = 0;
  open_bet_exists = false;
  current_bet_id = none;
  paused = false;
  kill_switch = false;
}
event_effects (Event.reconciliation_complete _) c = record c {
  open_bet_exists = false;
  current_bet_id = none;
}
event_effects _ c = c

-- The block under `to === 'ERROR'`.
unfoldable pub error_effects : Event → Context → Context
error_effects (Event.bet_placement_failed _) c = record c {
  consecutive_errors = suc c.consecutive_errors;
}
error_effects Event.bet_placement_timeout c = record c {
  consecutive_errors = suc c.consecutive_errors;
}
error_effects (Event.cash_out_failed _) c = record c { cash_out_failures = suc c.cash_out_failures }
error_effects Event.cash_out_timeout c = record c { cash_out_failures = suc c.cash_out_failures }
error_effects _ c = c

-- The blocks that test the target state.
unfoldable pub target_effects : Dates → ℕ → BettingState → Event → Context → Context
unfolding error_effects
target_effects d now BettingState.error e c = error_effects e c
target_effects d now BettingState.result_recorded e c = record c {
  last_bet_at = some (d.to_iso_string now);
}
target_effects d now _ e c = c

-- No event tests two of the blocks on one field, so the order of the blocks does not show.
unfoldable pub apply_side_effects : Dates → ℕ → Event → BettingState → Context → Context
unfolding event_effects target_effects
apply_side_effects d now e to c = target_effects d now to e (event_effects e c)

-- The source tests the state first, then the event's type.
unfoldable pub extract_failure_reason : Event → BettingState → FailureReason
extract_failure_reason (Event.halt reason) BettingState.halted = halted_for reason
extract_failure_reason _ BettingState.halted = system_halted
extract_failure_reason (Event.bet_placement_failed reason) _ = placement_failed reason
extract_failure_reason (Event.health_degraded component reason) _ = degraded component reason
extract_failure_reason Event.stale_multiplier _ = data_stale
extract_failure_reason _ _ = unknown_error
