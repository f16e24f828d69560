-- ===== src/Machine/Send.antt =====
-- The class BettingStateMachine of src/core/state-machine/machine.ts: a call returns the machine
-- after it, what the method returns, and the calls of the two callbacks, in order. A callback that
-- throws changes nothing (the source catches it); one that calls back into the machine, and the
-- sharing of the context object with callers, are not modelled.
pub mod Cases
pub mod Results
pub mod Entry
pub mod OpenBet
pub mod Halt
pub mod Cooldown
pub mod Recovery
pub mod Pending
pub mod Placing
use crash.Machine.Instance.{
  Machine, Call, Message, Outcome, guard_rejected, forced, invalid_transition, rejected_to_error,
  rejected, described, notify_state_change, notify_failure,
}
use crash.Machine.Effects.{preload_context, apply_side_effects, extract_failure_reason}
use crash.Prelude.{
  ℕ, suc, String, Bool, true, false, not, ◌&&◌, ◌||◌, if◌then◌else◌, get_or_else, List, [], ◌∷◌,
  ◌++◌, Option, is_empty, is_blank,
}
use crash.Machine.Types.{BettingState, Event, ForceSource, event_type}
use crash.Machine.Context.{Context}
use crash.Machine.Dates.{Dates}
use crash.Machine.Guards.{
  GuardResult, permit, guard_can_evaluate_entry, guard_can_approve_entry, guard_can_place_bet,
  guard_can_cash_out, guard_can_resume, guard_can_recover, Reason,
}
use crash.Machine.Transitions.{find_transitions}
use crash.Machine.Transitions.Rules.{TransitionRule}

-- The `switch` on the state, with the tests on the event's type in each case.
pub evaluate_guard : Dates → ℕ → Context → BettingState → Event → GuardResult
evaluate_guard d now c BettingState.observing (Event.round_started id r) =
    guard_can_evaluate_entry d now c (Event.round_started id r)
evaluate_guard d now c BettingState.observing Event.resume_requested = guard_can_resume c
evaluate_guard d now c BettingState.cooldown (Event.round_started id r) =
    guard_can_evaluate_entry d now c (Event.round_started id r)
evaluate_guard d now c BettingState.cooldown Event.resume_requested = guard_can_resume c
evaluate_guard d now c BettingState.entry_evaluating (Event.risk_approved r) =
    guard_can_approve_entry d now c (Event.risk_approved r)
evaluate_guard d now c BettingState.entry_approved Event.entry_checks_passed =
    guard_can_place_bet d now c Event.entry_checks_passed
evaluate_guard d now c BettingState.entry_approved (Event.bet_submitted id) =
    guard_can_place_bet d now c (Event.bet_submitted id)
evaluate_guard d now c BettingState.cash_out_armed Event.cash_out_triggered =
    guard_can_cash_out c Event.cash_out_triggered
evaluate_guard d now c BettingState.paused Event.resume_requested = guard_can_resume c
evaluate_guard d now c BettingState.error Event.recover = guard_can_recover c
evaluate_guard d now c _ _ = permit

pub should_transition_to_error : BettingState → Context → Event → Bool
should_transition_to_error BettingState.observing c (Event.round_started _ _) = c.kill_switch
should_transition_to_error BettingState.cooldown c (Event.round_started _ _) = c.kill_switch
should_transition_to_error _ c _ = false

abbrev pub is_failure : BettingState → Bool
is_failure BettingState.error = true
is_failure BettingState.halted = true
is_failure _ = false

pub reject : Machine → Message → Outcome
reject m message = record {
  machine = m;
  result = record { accepted = false; new_state = m.state; message = message; context = m.context };
  calls = [];
}

-- The move to ERROR in place of a rejection.
pub go_to_error : Machine → Event → Option Reason → Outcome
go_to_error m e reason =
    let c = record m.context { consecutive_errors = suc m.context.consecutive_errors } in
    let m' = record m { state = BettingState.error; context = c } in
    record {
      machine = m';
      result = record {
        accepted = true;
        new_state = BettingState.error;
        message = rejected_to_error reason;
        context = c;
      };
      calls =
          notify_state_change m' m.state BettingState.error e
          ++ notify_failure m' BettingState.error (guard_rejected reason);
    }

-- A guard that refuses: the machine goes to ERROR, or the event is rejected.
refuse_guarded : Machine → Event → GuardResult → Outcome
unfolding reject should_transition_to_error go_to_error
refuse_guarded m e g =
    if should_transition_to_error m.state m.context e
    then go_to_error m e g.reason
    else reject m (rejected g.reason)

-- The transition itself, once its guard has let it through.
pub take_rule : Dates → ℕ → Machine → Event → TransitionRule → Outcome
unfolding apply_side_effects extract_failure_reason
take_rule d now m e r =
    let c = apply_side_effects d now e r.to m.context in
    let m' = record m { state = r.to; context = c } in
    record {
      machine = m';
      result = record {
        accepted = true;
        new_state = r.to;
        message = described r.description;
        context = c;
      };
      calls =
          notify_state_change m' m.state r.to e
          ++ (if is_failure r.to
              then notify_failure m' r.to (extract_failure_reason e r.to)
              else []);
    }

-- The machine with the event's round in its context, which guards read.
abbrev pub preloaded : Machine → Event → Machine
preloaded m e = record m { context = preload_context m.context e }

-- `send` after the lookup: the first rule found, if any.
follow : Dates → ℕ → Machine → Event → List TransitionRule → Outcome
unfolding reject refuse_guarded take_rule evaluate_guard
follow d now m e [] = reject m (invalid_transition m.state (event_type e))
follow d now m e (r ∷ rest) =
    let g = evaluate_guard d now m.context m.state e in
    if r.requires_guard && not g.permitted then refuse_guarded m e g else take_rule d now m e r

unfoldable pub send : Dates → ℕ → Machine → Event → Outcome
unfolding follow preload_context
send d now m e = follow d now (preloaded m e) e (find_transitions m.state (event_type e))

-- `forceState` throws, or forces the state; the type of its source admits the valid ones only.
pub data ForceOutcome : Type 0 where
  thrown : Machine → ForceOutcome
  forced_to : Machine → List Call → ForceOutcome

unfoldable pub force_state :
    Machine → BettingState → String → ForceSource → Option String → ForceOutcome
force_state m to reason source operator_id =
    let m' = record m { state = to } in
    if is_empty reason || is_blank reason
    then thrown m
    else forced_to m' (
        notify_failure m' to (forced source m.state to reason (get_or_else operator_id "system"))
        ++ notify_state_change m' m.state to (Event.force_state reason source))

-- A history of events, each with the time at which it is sent.
unfoldable pub run : Dates → Machine → List (ℕ × Event) → Machine
run d m [] = m
run d m ((now, e) ∷ es) = run d (send d now m e).machine es
