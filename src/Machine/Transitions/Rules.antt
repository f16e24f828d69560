-- ===== src/Machine/Transitions/Rules.antt =====
-- The rules of src/core/state-machine/transitions.ts, in the order of the source.
use crash.Prelude.{String, Bool, true, false, List, [], ◌∷◌}
use crash.Machine.Types.{BettingState, EventType}

pub record TransitionRule : Type 0 where
  pub from : BettingState
  pub event : EventType
  pub to : BettingState
  pub requires_guard : Bool
  pub description : String

abbrev rule : BettingState → EventType → BettingState → Bool → String → TransitionRule
rule from event to requires_guard description = record {
  from = from;
  event = event;
  to = to;
  requires_guard = requires_guard;
  description = description;
}

unfoldable pub transition_rules : List TransitionRule
transition_rules =
    rule BettingState.idle EventType.browser_ready BettingState.ready_to_observe false
      "Browser launched and responsive"
    ∷ rule BettingState.ready_to_observe EventType.authenticated BettingState.ready_to_observe false
        "Session authenticated"
    ∷ rule BettingState.ready_to_observe EventType.game_loaded BettingState.observing false
        "Crash game page loaded"
    ∷ rule BettingState.observing EventType.round_started BettingState.entry_evaluating true
        "New round started — evaluate entry conditions"
    ∷ rule BettingState.cooldown EventType.round_started BettingState.entry_evaluating true
        "New round after cooldown — evaluate entry"
    ∷ rule BettingState.entry_evaluating EventType.risk_approved BettingState.entry_approved true
        "Risk engine approved entry — all guards pass"
    ∷ rule BettingState.entry_evaluating EventType.risk_rejected BettingState.observing false
        "Risk engine rejected entry — return to observation"
    ∷ rule BettingState.entry_evaluating EventType.entry_checks_failed BettingState.observing false
        "Entry checks failed — return to observation"
    ∷ rule BettingState.entry_approved EventType.entry_checks_passed BettingState.bet_placing true
        "All entry checks confirmed — place bet"
    ∷ rule BettingState.entry_approved EventType.bet_submitted BettingState.bet_placing true
        "Bet submission initiated"
    ∷ rule BettingState.bet_placing EventType.bet_confirmed BettingState.bet_active false
        "Bet confirmed by game"
    ∷ rule BettingState.bet_placing EventType.bet_placement_failed BettingState.error false
        "Bet placement failed"
    ∷ rule BettingState.bet_placing EventType.bet_placement_timeout BettingState.error false
        "Bet placement timed out"
    ∷ rule BettingState.bet_active EventType.multiplier_reached_target BettingState.cash_out_armed
        false "Target multiplier reached — arm cash-out"
    ∷ rule BettingState.bet_active EventType.round_crashed BettingState.round_complete false
        "Round crashed before cash-out — bet lost"
    ∷ rule BettingState.cash_out_armed EventType.cash_out_triggered BettingState.cash_out_requested
        true "Cash-out action triggered"
    ∷ rule BettingState.cash_out_requested EventType.cash_out_confirmed BettingState.round_complete
        false "Cash-out confirmed — bet won"
    ∷ rule BettingState.cash_out_requested EventType.cash_out_failed BettingState.error false
        "Cash-out failed"
    ∷ rule BettingState.cash_out_requested EventType.cash_out_timeout BettingState.error false
        "Cash-out timed out"
    ∷ rule BettingState.cash_out_requested EventType.round_crashed BettingState.round_complete false
        "Round crashed during cash-out request — bet lost"
    ∷ rule BettingState.round_complete EventType.outcome_recorded BettingState.result_recorded false
        "Outcome persisted to ledger"
    ∷ rule BettingState.result_recorded EventType.cooldown_elapsed BettingState.cooldown false
        "Post-round cooldown period"
    ∷ rule BettingState.cooldown EventType.cooldown_elapsed BettingState.observing false
        "Cooldown complete — resume observation"
    ∷ rule BettingState.observing EventType.pause_requested BettingState.paused false
        "Operator requested pause"
    ∷ rule BettingState.entry_evaluating EventType.pause_requested BettingState.paused false
        "Operator paused during evaluation"
    ∷ rule BettingState.entry_approved EventType.pause_requested BettingState.paused false
        "Operator paused after approval"
    ∷ rule BettingState.cooldown EventType.pause_requested BettingState.paused false
        "Operator paused during cooldown"
    ∷ rule BettingState.paused EventType.resume_requested BettingState.observing true
        "Operator requested resume"
    ∷ rule BettingState.observing EventType.stale_multiplier BettingState.error false
        "Multiplier data stale"
    ∷ rule BettingState.observing EventType.health_degraded BettingState.error false
        "Health degraded during observation"
    ∷ rule BettingState.entry_evaluating EventType.health_degraded BettingState.error false
        "Health degraded during evaluation"
    ∷ rule BettingState.bet_placing EventType.health_degraded BettingState.error false
        "Health degraded during bet placement"
    ∷ rule BettingState.bet_active EventType.health_degraded BettingState.error false
        "Health degraded while bet active"
    ∷ rule BettingState.cash_out_requested EventType.health_degraded BettingState.error false
        "Health degraded during cash-out"
    ∷ rule BettingState.bet_active EventType.critical_error BettingState.error false
        "Critical error while bet active"
    ∷ rule BettingState.bet_placing EventType.critical_error BettingState.error false
        "Critical error during bet placement"
    ∷ rule BettingState.cash_out_requested EventType.critical_error BettingState.error false
        "Critical error during cash-out"
    ∷ rule BettingState.observing EventType.critical_error BettingState.error false
        "Critical error during observation"
    ∷ rule BettingState.observing EventType.reconcile BettingState.reconciling false
        "Socket drop — enter reconciliation"
    ∷ rule BettingState.entry_evaluating EventType.reconcile BettingState.reconciling false
        "Socket drop during evaluation"
    ∷ rule BettingState.bet_placing EventType.reconcile BettingState.reconciling false
        "Socket drop during bet placement"
    ∷ rule BettingState.bet_active EventType.reconcile BettingState.reconciling false
        "Socket drop while bet active"
    ∷ rule BettingState.cash_out_armed EventType.reconcile BettingState.reconciling false
        "Socket drop while cash-out armed"
    ∷ rule BettingState.cash_out_requested EventType.reconcile BettingState.reconciling false
        "Socket drop during cash-out"
    ∷ rule BettingState.cooldown EventType.reconcile BettingState.reconciling false
        "Socket drop during cooldown"
    ∷ rule BettingState.error EventType.recover BettingState.reconciling true
        "Attempt recovery from error"
    ∷ rule BettingState.error EventType.reconcile BettingState.reconciling false
        "Enter reconciliation mode"
    ∷ rule BettingState.reconciling EventType.reconciliation_complete BettingState.observing false
        "Reconciliation finished — resume observation"
    ∷ rule BettingState.reconciling EventType.recovery_complete BettingState.observing false
        "Recovery complete — resume observation"
    ∷ rule BettingState.error EventType.halt BettingState.halted false "Halt from error state"
    ∷ rule BettingState.observing EventType.halt BettingState.halted false
        "Emergency halt from observation"
    ∷ rule BettingState.paused EventType.halt BettingState.halted false "Emergency halt from paused"
    ∷ rule BettingState.reconciling EventType.halt BettingState.halted false
        "Halt during reconciliation"
    ∷ rule BettingState.bet_active EventType.halt BettingState.halted false
        "Emergency halt with active bet"
    ∷ rule BettingState.halted EventType.reset BettingState.idle false "Reset from halted to idle"
    ∷ rule BettingState.error EventType.reset BettingState.idle false "Reset from error to idle"
    ∷ rule BettingState.paused EventType.reset BettingState.idle false "Reset from paused to idle"
    ∷ []
