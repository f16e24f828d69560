-- ===== src/Machine/Fixtures.antt =====
-- Concrete dates, rounds and machines for the examples, and a whole bet as a run
-- (src/core/state-machine).
use crash.Machine.Transitions.{
  transition_map, build_map, push_rule, get, same_key, or_empty, find_transitions,
}
use crash.Machine.Transitions.Enumerations.{state_eq, type_eq}
use crash.Machine.Transitions.Rules.{transition_rules}
use crash.Machine.Guards.{
  guard_can_evaluate_entry, guard_can_approve_entry, guard_can_place_bet, guard_can_cash_out,
  guard_can_resume, guard_can_recover, guard_all_entry_conditions, guard_browser_healthy,
  guard_game_adapter_healthy, guard_observation_confidence, guard_not_paused, guard_kill_switch_off,
  guard_no_open_bet, guard_cooldown_elapsed, guard_round_valid, guard_balance_known,
  guard_error_threshold, guard_cash_out_failure_threshold, first_refusal,
}
use crash.Prelude.{
  ℕ, zero, suc, String, ◌≡◌, refl, true, false, is_empty, List, [], ◌∷◌, none, some, ap,
}
use crash.Machine.Types.{
  EntryConditions, Amount, RoundPhase, ObservationSource, ObservationConfidence, RoundState,
  BettingState, Event,
}
use crash.Machine.Context.{Overrides, no_overrides, override, create_default_context}
use crash.Machine.Dates.{Dates, RoundTrips}
use crash.Machine.Instance.{Machine, create}
use crash.Machine.Send.{send, run}

-- Dates printed in tally marks.
unfoldable pub marks : ℕ → String
marks zero = "x"
marks (suc n) = String.◌∷◌ "x" (marks n)

unfoldable pub tally : String → ℕ
tally String.[] = 0
tally (String.◌∷◌ c String.[]) = 0
tally (String.◌∷◌ c (String.◌∷◌ c' s)) = suc (tally (String.◌∷◌ c' s))

abbrev pub tally_dates : Dates
tally_dates = record { get_time = λ s. some (tally s); to_iso_string = marks }

abbrev pub all_met : EntryConditions
all_met = record {
  mode_is_live = true;
  operator_authorized = true;
  session_authenticated = true;
  game_loaded = true;
  round_state_valid = true;
  balance_sufficient = true;
  daily_entries_below_limit = true;
  not_paused = true;
  kill_switch_off = true;
  browser_healthy = true;
  game_adapter_healthy = true;
  observation_confidence_high = true;
  no_open_bet = true;
  cooldown_elapsed = true;
}

abbrev pub running_round : RoundState
running_round = record {
  round_id = some "r1";
  phase = RoundPhase.running;
  current_multiplier = some 112;
  started_at = none;
  crashed_at = none;
  crash_point = none;
  last_tick_at = none;
  source = ObservationSource.websocket;
  confidence = ObservationConfidence.high;
}

abbrev pub seeing : Overrides
seeing = record no_overrides {
  current_round_id = some (some "r1");
  round_state = some (some running_round);
  current_balance = some (some 500000);
}

abbrev pub at_state : BettingState → Machine
at_state s = create (record {
  session_id = "s1";
  initial_state = some s;
  context_overrides = seeing;
  has_on_state_change = true;
  has_on_failure = true;
})

marks-nonempty : (t : ℕ) → is_empty (marks t) ≡ false
unfolding marks
marks-nonempty zero = refl
marks-nonempty (suc t) = refl

tally-marks : (t : ℕ) → tally (marks t) ≡ t
unfolding tally marks
tally-marks zero = refl
tally-marks (suc zero) = refl
tally-marks (suc (suc t)) = ap suc (tally-marks (suc t))

pub tally_dates-RoundTrips : RoundTrips tally_dates
tally_dates-RoundTrips = record { nonempty = marks-nonempty; parses = λ t. ap some (tally-marks t) }

-- All that a run of the machine computes with.
unfoldable pub whole_machine : Unit {0}
unfolding create create_default_context override send find_transitions transition_map build_map
    push_rule get or_empty same_key state_eq type_eq transition_rules guard_can_evaluate_entry
    guard_can_approve_entry guard_can_place_bet guard_can_cash_out guard_can_resume
    guard_can_recover guard_all_entry_conditions guard_browser_healthy guard_game_adapter_healthy
    guard_observation_confidence guard_not_paused guard_kill_switch_off guard_no_open_bet
    guard_cooldown_elapsed guard_round_valid guard_balance_known guard_error_threshold
    guard_cash_out_failure_threshold first_refusal run marks tally
whole_machine = tt

abbrev pub one_bet : List (ℕ × Event)
one_bet =
    (1, Event.browser_ready)
    ∷ (2, Event.authenticated)
    ∷ (3, Event.game_loaded)
    ∷ (4, Event.round_started "r1" running_round)
    ∷ (5, Event.risk_approved all_met)
    ∷ (6, Event.bet_submitted "b1")
    ∷ (7, Event.bet_confirmed "b1")
    ∷ (8, Event.multiplier_reached_target 130)
    ∷ (9, Event.cash_out_triggered)
    ∷ (10, Event.cash_out_confirmed 130 (Amount.gain 21000))
    ∷ (11, Event.outcome_recorded)
    ∷ []

-- A whole bet, from the start of the browser to its recorded outcome.
one_bet_runs :
    (run tally_dates (at_state BettingState.idle) one_bet).state ≡ BettingState.result_recorded
unfolding whole_machine
one_bet_runs = refl
