-- ===== src/Machine/Examples.antt =====
-- The theorems about the betting state machine at concrete machines (src/core/state-machine).
use crash.Machine.Fixtures.{
  whole_machine, tally_dates, tally_dates-RoundTrips, running_round, at_state, one_bet,
}
use crash.Machine.Transitions.{find_transitions}
use crash.Machine.Transitions.Rules.{transition_rules}
use crash.Machine.Guards.Entry.{IsSafeEntry, guard_all_entry_conditions_iff}
use crash.Machine.Transitions.Lookup.{matches, find_transitions-eq-keep}
use crash.Machine.Send.Results.{send_rejected}
use crash.Machine.Send.Entry.{is_entry, send_entry-IsSafeEntry}
use crash.Machine.Send.OpenBet.{BetFits, run-BetFits}
use crash.Machine.Send.Cooldown.{outcome_starts_cooldown}
use crash.Machine.Send.Halt.{run_kill_switch}
use crash.Prelude.{keep, ◌≡◌, refl, true, false, [], ◌∷◌, none, arith}
use crash.Machine.Types.{BettingState, Event, EventType}
use crash.Machine.Instance.{Machine}
use crash.Machine.Send.{send, run}

guard_all_entry_conditions_iff_example :
    IsSafeEntry tally_dates 9 (at_state BettingState.entry_approved).context none
unfolding whole_machine
guard_all_entry_conditions_iff_example =
    (guard_all_entry_conditions_iff tally_dates 9 (at_state BettingState.entry_approved).context
        Event.entry_checks_passed).0
      refl

find_transitions-eq-keep_example :
    find_transitions BettingState.paused EventType.reset
    ≡ keep (matches BettingState.paused EventType.reset) transition_rules
find_transitions-eq-keep_example = find_transitions-eq-keep BettingState.paused EventType.reset

send_rejected_example :
    (send tally_dates 9 (at_state BettingState.idle) Event.game_loaded).calls ≡ []
unfolding whole_machine
send_rejected_example =
    (send_rejected tally_dates 9 (at_state BettingState.idle) Event.game_loaded refl).1

send_entry-IsSafeEntry_example :
    IsSafeEntry tally_dates 9 (at_state BettingState.entry_approved).context none
unfolding whole_machine
send_entry-IsSafeEntry_example =
    (send_entry-IsSafeEntry tally_dates 9 (at_state BettingState.entry_approved)
      Event.entry_checks_passed refl refl).1

run-BetFits_example : BetFits (run tally_dates (at_state BettingState.idle) one_bet)
unfolding whole_machine
run-BetFits_example = run-BetFits tally_dates (at_state BettingState.idle) one_bet refl

abbrev switched : Machine
switched =
    let m = at_state BettingState.cooldown in
    record m { context = record m.context { kill_switch = true } }

run_kill_switch_example :
    is_entry (run tally_dates switched ((1, Event.round_started "r2" running_round) ∷ [])).state
    ≡ false
unfolding whole_machine
run_kill_switch_example =
    (run_kill_switch tally_dates switched ((1, Event.round_started "r2" running_round) ∷ []) refl
      refl ((λ e. cc), tt)).1

-- A bet has been cashed out, and its outcome is not recorded yet.
abbrev cashed_out : Machine
cashed_out = at_state BettingState.round_complete

outcome_starts_cooldown_example :
    is_entry
      (run tally_dates
        (send tally_dates 11 cashed_out Event.outcome_recorded).machine
        ((12, Event.round_started "r2" running_round) ∷ [])).state
    ≡ false
unfolding whole_machine
outcome_starts_cooldown_example =
    outcome_starts_cooldown tally_dates 11 cashed_out
      ((12, Event.round_started "r2" running_round) ∷ []) tally_dates-RoundTrips refl
      (((λ e. cc), omega arith), tt)
