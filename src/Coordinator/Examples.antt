-- ===== src/Coordinator/Examples.antt =====
-- The theorems about the coordinator at concrete inputs (src/betting/betting-coordinator.ts).
use crash.Prelude.{
  ℕ, ◌≡◌, refl, ◌⊎◌, inr, false, List, [], ◌∷◌, none, some, lookup, insert, remove, arith,
}
use crash.Machine.Types.{BettingState, entry_checks_passed}
use crash.Machine.Guards.Entry.{guard_all_entry_conditions_iff}
use crash.Machine.Fixtures.{tally_dates, running_round, at_state, whole_machine}
use crash.Daily.Types.{new_day, confirmed, find_entry, change_entry, count}
use crash.Daily.Ledger.{reserve, confirm}
use crash.Daily.Ledger.Counts.{Counted}
use crash.Risk.Breaker.{record_success}
use crash.Coordinator.Browser.{assert_browser_policy_for_live, resolve_browser_product_mode}
use crash.Coordinator.Outside.{
  Coordinator, new, outcome_resolved, crash_observed, completed, to_entry_conditions,
}
use crash.Coordinator.Place.{try_place_bet, reservation, submit, ask}
use crash.Coordinator.Place.Stranded.{IsLeft}
use crash.Coordinator.Place.Reserved.{IsReserving}
use crash.Coordinator.Place.Ends.{IsEnd, try_place_bet-IsEnd}
use crash.Coordinator.Round.{
  on_round_started, on_round_crashed, Op, starts, crashes, run, keep_signal, keep_target,
}
use crash.Coordinator.Fixtures.{counts, live_options, dry_options, outside, fresh, approved}
use crash.Coordinator.Round.Strands.{unserved-strands, expired-strands}
use crash.Coordinator.Round.Asks.{IsEntered, on_round_started-IsEntered}
use crash.Coordinator.Round.Limit.{run-Limited}
use crash.Coordinator.Round.Crash.{on_round_crashed-unexecuted}

abbrev rounds : List (Op counts tally_dates live_options)
rounds = starts outside "r1" running_round ∷ crashes 9 "r1" 180 ∷ []

on_round_started-IsEntered_example :
    let after =
      (on_round_started counts tally_dates live_options outside "r1" running_round
        fresh).executor in
    (after ≡ 0) ⊎ IsEntered counts tally_dates live_options outside "r1" running_round fresh after
unfolding new
on_round_started-IsEntered_example =
    on_round_started-IsEntered counts tally_dates live_options outside "r1" running_round fresh

empty-Counted : Counted 2 new_day
unfolding count
empty-Counted = record { confirmed_right = refl; reserved_right = refl; limited = omega arith }

run-Limited_example : Counted 2 (run counts tally_dates live_options fresh rounds).day
unfolding new find_entry
run-Limited_example =
    run-Limited counts tally_dates live_options fresh rounds
      (record { fresh = refl; confirms = refl }, (tt, tt)) empty-Counted

-- The first round places a bet, and its entry is confirmed.
round_places :
    let c = on_round_started counts tally_dates live_options outside "r1" running_round fresh in
    (c.executor ≡ 1)
    × (c.machine.state ≡ BettingState.bet_active)
    × (count confirmed c.day.entries ≡ 1)
unfolding new whole_machine on_round_started try_place_bet keep_signal keep_target insert lookup
    remove reserve confirm find_entry change_entry count submit ask to_entry_conditions
    record_success assert_browser_policy_for_live resolve_browser_product_mode
round_places = (refl, refl, refl)

-- The dry path: no executor is bound.
unserved-strands_example : IsLeft 0 new_day (
    run counts tally_dates dry_options
      (try_place_bet counts tally_dates dry_options outside "r1" approved).0
      (starts outside "r2" running_round ∷ []))
unfolding new whole_machine
unserved-strands_example =
    unserved-strands counts tally_dates dry_options outside "r1" approved
      (starts outside "r2" running_round ∷ []) refl (inr (inr (refl, refl, refl, refl)))

approved-IsReserving : IsReserving counts tally_dates live_options outside approved
unfolding new reserve assert_browser_policy_for_live resolve_browser_product_mode
approved-IsReserving = record {
  live_mode = refl;
  ledger = refl;
  bound = refl;
  unblocked = refl;
  in_quota = refl;
  answers = refl;
  granted = refl;
}

-- The signal has expired at time 4, the placement is at time 5.
abbrev late : Coordinator ℕ
late = record approved { last_signal_expires_at = some 4 }

late-IsReserving : IsReserving counts tally_dates live_options outside late
unfolding new reserve assert_browser_policy_for_live resolve_browser_product_mode
late-IsReserving = record {
  live_mode = refl;
  ledger = refl;
  bound = refl;
  unblocked = refl;
  in_quota = refl;
  answers = refl;
  granted = refl;
}

expired-strands_example : IsLeft 0 (reservation counts tally_dates live_options outside late).0 (
    run counts tally_dates live_options
      (try_place_bet counts tally_dates live_options outside "r1" late).0
      (crashes 9 "r1" 180 ∷ []))
unfolding new whole_machine
expired-strands_example =
    expired-strands counts tally_dates live_options outside "r1" late (crashes 9 "r1" 180 ∷ []) refl
      late-IsReserving refl

try_place_bet-IsEnd_example :
    IsEnd counts tally_dates live_options outside BettingState.bet_active confirmed 1
      (try_place_bet counts tally_dates live_options outside "r1" approved).0
unfolding new whole_machine find_entry lookup
try_place_bet-IsEnd_example =
    try_place_bet-IsEnd counts tally_dates live_options outside "r1" approved approved-IsReserving
      (record { confirms = refl; releases = refl; releases_again = refl }) refl refl refl
      ((guard_all_entry_conditions_iff tally_dates 5 approved.machine.context entry_checks_passed).0
        refl)

-- A bet is active, and its prediction is kept.
abbrev active : Coordinator ℕ
active = record fresh {
  machine = at_state BettingState.bet_active;
  last_prediction_id = some "p1";
  last_cash_out_target_by_round = ("r1", 150) ∷ [];
}

on_round_crashed-unexecuted_example :
    let c = on_round_crashed counts tally_dates live_options 9 "r1" 180 active in
    (c.machine.state ≡ BettingState.round_complete)
    × (c.told
        ≡ outcome_resolved "p1" "r1" 180 150 false
          ∷ crash_observed "r1" 180
          ∷ completed "r1" 180
          ∷ [])
    × (c.last_prediction_id ≡ none)
unfolding new whole_machine lookup
on_round_crashed-unexecuted_example =
    on_round_crashed-unexecuted counts tally_dates live_options 9 "p1" "r1" 180 active refl refl
      refl
