-- ===== src/Coordinator/Live/Examples.antt =====
-- A round of the coordinator with the live executor at a concrete input
-- (src/betting/betting-coordinator.ts, src/betting/live-executor.ts).
use crash.Idempotency.Redis.{reserve}
use crash.Daily.Ledger as Daily
use crash.Prelude.{◌≡◌, refl, none, arith, false}
use crash.Machine.Fixtures.{tally_dates, running_round, whole_machine}
use crash.Daily.Types.{new_day}
use crash.Risk.Breaker.{create}
use crash.Idempotency.Local.{Kept, local, client}
use crash.Executor.Fixtures as Fixtures
use crash.Executor.Place.{place_live_bet, attempt_placement, mark_unknown, PlaceBetRequest, World}
use crash.Executor.Place.Clicks.{IsCleared}
use crash.Idempotency.Redis as Redis
use crash.Capital.Limits as Limits
use crash.Prelude.{lookup, insert, remove}
use crash.Settlement.Engine.{create_order_intent, mark_dispatched, is_balanced, insert_entry}
use crash.Settlement.Ledger.{find_order, debits, credits}
use crash.Coordinator.Place.{try_place_bet, ask}
use crash.Coordinator.Browser.{assert_browser_policy_for_live, resolve_browser_product_mode}
use crash.Executor.Gate.{real_execution_block_reason, is_dry_run_mode}
use crash.Executor.Safeguards.{check_pre_flight, get_health_status}
use crash.Daily.Counter.{get_count, roll_over}
use crash.Capital.Limits.{can_place_bet}
use crash.Coordinator.Outside.{to_entry_conditions, Coordinator, Placing, new}
use crash.Coordinator.Fixtures.{live_options, outside}
use crash.Coordinator.Round.{keep_signal, keep_target, on_round_started, keep_target}
use crash.Coordinator.Round.Asks.{IsEntered}
use crash.Coordinator.Live.{live_bet, on_round_started-clicked, keep_signal}

abbrev bound : PlaceBetRequest → World Kept → World Kept × Placing
bound = live_bet local client Fixtures.safeguards 1 (λ q. Fixtures.outside) (λ e. "error")

abbrev with_live : Coordinator (World Kept)
with_live = new live_options none new_day (create 3 60000 false) Fixtures.world

-- Both attempts click.
round_clicks :
    (on_round_started bound tally_dates live_options outside "r1" running_round
      with_live).executor.clicked
    ≡ 2
unfolding new whole_machine on_round_started keep_signal keep_target try_place_bet
    assert_browser_policy_for_live resolve_browser_product_mode Daily.reserve ask place_live_bet
    real_execution_block_reason is_dry_run_mode check_pre_flight get_count roll_over
    get_health_status can_place_bet create_order_intent mark_dispatched find_order is_balanced
    debits credits insert_entry Redis.reserve attempt_placement mark_unknown Limits.create lookup
    insert remove to_entry_conditions
round_clicks = refl

on_round_started-clicked_example :
    IsEntered bound tally_dates live_options outside "r1" running_round with_live
      (on_round_started bound tally_dates live_options outside "r1" running_round
        with_live).executor
    × ((q : PlaceBetRequest) × (q.bet_id ≡ "b1")
        × (q.round_id ≡ "r1")
        × IsCleared local client q Fixtures.safeguards Fixtures.outside Fixtures.world)
unfolding new
on_round_started-clicked_example =
    on_round_started-clicked local client Fixtures.safeguards 1 (λ q. Fixtures.outside)
      (λ e. "error") tally_dates live_options outside "r1" running_round with_live
      (λ e. omega (arith, round_clicks, e))
