-- ===== src/Risk/Examples.antt =====
-- The theorems about the circuit breaker and the risk engine at concrete inputs
-- (src/core/circuit-breaker, src/betting/risk-engine.ts).
use crash.Prelude.{◌≤◌, ◌≡◌, refl, true, false, none, some, [], ◌∷◌, arith, ℕ, length}
use crash.Machine.Types.{RoundPhase, ObservationSource, ObservationConfidence, RoundState}
use crash.Machine.Dates.{Dates}
use crash.Risk.Velocity as Velocity
use crash.Risk.Velocity.Made.{made, made-paced}
use crash.Risk.Velocity.{
  VelocityController, Attempt, run, attempt, acquire, prune, filter_actions, count_within, oldest,
  record_action,
}
use crash.Risk.Velocity.Waits.{Turn, EndsIn, wait_until_allowed, wait_until_allowed-EndsIn}
use crash.Risk.Breaker.{closed}
use crash.Risk.Engine.{Mode, Input, condition, checks, collect_failures, evaluate, kill_switch_off}
use crash.Risk.Engine.Approval.{evaluate_approved_iff}

abbrev no_dates : Dates
no_dates = record { get_time = λ s. none; to_iso_string = λ t. "" }

abbrev open_round : RoundState
open_round = record {
  round_id = some "r1";
  phase = RoundPhase.starting;
  current_multiplier = none;
  started_at = none;
  crashed_at = none;
  crash_point = none;
  last_tick_at = none;
  source = ObservationSource.websocket;
  confidence = ObservationConfidence.high;
}

abbrev good : Input
good = record {
  mode = Mode.live;
  operator_authorized = true;
  session_authenticated = true;
  game_loaded = true;
  round_state = some open_round;
  current_balance = some 140000;
  daily_entries_confirmed = 99;
  paused = false;
  kill_switch = false;
  browser_healthy = true;
  game_adapter_healthy = true;
  open_bet_exists = false;
  cooldown_elapsed = true;
  required_stake = 70000;
  balance_buffer = 70000;
  max_daily_entries = 100;
  min_confidence_for_entry = ObservationConfidence.high;
  consecutive_errors = 0;
  max_consecutive_errors = 3;
  cash_out_failures = 0;
  max_cash_out_failures = 2;
  prediction_signal = none;
  min_prediction_probability = none;
  min_prediction_confidence = none;
}

evaluate_approved_iff_example : condition no_dates 0 good kill_switch_off ≡ true
unfolding evaluate condition checks collect_failures
evaluate_approved_iff_example =
    ((evaluate_approved_iff no_dates 0 closed good).0 refl).1 kill_switch_off

abbrev paced : VelocityController
paced = Velocity.create (record {
  enabled = true;
  max_actions_per_minute = 1;
  max_actions_per_hour = 5;
  min_action_interval_ms = 0;
  max_action_interval_ms = 0;
  idle_probability = 0;
  min_idle_ms = 0;
  max_idle_ms = 0;
  cash_out_jitter_ms = 0;
})

abbrev bet_at : ℕ → Attempt
bet_at t = record {
  type = "bet";
  randoms = record { interval = 0; idle = 0; idle_length = 0 };
  at = t;
  delay = 10;
}

-- The second attempt, within the minute, is refused.
second_refused : length (run paced (bet_at 100000 ∷ bet_at 120000 ∷ [])).history ≡ 1
unfolding run attempt acquire prune filter_actions count_within oldest record_action
second_refused = refl

made-paced_example :
    (count_within 60000 120010 (made [] paced (bet_at 100000 ∷ bet_at 120000 ∷ [])) ≤ 1)
    × (count_within 3600000 120010 (made [] paced (bet_at 100000 ∷ bet_at 120000 ∷ [])) ≤ 5)
made-paced_example =
    made-paced 0 paced.config (bet_at 100000 ∷ bet_at 120000 ∷ []) refl
      (omega arith, (omega arith, tt))

-- The controller has no room in the minute, and waits until it has.
abbrev on_time : ℕ → Turn
on_time n = record { randoms = (bet_at 0).randoms; asking = 0; computing = 0; late = 0 }

wait_until_allowed-EndsIn_example :
    EndsIn 120000 (wait_until_allowed on_time 120000 121000 (run paced (bet_at 120000 ∷ [])))
unfolding run attempt acquire prune filter_actions count_within oldest record_action
wait_until_allowed-EndsIn_example =
    wait_until_allowed-EndsIn on_time 120000 121000 (run paced (bet_at 120000 ∷ [])) refl
