-- ===== src/Risk/Engine.antt =====
-- The class RiskEngine of src/betting/risk-engine.ts, with the input and the conditions of
-- src/betting/types.ts. Amounts are hundredths; probabilities, confidences and data qualities are
-- thousandths. `now` is what `Date.now()` reads; the circuit is what `snapshot` returns.
pub mod Approval
use crash.Prelude.{
  ℕ, ◌+◌, String, Bool, true, false, not, ◌&&◌, ◌||◌, ltb, leb, is_some, get_or_else, if◌then◌else◌,
  length, List, [], ◌∷◌, Option, none, some,
}
use crash.Machine.Types.{RoundPhase, RoundState, ObservationConfidence}
use crash.Machine.Dates.{Dates}
use crash.Risk.Breaker.{CircuitState, opened}

pub data Mode : Type 0 where
  observe_only dry_run live maintenance : Mode

pub record Signal : Type 0 where
  pub prediction_id : String
  pub probability : ℕ
  pub confidence : ℕ
  pub target : ℕ
  pub expires_at : String
  pub data_quality : ℕ

pub record Input : Type 0 where
  pub mode : Mode
  pub operator_authorized : Bool
  pub session_authenticated : Bool
  pub game_loaded : Bool
  pub round_state : Option RoundState
  pub current_balance : Option ℕ
  pub daily_entries_confirmed : ℕ
  pub paused : Bool
  pub kill_switch : Bool
  pub browser_healthy : Bool
  pub game_adapter_healthy : Bool
  pub open_bet_exists : Bool
  pub cooldown_elapsed : Bool
  pub required_stake : ℕ
  pub balance_buffer : ℕ
  pub max_daily_entries : ℕ
  pub min_confidence_for_entry : ObservationConfidence
  pub consecutive_errors : ℕ
  pub max_consecutive_errors : ℕ
  pub cash_out_failures : ℕ
  pub max_cash_out_failures : ℕ
  pub prediction_signal : Option Signal
  pub min_prediction_probability : Option ℕ
  pub min_prediction_confidence : Option ℕ

-- The keys of RiskConditionResults, which also name the failure messages.
pub data Condition : Type 0 where
  mode_is_live operator_authorized session_authenticated game_loaded : Condition
  round_state_valid balance_sufficient daily_entries_below_limit not_paused : Condition
  kill_switch_off browser_healthy game_adapter_healthy observation_confidence_high : Condition
  no_open_bet cooldown_elapsed error_threshold_ok cash_out_failure_threshold_ok : Condition
  prediction_acceptable : Condition

abbrev is_dry_run : Mode → Bool
is_dry_run dry_run = true
is_dry_run _ = false

abbrev is_live : Mode → Bool
is_live live = true
is_live _ = false

abbrev open_phase : RoundPhase → Bool
open_phase RoundPhase.starting = true
open_phase RoundPhase.running = true
open_phase _ = false

abbrev round_valid : Option RoundState → Bool
round_valid none = false
round_valid (some r) = open_phase r.phase && is_some r.round_id

abbrev is_high : ObservationConfidence → Bool
is_high ObservationConfidence.high = true
is_high _ = false

-- `input.roundState?.confidence ?? 'low'` against `'high'`.
abbrev confidence_high : Option RoundState → Bool
confidence_high none = false
confidence_high (some r) = is_high r.confidence

-- A date that does not parse is NaN, and `NaN <= now` is false.
abbrev expired : Option ℕ → ℕ → Bool
expired none now = false
expired (some t) now = leb t now

signal_acceptable : Dates → ℕ → ℕ → ℕ → Option Signal → Bool
signal_acceptable d now min_prob min_conf none = false
signal_acceptable d now min_prob min_conf (some s) =
    not (expired (d.get_time s.expires_at) now)
    && not (ltb s.probability min_prob)
    && not (ltb s.confidence min_conf)
    && not (ltb s.data_quality 300)

evaluate_prediction : Dates → ℕ → Input → Bool
unfolding signal_acceptable
evaluate_prediction d now i =
    let min_prob = get_or_else i.min_prediction_probability 0 in
    let min_conf = get_or_else i.min_prediction_confidence 0 in
    (leb min_prob 0 && leb min_conf 0)
    || signal_acceptable d now min_prob min_conf i.prediction_signal

balance_covers : Option ℕ → ℕ → Bool
balance_covers balance required = leb required (get_or_else balance 0)

-- `evaluateAllConditions`, one condition at a time.
unfoldable pub condition : Dates → ℕ → Input → Condition → Bool
unfolding evaluate_prediction balance_covers
condition d now i mode_is_live = is_live i.mode || is_dry_run i.mode
condition d now i operator_authorized = i.operator_authorized
condition d now i session_authenticated =
    if is_dry_run i.mode then true else i.session_authenticated
condition d now i game_loaded = i.game_loaded
condition d now i round_state_valid = round_valid i.round_state
condition d now i balance_sufficient =
    if is_dry_run i.mode
    then not (is_some i.current_balance)
      || balance_covers i.current_balance (i.required_stake + i.balance_buffer)
    else is_some i.current_balance
      && balance_covers i.current_balance (i.required_stake + i.balance_buffer)
condition d now i daily_entries_below_limit = ltb i.daily_entries_confirmed i.max_daily_entries
condition d now i not_paused = not i.paused
condition d now i kill_switch_off = not i.kill_switch
condition d now i browser_healthy = i.browser_healthy
condition d now i game_adapter_healthy = i.game_adapter_healthy
condition d now i observation_confidence_high = confidence_high i.round_state
condition d now i no_open_bet = not i.open_bet_exists
condition d now i cooldown_elapsed = i.cooldown_elapsed
condition d now i error_threshold_ok = ltb i.consecutive_errors i.max_consecutive_errors
condition d now i cash_out_failure_threshold_ok = ltb i.cash_out_failures i.max_cash_out_failures
condition d now i prediction_acceptable = evaluate_prediction d now i

-- The array `checks`.
unfoldable pub checks : List Condition
checks =
    mode_is_live ∷ operator_authorized ∷ session_authenticated ∷ game_loaded ∷ round_state_valid
    ∷ balance_sufficient ∷ daily_entries_below_limit ∷ not_paused ∷ kill_switch_off
    ∷ browser_healthy ∷ game_adapter_healthy ∷ observation_confidence_high ∷ no_open_bet
    ∷ cooldown_elapsed ∷ error_threshold_ok ∷ cash_out_failure_threshold_ok ∷ prediction_acceptable
    ∷ []

unfoldable pub collect_failures : (Condition → Bool) → List Condition → List Condition
collect_failures holds [] = []
collect_failures holds (c ∷ cs) =
    let rest = collect_failures holds cs in if not (holds c) then c ∷ rest else rest

-- The rejection names the open circuit or the failures, in their order.
pub data Rejection : Type 0 where
  circuit_open : Rejection
  single : Condition → Rejection
  several : ℕ → List Condition → Rejection

-- `firstFailure`.
pub data Failure : Type 0 where
  financial_circuit_open : Failure
  of_condition : Condition → Failure

pub record Evaluation : Type 0 where
  pub approved : Bool
  pub conditions : Condition → Bool
  pub rejection_reason : Option Rejection
  pub first_failure : Option Failure

unfoldable pub build_rejection_message : Condition → List Condition → Rejection
build_rejection_message c [] = single c
build_rejection_message c (c' ∷ cs) = several (length (c ∷ c' ∷ cs)) (c ∷ c' ∷ cs)

conclude : (Condition → Bool) → List Condition → Evaluation
unfolding build_rejection_message
conclude holds [] = record {
  approved = true;
  conditions = holds;
  rejection_reason = none;
  first_failure = none;
}
conclude holds (c ∷ cs) = record {
  approved = false;
  conditions = holds;
  rejection_reason = some (build_rejection_message c cs);
  first_failure = some (of_condition c);
}

abbrev is_opened : CircuitState → Bool
is_opened opened = true
is_opened _ = false

unfoldable pub evaluate : Dates → ℕ → CircuitState → Input → Evaluation
unfolding conclude
evaluate d now circuit i =
    if is_opened circuit
    then record {
      approved = false;
      conditions = condition d now i;
      rejection_reason = some circuit_open;
      first_failure = some financial_circuit_open;
    }
    else conclude (condition d now i) (collect_failures (condition d now i) checks)

unfoldable pub is_approved : Dates → ℕ → CircuitState → Input → Bool
is_approved d now circuit i = (evaluate d now circuit i).approved

-- Of the day's statistics only these two counts are read.
pub record DailyStats : Type 0 where
  pub consecutive_losses : Option ℕ
  pub losses : Option ℕ

unfoldable pub should_pause_after_streak : Option DailyStats → Bool
should_pause_after_streak none = false
should_pause_after_streak (some s) =
    leb 10 (get_or_else s.consecutive_losses 0) || leb 10 (get_or_else s.losses 0)
