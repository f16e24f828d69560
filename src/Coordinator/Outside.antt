-- ===== src/Coordinator/Outside.antt =====
-- What the coordinator keeps and what it meets (src/betting/betting-coordinator.ts): its options,
-- its fields with the parts that it drives, and, for one call, what the services, the database and
-- the platform do. Amounts and multipliers are hundredths, scores are thousandths.
use crash.Prelude.{
  ℕ, min, String, Bool, true, false, if◌then◌else◌, List, [], Option, none, some, get_or_else,
}
use crash.Machine.Types.{
  RoundState, EntryConditions, ObservationConfidence, high, medium, low, BettingState,
}
use crash.Machine.Context.{Overrides, no_overrides}
use crash.Machine.Instance.{Machine, create}
use crash.Daily.Types.{Day}
use crash.Daily.Ledger.{LedgerError}
use crash.Risk.Breaker.{Breaker}
use crash.Risk.Engine as Engine
use crash.Risk.Engine.{Mode, dry_run, Signal, Condition, Evaluation, Rejection}
use crash.Sheath.Mode.{SheathMode}
use crash.Coordinator.Browser as Browser
use crash.Coordinator.Browser.Health.{HealthCircuit}

pub record Options : Type 0 where
  pub mode : Mode
  pub has_executor : Bool
  pub has_daily_ledger : Bool
  pub has_decision_engine : Bool
  pub max_daily_entries : ℕ
  pub stake_per_entry : Option ℕ
  pub cash_out_target : Option ℕ
  pub initial_session_id : Option String
  pub has_on_state_change : Bool

-- The calls of the entry decision service that follow a round.
pub data Told : Type 0 where
  completed : (round_id : String) → ℕ → Told
  crash_observed : (round_id : String) → ℕ → Told
  outcome_resolved :
      (prediction_id round_id : String) (crash_point target : ℕ) (bet_executed : Bool) → Told

-- The latest call is told first. `executor` is whatever state the executor keeps.
pub record Coordinator (X : Type 0) : Type 0 where
  pub machine : Machine
  pub session_id : Option String
  pub last_prediction_id : Option String
  pub last_cash_out_target : ℕ
  pub evaluating : Bool
  pub last_cash_out_target_by_round : List (String × ℕ)
  pub last_signal_expires_at : Option ℕ
  pub sheath : Option SheathMode
  pub day : Day
  pub breaker : Breaker
  pub executor : X
  pub told : List Told

abbrev is_dry_run : Mode → Bool
is_dry_run dry_run = true
is_dry_run _ = false

abbrev start_overrides : Options → Overrides
start_overrides o = record no_overrides {
  dry_run = some (is_dry_run o.mode);
  browser_healthy = some true;
  game_adapter_healthy = some true;
  open_bet_exists = some false;
  paused = some false;
  kill_switch = some false;
  current_balance = some (some 5000000);
  last_bet_at = some none;
  min_confidence_for_entry = some high;
  consecutive_errors = some 0;
  cash_out_failures = some 0;
}

-- The constructor; `onFailure` is not passed on.
unfoldable pub new : {X : Type 0} → Options → Option SheathMode → Day → Breaker → X → Coordinator X
new o sheath day breaker executor = record {
  machine = create (record {
    session_id = get_or_else o.initial_session_id "session-pending";
    initial_state = some BettingState.observing;
    context_overrides = start_overrides o;
    has_on_state_change = o.has_on_state_change;
    has_on_failure = false;
  });
  session_id = o.initial_session_id;
  last_prediction_id = none;
  last_cash_out_target = 130;
  evaluating = false;
  last_cash_out_target_by_round = [];
  last_signal_expires_at = none;
  sheath = sheath;
  day = day;
  breaker = breaker;
  executor = executor;
  told = [];
}

unfoldable pub set_session_id : {X : Type 0} → Option String → Coordinator X → Coordinator X
set_session_id id c = record c { session_id = id }

unfoldable pub to_entry_conditions : (Condition → Bool) → EntryConditions
to_entry_conditions c = record {
  mode_is_live = c Engine.mode_is_live;
  operator_authorized = c Engine.operator_authorized;
  session_authenticated = c Engine.session_authenticated;
  game_loaded = c Engine.game_loaded;
  round_state_valid = c Engine.round_state_valid;
  balance_sufficient = c Engine.balance_sufficient;
  daily_entries_below_limit = c Engine.daily_entries_below_limit;
  not_paused = c Engine.not_paused;
  kill_switch_off = c Engine.kill_switch_off;
  browser_healthy = c Engine.browser_healthy;
  game_adapter_healthy = c Engine.game_adapter_healthy;
  observation_confidence_high = c Engine.observation_confidence_high;
  no_open_bet = c Engine.no_open_bet;
  cooldown_elapsed = c Engine.cooldown_elapsed;
}

-- What the decision engine is asked; its dimensions are the six scores at the end.
pub record DecisionInput : Type 0 where
  pub round_id : String
  pub probability : ℕ
  pub confidence : ℕ
  pub prediction_id : String
  pub edge : ℕ
  pub dimension_confidence : ℕ
  pub data_quality : ℕ
  pub regime_fit : ℕ
  pub execution_feasibility : ℕ
  pub temporal_consistency : ℕ

abbrev quality_of : ObservationConfidence → ℕ
quality_of high = 900
quality_of medium = 650
quality_of low = 400

-- By its type, a signal's confidence and probability are numbers.
unfoldable pub decision_input : String → RoundState → Bool → Signal → DecisionInput
decision_input round_id r browser_healthy s = record {
  round_id = round_id;
  probability = s.probability;
  confidence = s.confidence;
  prediction_id = s.prediction_id;
  edge = min 1000 s.probability;
  dimension_confidence = s.confidence;
  data_quality = quality_of r.confidence;
  regime_fit = 700;
  execution_feasibility = if browser_healthy then 850 else 300;
  temporal_consistency = 700;
}

-- What the risk input and `evaluateEntry` bring.
pub data Decided : Type 0 where
  evaluation_throws : String → Decided
  decides : (browser_healthy : Bool) → Option Signal → Evaluation → Decided

pub data Verdict : Type 0 where
  enters : Verdict
  refuses : String → Verdict
  verdict_throws : String → Verdict

pub data Quota : Type 0 where
  allowed : Quota
  denied : Option String → Quota

-- What `placeLiveBet` does: it throws, or its result is placed or not, with an error's text.
pub data Placing : Type 0 where
  placing_throws : String → Placing
  is_placed : Placing
  not_placed : Option String → Placing

-- The points at which the time is read.
pub data Moment : Type 0 where
  starting deciding checking submitting expiring ending : Moment

-- An optional text is what is thrown; the texts that are printed from a value are functions of it.
pub record Outside : Type 0 where
  pub at : Moment → ℕ
  pub bet_id : String
  pub decided : Decided
  pub decide : DecisionInput → Verdict
  pub rejection_text : Rejection → String
  pub environment : Browser.Environment
  pub worker : HealthCircuit
  pub quota : Quota
  pub reserving : Option String
  pub reservation_text : Option String
  pub confirming : Option String
  pub ledger_text : LedgerError → String
  pub on_entry_confirmed : Option String
  pub releasing : Option String
  pub releasing_again : Bool
