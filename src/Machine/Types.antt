-- ===== src/Machine/Types.antt =====
-- src/core/state-machine/types.ts, with the round state of src/types/game.ts and the entry
-- conditions of src/types/betting.ts. Times are milliseconds; amounts and multipliers are
-- hundredths, a signed result is an integer.
use crash.Prelude.{ℕ, String, Bool, Option}

pub data RoundPhase : Type 0 where
  idle starting running crashed unknown : RoundPhase

pub data ObservationSource : Type 0 where
  websocket dom api unknown : ObservationSource

pub data ObservationConfidence : Type 0 where
  high medium low : ObservationConfidence

pub record RoundState : Type 0 where
  pub round_id : Option String
  pub phase : RoundPhase
  pub current_multiplier : Option ℕ
  pub started_at : Option String
  pub crashed_at : Option String
  pub crash_point : Option ℕ
  pub last_tick_at : Option String
  pub source : ObservationSource
  pub confidence : ObservationConfidence

pub record EntryConditions : Type 0 where
  pub mode_is_live : Bool
  pub operator_authorized : Bool
  pub session_authenticated : Bool
  pub game_loaded : Bool
  pub round_state_valid : Bool
  pub balance_sufficient : Bool
  pub daily_entries_below_limit : Bool
  pub not_paused : Bool
  pub kill_switch_off : Bool
  pub browser_healthy : Bool
  pub game_adapter_healthy : Bool
  pub observation_confidence_high : Bool
  pub no_open_bet : Bool
  pub cooldown_elapsed : Bool

pub data BettingState : Type 0 where
  idle ready_to_observe observing entry_evaluating entry_approved bet_placing : BettingState
  bet_active cash_out_armed cash_out_requested round_complete result_recorded : BettingState
  cooldown paused error halted reconciling : BettingState

pub data Resolution : Type 0 where
  cashed_out lost unknown : Resolution

pub data ForceSource : Type 0 where
  recovery emergency_stop operator_escalation : ForceSource

-- A signed amount in hundredths: a gain, or a loss of so much.
pub data Amount : Type 0 where
  gain loss : ℕ → Amount

pub data EventType : Type 0 where
  browser_ready authenticated game_loaded round_started risk_approved risk_rejected : EventType
  entry_checks_passed entry_checks_failed bet_submitted bet_confirmed : EventType
  bet_placement_failed bet_placement_timeout multiplier_reached_target : EventType
  cash_out_triggered cash_out_confirmed cash_out_failed cash_out_timeout : EventType
  round_crashed outcome_recorded cooldown_elapsed pause_requested : EventType
  resume_requested recover recovery_complete reconcile reconciliation_complete : EventType
  stale_multiplier health_degraded critical_error halt reset force_state : EventType

pub data Event : Type 0 where
  browser_ready authenticated game_loaded : Event
  round_started : (round_id : String) → RoundState → Event
  risk_approved : EntryConditions → Event
  risk_rejected : (reason : String) → Event
  entry_checks_passed : Event
  entry_checks_failed : (reason : String) → Event
  bet_submitted bet_confirmed : (bet_id : String) → Event
  bet_placement_failed : (reason : String) → Event
  bet_placement_timeout : Event
  multiplier_reached_target : (multiplier : ℕ) → Event
  cash_out_triggered : Event
  cash_out_confirmed : (multiplier : ℕ) (pnl : Amount) → Event
  cash_out_failed : (reason : String) → Event
  cash_out_timeout : Event
  round_crashed : (crash_point : ℕ) → Event
  outcome_recorded cooldown_elapsed : Event
  pause_requested : (reason : String) → Event
  resume_requested recover recovery_complete : Event
  reconcile : (active_bet_id : Option String) → Event
  reconciliation_complete : Resolution → Event
  stale_multiplier : Event
  health_degraded : (component reason : String) → Event
  critical_error : (message component : String) → Event
  halt : (reason : String) → Event
  reset : Event
  force_state : (reason : String) → ForceSource → Event

-- The `type` tag of an event.
abbrev pub event_type : Event → EventType
event_type browser_ready = EventType.browser_ready
event_type authenticated = EventType.authenticated
event_type game_loaded = EventType.game_loaded
event_type (round_started _ _) = EventType.round_started
event_type (risk_approved _) = EventType.risk_approved
event_type (risk_rejected _) = EventType.risk_rejected
event_type entry_checks_passed = EventType.entry_checks_passed
event_type (entry_checks_failed _) = EventType.entry_checks_failed
event_type (bet_submitted _) = EventType.bet_submitted
event_type (bet_confirmed _) = EventType.bet_confirmed
event_type (bet_placement_failed _) = EventType.bet_placement_failed
event_type bet_placement_timeout = EventType.bet_placement_timeout
event_type (multiplier_reached_target _) = EventType.multiplier_reached_target
event_type cash_out_triggered = EventType.cash_out_triggered
event_type (cash_out_confirmed _ _) = EventType.cash_out_confirmed
event_type (cash_out_failed _) = EventType.cash_out_failed
event_type cash_out_timeout = EventType.cash_out_timeout
event_type (round_crashed _) = EventType.round_crashed
event_type outcome_recorded = EventType.outcome_recorded
event_type cooldown_elapsed = EventType.cooldown_elapsed
event_type (pause_requested _) = EventType.pause_requested
event_type resume_requested = EventType.resume_requested
event_type recover = EventType.recover
event_type recovery_complete = EventType.recovery_complete
event_type (reconcile _) = EventType.reconcile
event_type (reconciliation_complete _) = EventType.reconciliation_complete
event_type stale_multiplier = EventType.stale_multiplier
event_type (health_degraded _ _) = EventType.health_degraded
event_type (critical_error _ _) = EventType.critical_error
event_type (halt _) = EventType.halt
event_type reset = EventType.reset
event_type (force_state _ _) = EventType.force_state
