-- ===== src/Machine/Context.antt =====
-- The context that the machine carries across transitions, its defaults and its overrides
-- (src/core/state-machine/types.ts).
use crash.Prelude.{ℕ, String, Bool, true, false, Option, none, get_or_else}
use crash.Machine.Types.{RoundState, EntryConditions, ObservationConfidence, high}

pub record Context : Type 0 where
  pub session_id : String
  pub current_round_id : Option String
  pub current_bet_id : Option String
  pub round_state : Option RoundState
  pub current_balance : Option ℕ
  pub dry_run : Bool
  pub paused : Bool
  pub kill_switch : Bool
  pub consecutive_errors : ℕ
  pub cash_out_failures : ℕ
  pub last_bet_at : Option String
  pub last_entry_conditions : Option EntryConditions
  pub last_rejection_reason : Option String
  pub open_bet_exists : Bool
  pub browser_healthy : Bool
  pub game_adapter_healthy : Bool
  pub min_confidence_for_entry : ObservationConfidence
  pub cooldown_ms : ℕ
  pub max_consecutive_errors : ℕ
  pub max_cash_out_failures : ℕ

-- `Partial<StateMachineContext>`: `none` is a key that is absent.
pub record Overrides : Type 0 where
  pub session_id : Option String
  pub current_round_id : Option (Option String)
  pub current_bet_id : Option (Option String)
  pub round_state : Option (Option RoundState)
  pub current_balance : Option (Option ℕ)
  pub dry_run : Option Bool
  pub paused : Option Bool
  pub kill_switch : Option Bool
  pub consecutive_errors : Option ℕ
  pub cash_out_failures : Option ℕ
  pub last_bet_at : Option (Option String)
  pub last_entry_conditions : Option (Option EntryConditions)
  pub last_rejection_reason : Option (Option String)
  pub open_bet_exists : Option Bool
  pub browser_healthy : Option Bool
  pub game_adapter_healthy : Option Bool
  pub min_confidence_for_entry : Option ObservationConfidence
  pub cooldown_ms : Option ℕ
  pub max_consecutive_errors : Option ℕ
  pub max_cash_out_failures : Option ℕ

abbrev pub no_overrides : Overrides
no_overrides = record {
  session_id = none;
  current_round_id = none;
  current_bet_id = none;
  round_state = none;
  current_balance = none;
  dry_run = none;
  paused = none;
  kill_switch = none;
  consecutive_errors = none;
  cash_out_failures = none;
  last_bet_at = none;
  last_entry_conditions = none;
  last_rejection_reason = none;
  open_bet_exists = none;
  browser_healthy = none;
  game_adapter_healthy = none;
  min_confidence_for_entry = none;
  cooldown_ms = none;
  max_consecutive_errors = none;
  max_cash_out_failures = none;
}

-- The spread `{ ...context, ...overrides }`.
unfoldable pub override : Context → Overrides → Context
override c o = record {
  session_id = get_or_else o.session_id c.session_id;
  current_round_id = get_or_else o.current_round_id c.current_round_id;
  current_bet_id = get_or_else o.current_bet_id c.current_bet_id;
  round_state = get_or_else o.round_state c.round_state;
  current_balance = get_or_else o.current_balance c.current_balance;
  dry_run = get_or_else o.dry_run c.dry_run;
  paused = get_or_else o.paused c.paused;
  kill_switch = get_or_else o.kill_switch c.kill_switch;
  consecutive_errors = get_or_else o.consecutive_errors c.consecutive_errors;
  cash_out_failures = get_or_else o.cash_out_failures c.cash_out_failures;
  last_bet_at = get_or_else o.last_bet_at c.last_bet_at;
  last_entry_conditions = get_or_else o.last_entry_conditions c.last_entry_conditions;
  last_rejection_reason = get_or_else o.last_rejection_reason c.last_rejection_reason;
  open_bet_exists = get_or_else o.open_bet_exists c.open_bet_exists;
  browser_healthy = get_or_else o.browser_healthy c.browser_healthy;
  game_adapter_healthy = get_or_else o.game_adapter_healthy c.game_adapter_healthy;
  min_confidence_for_entry = get_or_else o.min_confidence_for_entry c.min_confidence_for_entry;
  cooldown_ms = get_or_else o.cooldown_ms c.cooldown_ms;
  max_consecutive_errors = get_or_else o.max_consecutive_errors c.max_consecutive_errors;
  max_cash_out_failures = get_or_else o.max_cash_out_failures c.max_cash_out_failures;
}

default_context : String → Context
default_context session_id = record {
  session_id = session_id;
  current_round_id = none;
  current_bet_id = none;
  round_state = none;
  current_balance = none;
  dry_run = false;
  paused = false;
  kill_switch = false;
  consecutive_errors = 0;
  cash_out_failures = 0;
  last_bet_at = none;
  last_entry_conditions = none;
  last_rejection_reason = none;
  open_bet_exists = false;
  browser_healthy = true;
  game_adapter_healthy = true;
  min_confidence_for_entry = high;
  cooldown_ms = 5000;
  max_consecutive_errors = 3;
  max_cash_out_failures = 2;
}

unfoldable pub create_default_context : String → Overrides → Context
unfolding default_context override
create_default_context session_id o = override (default_context session_id) o
