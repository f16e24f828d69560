-- ===== src/Executor/Gate.antt =====
-- The gate for real execution: src/betting/execution-mode-gate.ts. The variables of the environment
-- are an argument; `mode` is the text in lower case, empty where it is not set.
use text.Mathlib.Text.{◌==◌ as str_eq}
use crash.Prelude.{String, Bool, false, not, ◌||◌, if◌then◌else◌, Option, none, some}

pub record Environment : Type 0 where
  pub mode : String
  pub dry_run : String
  pub allow_real_execution : String

abbrev set : String → Bool
set v = str_eq v "true" || str_eq v "1"

unfoldable pub is_dry_run_mode : Environment → Bool → Bool
is_dry_run_mode env request = str_eq env.mode "dry-run" || set env.dry_run || request

unfoldable pub is_real_execution_allowed : Environment → Bool → Bool
is_real_execution_allowed env request =
    if is_dry_run_mode env request
    then false
    else if not (str_eq env.mode "live")
    then false
    else set env.allow_real_execution

pub data BlockReason : Type 0 where
  real_execution_disabled real_execution_blocked : BlockReason

unfoldable pub real_execution_block_reason : Environment → Bool → Option BlockReason
real_execution_block_reason env request =
    if is_dry_run_mode env request
    then some real_execution_disabled
    else if not (str_eq env.mode "live") || not (set env.allow_real_execution)
    then some real_execution_blocked
    else none
