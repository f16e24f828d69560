-- ===== src/Retry/Examples.antt =====
-- The theorems about repeated calls at concrete inputs (src/utils/retry.ts).
use crash.Prelude.{ℕ, suc, true, none, some}
use crash.Retry.Loop.{
  Error, RetryOptions, Attempt, returns, throws, returned, is_retryable, with_retry,
}
use crash.Retry.Loop.Attempts.{Explains, with_retry-Summary}

abbrev options : RetryOptions
options = record {
  max_retries = some 4;
  base_delay_ms = some 25;
  max_delay_ms = some 500;
  jitter = none;
  jitter_factor = none;
  retryable_errors = none;
  should_retry = none;
}

abbrev dropped : Error
dropped = record { name = "TransientError"; transient = true }

abbrev flaky : ℕ → Attempt ℕ
flaky n = elim n [ suc (suc (suc k)) ↦ returns 7 | _ ↦ throws dropped ]

with_retry-Summary_example : Explains options flaky 1 3 (returned 7)
unfolding with_retry is_retryable
with_retry-Summary_example = (with_retry-Summary options flaky).3
