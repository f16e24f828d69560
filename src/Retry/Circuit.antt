-- ===== src/Retry/Circuit.antt =====
-- The class CircuitBreaker and withCircuitBreaker of src/utils/retry.ts. `now` is what `Date.now()`
-- reads; a time of the last failure that is 0 counts as none, as the source's test has it.
pub mod Closing
use crash.Prelude.{
  ℕ, suc, ◌+◌, Bool, true, false, leb, ltb, not, ◌==◌, ◌&&◌, if◌then◌else◌, Option, none, some,
}
use crash.Retry.Loop.{Attempt, returns, throws}

-- `OPEN` is `opened`.
pub data CircuitState : Type 0 where
  closed opened half_open : CircuitState

pub record CircuitBreaker : Type 0 where
  pub state : CircuitState
  pub failures : ℕ
  pub last_failure_time : Option ℕ
  pub half_open_calls : ℕ
  pub failure_threshold : ℕ
  pub reset_timeout_ms : ℕ
  pub half_open_max_calls : ℕ

unfoldable pub create : ℕ → ℕ → ℕ → CircuitBreaker
create threshold timeout calls = record {
  state = closed;
  failures = 0;
  last_failure_time = none;
  half_open_calls = 0;
  failure_threshold = threshold;
  reset_timeout_ms = timeout;
  half_open_max_calls = calls;
}

-- `lastFailureTime && now - lastFailureTime >= resetTimeoutMs`.
abbrev reset_due : Option ℕ → ℕ → ℕ → Bool
reset_due none timeout now = false
reset_due (some t) timeout now = not (t == 0) && leb (t + timeout) now

can_execute_in : CircuitState → ℕ → CircuitBreaker → CircuitBreaker × Bool
can_execute_in closed now b = (b, true)
can_execute_in opened now b =
    if reset_due b.last_failure_time b.reset_timeout_ms now
    then (record b { state = half_open; half_open_calls = 0 }, true)
    else (b, false)
can_execute_in half_open now b = (b, ltb b.half_open_calls b.half_open_max_calls)

unfoldable pub can_execute : ℕ → CircuitBreaker → CircuitBreaker × Bool
unfolding can_execute_in
can_execute now b = can_execute_in b.state now b

record_success_in : CircuitState → CircuitBreaker → CircuitBreaker
record_success_in half_open b =
    let b' = record b { half_open_calls = suc b.half_open_calls } in
    if leb b'.half_open_max_calls b'.half_open_calls
    then record b' { state = closed; failures = 0; last_failure_time = none }
    else b'
record_success_in _ b = record b { failures = 0; last_failure_time = none }

unfoldable pub record_success : CircuitBreaker → CircuitBreaker
unfolding record_success_in
record_success b = record_success_in b.state b

record_failure_in : CircuitState → ℕ → CircuitBreaker → CircuitBreaker
record_failure_in half_open now b = record b { state = opened; last_failure_time = some now }
record_failure_in _ now b =
    let b' = record b { failures = suc b.failures; last_failure_time = some now } in
    if leb b'.failure_threshold b'.failures then record b' { state = opened } else b'

unfoldable pub record_failure : ℕ → CircuitBreaker → CircuitBreaker
unfolding record_failure_in
record_failure now b = record_failure_in b.state now b

pub data Guarded (A : Type 0) : Type 0 where
  refused : Guarded A
  ran : Attempt A → Guarded A

run_guarded : {A : Type 0} → Attempt A → ℕ → CircuitBreaker → CircuitBreaker × Guarded A
run_guarded (returns a) now b = (record_success b, ran (returns a))
run_guarded (throws e) now b = (record_failure now b, ran (throws e))

-- The call itself takes from the first time to the second.
unfoldable pub with_circuit_breaker :
    {A : Type 0} → Attempt A → ℕ → ℕ → CircuitBreaker → CircuitBreaker × Guarded A
unfolding run_guarded
with_circuit_breaker a before now b =
    let (b', may) = can_execute before b in if may then run_guarded a now b' else (b', refused)
