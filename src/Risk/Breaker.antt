-- ===== src/Risk/Breaker.antt =====
-- The class FinancialCircuitBreaker of src/core/circuit-breaker/financial-circuit-breaker.ts. The
-- shared store is not part of the program: what its `get` brings back is an argument of a call, and
-- what its `set` is given is part of the call's result, both as the object that the platform's JSON
-- reads out of the text or makes the text of.
pub mod Trips
use crash.Prelude.{ℕ, suc, ◌+◌, Bool, true, false, leb, if◌then◌else◌, Option, none, some}

-- `OPEN` is `opened`.
pub data CircuitState : Type 0 where
  closed opened half_open : CircuitState

-- The object under the shared key.
pub record Entry : Type 0 where
  pub state : CircuitState
  pub failures : ℕ
  pub opened_at : ℕ

pub record Breaker : Type 0 where
  pub failures : ℕ
  pub state : CircuitState
  pub opened_at : ℕ
  pub threshold : ℕ
  pub cool_down_ms : ℕ
  pub has_redis : Bool

-- What a read of the shared key brings: it or the reading of its text throws, or it finds
-- nothing, or an entry.
pub data Fetched : Type 0 where
  failed missing : Fetched
  found : Entry → Fetched

abbrev pub create : ℕ → ℕ → Bool → Breaker
create threshold cool_down_ms has_redis = record {
  failures = 0;
  state = closed;
  opened_at = 0;
  threshold = threshold;
  cool_down_ms = cool_down_ms;
  has_redis = has_redis;
}

abbrev adopt : Fetched → Breaker → Breaker
adopt (found e) b = record b { state = e.state; failures = e.failures; opened_at = e.opened_at }
adopt _ b = b

unfoldable pub hydrate : Fetched → Breaker → Breaker
hydrate f b = if b.has_redis then adopt f b else b

-- What is written to the shared key, if there is a store.
unfoldable pub persist : Breaker → Option Entry
persist b =
    if b.has_redis
    then some (record { state = b.state; failures = b.failures; opened_at = b.opened_at })
    else none

pub record Outcome (A : Type 0) : Type 0 where
  pub breaker : Breaker
  pub result : A
  pub written : Option Entry

-- The test for a cool-down that has run out is `now - openedAt >= coolDownMs`, with the time of
-- opening added on both sides.
is_open_from : CircuitState → ℕ → Breaker → Outcome Bool
is_open_from opened now b =
    if leb (b.opened_at + b.cool_down_ms) now
    then (let b' = record b { state = half_open } in
        record { breaker = b'; result = false; written = persist b' })
    else record { breaker = b; result = true; written = none }
is_open_from _ now b = record { breaker = b; result = false; written = none }

unfoldable pub is_open : Fetched → ℕ → Breaker → Outcome Bool
unfolding is_open_from hydrate
is_open f now b = let b' = hydrate f b in is_open_from b'.state now b'

unfoldable pub record_success : Breaker → Outcome (Unit {0})
record_success b =
    let b' = record b { failures = 0; state = closed } in
    record { breaker = b'; result = tt; written = persist b' }

trip : ℕ → Breaker → Breaker
trip now b = if leb b.threshold b.failures then record b { state = opened; opened_at = now } else b

unfoldable pub record_failure : ℕ → Breaker → Outcome (Unit {0})
unfolding trip
record_failure now b =
    let b' = trip now (record b { failures = suc b.failures }) in
    record { breaker = b'; result = tt; written = persist b' }

unfoldable pub snapshot : Breaker → CircuitState × ℕ
snapshot b = (b.state, b.failures)

-- The calls that other code makes, each with what it reads from outside.
pub data Op : Type 0 where
  asks : Fetched → ℕ → Op
  succeeds : Op
  fails : ℕ → Op

unfoldable pub step : Breaker → Op → Breaker
unfolding is_open record_success record_failure
step b (asks f now) = (is_open f now b).breaker
step b succeeds = (record_success b).breaker
step b (fails now) = (record_failure now b).breaker
