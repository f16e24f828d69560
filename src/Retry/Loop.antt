-- ===== src/Retry/Loop.antt =====
-- isRetryable, calculateDelay and withRetry of src/utils/retry.ts. The function that is called is a
-- parameter: what it does at each attempt. Delays are in units of 1e-6 ms, the jitter's factor and
-- `Math.random()` in thousandths; a factor above one would make the delay negative, and is cut off.
pub mod Attempts
pub mod Delays
use text.Mathlib.Text.{◌==◌ as str_eq}
use crash.Prelude.{
  ℕ, zero, suc, ◌+◌, ◌-◌, ◌*◌, ◌^◌, String, Bool, true, false, not, ltb, ◌||◌, any, get_or_else,
  if◌then◌else◌, min, List, [], ◌∷◌, Option, none, some,
}

-- An error, with the test `instanceof TransientError`.
pub record Error : Type 0 where
  pub name : String
  pub transient : Bool

pub record RetryOptions : Type 0 where
  pub max_retries : Option ℕ
  pub base_delay_ms : Option ℕ
  pub max_delay_ms : Option ℕ
  pub jitter : Option Bool
  pub jitter_factor : Option ℕ
  pub retryable_errors : Option (List String)
  pub should_retry : Option (Error → Bool)

abbrev listed : Option (List String) → String → Bool
listed none name = false
listed (some names) name = any (λ n. str_eq n name) names

by_kind : RetryOptions → Error → Bool
by_kind o e = if e.transient then true else listed o.retryable_errors e.name

ask : Option (Error → Bool) → RetryOptions → Error → Bool
unfolding by_kind
ask (some test) o e = test e
ask none o e = by_kind o e

unfoldable pub is_retryable : RetryOptions → Error → Bool
unfolding ask
is_retryable o e = ask o.should_retry o e

-- `min(baseDelay * 2 ** (attempt - 1), maxDelay)`.
unfoldable pub capped : RetryOptions → ℕ → ℕ
capped o attempt =
    min (get_or_else o.base_delay_ms 1000 * 2 ^ (attempt - 1)) (get_or_else o.max_delay_ms 30000)

unfoldable pub calculate_delay : RetryOptions → ℕ → ℕ → ℕ
calculate_delay o random attempt =
    let c = capped o attempt in
    if not (get_or_else o.jitter true)
    then c * 1000000
    else (let amount = c * get_or_else o.jitter_factor 300 in
        c * 1000000 + amount * (2 * random) - amount * 1000)

pub data Attempt (A : Type 0) : Type 0 where
  returns : A → Attempt A
  throws : Error → Attempt A

-- How the whole ends: the last line of the function, `throw lastError!`, is a case of its own.
pub data Ending (A : Type 0) : Type 0 where
  returned : A → Ending A
  thrown : Error → Ending A
  fell_through : Ending A

-- The end, the number of calls, and the attempts that were followed by a delay.
pub record Trace (A : Type 0) : Type 0 where
  pub ending : Ending A
  pub calls : ℕ
  pub delayed : List ℕ

module _ {A : Type 0} (o : RetryOptions) (fn : ℕ → Attempt A) where
  abbrev max_retries_of : ℕ
  max_retries_of = get_or_else o.max_retries 3

  abbrev again : ℕ → Trace A → Trace A
  again attempt t = record t { calls = suc t.calls; delayed = attempt ∷ t.delayed }

  abbrev stop : Ending A → Trace A
  stop e = record { ending = e; calls = 1; delayed = [] }

  after : Attempt A → ℕ → Trace A → Trace A
  after (returns a) attempt rest = stop (returned a)
  after (throws e) attempt rest =
      if ltb max_retries_of attempt || not (is_retryable o e)
      then stop (thrown e)
      else again attempt rest

  -- The rounds that the `for` loop has left, and the attempt it is at.
  loop : ℕ → ℕ → Trace A
  unfolding after
  loop zero attempt = record { ending = fell_through; calls = 0; delayed = [] }
  loop (suc rounds) attempt =
      let rest = loop rounds (suc attempt) in after (fn attempt) attempt rest

  unfoldable pub with_retry : Trace A
  unfolding loop
  with_retry = loop (suc max_retries_of) 1
