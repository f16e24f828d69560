-- ===== src/Retry/Circuit/Closing.antt =====
-- How an open breaker closes again (src/utils/retry.ts).
use crash.Prelude.{ℕ, zero, suc, ◌+◌, ◌≤◌, ◌<◌, ◌≡◌, ◌↔◌, true, some, arith, ◌⊎◌, inl, inr}
use crash.Retry.Circuit.{closed, opened, half_open, CircuitBreaker, can_execute, record_success}

-- Calls that succeed, one after the other.
abbrev pub successes : ℕ → CircuitBreaker → CircuitBreaker
successes zero b = b
successes (suc n) b = successes n (record_success b)

closed-successes : (n : ℕ) (b : CircuitBreaker) → b.state ≡ closed → (successes n b).state ≡ closed
unfolding record_success
closed-successes zero b h = h
closed-successes (suc n) b h = closed-successes n (record_success b) (ground arith)

record_success-half_open :
    (b : CircuitBreaker)
    → b.state ≡ half_open
    → let b' = record_success b in
      ((b.half_open_max_calls ≤ suc b.half_open_calls) × (b'.state ≡ closed))
      ⊎ ((suc b.half_open_calls < b.half_open_max_calls)
          × (b'.state ≡ half_open)
          × (b'.half_open_calls ≡ suc b.half_open_calls)
          × (b'.half_open_max_calls ≡ b.half_open_max_calls))
unfolding record_success
record_success-half_open b h = ground arith

half_open-successes :
    (n : ℕ) (b : CircuitBreaker)
    → b.state ≡ half_open
    → ((successes (suc n) b).state ≡ closed) ↔ (b.half_open_max_calls ≤ b.half_open_calls + suc n)
unfolding record_success
half_open-successes zero b h = ground arith
half_open-successes (suc n) b h = elim (record_success-half_open b h) [
  | inl (m, c) ↦ (λ _. omega arith, λ _. closed-successes (suc n) (record_success b) c)
  | inr (l, s, c, m) ↦
      let (to, from) = half_open-successes n (record_success b) s in
      (λ k. let r = to k in omega arith, λ k. from (omega arith))
]

-- An open breaker refuses calls until its reset time has passed since the last failure. The call
-- that it then lets through leaves it half open, and from there it is closed after some successes
-- exactly when they are as many as it asks for.
pub can_execute-reset :
    (now t n : ℕ) (b : CircuitBreaker)
    → b.state ≡ opened
    → b.last_failure_time ≡ some t
    → 0 < t
    → (((can_execute now b).1 ≡ true) ↔ (t + b.reset_timeout_ms ≤ now))
      × (t + b.reset_timeout_ms ≤ now
          → ((successes (suc n) (can_execute now b).0).state ≡ closed)
            ↔ (b.half_open_max_calls ≤ suc n))
unfolding can_execute
can_execute-reset now t n b h e p = (
  ground arith,
  λ l.
      let b' = (can_execute now b).0 in
      let (to, from) = half_open-successes n b' (ground arith) in
      let c : b'.half_open_calls ≡ 0 = ground arith in
      let m : b'.half_open_max_calls ≡ b.half_open_max_calls = ground arith in
      (λ k. let r = to k in omega arith, λ k. from (omega arith)),
)
