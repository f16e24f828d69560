-- ===== src/Risk/Breaker/Trips.antt =====
-- When the circuit opens, how long it stays open (src/core/circuit-breaker/financial-circuit-breaker.ts).
use crash.Prelude.{
  ℕ, suc, ◌+◌, ◌≤◌, ◌<◌, ◌≡◌, refl, ◌⊎◌, ◌↔◌, inl, inr, true, List, [], ◌∷◌, length, All, arith,
}
use crash.Risk.Breaker.{
  CircuitState, closed, opened, half_open, Breaker, Fetched, found, hydrate, is_open,
  record_failure, Op, asks, succeeds, fails, step,
}

-- Failures at the given times, one after the other.
abbrev pub fail_all : Breaker → List ℕ → Breaker
fail_all b [] = b
fail_all b (t ∷ ts) = fail_all (record_failure t b).breaker ts

-- The state agrees with the count.
abbrev Agrees : Breaker → Type 0
Agrees b =
    ((b.state ≡ closed) × (b.failures < b.threshold))
    ⊎ ((b.state ≡ opened) × (b.threshold ≤ b.failures))

record_failure-Agrees :
    (t : ℕ) (b : Breaker) → (b.state ≡ closed) ⊎ Agrees b → Agrees (record_failure t b).breaker
unfolding record_failure
record_failure-Agrees t b h = ground arith

record_failure-count :
    (t : ℕ) (b : Breaker)
    → let b' = (record_failure t b).breaker in
      (b'.failures ≡ suc b.failures) × (b'.threshold ≡ b.threshold)
unfolding record_failure
record_failure-count t b = ground arith

fail_all-Agrees :
    (b : Breaker) (ts : List ℕ)
    → Agrees b
    → let b' = fail_all b ts in
      Agrees b' × (b'.failures ≡ b.failures + length ts) × (b'.threshold ≡ b.threshold)
fail_all-Agrees b [] h = (h, omega arith, refl)
fail_all-Agrees b (t ∷ ts) h =
    let (a, n, k) =
      fail_all-Agrees (record_failure t b).breaker ts (record_failure-Agrees t b (inr h)) in
    let (m, l) = record_failure-count t b in (a, omega arith, omega arith)

-- A run of failures, none of them followed by a success, opens a closed circuit exactly when the
-- failures counted so far and the run's together reach the threshold.
pub fail_all-opened :
    (b : Breaker) (t : ℕ) (ts : List ℕ)
    → b.state ≡ closed
    → ((fail_all b (t ∷ ts)).state ≡ opened) ↔ (b.threshold ≤ b.failures + length (t ∷ ts))
fail_all-opened b t ts h =
    let (a, n, k) =
      fail_all-Agrees (record_failure t b).breaker ts (record_failure-Agrees t b (inl h)) in
    let (m, l) = record_failure-count t b in (λ o. ground arith, λ o. ground arith)

-- The circuit is reported open exactly from its opening until the cool-down has run out, and the
-- call that finds it run out leaves it half open.
pub is_open_lem :
    (f : Fetched) (now : ℕ) (b : Breaker)
    → let h = hydrate f b in
      (((is_open f now b).result ≡ true)
        ↔ ((h.state ≡ opened) × (now < h.opened_at + h.cool_down_ms)))
      × (h.state ≡ opened
          → h.opened_at + h.cool_down_ms ≤ now
          → (is_open f now b).breaker.state ≡ half_open)
unfolding is_open
is_open_lem f now b = ((λ h. ground arith, λ h. ground arith), λ h k. ground arith)

-- The failures that opened the circuit are still counted while it is open or half open.
abbrev pub IsTripped : CircuitState → ℕ → ℕ → Type 0
IsTripped s failures threshold = (s ≡ closed) ⊎ (threshold ≤ failures)

-- An entry that another process wrote is one that a breaker with the same threshold can be in.
abbrev pub IsFair : ℕ → Op → Type 0
IsFair threshold (asks (found e) now) = IsTripped e.state e.failures threshold
IsFair threshold _ = Unit

-- Every call keeps the count of failures at the threshold while the circuit is not closed, given
-- that what is read from the shared entry keeps to it.
pub step-IsTripped :
    (b : Breaker) (op : Op)
    → IsFair b.threshold op
    → IsTripped b.state b.failures b.threshold
    → let b' = step b op in IsTripped b'.state b'.failures b'.threshold
unfolding step
step-IsTripped b (asks f now) fair h = ground arith
step-IsTripped b succeeds fair h = ground arith
step-IsTripped b (fails now) fair h = ground arith

-- So one failure opens a half-open circuit again, at its own time.
pub half_open-record_failure :
    (b : Breaker) (now : ℕ)
    → IsTripped b.state b.failures b.threshold
    → b.state ≡ half_open
    → let b' = (record_failure now b).breaker in (b'.state ≡ opened) × (b'.opened_at ≡ now)
unfolding record_failure
half_open-record_failure b now t h = ground arith

-- Failures and successes, with no question whether the circuit is open.
abbrev pub IsFailure : Op → Type 0
IsFailure (fails now) = Unit
IsFailure _ = ⊥

abbrev pub steps : Breaker → List Op → Breaker
steps b [] = b
steps b (op ∷ ops) = steps (step b op) ops

step-opened : (b : Breaker) (op : Op) → IsFailure op → b.state ≡ opened → (step b op).state ≡ opened
unfolding step
step-opened b (fails now) _ h = ground arith
step-opened b (asks f now) f' h = absurd f'
step-opened b succeeds f' h = absurd f'

-- An open circuit that is never asked stays open, whatever time passes, until a success.
pub steps-opened :
    (b : Breaker) (ops : List Op)
    → All IsFailure ops
    → b.state ≡ opened
    → (steps b ops).state ≡ opened
steps-opened b [] f h = h
steps-opened b (op ∷ ops) f h = steps-opened (step b op) ops f.1 (step-opened b op f.0 h)
