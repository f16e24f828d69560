-- ===== src/Retry/Loop/Delays.antt =====
-- The bounds of a delay (src/utils/retry.ts).
use crash.Prelude.{ℕ, ◌+◌, ◌-◌, ◌*◌, ◌≤◌, get_or_else, arith}
use crash.Retry.Loop.{RetryOptions, capped, calculate_delay}

capped_le : (o : RetryOptions) (attempt : ℕ) → capped o attempt ≤ get_or_else o.max_delay_ms 30000
unfolding capped
capped_le o attempt = ground arith

spread : (a p r : ℕ) → r ≤ 1000 → a + p * (2 * r) - p * 1000 ≤ a + p * 1000
spread a p r h = grind arith

-- With a factor of one at most, a delay differs from the exponential delay, cut off at its maximum,
-- by that share of it at most.
pub calculate_delay_bounds :
    (o : RetryOptions) (random attempt : ℕ)
    → get_or_else o.jitter_factor 300 ≤ 1000
    → random ≤ 1000
    → let c = capped o attempt in
      let f = get_or_else o.jitter_factor 300 in
      (c * 1000000 ≤ calculate_delay o random attempt + c * f * 1000)
      × (calculate_delay o random attempt ≤ c * 1000000 + c * f * 1000)
      × (c ≤ get_or_else o.max_delay_ms 30000)
unfolding calculate_delay
calculate_delay_bounds o random attempt h k = (
  ground arith,
  ground (
    arith,
    spread (capped o attempt * 1000000) (capped o attempt * get_or_else o.jitter_factor 300) random
        k,
  ),
  capped_le o attempt,
)
