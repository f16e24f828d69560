-- ===== src/Risk/Velocity.antt =====
-- The class VelocityController of src/risk/velocity-controller.ts; Waits holds its loop that waits.
-- The time and the randoms are arguments; a random is a number of millionths.
pub mod Made
pub mod Rates
pub mod Waits
use crash.Prelude.{
  ℕ, ◌+◌, ◌-◌, ◌*◌, ◌/◌, min, max, String, Bool, true, false, not, ◌&&◌, ltb, leb, length,
  if◌then◌else◌, List, [], ◌∷◌, ◌++◌, Option, none, some,
}

pub record Config : Type 0 where
  pub enabled : Bool
  pub max_actions_per_minute : ℕ
  pub max_actions_per_hour : ℕ
  pub min_action_interval_ms : ℕ
  pub max_action_interval_ms : ℕ
  pub idle_probability : ℕ
  pub min_idle_ms : ℕ
  pub max_idle_ms : ℕ
  pub cash_out_jitter_ms : ℕ

pub record Action : Type 0 where
  pub timestamp : ℕ
  pub type : String

pub record VelocityController : Type 0 where
  pub history : List Action
  pub last_action_at : ℕ
  pub config : Config

pub data Reason : Type 0 where
  max_per_minute max_per_hour min_interval human_idle max_wait_exceeded : Reason

pub record Decision : Type 0 where
  pub allowed : Bool
  pub wait_ms : ℕ
  pub reason : Option Reason

-- The randoms of a call, in the order of their draws.
pub record Randoms : Type 0 where
  pub interval : ℕ
  pub idle : ℕ
  pub idle_length : ℕ

abbrev pub create : Config → VelocityController
create c = record { history = []; last_action_at = 0; config = c }

-- `now - h.timestamp < window`, with the time of the action added on both sides.
abbrev pub within : ℕ → ℕ → Action → Bool
within window now h = ltb now (h.timestamp + window)

unfoldable pub filter_actions : (Action → Bool) → List Action → List Action
filter_actions p [] = []
filter_actions p (h ∷ hs) = let rest = filter_actions p hs in if p h then h ∷ rest else rest

unfoldable pub prune : ℕ → VelocityController → VelocityController
prune now c = record c { history = filter_actions (λ h. leb now (h.timestamp + 3600000)) c.history }

-- The length of a window.
unfoldable pub count_within : ℕ → ℕ → List Action → ℕ
count_within window now hs = length (filter_actions (within window now) hs)

unfoldable pub oldest : List Action → Option ℕ
oldest [] = none
oldest (h ∷ hs) = elim (oldest hs) [ none ↦ some h.timestamp | some t ↦ some (min h.timestamp t) ]

abbrev wait_for : ℕ → Option ℕ → ℕ
wait_for now none = 60000
wait_for now (some t) = max 1000 (t + 60000 - now)

-- For bounds in order.
abbrev pub random_between : ℕ → ℕ → ℕ → ℕ
random_between r low high = r * (high + 1 - low) / 1000000 + low

abbrev pub refuse : ℕ → Reason → Decision
refuse wait r = record { allowed = false; wait_ms = wait; reason = some r }

abbrev allow : Decision
allow = record { allowed = true; wait_ms = 0; reason = none }

unfoldable pub decide : Randoms → ℕ → VelocityController → Decision
decide r now c =
    let interval =
      random_between r.interval c.config.min_action_interval_ms c.config.max_action_interval_ms in
    if leb c.config.max_actions_per_minute (count_within 60000 now c.history)
    then refuse (wait_for now (oldest (filter_actions (within 60000 now) c.history))) max_per_minute
    else if leb c.config.max_actions_per_hour (count_within 3600000 now c.history)
    then refuse 30000 max_per_hour
    else if ltb 0 c.last_action_at && ltb now (c.last_action_at + interval)
    then refuse (c.last_action_at + interval - now) min_interval
    else if ltb r.idle c.config.idle_probability
    then refuse (random_between r.idle_length c.config.min_idle_ms c.config.max_idle_ms) human_idle
    else allow

-- `if (!this.config.enabled)`.
unfoldable pub acquire_if : Bool → Randoms → ℕ → VelocityController → VelocityController × Decision
unfolding decide
acquire_if false r now c = (c, allow)
acquire_if true r now c = let c' = prune now c in (c', decide r now c')

unfoldable pub acquire : Randoms → ℕ → VelocityController → VelocityController × Decision
unfolding acquire_if
acquire r now c = acquire_if c.config.enabled r now c

unfoldable pub record_action : String → ℕ → VelocityController → VelocityController
record_action type now c = record c {
  history = c.history ++ record { timestamp = now; type = type } ∷ [];
  last_action_at = now;
}

unfoldable pub get_cash_out_jitter : ℕ → VelocityController → ℕ
get_cash_out_jitter r c =
    if not c.config.enabled then 0 else r * (c.config.cash_out_jitter_ms + 1) / 1000000

-- An action of a caller: it asks at a time, and records the action after so many milliseconds if it
-- is allowed.
pub record Attempt : Type 0 where
  pub type : String
  pub randoms : Randoms
  pub at : ℕ
  pub delay : ℕ

settle : Attempt → VelocityController × Decision → VelocityController
settle a (c, d) = if d.allowed then record_action a.type (a.at + a.delay) c else c

unfoldable pub attempt : Attempt → VelocityController → VelocityController
unfolding settle
attempt a c = settle a (acquire a.randoms a.at c)

unfoldable pub run : VelocityController → List Attempt → VelocityController
run c [] = c
run c (a ∷ rest) = run (attempt a c) rest
