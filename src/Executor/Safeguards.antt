-- ===== src/Executor/Safeguards.antt =====
-- The checks before a placement: src/betting/execution-safeguards.ts. Amounts are hundredths. What
-- the balance tracker answers is an argument. Of a latency sample the operation and whether it
-- exceeded its threshold are kept, which is all that the health reads.
use crash.Prelude.{
  ℕ, ◌+◌, ◌*◌, String, Bool, true, false, not, ltb, leb, ◌||◌, if◌then◌else◌, List, Option, none,
  some, keep, length,
}
use crash.Daily.Counter.{Counter, get_count}

pub data Operation : Type 0 where
  placed cashed_out other : Operation

pub record Sample : Type 0 where
  pub operation : Operation
  pub exceeded : Bool

pub record SafeguardsConfig : Type 0 where
  pub min_balance_for_entry : ℕ
  pub balance_buffer : ℕ
  pub mode_is_live : Bool
  pub max_daily_entries : ℕ

-- The conservative balance, or the current one where there is none.
pub record Tracker : Type 0 where
  pub unparseable : Bool
  pub balance : Option ℕ

pub data Health : Type 0 where
  healthy degraded critical : Health

abbrev is_placed : Sample → Bool
is_placed s = elim (s.operation) [ placed ↦ true | _ ↦ false ]

abbrev is_cashed_out : Sample → Bool
is_cashed_out s = elim (s.operation) [ cashed_out ↦ true | _ ↦ false ]

-- `violations / samples > share`, the share in tenths; no samples make a rate of zero.
rate_above : ℕ → List Sample → Bool
rate_above share samples =
    ltb (share * length samples) (10 * length (keep (λ s. s.exceeded) samples))

unfoldable pub get_health_status : List Sample → Health
unfolding rate_above
get_health_status history =
    let p = keep is_placed history in
    let c = keep is_cashed_out history in
    if rate_above 5 p || rate_above 5 c
    then critical
    else if rate_above 2 p || rate_above 2 c
    then degraded
    else healthy

pub data Refusal : Type 0 where
  mode_not_live balance_unparseable balance_unknown : Refusal
  insufficient_balance : ℕ → ℕ → Refusal
  daily_limit_reached : ℕ → ℕ → Refusal
  health_critical : Refusal

abbrev is_critical : Health → Bool
is_critical critical = true
is_critical _ = false

check_entries : SafeguardsConfig → ℕ → List Sample → Option Refusal
check_entries c entries history =
    if leb c.max_daily_entries entries
    then some (daily_limit_reached entries c.max_daily_entries)
    else if is_critical (get_health_status history)
    then some health_critical
    else none

-- The daily counter is read, and so rolled over, only where the balance suffices.
check_balance :
    SafeguardsConfig → String → Option ℕ → ℕ → List Sample → Counter → Counter × Option Refusal
unfolding check_entries
check_balance c key none stake history counter = (counter, some balance_unknown)
check_balance c key (some b) stake history counter =
    let required = c.min_balance_for_entry + c.balance_buffer + stake in
    let (counter', entries) = get_count key counter in
    if ltb b required
    then (counter, some (insufficient_balance b required))
    else (counter', check_entries c entries history)

-- The answer is `none` where the placement is approved.
unfoldable pub check_pre_flight :
    SafeguardsConfig → String → Tracker → ℕ → List Sample → Counter → Counter × Option Refusal
unfolding check_balance
check_pre_flight c key t stake history counter =
    if not c.mode_is_live
    then (counter, some mode_not_live)
    else if t.unparseable
    then (counter, some balance_unparseable)
    else check_balance c key t.balance stake history counter
