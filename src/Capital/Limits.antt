-- ===== src/Capital/Limits.antt =====
-- The class InMemoryCapitalGuard of src/capital/in-memory-limits.ts. Amounts are hundredths, and
-- the share of the drawdown limit is in units of 1e-4, compared without division.
pub mod Drawdown
use crash.Prelude.{
  ℕ, ◌-◌, ◌*◌, Bool, true, false, ltb, leb, if◌then◌else◌, List, [], ◌∷◌, Option, none, some,
  get_or_else,
}

pub record CapitalLimitsConfig : Type 0 where
  pub max_drawdown_abs : ℕ
  pub max_drawdown_pct : ℕ
  pub panic_balance_floor : ℕ
  pub max_stake : ℕ
  pub starting_bankroll : ℕ

pub data Reason : Type 0 where
  panic_floor : ℕ → ℕ → Reason
  max_drawdown_abs : ℕ → ℕ → Reason
  max_drawdown_pct : ℕ → ℕ → ℕ → Reason
  capital_locked : Reason
  stake_exceeds_max : ℕ → ℕ → Reason
  insufficient_balance would_breach_panic_floor : Reason

pub record Guard : Type 0 where
  pub peak_bankroll : ℕ
  pub current_bankroll : ℕ
  pub locked : Bool
  pub lock_reason : Option Reason
  pub config : CapitalLimitsConfig

unfoldable pub create : CapitalLimitsConfig → Guard
create config = record {
  peak_bankroll = config.starting_bankroll;
  current_bankroll = config.starting_bankroll;
  locked = false;
  lock_reason = none;
  config = config;
}

abbrev lock : Reason → Guard → Guard
lock r g = record g { locked = true; lock_reason = some r }

-- `drawdownPct >= maxDrawdownPct`, where the share of a peak of nothing is nothing.
share_reached : ℕ → ℕ → ℕ → Bool
share_reached peak drawdown pct =
    if ltb 0 peak then leb (pct * peak) (drawdown * 10000) else leb pct 0

-- A private step of `updateBalance`: after it the peak is no less than the balance.
unfoldable pub evaluate : Guard → Guard
unfolding share_reached
evaluate g =
    let drawdown = g.peak_bankroll - g.current_bankroll in
    if leb g.current_bankroll g.config.panic_balance_floor
    then lock (panic_floor g.current_bankroll g.config.panic_balance_floor) g
    else if leb g.config.max_drawdown_abs drawdown
    then lock (max_drawdown_abs drawdown g.config.max_drawdown_abs) g
    else if share_reached g.peak_bankroll drawdown g.config.max_drawdown_pct
    then lock (max_drawdown_pct drawdown g.peak_bankroll g.config.max_drawdown_pct) g
    else g

raise_peak : ℕ → Guard → Guard
raise_peak balance g =
    if ltb g.peak_bankroll balance
    then record g { current_bankroll = balance; peak_bankroll = balance }
    else record g { current_bankroll = balance }

unfoldable pub update_balance : ℕ → Guard → Guard
unfolding raise_peak
update_balance balance g = evaluate (raise_peak balance g)

-- The answer is `none` where the bet is allowed, and the reason where it is not.
unfoldable pub can_place_bet : ℕ → Guard → Option Reason
can_place_bet stake g =
    if g.locked
    then some (get_or_else g.lock_reason capital_locked)
    else if ltb g.config.max_stake stake
    then some (stake_exceeds_max stake g.config.max_stake)
    else if ltb g.current_bankroll stake
    then some insufficient_balance
    else if ltb (g.current_bankroll - stake) g.config.panic_balance_floor
    then some would_breach_panic_floor
    else none

unfoldable pub unlock : Guard → Guard
unlock g = record g { locked = false; lock_reason = none }

-- A history of balances.
unfoldable pub update_all : Guard → List ℕ → Guard
update_all g [] = g
update_all g (b ∷ bs) = update_all (update_balance b g) bs
