-- ===== src/DryRun/Trades.antt =====
-- The trades of src/core/dry-run/virtual-ledger.ts and the maps that
-- hold them. Stakes, targets and crash points are hundredths, profits and balances
-- units of 1e-4, so that a stake times a target is a payout. The times of a trade are left out.
use crash.Prelude.{ℕ, ◌+◌, ◌*◌, String, Bool, true, false, if◌then◌else◌, List, [], ◌∷◌, Option, ℤ}

-- `OPEN` is `opened`.
pub data Status : Type 0 where
  opened win loss cancelled : Status

pub record Trade : Type 0 where
  pub virtual_trade_id : String
  pub tenant_id : Option String
  pub session_id : Option String
  pub prediction_id : Option String
  pub signal_id : Option String
  pub round_id : String
  pub stake : ℕ
  pub target : ℕ
  pub status : Status
  pub crash_point : Option ℕ
  pub pnl : Option ℤ

abbrev pub is_open : Status → Bool
is_open opened = true
is_open _ = false

abbrev pub Trades : Type 0
Trades = List (String × Trade)

abbrev pub Rounds : Type 0
Rounds = List (String × List String)

-- The stakes of the open trades, in units of 1e-4, and their number.
abbrev pub open_stake : Trade → ℕ
open_stake t = if is_open t.status then t.stake * 100 else 0

unfoldable pub open_stakes : Trades → ℕ
open_stakes [] = 0
open_stakes ((k, t) ∷ m) = open_stake t + open_stakes m

unfoldable pub open_count : Trades → ℕ
open_count [] = 0
open_count ((k, t) ∷ m) = (if is_open t.status then 1 else 0) + open_count m
