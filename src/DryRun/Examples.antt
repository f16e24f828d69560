-- ===== src/DryRun/Examples.antt =====
-- The theorems about simulated sessions at concrete inputs (src/core/dry-run).
use crash.Prelude.{◌+◌, ◌≡◌, refl, List, [], ◌∷◌, none, some, pos, ◌+ℤ◌, lookup}
use crash.DryRun.Trades.{open_stakes}
use crash.DryRun.Ledger as Ledger
use crash.DryRun.Controller.{
  DryRunConfig, DryRunSignal, DryRunController, create, start, Op, starts, completes, evaluates,
  run, step,
}
use crash.DryRun.Controller.History.{run-Conserved}

abbrev config : DryRunConfig
config = record {
  stake = 70000;
  target = 130;
  initial_virtual_balance = 100000000;
  max_daily_virtual_trades = 2;
  min_probability = 350;
  min_confidence = 300;
}

abbrev signal : DryRunSignal
signal = record {
  signal_id = "g1";
  prediction_id = none;
  round_id = "r1";
  probability = 500;
  confidence = 500;
  target = 150;
  stake = some 10000;
}

abbrev fresh : DryRunController
fresh = create "d1" config

-- A session with a round that is won.
abbrev session : List Op
session = starts "s1" none ∷ evaluates "d1" "v1" signal ∷ completes "r1" 200 ∷ []

abbrev started : DryRunController
started = run fresh (starts "s1" none ∷ [])

run-Conserved_example :
    let l = (run fresh session).ledger in
    pos l.initial_balance +ℤ l.net_pnl ≡ pos (l.balance + open_stakes l.trades)
unfolding create run step lookup open_stakes start Ledger.create
run-Conserved_example = run-Conserved fresh session (tt, (refl, (tt, tt))) refl
