-- ===== src/DryRun/Controller/Tally.antt =====
-- The counts of a simulated session (src/core/dry-run/dry-run-controller.ts).
use crash.Prelude.{
  suc, ◌+◌, ◌≤◌, ◌≡◌, String, Option, none, some, List, [], ◌∷◌, arith, Bool-cases, leb, not, inl,
  inr, if-either,
}
use crash.DryRun.Trades.{Trade}
use crash.DryRun.Ledger.{VirtualTradeLedger, open_trade}
use crash.DryRun.Controller.{
  DryRunController, DryRunSignal, evaluate_and_simulate, simulate, simulated, roll_daily, params,
  on_round_completed, start, stop, record_prediction, Op, starts, stops, predicts, completes,
  evaluates, step, run, not_running,
}

-- Every signal was accepted or rejected, and the trades of the day are within their limit.
pub record Tallied (c : DryRunController) : Type 0 where
  pub counted : c.signals ≡ c.signals_accepted + c.signals_rejected
  pub limited : c.daily_trades ≤ c.cfg.max_daily_virtual_trades

simulated-tally :
    (l : VirtualTradeLedger) (o : Option Trade) (c : DryRunController)
    → c.signals ≡ suc (c.signals_accepted + c.signals_rejected)
    → suc c.daily_trades ≤ c.cfg.max_daily_virtual_trades
    → Tallied (simulated (l, o) c).0
unfolding simulated
simulated-tally l none c h k = record { counted = omega arith; limited = omega arith }
simulated-tally l (some t) c h k = record { counted = omega arith; limited = omega arith }

simulate-Tallied :
    (id : String) (s : DryRunSignal) (c : DryRunController)
    → c.signals ≡ suc (c.signals_accepted + c.signals_rejected)
    → c.daily_trades ≤ c.cfg.max_daily_virtual_trades
    → Tallied (simulate id s c).0
unfolding simulate
simulate-Tallied id s c h k =
    let (l, o) = open_trade (params id s c) c.ledger in
    elim (Bool-cases (leb c.cfg.max_daily_virtual_trades c.daily_trades)) [
      | inl r ↦ record { counted = ground arith; limited = ground arith }
      | inr r ↦
          let t = simulated-tally l o c h (ground arith) in
          let a = t.counted in
          let b = t.limited in record { counted = ground arith; limited = ground arith }
    ]

step-Tallied : (c : DryRunController) (op : Op) → Tallied c → Tallied (step c op)
unfolding step start stop record_prediction on_round_completed evaluate_and_simulate roll_daily
step-Tallied c (starts session tenant) h = record { counted = h.counted; limited = h.limited }
step-Tallied c stops h = record { counted = h.counted; limited = h.limited }
step-Tallied c predicts h = record { counted = h.counted; limited = h.limited }
step-Tallied c (completes round crash) h = record { counted = ground arith; limited = ground arith }
step-Tallied c (evaluates key id s) h =
    let d = roll_daily key (record c { signals = suc c.signals }) in
    if-either (λ x. Tallied x.0) (not c.running) (c, some not_running) (simulate id s d) h
      (simulate-Tallied id s d (ground arith) (ground arith))

-- Over every history, the signals that were counted are those that were accepted and those that were
-- rejected, and no day has more trades than its limit.
pub run-Tallied : (c : DryRunController) (ops : List Op) → Tallied c → Tallied (run c ops)
unfolding run
run-Tallied c [] h = h
run-Tallied c (op ∷ ops) h = run-Tallied (step c op) ops (step-Tallied c op h)
