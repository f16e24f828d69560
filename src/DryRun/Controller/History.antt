-- ===== src/DryRun/Controller/History.antt =====
-- Histories of a simulated session (src/core/dry-run/dry-run-controller.ts).
use crash.Prelude.{
  suc, ◌+◌, ◌≡◌, refl, sym, ap, ◌∙◌, String, List, [], ◌∷◌, Option, none, some, arith, pos, ◌+ℤ◌,
  Leads-eq, get_or_else, subst, if-either, inl, ◌⊎◌, inr, Bool-cases, lookup,
}
use crash.DryRun.Trades.{Trade, open_stakes}
use crash.DryRun.Ledger.{VirtualTradeLedger, TradeParams, open_trade, resolve_round, resolve_ids}
use crash.DryRun.Ledger.Conserved.{Conserved, open_trade-Conserved, resolve_ids-Conserved}
use crash.DryRun.Controller.{
  DryRunController, DryRunSignal, evaluate_and_simulate, simulate, simulated, roll_daily, params,
  on_round_completed, start, stop, record_prediction, Op, starts, stops, predicts, completes,
  evaluates, step, run, not, not_running, ltb, leb,
}

-- Every identifier that `randomUUID()` made is new to the ledger.
abbrev pub IsFresh : DryRunController → Op → Type 0
IsFresh c (evaluates key id s) = lookup id c.ledger.trades ≡ none
IsFresh c _ = Unit

abbrev pub AllFresh : DryRunController → List Op → Type 0
AllFresh c [] = Unit
AllFresh c (op ∷ ops) = IsFresh c op × AllFresh (step c op) ops

pub simulated-ledger :
    (l : VirtualTradeLedger) (o : Option Trade) (c : DryRunController)
    → (simulated (l, o) c).0.ledger ≡ l
unfolding simulated
simulated-ledger l none c = refl
simulated-ledger l (some t) c = refl

-- The ledger that a signal leaves is the one before it, or the one that its trade leaves.
simulate-ledger :
    (id : String) (s : DryRunSignal) (c : DryRunController)
    → ((simulate id s c).0.ledger ≡ c.ledger)
      ⊎ ((simulate id s c).0.ledger ≡ (open_trade (params id s c) c.ledger).0)
unfolding simulate
simulate-ledger id s c =
    let e =
      simulated-ledger (open_trade (params id s c) c.ledger).0
        (open_trade (params id s c) c.ledger).1 c in
    elim (Bool-cases (ltb s.probability c.cfg.min_probability)) [
      | inl p ↦ inl (ground arith)
      | inr p ↦ elim (Bool-cases (ltb s.confidence c.cfg.min_confidence)) [
        | inl q ↦ inl (ground arith)
        | inr q ↦ elim (Bool-cases (leb c.cfg.max_daily_virtual_trades c.daily_trades)) [
          | inl r ↦ inl (ground arith)
          | inr r ↦ inr (ground arith)
        ]
      ]
    ]

simulate-either :
    (P : VirtualTradeLedger → Type 0) (id : String) (s : DryRunSignal) (c : DryRunController)
    → P c.ledger
    → P (open_trade (params id s c) c.ledger).0
    → P (simulate id s c).0.ledger
simulate-either P id s c h k = elim (simulate-ledger id s c) [
  | inl e ↦ subst P (sym e) h
  | inr e ↦ subst P (sym e) k
]

pub roll_daily-ledger : (key : String) (c : DryRunController) → (roll_daily key c).ledger ≡ c.ledger
unfolding roll_daily
roll_daily-ledger key c = ground arith

pub evaluate-either :
    (P : VirtualTradeLedger → Type 0) (key id : String) (s : DryRunSignal) (c : DryRunController)
    → P c.ledger
    → ((p : TradeParams) → p.virtual_trade_id ≡ id → P (open_trade p c.ledger).0)
    → P (evaluate_and_simulate key id s c).0.ledger
unfolding evaluate_and_simulate
evaluate-either P key id s c h k =
    let d = roll_daily key (record c { signals = suc c.signals }) in
    let e = roll_daily-ledger key (record c { signals = suc c.signals }) in
    if-either (λ x. P x.0.ledger) (not c.running) (c, some not_running) (simulate id s d) h
      (simulate-either P id s d (subst P (sym e) h)
        (subst (λ l. P (open_trade (params id s d) l).0) (sym e) (k (params id s d) refl)))

step-Conserved :
    (c : DryRunController) (op : Op)
    → IsFresh c op
    → Conserved c.ledger
    → Conserved (step c op).ledger
unfolding step start stop record_prediction on_round_completed resolve_round
step-Conserved c (starts session tenant) f h = h
step-Conserved c stops f h = h
step-Conserved c predicts f h = h
step-Conserved c (completes round crash) f h =
    let l = (resolve_ids crash (get_or_else (lookup round c.ledger.by_round) []) c.ledger).0 in
    if-either (λ d. Conserved d.ledger) (not c.running) c
      (record c { rounds_observed = suc c.rounds_observed; ledger = l }) h
      (resolve_ids-Conserved crash (get_or_else (lookup round c.ledger.by_round) []) c.ledger h)
step-Conserved c (evaluates key id s) f h =
    evaluate-either Conserved key id s c h
      (λ p e. open_trade-Conserved p c.ledger (ap (λ k. lookup k c.ledger.trades) e ∙ f) h)

history-Conserved :
    (c : DryRunController) (ops : List Op)
    → AllFresh c ops
    → Conserved c.ledger
    → Conserved (run c ops).ledger
unfolding run
history-Conserved c [] f h = h
history-Conserved c (op ∷ ops) f h =
    history-Conserved (step c op) ops f.1 (step-Conserved c op f.0 h)

-- Over every history in which the identifiers of trades are new, from a ledger whose opening balance
-- and profits make up its balance and the stakes of its open trades, they still do.
pub run-Conserved :
    (c : DryRunController) (ops : List Op)
    → AllFresh c ops
    → Conserved c.ledger
    → let l = (run c ops).ledger in
      pos l.initial_balance +ℤ l.net_pnl ≡ pos (l.balance + open_stakes l.trades)
run-Conserved c ops f h =
    let l = (run c ops).ledger in
    Leads-eq l.initial_balance l.net_pnl (l.balance + open_stakes l.trades)
      (history-Conserved c ops f h)
