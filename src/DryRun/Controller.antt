-- ===== src/DryRun/Controller.antt =====
-- The class DryRunController of src/core/dry-run/dry-run-controller.ts, with a virtual ledger of its
-- own. Probabilities and confidences are thousandths. The key of the present day and the identifier
-- that `randomUUID()` makes are arguments; the texts of the reasons are left out.
pub mod History
pub mod Once
pub mod Tally
use text.Mathlib.Text.{◌==◌ as str_eq}
use crash.Prelude.{
  ℕ, suc, String, Bool, true, false, not, ltb, leb, ◌==◌, get_or_else, if◌then◌else◌, List, [], ◌∷◌,
  Option, none, some,
}
use crash.DryRun.Trades.{Trade}
use crash.DryRun.Ledger as Ledger
use crash.DryRun.Ledger.{VirtualTradeLedger, TradeParams, open_trade, resolve_round}

pub record DryRunConfig : Type 0 where
  pub stake : ℕ
  pub target : ℕ
  pub initial_virtual_balance : ℕ
  pub max_daily_virtual_trades : ℕ
  pub min_probability : ℕ
  pub min_confidence : ℕ

pub record DryRunSignal : Type 0 where
  pub signal_id : String
  pub prediction_id : Option String
  pub round_id : String
  pub probability : ℕ
  pub confidence : ℕ
  pub target : ℕ
  pub stake : Option ℕ

pub record DryRunController : Type 0 where
  pub cfg : DryRunConfig
  pub ledger : VirtualTradeLedger
  pub daily_trades : ℕ
  pub daily_key : String
  pub predictions : ℕ
  pub signals : ℕ
  pub signals_accepted : ℕ
  pub signals_rejected : ℕ
  pub rounds_observed : ℕ
  pub session_id : Option String
  pub tenant_id : Option String
  pub running : Bool

unfoldable pub create : String → DryRunConfig → DryRunController
create key cfg = record {
  cfg = cfg;
  ledger = Ledger.create cfg.initial_virtual_balance;
  daily_trades = 0;
  daily_key = key;
  predictions = 0;
  signals = 0;
  signals_accepted = 0;
  signals_rejected = 0;
  rounds_observed = 0;
  session_id = none;
  tenant_id = none;
  running = false;
}

unfoldable pub start : String → Option String → DryRunController → DryRunController
start session tenant c = record c { session_id = some session; tenant_id = tenant; running = true }

unfoldable pub stop : DryRunController → DryRunController
stop c = record c { running = false }

unfoldable pub on_round_completed : String → ℕ → DryRunController → DryRunController
on_round_completed round crash c = if not c.running then c else record c {
  rounds_observed = suc c.rounds_observed;
  ledger = (resolve_round round crash c.ledger).0;
}

unfoldable pub record_prediction : DryRunController → DryRunController
record_prediction c = record c { predictions = suc c.predictions }

unfoldable pub roll_daily : String → DryRunController → DryRunController
roll_daily key c =
    if str_eq key c.daily_key then c else record c { daily_key = key; daily_trades = 0 }

pub data Reason : Type 0 where
  not_running low_probability low_confidence daily_limit ledger_rejected : Reason

abbrev reject : Reason → DryRunController → DryRunController × Option Reason
reject r c = (record c { signals_rejected = suc c.signals_rejected }, some r)

-- `signal.target || cfg.target`.
abbrev or_configured : ℕ → ℕ → ℕ
or_configured target configured = if target == 0 then configured else target

abbrev pub params : String → DryRunSignal → DryRunController → TradeParams
params id s c = record {
  virtual_trade_id = id;
  tenant_id = c.tenant_id;
  session_id = c.session_id;
  prediction_id = s.prediction_id;
  signal_id = some s.signal_id;
  round_id = s.round_id;
  stake = get_or_else s.stake c.cfg.stake;
  target = or_configured s.target c.cfg.target;
}

-- What becomes of the ledger's answer.
pub simulated :
    VirtualTradeLedger × Option Trade → DryRunController → DryRunController × Option Reason
simulated (l, none) c = reject ledger_rejected (record c { ledger = l })
simulated (l, some t) c = (
  record c {
    ledger = l;
    daily_trades = suc c.daily_trades;
    signals_accepted = suc c.signals_accepted;
  },
  none,
)

-- The tests of a signal that has been counted, on its day.
simulate : String → DryRunSignal → DryRunController → DryRunController × Option Reason
unfolding simulated
simulate id s c =
    if ltb s.probability c.cfg.min_probability
    then reject low_probability c
    else if ltb s.confidence c.cfg.min_confidence
    then reject low_confidence c
    else if leb c.cfg.max_daily_virtual_trades c.daily_trades
    then reject daily_limit c
    else simulated (open_trade (params id s c) c.ledger) c

-- The answer is `none` where the signal is accepted.
unfoldable pub evaluate_and_simulate :
    String → String → DryRunSignal → DryRunController → DryRunController × Option Reason
unfolding simulate
evaluate_and_simulate key id s c =
    if not c.running
    then (c, some not_running)
    else simulate id s (roll_daily key (record c { signals = suc c.signals }))

-- The calls of a controller, and a history of them.
pub data Op : Type 0 where
  starts : String → Option String → Op
  stops predicts : Op
  completes : String → ℕ → Op
  evaluates : String → String → DryRunSignal → Op

unfoldable pub step : DryRunController → Op → DryRunController
step c (starts session tenant) = start session tenant c
step c stops = stop c
step c predicts = record_prediction c
step c (completes round crash) = on_round_completed round crash c
step c (evaluates key id s) = (evaluate_and_simulate key id s c).0

unfoldable pub run : DryRunController → List Op → DryRunController
run c [] = c
run c (op ∷ ops) = run (step c op) ops
