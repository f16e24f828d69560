-- ===== src/DryRun/Ledger.antt =====
-- The class VirtualTradeLedger of src/core/dry-run/virtual-ledger.ts.
pub mod Conserved
pub mod Once
use text.Mathlib.Text.{◌==◌ as str_eq}
use crash.Prelude.{
  ℕ, suc, ◌+◌, ◌-◌, ◌*◌, String, Bool, true, false, not, ltb, leb, ◌&&◌, any, is_falsy, get_or_else,
  if◌then◌else◌, List, [], ◌∷◌, ◌++◌, Option, none, some, ℤ, pos, sub, ◌+ℤ◌, insert, lookup,
}
use crash.DryRun.Trades.{opened, win, loss, Trade, is_open, Trades, Rounds, open_count}

-- A share, as its two parts.
pub record Share : Type 0 where
  pub part : ℕ
  pub whole : ℕ

pub record VirtualTradeLedger : Type 0 where
  pub trades : Trades
  pub by_round : Rounds
  pub by_signal : List String
  pub balance : ℕ
  pub initial_balance : ℕ
  pub peak_equity : ℕ
  pub max_drawdown : Share
  pub wins : ℕ
  pub losses : ℕ
  pub net_pnl : ℤ

unfoldable pub create : ℕ → VirtualTradeLedger
create initial = record {
  trades = [];
  by_round = [];
  by_signal = [];
  balance = initial;
  initial_balance = initial;
  peak_equity = initial;
  max_drawdown = record { part = 0; whole = 1 };
  wins = 0;
  losses = 0;
  net_pnl = pos 0;
}

abbrev above : Share → Share → Bool
above s t = ltb (t.part * s.whole) (s.part * t.whole)

abbrev drawdown : ℕ → ℕ → Share
drawdown peak balance =
    if ltb 0 peak
    then record { part = peak - balance; whole = peak }
    else record { part = 0; whole = 1 }

unfoldable pub update_drawdown : VirtualTradeLedger → VirtualTradeLedger
update_drawdown l =
    let peak = if ltb l.peak_equity l.balance then l.balance else l.peak_equity in
    let dd = drawdown peak l.balance in
    record l {
      peak_equity = peak;
      max_drawdown = if above dd l.max_drawdown then dd else l.max_drawdown;
    }

pub record TradeParams : Type 0 where
  pub virtual_trade_id : String
  pub tenant_id : Option String
  pub session_id : Option String
  pub prediction_id : Option String
  pub signal_id : Option String
  pub round_id : String
  pub stake : ℕ
  pub target : ℕ

-- `signalId && bySignal.has(signalId)`, and the addition of a signal. An empty text is no signal.
abbrev pub seen : Option String → List String → Bool
seen none known = false
seen (some s) known = not (is_falsy (some s)) && any (λ k. str_eq k s) known

abbrev pub remember : Option String → List String → List String
remember none known = known
remember (some s) known = if is_falsy (some s) then known else s ∷ known

abbrev pub new_trade : TradeParams → Trade
new_trade p = record {
  virtual_trade_id = p.virtual_trade_id;
  tenant_id = p.tenant_id;
  session_id = p.session_id;
  prediction_id = p.prediction_id;
  signal_id = p.signal_id;
  round_id = p.round_id;
  stake = p.stake;
  target = p.target;
  status = opened;
  crash_point = none;
  pnl = none;
}

unfoldable pub open_trade : TradeParams → VirtualTradeLedger → VirtualTradeLedger × Option Trade
open_trade p l =
    if seen p.signal_id l.by_signal
    then (l, none)
    else if ltb l.balance (p.stake * 100)
    then (l, none)
    else (
      update_drawdown (record l {
        trades = insert p.virtual_trade_id (new_trade p) l.trades;
        by_round =
            insert p.round_id
              (get_or_else (lookup p.round_id l.by_round) [] ++ p.virtual_trade_id ∷ []) l.by_round;
        by_signal = remember p.signal_id l.by_signal;
        balance = l.balance - p.stake * 100;
      }),
      some (new_trade p),
    )

abbrev pub won : ℕ → Trade → Trade
won crash t = record t {
  status = win;
  pnl = some (sub (t.stake * t.target) (t.stake * 100));
  crash_point = some crash;
}

abbrev pub lost : ℕ → Trade → Trade
lost crash t = record t {
  status = loss;
  pnl = some (sub 0 (t.stake * 100));
  crash_point = some crash;
}

-- The body of the loop for an open trade.
unfoldable pub resolve : ℕ → String → Trade → VirtualTradeLedger → VirtualTradeLedger × Trade
resolve crash id t l =
    if leb t.target crash
    then (
      update_drawdown (record l {
        trades = insert id (won crash t) l.trades;
        balance = l.balance + t.stake * t.target;
        wins = suc l.wins;
        net_pnl = l.net_pnl +ℤ sub (t.stake * t.target) (t.stake * 100);
      }),
      won crash t,
    )
    else (
      update_drawdown (record l {
        trades = insert id (lost crash t) l.trades;
        losses = suc l.losses;
        net_pnl = l.net_pnl +ℤ sub 0 (t.stake * 100);
      }),
      lost crash t,
    )

-- `!trade || trade.status !== 'OPEN'` leaves an identifier out.
resolve_if : Bool → ℕ → String → Trade → VirtualTradeLedger → VirtualTradeLedger × List Trade
resolve_if true crash id t l = let (l', t') = resolve crash id t l in (l', t' ∷ [])
resolve_if false crash id t l = (l, [])

resolve_found : ℕ → String → Option Trade → VirtualTradeLedger → VirtualTradeLedger × List Trade
unfolding resolve_if
resolve_found crash id none l = (l, [])
resolve_found crash id (some t) l = resolve_if (is_open t.status) crash id t l

unfoldable pub resolve_ids : ℕ → List String → VirtualTradeLedger → VirtualTradeLedger × List Trade
unfolding resolve_found
resolve_ids crash [] l = (l, [])
resolve_ids crash (id ∷ ids) l =
    let (l', ts) = resolve_found crash id (lookup id l.trades) l in
    let (l'', rest) = resolve_ids crash ids l' in (l'', ts ++ rest)

unfoldable pub resolve_round : String → ℕ → VirtualTradeLedger → VirtualTradeLedger × List Trade
resolve_round round crash l = resolve_ids crash (get_or_else (lookup round l.by_round) []) l

pub record VirtualLedgerSnapshot : Type 0 where
  pub virtual_balance : ℕ
  pub initial_balance : ℕ
  pub open_trades : ℕ
  pub wins : ℕ
  pub losses : ℕ
  pub win_rate : Share
  pub net_pnl : ℤ
  pub trades : ℕ
  pub equity : ℕ
  pub max_drawdown : Share

unfoldable pub snapshot : VirtualTradeLedger → VirtualLedgerSnapshot
snapshot l =
    let trades = l.wins + l.losses in
    record {
      virtual_balance = l.balance;
      initial_balance = l.initial_balance;
      open_trades = open_count l.trades;
      wins = l.wins;
      losses = l.losses;
      win_rate =
          if ltb 0 trades
          then record { part = l.wins; whole = trades }
          else record { part = 0; whole = 1 };
      net_pnl = l.net_pnl;
      trades = trades;
      equity = l.balance;
      max_drawdown = l.max_drawdown;
    }
