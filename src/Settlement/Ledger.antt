-- ===== src/Settlement/Ledger.antt =====
-- The tables that the settlement engine works on (src/settlement/types.ts and the columns of
-- migrations/017_double_entry_settlement.sql that it reads and writes). Amounts and multipliers are
-- in units of 1e-8, the scale of the columns; `evidence` and the time stamps of rows are left out.
use Prim.Native.String.{String}
use text.Mathlib.Text.{◌==◌ as str_eq}
use crash.Prelude.{
  ℕ, ◌+◌, Bool, true, false, ◌==◌, if◌then◌else◌, List, [], ◌∷◌, Option, none, some,
}

pub data Account : Type 0 where
  hot_wallet unsettled realized_pnl house_edge : Account

pub data OrderStatus : Type 0 where
  order_intent dispatched pending_settlement reconciling : OrderStatus
  settled_win settled_loss void failed : OrderStatus

pub record CreateOrderIntent : Type 0 where
  pub client_order_id : String
  pub tenant_id : Option String
  pub bet_id : Option String
  pub game_id : Option String
  pub round_id : Option String
  pub wager_amount : ℕ
  pub target_multiplier : ℕ

-- A row of settlement_orders.
pub record Order : Type 0 where
  pub id : ℕ
  pub intent : CreateOrderIntent
  pub status : OrderStatus
  pub gross_payout : Option ℕ
  pub exit_multiplier : Option ℕ
  pub settled_at : Option ℕ
  pub external_reference : Option String

-- A row of ledger_entries.
pub record Line : Type 0 where
  pub order_id : ℕ
  pub account : Account
  pub debit : ℕ
  pub credit : ℕ
  pub memo : String

-- The identifiers of the rows of the tables users and bets, to which an order may refer.
pub record References : Type 0 where
  pub users : List String
  pub bets : List String

abbrev pub has_row : String → List String → Bool
has_row id [] = false
has_row id (k ∷ ks) = if str_eq k id then true else has_row id ks

-- A foreign key: nothing, or the identifier of a row.
abbrev pub refers : Option String → List String → Bool
refers none ids = true
refers (some id) ids = has_row id ids

-- Both tables, and the next identifier that the database gives to an order.
pub record Db : Type 0 where
  pub orders : List Order
  pub lines : List Line
  pub next_id : ℕ

-- The order under a client's identifier, which is unique in the table.
unfoldable pub find_order : String → List Order → Option Order
find_order cid [] = none
find_order cid (o ∷ os) = if str_eq o.intent.client_order_id cid then some o else find_order cid os

-- Sums of debits and credits over the lines of one order.
unfoldable pub debits : ℕ → List Line → ℕ
debits id [] = 0
debits id (l ∷ ls) = (if l.order_id == id then l.debit else 0) + debits id ls

unfoldable pub credits : ℕ → List Line → ℕ
credits id [] = 0
credits id (l ∷ ls) = (if l.order_id == id then l.credit else 0) + credits id ls

abbrev pub is_final : OrderStatus → Bool
is_final settled_win = true
is_final settled_loss = true
is_final void = true
is_final _ = false
