-- ===== src/Settlement/Engine.antt =====
-- The class AuthoritativeSettlementEngine of src/settlement/authoritative-settlement-engine.ts. A
-- transaction is a function of the tables: it commits new ones, or throws and leaves them as they
-- were. SERIALIZABLE transactions run as if one after the other; the failures of the database
-- itself, which withRetry repeats, change nothing and are left out.
pub mod Balanced
pub mod Exposure
pub mod Final
use Prim.Native.String.{String}
use text.Mathlib.Text.{◌==◌ as str_eq}
use crash.Prelude.{
  refl, ◌≡◌, ℕ, suc, ◌+◌, ◌-◌, Bool, true, false, ltb, leb, ◌==◌, ◌&&◌, not, is_empty,
  if◌then◌else◌, List, [], ◌∷◌, Option, none, some, ◌≡◌,
}
use crash.Settlement.Ledger.{
  Account, hot_wallet, unsettled, realized_pnl, OrderStatus, order_intent, dispatched,
  pending_settlement, reconciling, settled_win, settled_loss, failed, CreateOrderIntent, Order,
  Line, Db, References, refers, find_order, debits, credits, is_final,
}

pub data Error : Type 0 where
  invalid_payload order_not_found ledger_imbalance invalid_transition : Error
  missing_reference : Error

-- What a transaction leaves: the tables, and the result or what is thrown.
pub data Outcome (A : Type 0) : Type 0 where
  committed : Db → A → Outcome A
  rolled_back : Db → A → Outcome A
  thrown : Db → Error → Outcome A

abbrev pub db_after : {A : Type 0} → Outcome A → Db
db_after (committed db a) = db
db_after (rolled_back db a) = db
db_after (thrown db e) = db

-- `insertEntry`: a line of nothing is not written.
unfoldable pub insert_entry : ℕ → Account → ℕ → ℕ → String → List Line → List Line
insert_entry id account debit credit memo lines =
    if debit == 0 && credit == 0
    then lines
    else record { order_id = id; account = account; debit = debit; credit = credit; memo = memo }
      ∷ lines

-- The test of `assertBalanced`, with its tolerance of one unit.
unfoldable pub is_balanced : ℕ → List Line → Bool
is_balanced id lines =
    let d = debits id lines in let c = credits id lines in leb d (c + 1) && leb c (d + 1)

intent_lines : ℕ → ℕ → List Line → List Line
intent_lines id wager lines =
    insert_entry id hot_wallet 0 wager "wager lock"
      (insert_entry id unsettled wager 0 "exposure open" lines)

insert_order : Db → CreateOrderIntent → Outcome ℕ
unfolding intent_lines
insert_order db intent =
    let id = db.next_id in
    let order : Order = record {
      id = id;
      intent = intent;
      status = order_intent;
      gross_payout = none;
      exit_multiplier = none;
      settled_at = none;
      external_reference = none;
    } in
    let lines = intent_lines id intent.wager_amount db.lines in
    if is_balanced id lines
    then committed (record { orders = order ∷ db.orders; lines = lines; next_id = suc id }) id
    else thrown db ledger_imbalance

-- The columns tenant_id and bet_id are foreign keys: the insertion throws where they name no row.
open_order : References → Db → CreateOrderIntent → Outcome ℕ
unfolding insert_order
open_order refs db intent =
    if refers intent.tenant_id refs.users && refers intent.bet_id refs.bets
    then insert_order db intent
    else thrown db missing_reference

create_from : Option Order → References → Db → CreateOrderIntent → Outcome ℕ
unfolding open_order
create_from (some o) refs db intent = rolled_back db o.id
create_from none refs db intent = open_order refs db intent

unfoldable pub create_order_intent : References → Db → CreateOrderIntent → Outcome ℕ
unfolding create_from
create_order_intent refs db intent =
    create_from (find_order intent.client_order_id db.orders) refs db intent

-- `UPDATE … SET status … WHERE client_order_id = … AND status IN …`.
unfoldable pub update_status : String → (OrderStatus → Bool) → OrderStatus → List Order → List Order
update_status cid from to [] = []
update_status cid from to (o ∷ os) =
    (if str_eq o.intent.client_order_id cid && from o.status then record o { status = to } else o)
    ∷ update_status cid from to os

abbrev can_dispatch : OrderStatus → Bool
can_dispatch order_intent = true
can_dispatch _ = false

abbrev can_reconcile : OrderStatus → Bool
can_reconcile dispatched = true
can_reconcile pending_settlement = true
can_reconcile order_intent = true
can_reconcile _ = false

unfoldable pub mark_dispatched : Db → String → Db
mark_dispatched db cid = record db { orders = update_status cid can_dispatch dispatched db.orders }

unfoldable pub mark_reconciling : Db → String → Db
mark_reconciling db cid = record db {
  orders = update_status cid can_reconcile reconciling db.orders;
}

pub data SettlementStatus : Type 0 where
  win loss void : SettlementStatus

pub record Payload : Type 0 where
  pub client_order_id : String
  pub status : SettlementStatus
  pub gross_payout : ℕ
  pub multiplier : ℕ
  pub settled_at : ℕ
  pub external_reference : Option String

-- What SettlementPayloadSchema asks beyond the types: an identifier, and a multiplier from 1.
abbrev pub is_valid : Payload → Bool
is_valid p = not (is_empty p.client_order_id) && leb 100000000 p.multiplier

abbrev final_status : SettlementStatus → OrderStatus
final_status win = settled_win
final_status loss = settled_loss
final_status void = OrderStatus.void

is_final-final_status : (s : SettlementStatus) → is_final (final_status s) ≡ true
is_final-final_status win = refl
is_final-final_status loss = refl
is_final-final_status void = refl

-- The entries of a settlement, by its status.
settlement_lines : SettlementStatus → ℕ → ℕ → ℕ → List Line → List Line
settlement_lines void id wager gross lines =
    insert_entry id unsettled 0 wager "exposure close void"
      (insert_entry id hot_wallet wager 0 "void refund" lines)
settlement_lines loss id wager gross lines =
    insert_entry id unsettled 0 wager "exposure close"
      (insert_entry id realized_pnl wager 0 "pnl loss" lines)
settlement_lines win id wager gross lines =
    let paid = if ltb 0 gross then insert_entry id hot_wallet gross 0 "payout" lines else lines in
    let shut = insert_entry id unsettled 0 wager "exposure close" paid in
    if ltb wager gross
    then insert_entry id realized_pnl 0 (gross - wager) "pnl profit" shut
    else if ltb gross wager
    then insert_entry id realized_pnl (wager - gross) 0 "pnl residual" shut
    else shut

-- `COALESCE(new, old)`.
abbrev coalesce : Option String → Option String → Option String
coalesce (some s) old = some s
coalesce none old = old

-- The columns that a settlement writes.
abbrev settled_row : Payload → Order → Order
settled_row p o = record o {
  status = final_status p.status;
  gross_payout = some p.gross_payout;
  exit_multiplier = some p.multiplier;
  settled_at = some p.settled_at;
  external_reference = coalesce p.external_reference o.external_reference;
}

-- `UPDATE … WHERE id = …`.
finish : ℕ → Payload → List Order → List Order
finish id p [] = []
finish id p (o ∷ os) = (if o.id == id then settled_row p o else o) ∷ finish id p os

-- The table's trigger admits a final status from every status but FAILED.
abbrev may_settle : OrderStatus → Bool
may_settle failed = false
may_settle _ = true

pub data Settled : Type 0 where
  settled already_final : Settled

settle_open : Db → Order → Payload → Outcome Settled
unfolding settlement_lines finish
settle_open db o p =
    let lines = settlement_lines p.status o.id o.intent.wager_amount p.gross_payout db.lines in
    if not (is_balanced o.id lines)
    then thrown db ledger_imbalance
    else if not (may_settle o.status)
    then thrown db invalid_transition
    else committed (record db { orders = finish o.id p db.orders; lines = lines }) settled

settle_found : Option Order → Db → Payload → Outcome Settled
unfolding settle_open
settle_found none db p = thrown db order_not_found
settle_found (some o) db p =
    if is_final o.status then rolled_back db already_final else settle_open db o p

unfoldable pub settle_order : Db → Payload → Outcome Settled
unfolding settle_found
settle_order db p =
    if not (is_valid p)
    then thrown db invalid_payload
    else settle_found (find_order p.client_order_id db.orders) db p

-- The calls of the engine, a creation with the rows that are there at its time, and a history of
-- them.
pub data Op : Type 0 where
  creates : References → CreateOrderIntent → Op
  dispatches reconciles : String → Op
  settles : Payload → Op

unfoldable pub step : Db → Op → Db
step db (creates refs i) = db_after (create_order_intent refs db i)
step db (dispatches cid) = mark_dispatched db cid
step db (reconciles cid) = mark_reconciling db cid
step db (settles p) = db_after (settle_order db p)

unfoldable pub run : Db → List Op → Db
run db [] = db
run db (op ∷ ops) = run (step db op) ops
