-- ===== src/Settlement/Engine/Exposure/History.antt =====
-- The books of the exposure over a history of calls
-- (src/settlement/authoritative-settlement-engine.ts).
use crash.Settlement.Engine.Exposure.{
  exposed, closed, owed, count, exposed-settlement_lines, closed-settlement_lines,
  intent_lines-exposure, owed-count, owed-finish, count-finish, owed-find_order, owed-update_status,
}
use Prim.Native.String.{String}
use crash.Prelude.{
  refl, ℕ, ◌+◌, ◌≤◌, ◌≡◌, Bool, true, false, if◌then◌else◌, List, [], ◌∷◌, Option, none, some,
  Bool-cases, arith, inl, inr, suc, ap,
}
use crash.Settlement.Ledger.{References, Order, OrderStatus, Db, find_order, is_final}
use crash.Settlement.Engine.{
  Payload, settlement_lines, intent_lines, finish, update_status, can_dispatch, can_reconcile,
  dispatched, reconciling, create_order_intent, step, CreateOrderIntent, settle_order, settle_found,
  mark_dispatched, create_from, settle_open, insert_order, open_order, mark_reconciling, Op,
  db_after, creates, dispatches, reconciles, settles, order_intent, run,
}

-- The books of an order's exposure: what is still on the account is the wager of the open order
-- with that identifier, identifiers are not shared, and the next one is free.
pub record Fits (db : Db) : Type 0 where
  pub exposure : (k : ℕ) → exposed k db.lines ≡ closed k db.lines + owed k db.orders
  pub unique : (k : ℕ) → count k db.orders ≤ 1
  pub fresh : (k : ℕ) → db.next_id ≤ k → count k db.orders ≡ 0

update_status-Fits :
    (db : Db) (cid : String) (from : OrderStatus → Bool) (to : OrderStatus)
    → ((s : OrderStatus) → from s ≡ true → is_final s ≡ false)
    → is_final to ≡ false
    → Fits db
    → Fits (record db { orders = update_status cid from to db.orders })
update_status-Fits db cid from to h f w = record {
  exposure = λ k.
      let (e, _) = owed-update_status k cid from to db.orders h f in
      let x = w.exposure k in omega arith;
  unique = λ k.
      let (_, e) = owed-update_status k cid from to db.orders h f in
      let x = w.unique k in omega arith;
  fresh = λ k l.
      let (_, e) = owed-update_status k cid from to db.orders h f in
      let x = w.fresh k l in omega arith;
}

open_row-Fits :
    (db : Db) (i : CreateOrderIntent) (o : Order)
    → Fits db
    → o.id ≡ db.next_id
    → o.intent ≡ i
    → is_final o.status ≡ false
    → Fits (record {
      orders = o ∷ db.orders;
      lines = intent_lines db.next_id i.wager_amount db.lines;
      next_id = suc db.next_id;
    })
unfolding owed count
open_row-Fits db i o w n e f = record {
  exposure = λ k.
      let x = w.exposure k in
      let y = w.fresh k in
      let z = owed-count k db.orders in
      let g = ap (λ x. x.wager_amount) e in
      let (a, b) = intent_lines-exposure k db.next_id i.wager_amount db.lines in ground arith;
  unique = λ k. let x = w.unique k in let y = w.fresh k in ground arith;
  fresh = λ k l. let y = w.fresh k (omega arith) in ground arith;
}

settled-Fits :
    (db : Db) (p : Payload) (o : Order)
    → find_order p.client_order_id db.orders ≡ some o
    → is_final o.status ≡ false
    → Fits db
    → Fits (record db {
      orders = finish o.id p db.orders;
      lines = settlement_lines p.status o.id o.intent.wager_amount p.gross_payout db.lines;
    })
settled-Fits db p o h f w = record {
  exposure = λ k.
      let x = w.exposure k in
      let a =
        exposed-settlement_lines k p.status o.id o.intent.wager_amount p.gross_payout db.lines in
      let b =
        closed-settlement_lines k p.status o.id o.intent.wager_amount p.gross_payout db.lines in
      let c = owed-finish k o.id p db.orders in
      let d = owed-find_order p.client_order_id db.orders o h (w.unique o.id) in ground arith;
  unique = λ k. let c = count-finish k o.id p db.orders in let x = w.unique k in omega arith;
  fresh = λ k l. let c = count-finish k o.id p db.orders in let x = w.fresh k l in omega arith;
}

settle_found-Fits :
    (r : Option Order) (db : Db) (p : Payload)
    → find_order p.client_order_id db.orders ≡ r
    → Fits db
    → Fits (db_after (settle_found r db p))
unfolding settle_found settle_open
settle_found-Fits none db p h w = w
settle_found-Fits (some o) db p h w = elim (Bool-cases (is_final o.status)) [
  | inl t ↦ ground arith
  | inr t ↦ let g = settled-Fits db p o h t w in ground arith
]

settle_order-Fits : (db : Db) (p : Payload) → Fits db → Fits (db_after (settle_order db p))
unfolding settle_order
settle_order-Fits db p w =
    let g = settle_found-Fits (find_order p.client_order_id db.orders) db p refl w in ground arith

insert_order-Fits :
    (db : Db) (i : CreateOrderIntent) → Fits db → Fits (db_after (insert_order db i))
unfolding insert_order
insert_order-Fits db i w =
    let g =
      open_row-Fits db i
        (record {
          id = db.next_id;
          intent = i;
          status = order_intent;
          gross_payout = none;
          exit_multiplier = none;
          settled_at = none;
          external_reference = none;
        })
        w refl refl refl in
    ground arith

create_from-Fits :
    (r : Option Order) (refs : References) (db : Db) (i : CreateOrderIntent)
    → Fits db
    → Fits (db_after (create_from r refs db i))
unfolding create_from open_order
create_from-Fits (some o) refs db i w = w
create_from-Fits none refs db i w = let g = insert_order-Fits db i w in ground arith

dispatch_open : (s : OrderStatus) → can_dispatch s ≡ true → is_final s ≡ false
dispatch_open s h = ground arith

reconcile_open : (s : OrderStatus) → can_reconcile s ≡ true → is_final s ≡ false
reconcile_open s h = ground arith

-- Every call keeps the books of the exposure.
pub step-Fits : (db : Db) (op : Op) → Fits db → Fits (step db op)
unfolding step mark_dispatched mark_reconciling create_order_intent
step-Fits db (creates refs i) w =
    create_from-Fits (find_order i.client_order_id db.orders) refs db i w
step-Fits db (dispatches cid) w =
    update_status-Fits db cid can_dispatch dispatched dispatch_open refl w
step-Fits db (reconciles cid) w =
    update_status-Fits db cid can_reconcile reconciling reconcile_open refl w
step-Fits db (settles p) w = settle_order-Fits db p w

run-Fits : (db : Db) (ops : List Op) → Fits db → Fits (run db ops)
unfolding run
run-Fits db [] w = w
run-Fits db (op ∷ ops) w = run-Fits (step db op) ops (step-Fits db op w)

-- After every history of calls, from books that fit, what an order's lines leave on the account of
-- unsettled exposure is its wager while its status is not final, and nothing once it is.
pub run-exposed :
    (db : Db) (ops : List Op) (cid : String) (o : Order)
    → Fits db
    → find_order cid (run db ops).orders ≡ some o
    → exposed o.id (run db ops).lines
      ≡ closed o.id (run db ops).lines + (if is_final o.status then 0 else o.intent.wager_amount)
run-exposed db ops cid o w h =
    let v = run-Fits db ops w in
    let x = v.exposure o.id in
    let y = owed-find_order cid (run db ops).orders o h (v.unique o.id) in ground arith

-- The empty tables fit.
pub empty-Fits : (n : ℕ) → Fits (record { orders = []; lines = []; next_id = n })
unfolding exposed closed owed count
empty-Fits n = record { exposure = λ k. refl; unique = λ k. omega arith; fresh = λ k l. refl }
