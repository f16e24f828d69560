-- ===== src/Settlement/Engine/Balanced.antt =====
-- Double entry: debits and credits of every order agree after every call, so the engine's own test
-- of the balance never fails (src/settlement/authoritative-settlement-engine.ts).
use crash.Prelude.{
  ℕ, ◌+◌, ◌≡◌, ◌≢◌, sym, ap, ◌∙◌, true, false, ◌==◌, if◌then◌else◌, List, [], ◌∷◌, Option, none,
  some, Option-cases, max, arith, String, ◌⊎◌, inl, inr,
}
use crash.Settlement.Ledger.{
  Account, CreateOrderIntent, References, failed, Order, Line, Db, find_order, debits, credits,
  is_final,
}
use crash.Settlement.Engine.{
  committed, thrown, db_after, insert_entry, is_balanced, intent_lines, insert_order, open_order,
  create_from, create_order_intent, mark_dispatched, mark_reconciling, SettlementStatus, win, loss,
  void, Payload, is_valid, settlement_lines, settle_open, settle_found, settle_order, settled, Op,
  creates, dispatches, reconciles, settles, step, run, Error, invalid_payload, order_not_found,
  invalid_transition,
}

debits-insert_entry :
    (k id : ℕ) (a : Account) (d c : ℕ) (memo : String) (ls : List Line)
    → debits k (insert_entry id a d c memo ls) ≡ (if id == k then d else 0) + debits k ls
unfolding insert_entry debits
debits-insert_entry k id a d c memo ls = ground arith

credits-insert_entry :
    (k id : ℕ) (a : Account) (d c : ℕ) (memo : String) (ls : List Line)
    → credits k (insert_entry id a d c memo ls) ≡ (if id == k then c else 0) + credits k ls
unfolding insert_entry credits
credits-insert_entry k id a d c memo ls = ground arith

-- What a settlement adds to each side of its order.
abbrev added : SettlementStatus → ℕ → ℕ → ℕ
added win wager gross = max wager gross
added _ wager gross = wager

debits-settlement_lines :
    (k : ℕ) (s : SettlementStatus) (id w g : ℕ) (ls : List Line)
    → debits k (settlement_lines s id w g ls) ≡ (if id == k then added s w g else 0) + debits k ls
unfolding settlement_lines insert_entry debits
debits-settlement_lines k win id w g ls = ground arith
debits-settlement_lines k loss id w g ls = ground arith
debits-settlement_lines k void id w g ls = ground arith

credits-settlement_lines :
    (k : ℕ) (s : SettlementStatus) (id w g : ℕ) (ls : List Line)
    → credits k (settlement_lines s id w g ls) ≡ (if id == k then added s w g else 0) + credits k ls
unfolding settlement_lines insert_entry credits
credits-settlement_lines k win id w g ls = ground arith
credits-settlement_lines k loss id w g ls = ground arith
credits-settlement_lines k void id w g ls = ground arith

-- Debits and credits agree, order by order.
abbrev pub Balanced : List Line → Type 0
Balanced ls = (k : ℕ) → debits k ls ≡ credits k ls

settlement_lines-Balanced :
    (s : SettlementStatus) (id w g : ℕ) (ls : List Line)
    → Balanced ls
    → Balanced (settlement_lines s id w g ls)
settlement_lines-Balanced s id w g ls h k =
    debits-settlement_lines k s id w g ls
    ∙ ap (λ x. (if id == k then added s w g else 0) + x) (h k)
    ∙ sym (credits-settlement_lines k s id w g ls)

intent_lines-Balanced : (id w : ℕ) (ls : List Line) → Balanced ls → Balanced (intent_lines id w ls)
unfolding intent_lines insert_entry debits credits
intent_lines-Balanced id w ls h k = ground (arith, h k)

is_balanced_of_Balanced : (id : ℕ) (ls : List Line) → Balanced ls → is_balanced id ls ≡ true
unfolding is_balanced
is_balanced_of_Balanced id ls h = ground (arith, h id)

settle_found-Balanced :
    (o : Option Order) (db : Db) (p : Payload)
    → Balanced db.lines
    → Balanced (db_after (settle_found o db p)).lines
unfolding settle_found
settle_found-Balanced none db p h k = h k
settle_found-Balanced (some o) db p h k = ground (
  arith,
  h k,
  settlement_lines-Balanced p.status o.id o.intent.wager_amount p.gross_payout db.lines h k,
)

insert_order-Balanced :
    (db : Db) (i : CreateOrderIntent)
    → Balanced db.lines
    → Balanced (db_after (insert_order db i)).lines
unfolding insert_order
insert_order-Balanced db i h k =
    ground (arith, h k, intent_lines-Balanced db.next_id i.wager_amount db.lines h k)

open_order-Balanced :
    (refs : References) (db : Db) (i : CreateOrderIntent)
    → Balanced db.lines
    → Balanced (db_after (open_order refs db i)).lines
unfolding open_order
open_order-Balanced refs db i h k = ground (arith, h k, insert_order-Balanced db i h k)

create_from-Balanced :
    (o : Option Order) (refs : References) (db : Db) (i : CreateOrderIntent)
    → Balanced db.lines
    → Balanced (db_after (create_from o refs db i)).lines
unfolding create_from
create_from-Balanced none refs db i h k = open_order-Balanced refs db i h k
create_from-Balanced (some o) refs db i h k = h k

settle_order-Balanced :
    (db : Db) (p : Payload) → Balanced db.lines → Balanced (db_after (settle_order db p)).lines
unfolding settle_order
settle_order-Balanced db p h k =
    ground (arith, h k, settle_found-Balanced (find_order p.client_order_id db.orders) db p h k)

-- Every call of the engine keeps the debits and the credits of every order equal.
pub step-Balanced : (db : Db) (op : Op) → Balanced db.lines → Balanced (step db op).lines
unfolding step create_order_intent mark_dispatched mark_reconciling
step-Balanced db (creates refs i) h =
    create_from-Balanced (find_order i.client_order_id db.orders) refs db i h
step-Balanced db (dispatches cid) h = h
step-Balanced db (reconciles cid) h = h
step-Balanced db (settles p) h = settle_order-Balanced db p h

-- Over every history of calls the debits and the credits of every order stay equal, where they are
-- at its start.
pub run-Balanced : (db : Db) (ops : List Op) → Balanced db.lines → Balanced (run db ops).lines
unfolding run
run-Balanced db [] h = h
run-Balanced db (op ∷ ops) h = run-Balanced (step db op) ops (step-Balanced db op h)

-- Where debits and credits agree, a valid settlement of an order that is known, not final and not
-- failed is carried out: the test of the balance never stops it.
pub settle_order-settled :
    (db : Db) (p : Payload) (o : Order)
    → Balanced db.lines
    → is_valid p ≡ true
    → find_order p.client_order_id db.orders ≡ some o
    → is_final o.status ≡ false
    → o.status ≢ failed
    → settle_order db p ≡ committed (db_after (settle_order db p)) settled
unfolding settle_order settle_found settle_open
settle_order-settled db p o h v f s n =
    let b =
      is_balanced_of_Balanced o.id
        (settlement_lines p.status o.id o.intent.wager_amount p.gross_payout db.lines)
        (settlement_lines-Balanced p.status o.id o.intent.wager_amount p.gross_payout db.lines h) in
    ground arith

-- Where debits and credits agree, a settlement that throws leaves both tables as they were, and
-- throws for an invalid payload, an unknown order or a failed order.
pub settle_order-thrown :
    (db db' : Db) (p : Payload) (e : Error)
    → Balanced db.lines
    → settle_order db p ≡ thrown db' e
    → (db' ≡ db)
      × (((e ≡ invalid_payload) × (is_valid p ≡ false))
          ⊎ ((e ≡ order_not_found) × (find_order p.client_order_id db.orders ≡ none))
          ⊎ ((e ≡ invalid_transition)
              × ((o : Order) × (find_order p.client_order_id db.orders ≡ some o)
                  × (o.status ≡ failed))))
unfolding settle_order settle_found settle_open
settle_order-thrown db db' p e bal h =
    elim (Option-cases (find_order p.client_order_id db.orders)) [
      | inl t ↦ ground arith
      | inr (o, t) ↦
          let b =
            is_balanced_of_Balanced o.id
              (settlement_lines p.status o.id o.intent.wager_amount p.gross_payout db.lines)
              (settlement_lines-Balanced p.status o.id o.intent.wager_amount p.gross_payout db.lines
                bal) in
          ground arith
    ]
