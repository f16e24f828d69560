-- ===== src/Settlement/Engine/Final.antt =====
-- Settling twice and creating twice
-- (src/settlement/authoritative-settlement-engine.ts).
use Prim.Native.String.{String}
use text.Mathlib.Text.{◌==◌ as str_eq}
use crash.Prelude.{
  ℕ, ◌==◌, ◌≡◌, refl, sym, ap, ◌∙◌, true, false, Bool-cases, if◌then◌else◌, List, [], ◌∷◌, none,
  some, some_inj, Option-cases, arith, inl, inr,
}
use text.Mathlib.TextPositions.{eq_refl}
use crash.Settlement.Ledger.{CreateOrderIntent, References, refers, Order, Db, find_order, is_final}
use crash.Settlement.Engine.{
  committed, rolled_back, thrown, missing_reference, create_order_intent, create_from, insert_order,
  open_order, Payload, is_valid, finish, settle_open, settle_found, settle_order, Settled,
  already_final, settled_row, may_settle, order_intent, is_final-final_status,
}

-- The row that a settlement makes of a row.
abbrev finished : ℕ → Payload → Order → Order
finished id p o = if o.id == id then settled_row p o else o

find_order-finish :
    (cid : String) (id : ℕ) (p : Payload) (os : List Order) (o : Order)
    → find_order cid os ≡ some o
    → find_order cid (finish id p os) ≡ some (finished id p o)
unfolding find_order finish
find_order-finish cid id p [] o h = cc
find_order-finish cid id p (x ∷ xs) o h = elim (Bool-cases (str_eq x.intent.client_order_id cid)) [
  | inl t ↦ let e : x ≡ o = some_inj x o (ground arith) in ground arith
  | inr t ↦ let ih = find_order-finish cid id p xs o (ground arith) in ground arith
]

-- What a settlement that is carried out found, and the rows that it leaves.
settle_order-committed :
    (db db' : Db) (p : Payload) (r : Settled)
    → settle_order db p ≡ committed db' r
    → (o : Order) × (find_order p.client_order_id db.orders ≡ some o)
      × (is_final o.status ≡ false)
      × (may_settle o.status ≡ true)
      × (db'.orders ≡ finish o.id p db.orders)
unfolding settle_order settle_found settle_open
settle_order-committed db db' p r h = elim (Option-cases (find_order p.client_order_id db.orders)) [
  | inl e ↦ ground arith
  | inr (o, e) ↦ (o, e, ground arith, ground arith, ground arith)
]

finished-own : (id : ℕ) (p : Payload) (o : Order) → id ≡ o.id → finished id p o ≡ settled_row p o
finished-own id p o e = ground arith

-- A settlement that is carried out writes its final status, payout, multiplier and time into the
-- order's row, and a settlement of the same order that follows it, if its payload is valid, changes
-- nothing, whatever else it says.
pub settle_order-once :
    (db db' : Db) (p q : Payload) (r : Settled)
    → settle_order db p ≡ committed db' r
    → is_valid q ≡ true
    → q.client_order_id ≡ p.client_order_id
    → ((o : Order) × (find_order p.client_order_id db.orders ≡ some o)
        × (find_order p.client_order_id db'.orders ≡ some (settled_row p o)))
      × (settle_order db' q ≡ rolled_back db' already_final)
unfolding settle_order settle_found
settle_order-once db db' p q r h v e =
    let (o, f, _, _, w) = settle_order-committed db db' p r h in
    let g : find_order p.client_order_id db'.orders ≡ some (settled_row p o) =
      ap (find_order p.client_order_id) w
      ∙ find_order-finish p.client_order_id o.id p db.orders o f
      ∙ ap some (finished-own o.id p o refl) in
    (
      (o, f, g),
      let g' = ap (λ c. find_order c db'.orders) e ∙ g in
          let k = is_final-final_status p.status in ground arith,
    )

find_order_own :
    (cid : String) (o : Order) (os : List Order)
    → cid ≡ o.intent.client_order_id
    → find_order cid (o ∷ os) ≡ some o
unfolding find_order
find_order_own cid o os e =
    let t = ap (λ c. str_eq o.intent.client_order_id c) e ∙ eq_refl o.intent.client_order_id in
    ground arith

insert_order-committed :
    (db db' : Db) (i : CreateOrderIntent) (id : ℕ)
    → insert_order db i ≡ committed db' id
    → (o : Order) × (o.id ≡ id)
      × (o.intent ≡ i)
      × (o.status ≡ order_intent)
      × (db'.orders ≡ o ∷ db.orders)
unfolding insert_order
insert_order-committed db db' i id h = (
  record {
    id = db.next_id;
    intent = i;
    status = order_intent;
    gross_payout = none;
    exit_multiplier = none;
    settled_at = none;
    external_reference = none;
  },
  ground arith,
  refl,
  refl,
  ground arith,
)

-- After an order is created, a further call with the same client identifier, whatever else it
-- says, returns the same order's identifier and changes nothing.
pub create_order_intent-once :
    (refs refs' : References) (db db' : Db) (i j : CreateOrderIntent) (id : ℕ)
    → create_order_intent refs db i ≡ committed db' id
    → j.client_order_id ≡ i.client_order_id
    → create_order_intent refs' db' j ≡ rolled_back db' id
unfolding create_order_intent create_from open_order
create_order_intent-once refs refs' db db' i j id h e =
    elim (Option-cases (find_order i.client_order_id db.orders)) [
      | inl t ↦
          let (o, n, k, u, w) = insert_order-committed db db' i id (ground arith) in
          let g : find_order j.client_order_id db'.orders ≡ some o =
            ap (find_order j.client_order_id) w
            ∙ find_order_own j.client_order_id o db.orders
                (e ∙ sym (ap (λ x. x.client_order_id) k)) in
          ground arith
      | inr (o, t) ↦ ground arith
    ]

-- A new order whose bet has no row throws, and leaves the tables as they were.
pub create_order_intent-thrown :
    (refs : References) (db : Db) (i : CreateOrderIntent)
    → find_order i.client_order_id db.orders ≡ none
    → refers i.bet_id refs.bets ≡ false
    → create_order_intent refs db i ≡ thrown db missing_reference
unfolding create_order_intent create_from open_order
create_order_intent-thrown refs db i f n = ground arith
