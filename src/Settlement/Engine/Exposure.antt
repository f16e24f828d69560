-- ===== src/Settlement/Engine/Exposure.antt =====
-- The account UNSETTLED_EXPOSURE: an order's lines leave its wager there while the order is open,
-- and nothing once it is final (src/settlement/authoritative-settlement-engine.ts).
pub mod History
use Prim.Native.String.{String}
use text.Mathlib.Text.{◌==◌ as str_eq}
use crash.Prelude.{
  refl, ℕ, ◌+◌, ◌≤◌, ◌≡◌, Bool, true, false, ◌==◌, ◌&&◌, not, if◌then◌else◌, List, [], ◌∷◌, some,
  Bool-cases, some_inj, arith, inl, inr,
}
use crash.Settlement.Ledger.{Account, unsettled, Order, OrderStatus, Line, find_order, is_final}
use crash.Settlement.Engine.{
  SettlementStatus, win, loss, void, Payload, insert_entry, settlement_lines, intent_lines, finish,
  update_status, is_final-final_status,
}

abbrev is_unsettled : Account → Bool
is_unsettled unsettled = true
is_unsettled _ = false

-- Debits and credits of an order on the account.
unfoldable pub exposed : ℕ → List Line → ℕ
exposed k [] = 0
exposed k (l ∷ ls) =
    (if l.order_id == k && is_unsettled l.account then l.debit else 0) + exposed k ls

unfoldable pub closed : ℕ → List Line → ℕ
closed k [] = 0
closed k (l ∷ ls) =
    (if l.order_id == k && is_unsettled l.account then l.credit else 0) + closed k ls

-- The wagers of the open orders with an identifier, and the number of orders with it.
unfoldable pub owed : ℕ → List Order → ℕ
owed k [] = 0
owed k (o ∷ os) =
    (if o.id == k && not (is_final o.status) then o.intent.wager_amount else 0) + owed k os

unfoldable pub count : ℕ → List Order → ℕ
count k [] = 0
count k (o ∷ os) = (if o.id == k then 1 else 0) + count k os

exposed-settlement_lines :
    (k : ℕ) (s : SettlementStatus) (id w g : ℕ) (ls : List Line)
    → exposed k (settlement_lines s id w g ls) ≡ exposed k ls
unfolding settlement_lines insert_entry exposed
exposed-settlement_lines k win id w g ls = ground arith
exposed-settlement_lines k loss id w g ls = ground arith
exposed-settlement_lines k void id w g ls = ground arith

closed-settlement_lines :
    (k : ℕ) (s : SettlementStatus) (id w g : ℕ) (ls : List Line)
    → closed k (settlement_lines s id w g ls) ≡ (if id == k then w else 0) + closed k ls
unfolding settlement_lines insert_entry closed
closed-settlement_lines k win id w g ls = ground arith
closed-settlement_lines k loss id w g ls = ground arith
closed-settlement_lines k void id w g ls = ground arith

intent_lines-exposure :
    (k id w : ℕ) (ls : List Line)
    → (exposed k (intent_lines id w ls) ≡ (if id == k then w else 0) + exposed k ls)
      × (closed k (intent_lines id w ls) ≡ closed k ls)
unfolding intent_lines insert_entry exposed closed
intent_lines-exposure k id w ls = (ground arith, ground arith)

owed-count : (k : ℕ) (os : List Order) → count k os ≡ 0 → owed k os ≡ 0
unfolding owed count
owed-count k [] h = omega arith
owed-count k (o ∷ os) h = let ih = owed-count k os (ground arith) in ground arith

owed-finish :
    (k id : ℕ) (p : Payload) (os : List Order)
    → owed k (finish id p os) ≡ (if id == k then 0 else owed k os)
unfolding owed finish
owed-finish k id p [] = ground arith
owed-finish k id p (o ∷ os) =
    let ih = owed-finish k id p os in let f = is_final-final_status p.status in ground arith

count-finish : (k id : ℕ) (p : Payload) (os : List Order) → count k (finish id p os) ≡ count k os
unfolding count finish
count-finish k id p [] = refl
count-finish k id p (o ∷ os) = let ih = count-finish k id p os in ground arith

count-find_order :
    (cid : String) (os : List Order) (o : Order) → find_order cid os ≡ some o → 1 ≤ count o.id os
unfolding count find_order
count-find_order cid [] o h = cc
count-find_order cid (x ∷ xs) o h = elim (Bool-cases (str_eq x.intent.client_order_id cid)) [
  | inl t ↦ let e : x ≡ o = some_inj x o (ground arith) in ground arith
  | inr t ↦ let ih = count-find_order cid xs o (ground arith) in ground arith
]

owed-find_order :
    (cid : String) (os : List Order) (o : Order)
    → find_order cid os ≡ some o
    → count o.id os ≤ 1
    → owed o.id os ≡ (if is_final o.status then 0 else o.intent.wager_amount)
unfolding owed count find_order
owed-find_order cid [] o h n = cc
owed-find_order cid (x ∷ xs) o h n = elim (Bool-cases (str_eq x.intent.client_order_id cid)) [
  | inl t ↦
      let e : x ≡ o = some_inj x o (ground arith) in
      let z = owed-count o.id xs (ground arith) in ground arith
  | inr t ↦
      let g : find_order cid xs ≡ some o = ground arith in
      let c = count-find_order cid xs o g in
      let ih = owed-find_order cid xs o g (ground arith) in ground arith
]

owed-update_status :
    (k : ℕ) (cid : String) (from : OrderStatus → Bool) (to : OrderStatus) (os : List Order)
    → ((s : OrderStatus) → from s ≡ true → is_final s ≡ false)
    → is_final to ≡ false
    → (owed k (update_status cid from to os) ≡ owed k os)
      × (count k (update_status cid from to os) ≡ count k os)
unfolding owed count update_status
owed-update_status k cid from to [] h f = (refl, refl)
owed-update_status k cid from to (o ∷ os) h f =
    let ih = owed-update_status k cid from to os h f in
    elim (Bool-cases (from o.status)) [
      | inl t ↦ let n = h o.status t in (ground arith, ground arith)
      | inr t ↦ (ground arith, ground arith)
    ]
