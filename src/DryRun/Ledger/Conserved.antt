-- ===== src/DryRun/Ledger/Conserved.antt =====
-- The money of the virtual ledger (src/core/dry-run/virtual-ledger.ts).
use text.Mathlib.Text.{◌==◌ as str_eq}
use crash.Prelude.{
  insert, lookup, ℤ, ℕ, ◌+◌, ◌*◌, ◌≡◌, refl, String, Bool, true, false, Bool-cases, leb, inl, inr,
  Option, none, some, List, [], ◌∷◌, arith, Leads, Leads-add, subst, sym,
}
use crash.DryRun.Trades.{Trade, Trades, is_open, open_stake, open_stakes}
use crash.DryRun.Ledger.{
  VirtualTradeLedger, TradeParams, open_trade, new_trade, resolve, resolve_found, resolve_if,
  resolve_ids, update_drawdown, won, lost,
}

-- The opening balance with the profits is the balance with the stakes of the open trades.
abbrev pub Conserved : VirtualTradeLedger → Type 0
Conserved l = Leads l.initial_balance l.net_pnl (l.balance + open_stakes l.trades)

open_stakes-insert :
    (id : String) (t t' : Trade) (m : Trades)
    → lookup id m ≡ some t
    → open_stakes (insert id t' m) + open_stake t ≡ open_stakes m + open_stake t'
unfolding lookup insert open_stakes
open_stakes-insert id t t' [] h = cc
open_stakes-insert id t t' ((k, u) ∷ m) h = elim (Bool-cases (str_eq k id)) [
  | inl q ↦ ground arith
  | inr q ↦ let ih = open_stakes-insert id t t' m (ground arith) in ground arith
]

pub open_stakes-insert-new :
    (id : String) (t : Trade) (m : Trades)
    → lookup id m ≡ none
    → open_stakes (insert id t m) ≡ open_stakes m + open_stake t
unfolding lookup insert open_stakes
open_stakes-insert-new id t [] h = omega arith
open_stakes-insert-new id t ((k, u) ∷ m) h = elim (Bool-cases (str_eq k id)) [
  | inl q ↦ ground arith
  | inr q ↦ let ih = open_stakes-insert-new id t m (ground arith) in ground arith
]

Leads-along : {i i' t t' : ℕ} {z z' : ℤ} → i' ≡ i → z' ≡ z → t' ≡ t → Leads i z t → Leads i' z' t'
Leads-along {i = i} {i' = i'} {t = t} {t' = t'} {z = z} {z' = z'} p q r h =
    subst (λ x. Leads x z' t') (sym p)
      (subst (λ x. Leads i x t') (sym q) (subst (λ x. Leads i z x) (sym r) h))

pub open_trade-Conserved :
    (p : TradeParams) (l : VirtualTradeLedger)
    → lookup p.virtual_trade_id l.trades ≡ none
    → Conserved l
    → Conserved (open_trade p l).0
unfolding open_trade update_drawdown
open_trade-Conserved p l f c =
    let q = open_stakes-insert-new p.virtual_trade_id (new_trade p) l.trades f in
    Leads-along {i = l.initial_balance} {z = l.net_pnl} (ground arith) (ground arith) (ground arith)
      c

resolve-Conserved :
    (crash : ℕ) (id : String) (t : Trade) (l : VirtualTradeLedger)
    → lookup id l.trades ≡ some t
    → is_open t.status ≡ true
    → Conserved l
    → Conserved (resolve crash id t l).0
unfolding resolve update_drawdown
resolve-Conserved crash id t l f o c = elim (Bool-cases (leb t.target crash)) [
  | inl q ↦
      let a = open_stakes-insert id t (won crash t) l.trades f in
      let total = l.balance + t.stake * t.target + open_stakes (insert id (won crash t) l.trades) in
      Leads-along (ground arith) (ground arith) (ground arith) (
        Leads-add l.initial_balance (l.balance + open_stakes l.trades) (t.stake * t.target)
          (t.stake * 100) total l.net_pnl c (ground arith))
  | inr q ↦
      let b = open_stakes-insert id t (lost crash t) l.trades f in
      Leads-along (ground arith) (ground arith) (ground arith) (
        Leads-add l.initial_balance (l.balance + open_stakes l.trades) 0 (t.stake * 100)
          (l.balance + open_stakes (insert id (lost crash t) l.trades)) l.net_pnl c (ground arith))
]

resolve_if-Conserved :
    (b : Bool) (crash : ℕ) (id : String) (t : Trade) (l : VirtualTradeLedger)
    → lookup id l.trades ≡ some t
    → is_open t.status ≡ b
    → Conserved l
    → Conserved (resolve_if b crash id t l).0
unfolding resolve_if
resolve_if-Conserved true crash id t l f o c = resolve-Conserved crash id t l f o c
resolve_if-Conserved false crash id t l f o c = c

resolve_found-Conserved :
    (crash : ℕ) (id : String) (o : Option Trade) (l : VirtualTradeLedger)
    → lookup id l.trades ≡ o
    → Conserved l
    → Conserved (resolve_found crash id o l).0
unfolding resolve_found
resolve_found-Conserved crash id none l f c = c
resolve_found-Conserved crash id (some t) l f c =
    resolve_if-Conserved (is_open t.status) crash id t l f refl c

pub resolve_ids-Conserved :
    (crash : ℕ) (ids : List String) (l : VirtualTradeLedger)
    → Conserved l
    → Conserved (resolve_ids crash ids l).0
unfolding resolve_ids
resolve_ids-Conserved crash [] l c = c
resolve_ids-Conserved crash (id ∷ ids) l c =
    resolve_ids-Conserved crash ids (resolve_found crash id (lookup id l.trades) l).0
      (resolve_found-Conserved crash id (lookup id l.trades) l refl c)
