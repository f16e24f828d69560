-- ===== src/DryRun/Ledger/Once.antt =====
-- A round is resolved once (src/core/dry-run/virtual-ledger.ts).
use crash.Prelude.{
  lookup, ℕ, ◌≡◌, refl, ap, ◌∙◌, String, Bool, true, false, Bool-cases, inl, inr, Option, none,
  some, List, [], ◌∷◌, ◌++◌, All, get_or_else, arith, lookup-insert,
}
use text.Mathlib.TextPositions.{eq_refl}
use crash.DryRun.Trades.{Trade, is_open}
use crash.DryRun.Ledger.{
  VirtualTradeLedger, resolve, resolve_if, resolve_found, resolve_ids, resolve_round,
  update_drawdown, won, lost,
}

abbrev open_at : Option Trade → Bool
open_at none = false
open_at (some t) = is_open t.status

-- No trade is open under an identifier.
abbrev pub IsClosed : String → VirtualTradeLedger → Type 0
IsClosed id l = open_at (lookup id l.trades) ≡ false

resolve-IsClosed :
    (crash : ℕ) (id j : String) (t : Trade) (l : VirtualTradeLedger)
    → IsClosed id (resolve crash id t l).0 × (IsClosed j l → IsClosed j (resolve crash id t l).0)
unfolding resolve update_drawdown
resolve-IsClosed crash id j t l =
    let e = eq_refl id in
    let a = lookup-insert id id (won crash t) l.trades in
    let b = lookup-insert id id (lost crash t) l.trades in
    let a' = lookup-insert j id (won crash t) l.trades in
    let b' = lookup-insert j id (lost crash t) l.trades in (ground arith, λ h. ground arith)

resolve_if-IsClosed :
    (b : Bool) (crash : ℕ) (id j : String) (t : Trade) (l : VirtualTradeLedger)
    → lookup id l.trades ≡ some t
    → is_open t.status ≡ b
    → IsClosed id (resolve_if b crash id t l).0
      × (IsClosed j l → IsClosed j (resolve_if b crash id t l).0)
unfolding resolve_if
resolve_if-IsClosed true crash id j t l f o = resolve-IsClosed crash id j t l
resolve_if-IsClosed false crash id j t l f o = (ap open_at f ∙ o, λ h. h)

resolve_found-IsClosed :
    (crash : ℕ) (id j : String) (o : Option Trade) (l : VirtualTradeLedger)
    → lookup id l.trades ≡ o
    → IsClosed id (resolve_found crash id o l).0
      × (IsClosed j l → IsClosed j (resolve_found crash id o l).0)
unfolding resolve_found
resolve_found-IsClosed crash id j none l f = (ap open_at f, λ h. h)
resolve_found-IsClosed crash id j (some t) l f =
    resolve_if-IsClosed (is_open t.status) crash id j t l f refl

resolve_ids-keeps :
    (crash : ℕ) (ids : List String) (j : String) (l : VirtualTradeLedger)
    → IsClosed j l
    → IsClosed j (resolve_ids crash ids l).0
unfolding resolve_ids
resolve_ids-keeps crash [] j l h = h
resolve_ids-keeps crash (id ∷ ids) j l h =
    resolve_ids-keeps crash ids j (resolve_found crash id (lookup id l.trades) l).0
      ((resolve_found-IsClosed crash id j (lookup id l.trades) l refl).1 h)

pub resolve_ids-closes :
    (crash : ℕ) (ids : List String) (l : VirtualTradeLedger)
    → All (λ id. IsClosed id (resolve_ids crash ids l).0) ids
unfolding resolve_ids
resolve_ids-closes crash [] l = tt
resolve_ids-closes crash (id ∷ ids) l =
    let l' = (resolve_found crash id (lookup id l.trades) l).0 in
    let h = (resolve_found-IsClosed crash id id (lookup id l.trades) l refl).0 in
    (resolve_ids-keeps crash ids id l' h, resolve_ids-closes crash ids l')

resolve_found-idle :
    (crash : ℕ) (id : String) (o : Option Trade) (l : VirtualTradeLedger)
    → open_at o ≡ false
    → resolve_found crash id o l ≡ (l, [])
unfolding resolve_found resolve_if
resolve_found-idle crash id none l h = refl
resolve_found-idle crash id (some t) l h = ap (λ b. resolve_if b crash id t l) h

resolve_ids-idle :
    (crash : ℕ) (ids : List String) (l : VirtualTradeLedger)
    → All (λ id. IsClosed id l) ids
    → resolve_ids crash ids l ≡ (l, [])
unfolding resolve_ids
resolve_ids-idle crash [] l h = refl
resolve_ids-idle crash (id ∷ ids) l (h, hs) =
    let e = resolve_found-idle crash id (lookup id l.trades) l h in
    ap (λ x. let (l'', rest) = resolve_ids crash ids x.0 in (l'', x.1 ++ rest)) e
    ∙ resolve_ids-idle crash ids l hs

resolve_found-by_round :
    (crash : ℕ) (id : String) (o : Option Trade) (l : VirtualTradeLedger)
    → (resolve_found crash id o l).0.by_round ≡ l.by_round
unfolding resolve_found resolve_if resolve update_drawdown
resolve_found-by_round crash id none l = refl
resolve_found-by_round crash id (some t) l = elim (Bool-cases (is_open t.status)) [
  | inl q ↦ ap (λ b. (resolve_if b crash id t l).0.by_round) q ∙ ground arith
  | inr q ↦ ap (λ b. (resolve_if b crash id t l).0.by_round) q
]

resolve_ids-by_round :
    (crash : ℕ) (ids : List String) (l : VirtualTradeLedger)
    → (resolve_ids crash ids l).0.by_round ≡ l.by_round
unfolding resolve_ids
resolve_ids-by_round crash [] l = refl
resolve_ids-by_round crash (id ∷ ids) l =
    resolve_ids-by_round crash ids (resolve_found crash id (lookup id l.trades) l).0
    ∙ resolve_found-by_round crash id (lookup id l.trades) l

-- Resolving a round a second time, at whatever crash point, resolves no trade and changes nothing.
pub resolve_round-once :
    (round : String) (crash again : ℕ) (l : VirtualTradeLedger)
    → let l' = (resolve_round round crash l).0 in resolve_round round again l' ≡ (l', [])
unfolding resolve_round
resolve_round-once round crash again l =
    let ids = get_or_else (lookup round l.by_round) [] in
    let l' = (resolve_ids crash ids l).0 in
    ap (λ m. resolve_ids again (get_or_else (lookup round m) []) l')
      (resolve_ids-by_round crash ids l)
    ∙ resolve_ids-idle again ids l' (resolve_ids-closes crash ids l)

resolve_found-by_signal :
    (crash : ℕ) (id : String) (o : Option Trade) (l : VirtualTradeLedger)
    → (resolve_found crash id o l).0.by_signal ≡ l.by_signal
unfolding resolve_found resolve_if resolve update_drawdown
resolve_found-by_signal crash id none l = refl
resolve_found-by_signal crash id (some t) l = elim (Bool-cases (is_open t.status)) [
  | inl q ↦ ap (λ b. (resolve_if b crash id t l).0.by_signal) q ∙ ground arith
  | inr q ↦ ap (λ b. (resolve_if b crash id t l).0.by_signal) q
]

pub resolve_ids-by_signal :
    (crash : ℕ) (ids : List String) (l : VirtualTradeLedger)
    → (resolve_ids crash ids l).0.by_signal ≡ l.by_signal
unfolding resolve_ids
resolve_ids-by_signal crash [] l = refl
resolve_ids-by_signal crash (id ∷ ids) l =
    resolve_ids-by_signal crash ids (resolve_found crash id (lookup id l.trades) l).0
    ∙ resolve_found-by_signal crash id (lookup id l.trades) l
