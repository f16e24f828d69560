-- ===== src/Executor/Bets.antt =====
-- What the executor uses of src/persistence/repositories/bet-repo.ts: a new row, whose identifier
-- the database makes, and the change of the row under an identifier.
use text.Mathlib.Text.{◌==◌ as str_eq}
use crash.Prelude.{ℕ, String, if◌then◌else◌, List, [], ◌∷◌, Option, none, some}

pub data BetState : Type 0 where
  pending reserved placed confirmed active : BetState
  cash_out_requested cashed_out lost failed unknown reconciled : BetState

pub record Bet : Type 0 where
  pub id : String
  pub session_id : String
  pub round_id : String
  pub stake : ℕ
  pub cash_out_target : ℕ
  pub state : BetState
  pub failure_reason : Option String

abbrev pub find_bet : String → List Bet → Option Bet
find_bet id [] = none
find_bet id (b ∷ bs) = if str_eq b.id id then some b else find_bet id bs

-- `UPDATE bets SET … WHERE id = …`, which changes nothing where no row has the identifier.
unfoldable pub update_bet : String → (Bet → Bet) → List Bet → List Bet
update_bet id f [] = []
update_bet id f (b ∷ bs) = (if str_eq b.id id then f b else b) ∷ update_bet id f bs
