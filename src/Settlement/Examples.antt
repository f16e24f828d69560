-- ===== src/Settlement/Examples.antt =====
-- The theorems about the settlement engine at concrete inputs (src/settlement).
use crash.Prelude.{◌+◌, ◌≡◌, refl, [], ◌∷◌, none, some}
use crash.Settlement.Ledger.{CreateOrderIntent, References, Db, find_order, debits, credits}
use crash.Settlement.Engine.{
  rolled_back, db_after, create_order_intent, Payload, SettlementStatus, win, settle_order, settled,
  already_final, creates, dispatches, settles, step, run, mark_dispatched, update_status,
  insert_entry, is_balanced,
}
use crash.Settlement.Engine.Balanced.{Balanced, step-Balanced, run-Balanced}
use crash.Settlement.Engine.Final.{settle_order-once}
use crash.Settlement.Engine.Exposure.{exposed, closed}
use crash.Settlement.Engine.Exposure.History.{Fits, empty-Fits, run-exposed, step-Fits}

abbrev empty : Db
empty = record { orders = []; lines = []; next_id = 1 }

abbrev intent : CreateOrderIntent
intent = record {
  client_order_id = "o1";
  tenant_id = none;
  bet_id = some "b1";
  game_id = none;
  round_id = some "r1";
  wager_amount = 70000;
  target_multiplier = 200000000;
}

-- The bet of the order has its row.
abbrev rows : References
rows = record { users = []; bets = "b1" ∷ [] }

abbrev won : Payload
won = record {
  client_order_id = "o1";
  status = win;
  gross_payout = 140000;
  multiplier = 200000000;
  settled_at = 5;
  external_reference = some "x1";
}

abbrev lost : Payload
lost = record won { status = SettlementStatus.loss; gross_payout = 0 }

abbrev opened : Db
opened = run empty (creates rows intent ∷ dispatches "o1" ∷ [])

empty-Balanced : Balanced empty.lines
unfolding debits credits
empty-Balanced k = refl

opened-Balanced : Balanced opened.lines
opened-Balanced = run-Balanced empty (creates rows intent ∷ dispatches "o1" ∷ []) empty-Balanced

step-Balanced_example :
    debits 1 (step opened (settles won)).lines ≡ credits 1 (step opened (settles won)).lines
step-Balanced_example = step-Balanced opened (settles won) opened-Balanced 1

run-Balanced_example :
    debits 1 (run opened (settles won ∷ [])).lines ≡ credits 1 (run opened (settles won ∷ [])).lines
run-Balanced_example = run-Balanced opened (settles won ∷ []) opened-Balanced 1

settle_order-once_example :
    settle_order (db_after (settle_order opened won)) lost
    ≡ rolled_back (db_after (settle_order opened won)) already_final
unfolding run step create_order_intent find_order insert_entry is_balanced debits credits
    mark_dispatched update_status settle_order
settle_order-once_example =
    (settle_order-once opened (db_after (settle_order opened won)) won lost settled refl refl
      refl).1

run-exposed_example :
    exposed 1 (run empty (creates rows intent ∷ settles won ∷ [])).lines
    ≡ closed 1 (run empty (creates rows intent ∷ settles won ∷ [])).lines + 0
unfolding run step create_order_intent find_order insert_entry is_balanced debits credits
    settle_order
run-exposed_example =
    run-exposed empty (creates rows intent ∷ settles won ∷ []) "o1" _ (empty-Fits 1) refl

step-Fits_example : Fits (step empty (creates rows intent))
step-Fits_example = step-Fits empty (creates rows intent) (empty-Fits 1)
