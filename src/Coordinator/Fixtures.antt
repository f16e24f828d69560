-- ===== src/Coordinator/Fixtures.antt =====
-- A coordinator, its options and what a round meets, for the examples
-- (src/betting/betting-coordinator.ts).
use crash.Prelude.{ℕ, suc, true, false, none, some}
use crash.Machine.Types.{BettingState}
use crash.Machine.Fixtures.{at_state}
use crash.Daily.Types.{new_day}
use crash.Risk.Breaker.{create}
use crash.Risk.Engine.{Signal, Evaluation, live, dry_run}
use crash.Executor.Outside.{PlaceBetRequest}
use crash.Coordinator.Browser as Browser
use crash.Coordinator.Outside.{
  Options, Coordinator, Placing, is_placed, decides, enters, allowed, Outside, new,
}
use crash.Coordinator.Browser.Health as Health

-- An executor that counts its requests and places every bet.
abbrev pub counts : PlaceBetRequest → ℕ → ℕ × Placing
counts r n = (suc n, is_placed)

abbrev pub live_options : Options
live_options = record {
  mode = live;
  has_executor = true;
  has_daily_ledger = true;
  has_decision_engine = false;
  max_daily_entries = 2;
  stake_per_entry = some 10000;
  cash_out_target = none;
  initial_session_id = some "s1";
  has_on_state_change = false;
}

abbrev pub dry_options : Options
dry_options = record live_options { mode = dry_run; has_executor = false }

abbrev pub signal : Signal
signal = record {
  prediction_id = "p1";
  probability = 800;
  confidence = 700;
  target = 150;
  expires_at = "xxxxxxxxx";
  data_quality = 900;
}

abbrev pub approval : Evaluation
approval = record {
  approved = true;
  conditions = λ c. true;
  rejection_reason = none;
  first_failure = none;
}

abbrev pub outside : Outside
outside = record {
  at = λ m. 5;
  bet_id = "b1";
  decided = decides true (some signal) approval;
  decide = λ i. enters;
  rejection_text = λ r. "rejected";
  environment = record { explicit = some Browser.local; worker_url = none; is_production = false };
  worker = Health.create 3 60000;
  quota = allowed;
  reserving = none;
  reservation_text = none;
  confirming = none;
  ledger_text = λ e. "ledger";
  on_entry_confirmed = none;
  releasing = none;
  releasing_again = false;
}

abbrev pub fresh : Coordinator ℕ
fresh = new live_options none new_day (create 3 60000 false) 0

-- A coordinator whose machine has approved an entry.
abbrev pub approved : Coordinator ℕ
approved = record fresh { machine = at_state BettingState.entry_approved }
