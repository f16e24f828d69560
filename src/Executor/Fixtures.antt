-- ===== src/Executor/Fixtures.antt =====
-- A request, its circumstances and the executor that meets it, for the examples
-- (src/betting/live-executor.ts).
use crash.Prelude.{ℕ, zero, suc, true, false, [], none, some}
use crash.Capital.Limits.{CapitalLimitsConfig, create}
use crash.Idempotency.Local.{Kept}
use crash.Executor.Safeguards.{SafeguardsConfig}
use crash.Executor.Place.{PlaceBetRequest, Meets, Outside, World, fails_after}
use crash.Executor.Place.Unknown.{unobserved}

abbrev pub request : PlaceBetRequest
request = record {
  bet_id = "b1";
  round_id = "r1";
  session_id = "s1";
  stake = 100;
  target = 150;
  dry_run = false;
}

abbrev pub limits : CapitalLimitsConfig
limits = record {
  max_drawdown_abs = 50000;
  max_drawdown_pct = 3000;
  panic_balance_floor = 10000;
  max_stake = 70000;
  starting_bankroll = 200000;
}

abbrev pub safeguards : SafeguardsConfig
safeguards = record {
  min_balance_for_entry = 1000;
  balance_buffer = 100;
  mode_is_live = true;
  max_daily_entries = 5;
}

-- The first attempt fails after its click, the next ones click and do not see the bet.
abbrev pub meets : ℕ → Meets
meets zero = record (unobserved 2000 none none) { dom = fails_after }
meets (suc n) = unobserved 3000 none none

abbrev pub outside : Outside
outside = record {
  environment = record { mode = "live"; dry_run = ""; allow_real_execution = "true" };
  selectors_present = true;
  day_key = "d1";
  later_key = "d1";
  tracker = record { unparseable = false; balance = some 50000 };
  history = [];
  client_order_id = none;
  now = 1000;
  row_id = some "row1";
  attempts = meets;
  failed_at = 4000;
  marking_throws = false;
}

abbrev pub on : Kept → World Kept
on s = record {
  stopped = false;
  guard = create limits;
  books = record { orders = []; lines = []; next_id = 1 };
  store = s;
  bets = [];
  counter = record { count = 0; daily_key = "d1" };
  clicked = 0;
}

abbrev pub world : World Kept
world = on []
