-- ===== src/Executor/Place/Halted.antt =====
-- A stopped executor (src/betting/live-executor.ts).
use crash.Prelude.{ℕ, ◌≡◌, refl, Bool, true, false}
use crash.Idempotency.Redis.{Commands, Client}
use crash.Executor.Safeguards.{SafeguardsConfig}
use crash.Executor.Place.{
  PlaceBetRequest, Outside, World, place_live_bet, place_running, rejected, executor_stopped,
}

module _ {S : Type 0} (redis : Commands S) (client : Client) (r : PlaceBetRequest)
    (c : SafeguardsConfig) (retries : ℕ) (o : Outside) (w : World S) where
  place_running-stopped :
      (b : Bool)
      → b ≡ true
      → place_running redis client r c retries o b w ≡ (w, rejected executor_stopped)
  unfolding place_running
  place_running-stopped true e = refl
  place_running-stopped false e = cc

  pub place_live_bet-stopped :
      w.stopped ≡ true
      → place_live_bet redis client r c retries o w ≡ (w, rejected executor_stopped)
  unfolding place_live_bet
  place_live_bet-stopped e = place_running-stopped w.stopped e
