-- ===== src/Executor/Place/Passes.antt =====
-- A placement whose checks have passed goes on with its order (src/betting/live-executor.ts).
use crash.Prelude.{ℕ, ◌≡◌, ap, ◌∙◌, true, false, none}
use crash.Capital.Limits.{can_place_bet}
use crash.Idempotency.Redis.{Commands, Client}
use crash.Executor.Gate.{real_execution_block_reason}
use crash.Executor.Safeguards.{SafeguardsConfig, check_pre_flight}
use crash.Executor.Place.{
  PlaceBetRequest, Outside, World, place_live_bet, place_running, place_unblocked, place_present,
  place_checked, place_allowed, place_ordered,
}

module _ {S : Type 0} (redis : Commands S) (client : Client) (r : PlaceBetRequest) where
  -- Every check before the order is booked.
  pub record Passes (c : SafeguardsConfig) (o : Outside) (w : World S) : Type 0 where
    pub running : w.stopped ≡ false
    pub unblocked : real_execution_block_reason o.environment r.dry_run ≡ none
    pub selectors : o.selectors_present ≡ true
    pub pre_flight : (check_pre_flight c o.day_key o.tracker r.stake o.history w.counter).1 ≡ none
    pub capital : can_place_bet r.stake w.guard ≡ none

  abbrev pub counted : SafeguardsConfig → Outside → World S → World S
  counted c o w = record w {
    counter = (check_pre_flight c o.day_key o.tracker r.stake o.history w.counter).0;
  }

  pub place_live_bet-eq-place_ordered :
      (c : SafeguardsConfig) (retries : ℕ) (o : Outside) (w : World S)
      → Passes c o w
      → place_live_bet redis client r c retries o w
        ≡ place_ordered redis client r retries o o.client_order_id (counted c o w)
  unfolding place_live_bet place_running place_unblocked place_present place_checked place_allowed
  place_live_bet-eq-place_ordered c retries o w p =
      ap (λ b. place_running redis client r c retries o b w) p.running
      ∙ ap (λ b. place_unblocked redis client r c retries o b w) p.unblocked
      ∙ ap (λ b. place_present redis client r c retries o b w) p.selectors
      ∙ ap (λ f. place_checked redis client r retries o f (counted c o w)) p.pre_flight
      ∙ ap (λ f. place_allowed redis client r retries o f (counted c o w)) p.capital
