-- ===== src/Coordinator/Live.antt =====
-- The coordinator with the live executor of src/betting/live-executor.ts bound to it: a click on
-- the page is a result of both.
mod Examples
use crash.Prelude.{ℕ, String, ◌≡◌, ◌≢◌, refl, ap, ◌∙◌, inl, inr, if◌then◌else◌, Option, none, some}
use crash.Machine.Types.{RoundState}
use crash.Machine.Dates.{Dates}
use crash.Idempotency.Redis.{Commands, Client}
use crash.Executor.Safeguards.{SafeguardsConfig}
use crash.Executor.Place as Live
use crash.Executor.Place.{PlaceBetRequest, PlaceError, LiveBetResult, World}
use crash.Executor.Place.Clicks.{IsCleared, place_live_bet-clicked}
use crash.Coordinator.Outside.{Options, Coordinator, Placing, is_placed, not_placed, Outside}
use crash.Coordinator.Place as Place
use crash.Coordinator.Round.{on_round_started, keep_signal}
use crash.Coordinator.Round.Asks.{
  IsEntered, on_round_started-IsEntered, started_at, keep_signal-executor,
}

-- `result.placed`, and `result.error` as a text.
abbrev error_text : (PlaceError → String) → Option PlaceError → Option String
error_text text none = none
error_text text (some e) = some (text e)

abbrev pub answer : (PlaceError → String) → LiveBetResult → Placing
answer text r = if r.is_placed then is_placed else not_placed (error_text text r.error)

module _ {S : Type 0} (redis : Commands S) (client : Client) (safeguards : SafeguardsConfig)
    (retries : ℕ) (meets : PlaceBetRequest → Live.Outside) (text : PlaceError → String) where
  -- The executor with what each request meets outside.
  abbrev pub live_bet : PlaceBetRequest → World S → World S × Placing
  live_bet r w =
      let (w', result) = Live.place_live_bet redis client r safeguards retries (meets r) w in
      (w', answer text result)

  -- A round that clicks the bet button is one that the coordinator has entered, and for a request
  -- that the executor has cleared: both the conditions of the round and those of the executor hold.
  pub on_round_started-clicked :
      (d : Dates) (opts : Options) (o : Outside) (round_id : String) (r : RoundState)
      (c : Coordinator (World S))
      → (on_round_started live_bet d opts o round_id r c).executor.clicked ≢ c.executor.clicked
      → IsEntered live_bet d opts o round_id r c
          (on_round_started live_bet d opts o round_id r c).executor
        × ((q : PlaceBetRequest) × (q.bet_id ≡ o.bet_id)
            × (q.round_id ≡ round_id)
            × IsCleared redis client q safeguards (meets q) c.executor)
  on_round_started-clicked d opts o round_id r c clicked =
      elim (on_round_started-IsEntered live_bet d opts o round_id r c) [
        | inl same ↦ absurd (clicked (ap (λ w. w.clicked) same))
        | inr p ↦
            let c₀ =
              keep_signal live_bet d opts round_id p.signal
                (started_at live_bet d opts o round_id r c) in
            let q =
              Place.request live_bet d opts o round_id
                (Place.round_target live_bet d opts round_id c₀) c₀ in
            let same : c₀.executor ≡ c.executor =
              keep_signal-executor live_bet d opts o round_id p.signal _ in
            (
              p,
              (
                q,
                refl,
                refl,
                (place_live_bet-clicked redis client q safeguards retries (meets q) c.executor).1
                    (λ e. clicked (
                      ap (λ w. w.clicked) p.placed.leaves
                      ∙ ap
                          (λ w.
                            (Live.place_live_bet redis client q safeguards retries (meets q)
                              w).0.clicked)
                          same
                      ∙ e)),
              ),
            )
      ]
