-- ===== src/Executor/Place/Unbooked.antt =====
-- An executor with a settlement engine (src/betting/live-executor.ts): the order names the bet of
-- the request, whose row the executor makes only later, and under another identifier.
use crash.Prelude.{
  ℕ, ◌≡◌, refl, ap, ◌∙◌, String, Bool, true, false, map, List, [], ◌∷◌, Option, none, some, All,
}
use crash.Capital.Limits as Limits
use crash.Capital.Limits.{can_place_bet}
use crash.Settlement.Ledger.{find_order, has_row}
use crash.Settlement.Engine.{thrown, missing_reference, Outcome}
use crash.Settlement.Engine.Final.{create_order_intent-thrown}
use crash.Idempotency.Redis.{Commands, Client}
use crash.Daily.Counter.{Counter}
use crash.Executor.Gate.{BlockReason, real_execution_block_reason}
use crash.Executor.Safeguards.{SafeguardsConfig, Refusal, check_pre_flight}
use crash.Executor.Bets.{Bet}
use crash.Executor.Place.{
  PlaceBetRequest, PlaceError, LiveBetResult, Outside, World, rejected, place_live_bet,
  place_running, place_unblocked, place_present, place_checked, place_allowed, place_ordered,
  place_booked,
}

module _ {S : Type 0} (redis : Commands S) (client : Client) (c : SafeguardsConfig)
    (retries : ℕ) where
  -- Placements of an executor, each with what it meets, and what each of them returns.
  unfoldable pub place_all :
      List (PlaceBetRequest × Outside) → World S → World S × List LiveBetResult
  place_all [] w = (w, [])
  place_all ((r, o) ∷ rest) w =
      let (w', result) = place_live_bet redis client r c retries o w in
      let (w'', results) = place_all rest w' in (w'', result ∷ results)

  -- The order has an identifier that is new to the books, and no row of bets is the request's.
  abbrev pub Unreferenced : World S → PlaceBetRequest × Outside → Type 0
  Unreferenced w (r, o) =
      (cid : String) × (o.client_order_id ≡ some cid)
      × (find_order cid w.books.orders ≡ none)
      × (has_row r.bet_id (map (λ (b : Bet). b.id) w.bets) ≡ false)

  -- The placement is rejected and changes at most the counter of the day.
  abbrev Untouched : World S → World S × LiveBetResult → Type 0
  Untouched w p = (k : Counter) × (e : PlaceError) × (p ≡ (record w { counter = k }, rejected e))

  module _ (r : PlaceBetRequest) (o : Outside) where
    place_booked-thrown :
        (w : World S) (cid : String) (b : Outcome ℕ)
        → b ≡ thrown w.books missing_reference
        → Untouched w (place_booked redis client r retries o cid b w)
    unfolding place_booked
    place_booked-thrown w cid b e =
        (w.counter, _, ap (λ x. place_booked redis client r retries o cid x w) e)

    place_ordered-Untouched :
        (w : World S)
        → Unreferenced w (r, o)
        → Untouched w (place_ordered redis client r retries o o.client_order_id w)
    unfolding place_ordered
    place_ordered-Untouched w (cid, e, f, n) =
        let (k, x, q) = place_booked-thrown w cid _ (create_order_intent-thrown _ w.books _ f n) in
        (k, x, ap (λ i. place_ordered redis client r retries o i w) e ∙ q)

    place_allowed-Untouched :
        (f : Option Limits.Reason) (w : World S)
        → Unreferenced w (r, o)
        → Untouched w (place_allowed redis client r retries o f w)
    unfolding place_allowed
    place_allowed-Untouched (some reason) w u = (w.counter, _, refl)
    place_allowed-Untouched none w u = place_ordered-Untouched w u

    place_checked-Untouched :
        (f : Option Refusal) (w : World S)
        → Unreferenced w (r, o)
        → Untouched w (place_checked redis client r retries o f w)
    unfolding place_checked
    place_checked-Untouched (some f) w u = (w.counter, _, refl)
    place_checked-Untouched none w u = place_allowed-Untouched (can_place_bet r.stake w.guard) w u

    place_present-Untouched :
        (b : Bool) (w : World S)
        → Unreferenced w (r, o)
        → Untouched w (place_present redis client r c retries o b w)
    unfolding place_present
    place_present-Untouched false w u = (w.counter, _, refl)
    place_present-Untouched true w u =
        let (k, f) = check_pre_flight c o.day_key o.tracker r.stake o.history w.counter in
        place_checked-Untouched f (record w { counter = k }) u

    place_unblocked-Untouched :
        (b : Option BlockReason) (w : World S)
        → Unreferenced w (r, o)
        → Untouched w (place_unblocked redis client r c retries o b w)
    unfolding place_unblocked
    place_unblocked-Untouched (some b) w u = (w.counter, _, refl)
    place_unblocked-Untouched none w u = place_present-Untouched o.selectors_present w u

    place_running-Untouched :
        (b : Bool) (w : World S)
        → Unreferenced w (r, o)
        → Untouched w (place_running redis client r c retries o b w)
    unfolding place_running
    place_running-Untouched true w u = (w.counter, _, refl)
    place_running-Untouched false w u =
        place_unblocked-Untouched (real_execution_block_reason o.environment r.dry_run) w u

  -- With a settlement engine, over every sequence of placements whose orders are new to the books
  -- and of whose bets none has a row at the start, no placement clicks or is placed, and the books,
  -- the rows of bets and the reservations stay as they are: the order refers to a row of its bet,
  -- and the executor makes none before it.
  pub place_all-unbooked :
      (ps : List (PlaceBetRequest × Outside)) (w : World S)
      → All (Unreferenced w) ps
      → let (w', results) = place_all ps w in
        (w'.clicked ≡ w.clicked)
        × (w'.books ≡ w.books)
        × (w'.bets ≡ w.bets)
        × (w'.store ≡ w.store)
        × All (λ (x : LiveBetResult). x.is_placed ≡ false) results
  unfolding place_all place_live_bet
  place_all-unbooked [] w u = (refl, refl, refl, refl, tt)
  place_all-unbooked ((r, o) ∷ rest) w (u, us) =
      let (k, x, e) = place_running-Untouched r o w.stopped w u in
      let (a, b, d, s, t) = place_all-unbooked rest (record w { counter = k }) us in
      rw e (a, b, d, s, (refl, t))
