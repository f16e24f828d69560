-- ===== src/Executor/Place.antt =====
-- The class LiveBetExecutor of src/betting/live-executor.ts, wired with its guard of the capital,
-- its settlement engine and its idempotency store. What the page, the observer and the database
-- do is an argument, `Outside`; calls on one executor are serial. Stakes and targets are
-- hundredths, latencies are left out, and the registry of client order identifiers gives the one
-- that the argument names; none is asked for where the executor has no settlement engine.
pub mod Clicks
pub mod Halted
pub mod Passes
pub mod Rows
pub mod Unbooked
pub mod Unknown
use crash.Prelude.{
  ℕ, zero, suc, ◌*◌, String, Bool, true, false, not, ◌||◌, is_empty, if◌then◌else◌, List, [], ◌∷◌,
  map, Option, none, some,
}
use crash.Capital.Limits as Limits
use crash.Capital.Limits.{can_place_bet}
use crash.Settlement.Ledger.{CreateOrderIntent, References}
use crash.Settlement.Engine as Engine
use crash.Settlement.Engine.{create_order_intent, mark_dispatched}
use crash.Idempotency.Types.{PlacementResult}
use crash.Idempotency.Redis as Redis
use crash.Idempotency.Redis.{Commands, Client}
use crash.Daily.Counter.{get_count}
use crash.Executor.Gate.{BlockReason, real_execution_block_reason}
use crash.Executor.Safeguards.{SafeguardsConfig, Refusal, check_pre_flight}
use crash.Executor.Bets.{BetState, pending, reserved, placed, failed, unknown, Bet, update_bet}
pub use crash.Executor.Outside.{
  PlaceBetRequest, PlaceError, LiveBetResult, Fault, Dom, Seen, Meets, Outside, World, Ending,
  Looped, executor_stopped, selectors_missing, settlement_intent_failed, idempotency_collision,
  db_error, telemetry_noise_skip, live_execution_error, not_observed, blocked, pre_flight, capital,
  message, timeout, fault, text_of, clicks, fails_before, fails_after, observed, unseen,
  observation_fails, gives, live_error, throws, ends, escapes, build_result, rejected,
}

abbrev pub in_state : BetState → Bet → Bet
in_state s b = record b { state = s }

abbrev pub as_unknown : String → Bet → Bet
as_unknown reason b = record b { state = unknown; failure_reason = some reason }

unfoldable pub stop : {S : Type 0} → World S → World S
stop w = record w { stopped = true }

module _ {S : Type 0} (redis : Commands S) (client : Client) (r : PlaceBetRequest) where
  -- The row, and the reservation where the session and the round have a name; nothing where the
  -- update of the row throws.
  unfoldable pub mark_unknown : Bool → ℕ → String → World S → World S
  mark_unknown throwing now reason w = if throwing then w else record w {
    bets = update_bet r.bet_id (as_unknown reason) w.bets;
    store =
        if is_empty r.session_id || is_empty r.round_id
        then w.store
        else Redis.fail redis client now r.session_id r.round_id reason w.store;
  }

  uncertain : Meets → PlaceError → String → World S → World S × Ending
  uncertain m error reason w =
      (mark_unknown m.marking_throws m.now reason w, gives (build_result unknown (some error) 0))

  tell : Option Fault → World S → World S × Ending
  tell (some f) w = (w, throws f)
  tell none w = (w, gives (build_result placed none 0))

  settle_placed : Option Fault → Meets → World S → World S × Ending
  unfolding tell
  settle_placed (some f) m w = (w, throws f)
  settle_placed none m w =
      let p : PlacementResult = record { success = true; bet_id = some r.bet_id; error = none } in
      tell m.telling (record w {
        bets = update_bet r.bet_id (in_state placed) w.bets;
        store = Redis.complete redis client m.now r.session_id r.round_id p w.store;
      })

  observe : Seen → Meets → World S → World S × Ending
  unfolding uncertain settle_placed
  observe observed m w = settle_placed m.placing m w
  observe unseen m w = uncertain m not_observed "Placement confirmation not observed" w
  observe (observation_fails reason) m w = uncertain m (message reason) reason w

  -- The click is recorded wherever it went through.
  click : Dom → Meets → World S → World S × Ending
  unfolding observe
  click fails_before m w = (w, live_error)
  click fails_after m w = (record w { clicked = suc w.clicked }, live_error)
  click clicks m w = observe m.seen m (record w { clicked = suc w.clicked })

  reserve_row : Option Fault → Meets → World S → World S × Ending
  unfolding click
  reserve_row (some f) m w = (w, throws f)
  reserve_row none m w =
      click m.dom m (record w { bets = update_bet r.bet_id (in_state reserved) w.bets })

  unfoldable pub attempt_placement : Meets → World S → World S × Ending
  unfolding reserve_row
  attempt_placement m w =
      if not m.velocity_allows
      then (w, live_error)
      else if m.noise_skips
      then (w, gives (rejected telemetry_noise_skip))
      else reserve_row m.reserving m w

  -- How the loop goes on from an attempt: with the rest, if it repeats.
  next : ℕ → World S × Ending → World S × Looped → World S × Looped
  next retry (w, gives result) rest = (w, ends result)
  next retry (w, throws (timeout reason)) rest =
      (w, ends (build_result unknown (some (message reason)) retry))
  next retry (w, throws (fault reason)) rest = (w, escapes retry (fault reason))
  next retry (w, live_error) rest = rest

  -- The retries that are left, and those that were made.
  attempt_all : ℕ → ℕ → (ℕ → Meets) → World S → World S × Looped
  unfolding next
  attempt_all zero retry meets w =
      let (w', e) = attempt_placement (meets retry) w in
      next retry (w', e) (w', ends (build_result failed (some live_execution_error) retry))
  attempt_all (suc left) retry meets w =
      let (w', e) = attempt_placement (meets retry) w in
      let rest = attempt_all left (suc retry) meets w' in next retry (w', e) rest

  -- The `catch` around the loop; the event that it tells is left out.
  conclude : Outside → World S × Looped → World S × LiveBetResult
  conclude o (w, ends result) = (w, result)
  conclude o (w, escapes retry f) = (
    mark_unknown o.marking_throws o.failed_at (text_of f) w,
    build_result unknown (some (message (text_of f))) retry,
  )

  abbrev pub new_bet : String → Bet
  new_bet id = record {
    id = id;
    session_id = r.session_id;
    round_id = r.round_id;
    stake = r.stake;
    cash_out_target = r.target;
    state = pending;
    failure_reason = none;
  }

  place_row : ℕ → Outside → Option String → World S → World S × LiveBetResult
  unfolding attempt_all conclude
  place_row retries o none w = (w, rejected db_error)
  place_row retries o (some id) w =
      conclude o (attempt_all retries 0 o.attempts (record w { bets = new_bet id ∷ w.bets }))

  -- From the reservation of the round on.
  place_reserved : ℕ → Outside → World S × Bool → World S × LiveBetResult
  unfolding place_row
  place_reserved retries o (w, false) = (w, rejected idempotency_collision)
  place_reserved retries o (w, true) =
      place_row retries o o.row_id (record w { counter = (get_count o.later_key w.counter).0 })

  reserve_round : Outside → World S → World S × Bool
  reserve_round o w =
      let (s, ok) = Redis.reserve redis client o.now r.session_id r.round_id r.bet_id w.store in
      (record w { store = s }, ok)

  abbrev pub order_intent : String → CreateOrderIntent
  order_intent id = record {
    client_order_id = id;
    tenant_id = none;
    bet_id = some r.bet_id;
    game_id = none;
    round_id = some r.round_id;
    wager_amount = r.stake * 1000000;
    target_multiplier = r.target * 1000000;
  }

  pub place_booked : ℕ → Outside → String → Engine.Outcome ℕ → World S → World S × LiveBetResult
  unfolding place_reserved reserve_round
  place_booked retries o cid (Engine.thrown db e) w =
      (record w { books = db }, rejected settlement_intent_failed)
  place_booked retries o cid (Engine.committed db id) w =
      place_reserved retries o (reserve_round o (record w { books = mark_dispatched db cid }))
  place_booked retries o cid (Engine.rolled_back db id) w =
      place_reserved retries o (reserve_round o (record w { books = mark_dispatched db cid }))

  -- The rows of the table bets, to which the order's bet_id refers; it names no tenant.
  abbrev pub bet_rows : List Bet → References
  bet_rows bs = record { users = []; bets = map (λ b. b.id) bs }

  pub place_ordered : ℕ → Outside → Option String → World S → World S × LiveBetResult
  unfolding place_booked
  place_ordered retries o none w = place_reserved retries o (reserve_round o w)
  place_ordered retries o (some cid) w =
      place_booked retries o cid (create_order_intent (bet_rows w.bets) w.books (order_intent cid))
        w

  place_allowed : ℕ → Outside → Option Limits.Reason → World S → World S × LiveBetResult
  unfolding place_ordered
  place_allowed retries o (some reason) w = (w, rejected (capital reason))
  place_allowed retries o none w = place_ordered retries o o.client_order_id w

  place_checked : ℕ → Outside → Option Refusal → World S → World S × LiveBetResult
  unfolding place_allowed
  place_checked retries o (some refusal) w = (w, rejected (pre_flight refusal))
  place_checked retries o none w = place_allowed retries o (can_place_bet r.stake w.guard) w

  place_present : SafeguardsConfig → ℕ → Outside → Bool → World S → World S × LiveBetResult
  unfolding place_checked
  place_present c retries o false w = (w, rejected selectors_missing)
  place_present c retries o true w =
      let (counter, refusal) = check_pre_flight c o.day_key o.tracker r.stake o.history w.counter in
      place_checked retries o refusal (record w { counter = counter })

  place_unblocked :
      SafeguardsConfig → ℕ → Outside → Option BlockReason → World S → World S × LiveBetResult
  unfolding place_present
  place_unblocked c retries o (some reason) w = (w, rejected (blocked reason))
  place_unblocked c retries o none w = place_present c retries o o.selectors_present w

  place_running : SafeguardsConfig → ℕ → Outside → Bool → World S → World S × LiveBetResult
  unfolding place_unblocked
  place_running c retries o true w = (w, rejected executor_stopped)
  place_running c retries o false w =
      place_unblocked c retries o (real_execution_block_reason o.environment r.dry_run) w

  unfoldable pub place_live_bet : SafeguardsConfig → ℕ → Outside → World S → World S × LiveBetResult
  unfolding place_running
  place_live_bet c retries o w = place_running c retries o w.stopped w
