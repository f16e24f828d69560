-- ===== src/Executor/Examples.antt =====
-- The theorems about the placement of live bets at concrete inputs
-- (src/betting/live-executor.ts).
use crash.Prelude.{◌≡◌, ◌≢◌, refl, true, false, List, [], ◌∷◌, none, some, All, arith}
use crash.Capital.Limits.{create, can_place_bet}
use crash.Settlement.Ledger.{find_order}
use crash.Idempotency.Redis as Redis
use crash.Idempotency.Redis.{redis_key, reservation}
use crash.Idempotency.Local.{Kept, live, local, local-Laws, client, set_nx-answers}
use crash.Daily.Counter.{get_count, roll_over}
use crash.Executor.Gate.{real_execution_block_reason, is_dry_run_mode}
use crash.Executor.Safeguards.{check_pre_flight, get_health_status}
use crash.Executor.Bets.{find_bet, unknown}
use crash.Executor.Fixtures.{request, safeguards, meets, outside, on, world}
use crash.Executor.Place.{
  PlaceBetRequest, Outside, LiveBetResult, place_live_bet, new_bet, attempt_placement, build_result,
  gives, not_observed,
}
use crash.Executor.Place.Clicks.{Bounded, IsCleared, place_live_bet-clicked}
use crash.Executor.Place.Passes.{Passes}
use crash.Executor.Place.Rows.{place_live_bet-leaves_pending}
use crash.Executor.Place.Unknown.{unobserved, unobserved-frees}
use crash.Executor.Place.Unbooked.{place_all, place_all-unbooked}

-- The store after this bet's own reservation.
abbrev own : Kept
own = (Redis.reserve local client 1000 "s1" "r1" "b1" []).0

on-Passes : (s : Kept) → Passes local client request safeguards outside (on s)
unfolding real_execution_block_reason check_pre_flight can_place_bet create is_dry_run_mode
    get_count roll_over get_health_status
on-Passes s = record {
  running = refl;
  unblocked = refl;
  selectors = refl;
  pre_flight = refl;
  capital = refl;
}

place_live_bet-clicked_example :
    let w' = (place_live_bet local client request safeguards 3 outside world).0 in
    Bounded local client request 3 meets 0 w'.clicked
    × (w'.clicked ≢ 0 → IsCleared local client request safeguards outside world)
place_live_bet-clicked_example =
    place_live_bet-clicked local client request safeguards 3 outside world

place_live_bet-leaves_pending_example :
    find_bet "row1" (place_live_bet local client request safeguards 3 outside world).0.bets
    ≡ some (new_bet local client request "row1")
unfolding Redis.reserve
place_live_bet-leaves_pending_example =
    place_live_bet-leaves_pending local client request "row1" refl safeguards 3 outside world
      (on-Passes []) refl refl refl

unobserved-frees_example :
    let (w', e) = attempt_placement local client request (unobserved 2000 none none) (on own) in
    (w'.clicked ≡ 1)
    × (e ≡ gives (build_result unknown (some not_observed) 0))
    × ((Redis.reserve local client 62000 "s1" "r1" "b2" w'.store).1 ≡ true)
unfolding Redis.reserve redis_key reservation attempt_placement Redis.fail
unobserved-frees_example =
    unobserved-frees local live local-Laws client request 2000 62000 none none "b2" (on own)
      (reservation local client 1000 "s1" "r1" "b1") refl refl refl refl (omega arith)
      (set_nx-answers 62000 300000 (redis_key local client "s1" "r1")
        (reservation local client 62000 "s1" "r1" "b2")
        (attempt_placement local client request (unobserved 2000 none none) (on own)).0.store)

-- Two placements of one request, the second with another order.
abbrev orders : List (PlaceBetRequest × Outside)
orders =
    (request, record outside { client_order_id = some "o1" })
    ∷ (request, record outside { client_order_id = some "o2" })
    ∷ []

place_all-unbooked_example :
    let (w', results) = place_all local client safeguards 3 orders world in
    (w'.clicked ≡ 0)
    × (w'.books ≡ world.books)
    × (w'.bets ≡ [])
    × (w'.store ≡ [])
    × All (λ (x : LiveBetResult). x.is_placed ≡ false) results
unfolding find_order
place_all-unbooked_example =
    place_all-unbooked local client safeguards 3 orders world
      (("o1", refl, refl, refl), (("o2", refl, refl, refl), tt))
