-- ===== src/Executor/Place/Unknown.antt =====
-- What an attempt whose bet is not seen leaves on the reservation
-- (src/betting/live-executor.ts).
use crash.Prelude.{
  ℕ, suc, ◌+◌, ◌≤◌, ◌≡◌, ◌≢◌, refl, String, true, false, is_empty, min, Option, none, some,
}
use crash.Idempotency.Types.{failed, failure, with_result, IdempotencyRecord}
use crash.Idempotency.Redis as Redis
use crash.Idempotency.Redis.{Commands, Client, redis_key, reservation}
use crash.Idempotency.Redis.Laws.{Laws, View}
use crash.Idempotency.Redis.Reserved.{fail-frees}
use crash.Executor.Bets.{unknown}
use crash.Executor.Place.{
  PlaceBetRequest, Meets, World, Fault, clicks, unseen, attempt_placement, build_result, gives,
  not_observed, reserve_row, click, observe, uncertain, mark_unknown,
}

-- An attempt whose click goes through and whose bet is then not seen on the page.
abbrev pub unobserved : ℕ → Option Fault → Option Fault → Meets
unobserved now placing telling = record {
  now = now;
  velocity_allows = true;
  noise_skips = false;
  reserving = none;
  dom = clicks;
  seen = unseen;
  marking_throws = false;
  placing = placing;
  telling = telling;
}

module _ {S : Type 0} (redis : Commands S) (live : View S) (laws : Laws redis live)
    (client : Client) (r : PlaceBetRequest) where
  -- An attempt that has clicked, and whose bet is then not seen, ends as UNKNOWN; when its session
  -- and its round have a name, its row is updated, and the store answers the read and the write, the
  -- round can all the same be reserved again a minute later, unless that reservation's own call
  -- throws.
  pub unobserved-frees :
      (now later : ℕ) (placing telling : Option Fault) (other : String) (w : World S)
      (old : IdempotencyRecord)
      → is_empty r.session_id ≡ false
      → is_empty r.round_id ≡ false
      → redis.get now (redis_key redis client r.session_id r.round_id) w.store ≡ some (some old)
      → (redis.set now
          (redis_key redis client r.session_id r.round_id)
          (with_result failed (failure "Placement confirmation not observed") old)
          (min client.ttl_ms 60000)
          w.store).1
        ≡ true
      → now + 60000 ≤ later
      → let (w', e) = attempt_placement redis client r (unobserved now placing telling) w in
        (redis.set_nx later
            (redis_key redis client r.session_id r.round_id)
            (reservation redis client later r.session_id r.round_id other)
            client.ttl_ms
            w'.store).1
          ≢ none
        → (w'.clicked ≡ suc w.clicked)
          × (e ≡ gives (build_result unknown (some not_observed) 0))
          × ((Redis.reserve redis client later r.session_id r.round_id other w'.store).1 ≡ true)
  unfolding attempt_placement reserve_row click observe uncertain mark_unknown
  unobserved-frees now later placing telling other w old named round g a l =
      rw (named, round)
        (λ n. (
          refl,
          refl,
          fail-frees redis live laws client now later r.session_id r.round_id
              "Placement confirmation not observed" other w.store old g a l n,
        ))
