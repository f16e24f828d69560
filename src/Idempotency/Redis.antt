-- ===== src/Idempotency/Redis.antt =====
-- The class IdempotencyKeyStore of src/betting/idempotency.ts. The shared store is no part of the
-- program: a record of its commands is a parameter, each of which answers or throws. A record
-- stands for the text it is kept as; `prefix` is what redis-client.ts puts before a key.
pub mod Laws
pub mod Reserved
use Prim.Native.String.{◌++◌ as str_append}
use crash.Prelude.{ℕ, String, Bool, false, is_some, min, max, Option, none, some}
use crash.Machine.Dates.{Dates}
use crash.Idempotency.Types.{
  pending, completed, failed, unknown, PlacementResult, IdempotencyRecord, generate_key, failure,
  with_result,
}

-- SET with NX and PX, SET with PX, GET and DEL, at a time. `none` and `false` as the answer of a
-- command stand for one that throws; SET with NX answers whether the key was set.
pub record Commands (S : Type 0) : Type 0 where
  pub set_nx : ℕ → String → IdempotencyRecord → ℕ → S → S × Option Bool
  pub set : ℕ → String → IdempotencyRecord → ℕ → S → S × Bool
  pub get : ℕ → String → S → Option (Option IdempotencyRecord)
  pub del : ℕ → String → S → S × Bool

pub record Client : Type 0 where
  pub ttl_ms : ℕ
  pub prefix : String
  pub dates : Dates

-- `result === 'OK'`, and the answer when the command throws.
abbrev is_ok : Option Bool → Bool
is_ok (some b) = b
is_ok none = false

-- What a read brings, nothing when it throws.
abbrev answered : Option (Option IdempotencyRecord) → Option IdempotencyRecord
answered (some r) = r
answered none = none

module _ {S : Type 0} (redis : Commands S) (c : Client) where
  unfoldable pub redis_key : String → String → String
  redis_key session round =
      str_append c.prefix (str_append "idempotency:" (generate_key session round))

  unfoldable pub reservation : ℕ → String → String → String → IdempotencyRecord
  reservation now session round bet = record {
    key = none;
    status = pending;
    bet_id = some bet;
    round_id = round;
    session_id = session;
    created_at = c.dates.to_iso_string now;
    expires_at = none;
    result = none;
  }

  unfoldable pub reserve : ℕ → String → String → String → S → S × Bool
  reserve now session round bet s =
      let (s', a) =
        redis.set_nx now (redis_key session round) (reservation now session round bet) c.ttl_ms s in
      (s', is_ok a)

  -- A change of a record that is found, with a new time to live.
  rewrite :
      (IdempotencyRecord → IdempotencyRecord)
      → ℕ
      → ℕ
      → String
      → Option (Option IdempotencyRecord)
      → S
      → S
  rewrite f ttl now k (some (some r)) s = (redis.set now k (f r) ttl s).0
  rewrite f ttl now k (some none) s = s
  rewrite f ttl now k none s = s

  unfoldable pub complete : ℕ → String → String → PlacementResult → S → S
  unfolding rewrite
  complete now session round p s =
      let k = redis_key session round in
      rewrite (with_result completed p) c.ttl_ms now k (redis.get now k s) s

  -- A failed key lives for a minute at most.
  unfoldable pub fail : ℕ → String → String → String → S → S
  unfolding rewrite
  fail now session round reason s =
      let k = redis_key session round in
      rewrite (with_result failed (failure reason)) (min c.ttl_ms 60000) now k (redis.get now k s) s

  -- An unknown outcome blocks the round for half an hour at least.
  unfoldable pub mark_unknown : ℕ → String → String → String → S → S
  unfolding rewrite
  mark_unknown now session round reason s =
      let k = redis_key session round in
      rewrite (with_result unknown (failure reason)) (max c.ttl_ms 1800000) now k
        (redis.get now k s) s

  unfoldable pub get_record : ℕ → String → String → S → Option IdempotencyRecord
  get_record now session round s = answered (redis.get now (redis_key session round) s)

  unfoldable pub exists : ℕ → String → String → S → Bool
  exists now session round s = is_some (get_record now session round s)

  unfoldable pub release : ℕ → String → String → S → S
  release now session round s = (redis.del now (redis_key session round) s).0
