-- ===== src/Idempotency/Redis/Reserved.antt =====
-- How long a reservation on the shared store blocks its round (src/betting/idempotency.ts).
use crash.Prelude.{
  ℕ, ◌+◌, ◌≤◌, ◌<◌, ◌≡◌, ◌≢◌, refl, ap, ◌∙◌, String, Bool, true, false, min, max, Option, none,
  some, arith,
}
use crash.Idempotency.Types.{unknown, failed, IdempotencyRecord, with_result, failure}
use crash.Idempotency.Redis.{
  Commands, Client, redis_key, reservation, reserve, fail, mark_unknown, rewrite, is_ok,
}
use crash.Idempotency.Redis.Laws.{Laws, View}

ok-answer : (a : Option Bool) → is_ok a ≡ true → a ≡ some true
ok-answer none h = cc
ok-answer (some true) h = refl
ok-answer (some false) h = cc

refused-answer : (a : Option Bool) → a ≢ some true → is_ok a ≡ false
refused-answer none h = refl
refused-answer (some true) h = absurd (h refl)
refused-answer (some false) h = refl

module _ {S : Type 0} (redis : Commands S) (live : View S) (laws : Laws redis live)
    (c : Client) where
  -- A round whose key is live is refused.
  reserve-refused :
      (now : ℕ) (session round bet : String) (s : S) (old : IdempotencyRecord)
      → live s (redis_key redis c session round) now ≡ some old
      → (reserve redis c now session round bet s).1 ≡ false
  unfolding reserve
  reserve-refused now session round bet s old h =
      let t =
        laws.set_nx_taken s now c.ttl_ms (redis_key redis c session round)
          (reservation redis c now session round bet) old h in
      refused-answer _ t

  -- After a round has been reserved, no further reservation of it succeeds before the time to live
  -- has passed, whichever calls of the store throw.
  pub reserve-twice :
      (now later : ℕ) (session round bet other : String) (s : S)
      → (reserve redis c now session round bet s).1 ≡ true
      → now ≤ later
      → later < now + c.ttl_ms
      → (reserve redis c later session round other (reserve redis c now session round bet s).0).1
        ≡ false
  unfolding reserve
  reserve-twice now later session round bet other s h l u =
      reserve-refused later session round other (reserve redis c now session round bet s).0
        (reservation redis c now session round bet)
        (laws.set_nx_live s now c.ttl_ms later (redis_key redis c session round)
          (reservation redis c now session round bet) (ok-answer _ h) l u)

  rewrite-set :
      (f : IdempotencyRecord → IdempotencyRecord) (ttl now : ℕ) (k : String) (s : S)
      (r : IdempotencyRecord)
      → redis.get now k s ≡ some (some r)
      → rewrite redis c f ttl now k (redis.get now k s) s ≡ (redis.set now k (f r) ttl s).0
  unfolding rewrite
  rewrite-set f ttl now k s r h = ap (λ o. rewrite redis c f ttl now k o s) h

  -- When the outcome of a placement is marked as unknown, and neither the read nor the write
  -- throws, no reservation of the round succeeds in the half hour that follows.
  pub mark_unknown-blocks :
      (now later : ℕ) (session round reason other : String) (s : S) (r : IdempotencyRecord)
      → redis.get now (redis_key redis c session round) s ≡ some (some r)
      → (redis.set now
          (redis_key redis c session round)
          (with_result unknown (failure reason) r)
          (max c.ttl_ms 1800000)
          s).1
        ≡ true
      → now ≤ later
      → later < now + 1800000
      → (reserve redis c later session round other
          (mark_unknown redis c now session round reason s)).1
        ≡ false
  unfolding mark_unknown
  mark_unknown-blocks now later session round reason other s r g a l u =
      let k = redis_key redis c session round in
      let f = with_result unknown (failure reason) in
      reserve-refused later session round other _ (f r) (
        ap (λ x. live x k later) (rewrite-set f (max c.ttl_ms 1800000) now k s r g)
        ∙ laws.set_live s now (max c.ttl_ms 1800000) later k (f r) a l (ground arith))

  -- When a placement is marked as failed, and neither the read nor the write throws, the round can
  -- be reserved again after a minute, unless that reservation's own call throws.
  pub fail-frees :
      (now later : ℕ) (session round reason other : String) (s : S) (r : IdempotencyRecord)
      → redis.get now (redis_key redis c session round) s ≡ some (some r)
      → (redis.set now
          (redis_key redis c session round)
          (with_result failed (failure reason) r)
          (min c.ttl_ms 60000)
          s).1
        ≡ true
      → now + 60000 ≤ later
      → (redis.set_nx later
          (redis_key redis c session round)
          (reservation redis c later session round other)
          c.ttl_ms
          (fail redis c now session round reason s)).1
        ≢ none
      → (reserve redis c later session round other (fail redis c now session round reason s)).1
        ≡ true
  unfolding reserve fail
  fail-frees now later session round reason other s r g a l n =
      let k = redis_key redis c session round in
      let f = with_result failed (failure reason) in
      let gone : live (fail redis c now session round reason s) k later ≡ none =
        ap (λ x. live x k later) (rewrite-set f (min c.ttl_ms 60000) now k s r g)
        ∙ laws.set_gone s now (min c.ttl_ms 60000) later k (f r) a (ground arith) in
      let ok =
        laws.set_nx_free (fail redis c now session round reason s) later c.ttl_ms k
          (reservation redis c later session round other) gone n in
      ap is_ok ok
