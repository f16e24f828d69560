-- ===== src/Idempotency/Redis/Laws.antt =====
-- What is documented of the shared store's commands and used here: a key is live until its time to
-- live has passed (src/betting/idempotency.ts).
use crash.Prelude.{ℕ, ◌+◌, ◌≤◌, ◌<◌, ◌≡◌, ◌≢◌, String, true, Option, none, some}
use crash.Idempotency.Types.{IdempotencyRecord}
use crash.Idempotency.Redis.{Commands}

-- A view gives the record under a key at a time, if no further command comes.
abbrev pub View : Type 0 → Type 0
View S = S → String → ℕ → Option IdempotencyRecord

pub record Laws {S : Type 0} (redis : Commands S) (live : View S) : Type 0 where
  -- A key that is live is not set again, and a key that is not live is set unless the call throws.
  pub set_nx_taken :
      (s : S) (now ttl : ℕ) (k : String) (r old : IdempotencyRecord)
      → live s k now ≡ some old
      → (redis.set_nx now k r ttl s).1 ≢ some true
  pub set_nx_free :
      (s : S) (now ttl : ℕ) (k : String) (r : IdempotencyRecord)
      → live s k now ≡ none
      → (redis.set_nx now k r ttl s).1 ≢ none
      → (redis.set_nx now k r ttl s).1 ≡ some true
  pub set_nx_live :
      (s : S) (now ttl t : ℕ) (k : String) (r : IdempotencyRecord)
      → (redis.set_nx now k r ttl s).1 ≡ some true
      → now ≤ t
      → t < now + ttl
      → live (redis.set_nx now k r ttl s).0 k t ≡ some r
  pub set_live :
      (s : S) (now ttl t : ℕ) (k : String) (r : IdempotencyRecord)
      → (redis.set now k r ttl s).1 ≡ true
      → now ≤ t
      → t < now + ttl
      → live (redis.set now k r ttl s).0 k t ≡ some r
  pub set_gone :
      (s : S) (now ttl t : ℕ) (k : String) (r : IdempotencyRecord)
      → (redis.set now k r ttl s).1 ≡ true
      → now + ttl ≤ t
      → live (redis.set now k r ttl s).0 k t ≡ none
  pub get_right :
      (s : S) (now : ℕ) (k : String) (o : Option IdempotencyRecord)
      → redis.get now k s ≡ some o
      → o ≡ live s k now
