-- ===== src/Mutex/Lock.antt =====
-- The class DistributedMutex of src/core/distributed-mutex.ts. The shared store is no part of the
-- program: a record of the two commands that it is sent is a parameter, `none` where there is no
-- store. Times and tokens are arguments; latencies are left out.
pub mod Exclusive
pub mod Attempts
use Prim.Native.String.{◌++◌ as str_append}
use text.Mathlib.Text.{◌==◌ as str_eq}
use crash.Prelude.{
  ℕ, zero, suc, ◌+◌, String, Bool, true, false, leb, if◌then◌else◌, List, [], ◌∷◌, Option, none,
  some, lookup, insert, remove,
}

-- SET with NX and PX at a time, which answers whether the key was set, or throws (`none`); and the
-- script that deletes a key where it holds a token, which throws or not.
pub record Server (S : Type 0) : Type 0 where
  pub set_nx : ℕ → String → String → ℕ → S → S × Option Bool
  pub delete_owned : ℕ → String → String → S → S × Bool

pub record LocalLock : Type 0 where
  pub token : String
  pub expires_at : ℕ

pub record MutexMetrics : Type 0 where
  pub acquisitions : ℕ
  pub failures : ℕ
  pub contentions : ℕ
  pub releases : ℕ

pub record DistributedMutex : Type 0 where
  pub lock_timeout_ms : ℕ
  pub retry_count : ℕ
  pub key_prefix : String
  pub allow_in_memory_fallback : Bool

-- What the calls change: the store, the locks in memory, and the counts.
pub record World (S : Type 0) : Type 0 where
  pub store : S
  pub local_locks : List (String × LocalLock)
  pub metrics : MutexMetrics

pub data Kind : Type 0 where
  redis_lock local_lock : Kind

pub record LockHandle : Type 0 where
  pub kind : Kind
  pub token : String
  pub resource : String

abbrev pub handle : Kind → String → String → LockHandle
handle kind resource token = record { kind = kind; token = token; resource = resource }

-- An entry whose time has come is deleted, and the lock is taken unless another one is there.
local_free : Option LocalLock → ℕ → Bool
local_free none now = true
local_free (some l) now = leb l.expires_at now

unfoldable pub lock_key : DistributedMutex → String → String
lock_key m resource = str_append m.key_prefix (str_append "mutex:" resource)

-- The calls of a mutex.
pub data Op : Type 0 where
  acquires : ℕ → String → String → Op
  releases : ℕ → LockHandle → Op

module _ {S : Type 0} (m : DistributedMutex) where
  unfoldable pub try_acquire_local : ℕ → String → String → World S → World S × Option LockHandle
  unfolding local_free
  try_acquire_local now resource token w =
      let l : LocalLock = record { token = token; expires_at = now + m.lock_timeout_ms } in
      if local_free (lookup resource w.local_locks) now
      then (
        record w { local_locks = insert resource l w.local_locks },
        some (handle local_lock resource token),
      )
      else (w, none)

  -- What becomes of the store's answer.
  after_set : ℕ → String → String → World S → Option Bool → World S × Option LockHandle
  after_set now resource token w (some true) = (w, some (handle redis_lock resource token))
  after_set now resource token w (some false) = (w, none)
  after_set now resource token w none =
      if m.allow_in_memory_fallback then try_acquire_local now resource token w else (w, none)

  unfoldable pub try_acquire :
      Option (Server S) → ℕ → String → String → World S → World S × Option LockHandle
  unfolding after_set
  try_acquire (some redis) now resource token w =
      let (s, a) = redis.set_nx now (lock_key m resource) token m.lock_timeout_ms w.store in
      after_set now resource token (record w { store = s }) a
  try_acquire none now resource token w =
      if m.allow_in_memory_fallback then try_acquire_local now resource token w else (w, none)

  abbrev acquired : World S → World S
  acquired w = record w { metrics = record w.metrics { acquisitions = suc w.metrics.acquisitions } }

  abbrev contended : World S → World S
  contended w = record w { metrics = record w.metrics { contentions = suc w.metrics.contentions } }

  abbrev gave_up : World S → World S
  gave_up w = record w { metrics = record w.metrics { failures = suc w.metrics.failures } }

  -- How the loop goes on from an attempt.
  go_on :
      (World S → World S × Option LockHandle)
      → World S × Option LockHandle
      → World S × Option LockHandle
  go_on rest (w, some h) = (acquired w, some h)
  go_on rest (w, none) = rest (contended w)

  -- The attempts that are left, the next one, and the times of the attempts.
  acquire_from :
      Option (Server S) → ℕ → ℕ → (ℕ → ℕ) → String → String → World S → World S × Option LockHandle
  unfolding go_on
  acquire_from redis zero attempt times resource token w = (gave_up w, none)
  acquire_from redis (suc left) attempt times resource token w =
      go_on (acquire_from redis left (suc attempt) times resource token)
        (try_acquire redis (times attempt) resource token w)

  unfoldable pub acquire :
      Option (Server S) → (ℕ → ℕ) → String → String → World S → World S × Option LockHandle
  unfolding acquire_from
  acquire redis times resource token w =
      acquire_from redis (suc m.retry_count) 0 times resource token w

  abbrev counted : World S → World S
  counted w = record w { metrics = record w.metrics { releases = suc w.metrics.releases } }

  -- `current && current.token === token`.
  release_found : Option LocalLock → LockHandle → World S → World S
  release_found none h w = w
  release_found (some l) h w =
      if str_eq l.token h.token
      then counted (record w { local_locks = remove h.resource w.local_locks })
      else w

  abbrev release_shared : World S → S × Bool → World S
  release_shared w (s, true) = counted (record w { store = s })
  release_shared w (s, false) = record w { store = s }

  release_kind : Kind → Option (Server S) → ℕ → LockHandle → World S → World S
  unfolding release_found
  release_kind local_lock redis now h w = release_found (lookup h.resource w.local_locks) h w
  release_kind redis_lock none now h w = w
  release_kind redis_lock (some redis) now h w =
      release_shared w (redis.delete_owned now (lock_key m h.resource) h.token w.store)

  unfoldable pub release : Option (Server S) → ℕ → LockHandle → World S → World S
  unfolding release_kind
  release redis now h w = release_kind h.kind redis now h w

  -- A call, and a history of calls.
  unfoldable pub step : Option (Server S) → World S → Op → World S
  step redis w (acquires now resource token) = (try_acquire redis now resource token w).0
  step redis w (releases now h) = release redis now h w

  unfoldable pub run : Option (Server S) → World S → List Op → World S
  run redis w [] = w
  run redis w (op ∷ ops) = run redis (step redis w op) ops
