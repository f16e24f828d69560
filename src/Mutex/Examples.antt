-- ===== src/Mutex/Examples.antt =====
-- The theorems about the lock at concrete inputs (src/core/distributed-mutex.ts).
use crash.Prelude.{ℕ, zero, suc, ◌≡◌, refl, true, false, List, [], ◌∷◌, none, some, arith, lookup}
use crash.Mutex.Lock.{
  Server, DistributedMutex, World, handle, local_lock, try_acquire, try_acquire_local, Op, acquires,
  releases, run, acquire,
}
use crash.Mutex.Lock.Attempts.{Counted, acquire-Counted}
use crash.Mutex.Lock.Exclusive.{try_acquire-exclusive}

abbrev mutex : DistributedMutex
mutex = record {
  lock_timeout_ms = 30000;
  retry_count = 5;
  key_prefix = "crash:";
  allow_in_memory_fallback = true;
}

-- A store that grants a lock until a time, and throws from then on.
abbrev failing : Server ℕ
failing = record {
  set_nx = λ now key token ttl s. elim s [ zero ↦ (1, some true) | suc n ↦ (1, none) ];
  delete_owned = λ now key token s. (s, false);
}

abbrev empty : World ℕ
empty = record {
  store = 0;
  local_locks = [];
  metrics = record { acquisitions = 0; failures = 0; contentions = 0; releases = 0 };
}

abbrev calls : List Op
calls = acquires 2000 "round" "t2" ∷ releases 2500 (handle local_lock "round" "t2") ∷ []

try_acquire-exclusive_example :
    (try_acquire mutex none 30999 "round" "t3"
      (run mutex none (try_acquire mutex none 1000 "round" "t1" empty).0 calls)).1
    ≡ none
unfolding try_acquire try_acquire_local lookup
try_acquire-exclusive_example =
    try_acquire-exclusive mutex 1000 30999 "round" "t1" "t3" empty calls (λ e. cc) (omega arith)
      (omega arith, (refl, tt))

-- The store grants one lock; the second call then meets only errors of the store and, in memory, a
-- free lock.
abbrev tick : ℕ → ℕ
tick n = suc n

acquire-Counted_example :
    let (w', o) = acquire mutex (some failing) tick "round" "t1" empty in
    Counted 6 empty.metrics w'.metrics o
acquire-Counted_example = acquire-Counted mutex (some failing) tick "round" "t1" empty
