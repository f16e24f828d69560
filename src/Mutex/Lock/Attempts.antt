-- ===== src/Mutex/Lock/Attempts.antt =====
-- The attempts at a lock (src/core/distributed-mutex.ts).
use crash.Prelude.{
  ℕ, zero, suc, ◌+◌, ◌≤◌, ◌≡◌, refl, ap, String, Bool, true, false, Option, none, some, arith,
  if-either,
}
use crash.Mutex.Lock.{
  Server, DistributedMutex, World, LockHandle, MutexMetrics, try_acquire_local, after_set,
  try_acquire, go_on, acquire_from, acquire, lock_key, contended,
}

-- What the counts say of a call that made some attempts at most: it succeeded before the last of
-- them was spent, or it failed after all of them.
abbrev pub Counted : ℕ → MutexMetrics → MutexMetrics → Option LockHandle → Type 0
Counted attempts before after (some h) =
    (after.acquisitions ≡ suc before.acquisitions)
    × (after.failures ≡ before.failures)
    × (suc after.contentions ≤ before.contentions + attempts)
Counted attempts before after none =
    (after.acquisitions ≡ before.acquisitions)
    × (after.failures ≡ suc before.failures)
    × (after.contentions ≡ before.contentions + attempts)

Counted-later :
    (n : ℕ) (a a' b : MutexMetrics) (o : Option LockHandle)
    → a'.acquisitions ≡ a.acquisitions
    → a'.failures ≡ a.failures
    → a'.contentions ≡ suc a.contentions
    → Counted n a' b o
    → Counted (suc n) a b o
Counted-later n a a' b (some h) p q r (x, y, z) = (omega arith, omega arith, omega arith)
Counted-later n a a' b none p q r (x, y, z) = (omega arith, omega arith, omega arith)

module _ {S : Type 0} (m : DistributedMutex) where
  try_acquire_local-metrics :
      (now : ℕ) (r t : String) (w : World S) → (try_acquire_local m now r t w).0.metrics ≡ w.metrics
  unfolding try_acquire_local
  try_acquire_local-metrics now r t w = ground arith

  after_set-metrics :
      (now : ℕ) (r t : String) (w : World S) (a : Option Bool)
      → (after_set m now r t w a).0.metrics ≡ w.metrics
  unfolding after_set
  after_set-metrics now r t w (some true) = refl
  after_set-metrics now r t w (some false) = refl
  after_set-metrics now r t w none =
      if-either (λ x. x.0.metrics ≡ w.metrics) m.allow_in_memory_fallback
        (try_acquire_local m now r t w) (w, none) (try_acquire_local-metrics now r t w) refl

  try_acquire-metrics :
      (redis : Option (Server S)) (now : ℕ) (r t : String) (w : World S)
      → (try_acquire m redis now r t w).0.metrics ≡ w.metrics
  unfolding try_acquire
  try_acquire-metrics none now r t w =
      if-either (λ x. x.0.metrics ≡ w.metrics) m.allow_in_memory_fallback
        (try_acquire_local m now r t w) (w, none) (try_acquire_local-metrics now r t w) refl
  try_acquire-metrics (some server) now r t w =
      let (s, a) = server.set_nx now (lock_key m r) t m.lock_timeout_ms w.store in
      after_set-metrics now r t (record w { store = s }) a

  go_on-Counted :
      (n : ℕ) (rest : World S → World S × Option LockHandle) (before : MutexMetrics) (w : World S)
      (o : Option LockHandle)
      → w.metrics ≡ before
      → ((v : World S) → Counted n v.metrics (rest v).0.metrics (rest v).1)
      → Counted (suc n) before (go_on m rest (w, o)).0.metrics (go_on m rest (w, o)).1
  unfolding go_on
  go_on-Counted n rest before w (some h) e k =
      let a = ap (λ x. x.acquisitions) e in
      let f = ap (λ x. x.failures) e in
      let c = ap (λ x. x.contentions) e in (omega arith, omega arith, omega arith)
  go_on-Counted n rest before w none e k =
      Counted-later n before (contended m w).metrics (rest (contended m w)).0.metrics
        (rest (contended m w)).1 (ap (λ x. x.acquisitions) e) (ap (λ x. x.failures) e)
        (ap (λ x. suc x.contentions) e) (k (contended m w))

  acquire_from-Counted :
      (redis : Option (Server S)) (left attempt : ℕ) (times : ℕ → ℕ) (r t : String) (w : World S)
      → let (w', o) = acquire_from m redis left attempt times r t w in
        Counted left w.metrics w'.metrics o
  unfolding acquire_from
  acquire_from-Counted redis zero attempt times r t w = (refl, refl, omega arith)
  acquire_from-Counted redis (suc left) attempt times r t w =
      let (v, o) = try_acquire m redis (times attempt) r t w in
      go_on-Counted left (acquire_from m redis left (suc attempt) times r t) w.metrics v o
        (try_acquire-metrics redis (times attempt) r t w)
        (λ x. acquire_from-Counted redis left (suc attempt) times r t x)

  -- With or without a shared store, a call takes the lock, which counts as one acquisition and no
  -- failure, after fewer contentions than it has attempts, one more than its retries; or it fails,
  -- which counts as one failure and no acquisition, after a contention at each of them.
  pub acquire-Counted :
      (redis : Option (Server S)) (times : ℕ → ℕ) (resource token : String) (w : World S)
      → let (w', o) = acquire m redis times resource token w in
        Counted (suc m.retry_count) w.metrics w'.metrics o
  unfolding acquire
  acquire-Counted redis times resource token w =
      acquire_from-Counted redis (suc m.retry_count) 0 times resource token w
