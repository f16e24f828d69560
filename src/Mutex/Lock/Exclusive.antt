-- ===== src/Mutex/Lock/Exclusive.antt =====
-- Who holds a lock (src/core/distributed-mutex.ts).
use text.Mathlib.Text.{◌==◌ as str_eq}
use text.Mathlib.TextEquality.{eq_iff}
use text.Mathlib.TextPositions.{eq_refl}
use crash.Prelude.{
  ℕ, ◌+◌, ◌<◌, ◌≡◌, refl, sym, ap, ◌∙◌, String, Bool, true, false, Bool-cases, inl, inr, List, [],
  ◌∷◌, Option, none, some, lookup, lookup-insert, lookup-remove, if◌then◌else◌, if-either, arith,
  some_inj, ◌≢◌,
}
use crash.Mutex.Lock.{
  Server, LocalLock, DistributedMutex, World, Kind, redis_lock, local_lock, LockHandle, handle,
  local_free, lock_key, try_acquire_local, after_set, try_acquire, release_found, release_kind,
  release_shared, release, Op, acquires, releases, step, run,
}

-- A call before a time, which does not release a token.
abbrev pub IsForeign : String → ℕ → Op → Type 0
IsForeign token end (acquires now r t) = now < end
IsForeign token end (releases now h) = str_eq token h.token ≡ false

abbrev pub AllForeign : String → ℕ → List Op → Type 0
AllForeign token end [] = Unit
AllForeign token end (op ∷ ops) = IsForeign token end op × AllForeign token end ops

module _ {S : Type 0} (m : DistributedMutex) (redis : Option (Server S)) (resource token : String)
    (end : ℕ) where
  -- A token holds the resource in memory until its time.
  abbrev pub Held : World S → Type 0
  Held w = lookup resource w.local_locks ≡ some (record { token = token; expires_at = end })

  try_acquire_local-Held :
      (now : ℕ) (r t : String) (w : World S)
      → now < end
      → Held w
      → Held (try_acquire_local m now r t w).0
  unfolding try_acquire_local local_free
  try_acquire_local-Held now r t w l h =
      let e =
        lookup-insert resource r (record { token = t; expires_at = now + m.lock_timeout_ms })
          w.local_locks in
      elim (Bool-cases (str_eq r resource)) [
        | inl q ↦
            let p = ap (λ k. lookup k w.local_locks) ((eq_iff r resource).0 q) ∙ h in
            let f : local_free (lookup r w.local_locks) now ≡ false =
              ap (λ o. local_free o now) p ∙ ground arith in
            ground arith
        | inr q ↦ ground arith
      ]

  try_acquire_local-refused :
      (now : ℕ) (t : String) (w : World S)
      → now < end
      → Held w
      → (try_acquire_local m now resource t w).1 ≡ none
  unfolding try_acquire_local local_free
  try_acquire_local-refused now t w l h =
      let f : local_free (lookup resource w.local_locks) now ≡ false =
        ap (λ o. local_free o now) h ∙ ground arith in
      ground arith

  after_set-Held :
      (now : ℕ) (r t : String) (w : World S) (a : Option Bool)
      → now < end
      → Held w
      → Held (after_set m now r t w a).0
  unfolding after_set
  after_set-Held now r t w (some true) l h = h
  after_set-Held now r t w (some false) l h = h
  after_set-Held now r t w none l h =
      if-either (λ x. Held x.0) m.allow_in_memory_fallback (try_acquire_local m now r t w) (w, none)
        (try_acquire_local-Held now r t w l h) h

  try_acquire-Held :
      (server : Option (Server S)) (now : ℕ) (r t : String) (w : World S)
      → now < end
      → Held w
      → Held (try_acquire m server now r t w).0
  unfolding try_acquire
  try_acquire-Held none now r t w l h =
      if-either (λ x. Held x.0) m.allow_in_memory_fallback (try_acquire_local m now r t w) (w, none)
        (try_acquire_local-Held now r t w l h) h
  try_acquire-Held (some server) now r t w l h =
      let (s, a) = server.set_nx now (lock_key m r) t m.lock_timeout_ms w.store in
      after_set-Held now r t (record w { store = s }) a l h

  release_found-Held :
      (o : Option LocalLock) (h : LockHandle) (w : World S)
      → lookup h.resource w.local_locks ≡ o
      → str_eq token h.token ≡ false
      → Held w
      → Held (release_found m o h w)
  unfolding release_found
  release_found-Held none h w e n k = k
  release_found-Held (some l) h w e n k = elim (Bool-cases (str_eq h.resource resource)) [
    | inl q ↦
        let p = ap (λ x. lookup x w.local_locks) ((eq_iff h.resource resource).0 q) in
        let u : l ≡ record { token = token; expires_at = end } = some_inj l _ (sym e ∙ p ∙ k) in
        let v = ap (λ x. str_eq x.token h.token) u ∙ n in ground arith
    | inr q ↦ let r = lookup-remove resource h.resource w.local_locks q in ground arith
  ]

  release_shared-Held : (w : World S) (x : S × Bool) → Held w → Held (release_shared m w x)
  release_shared-Held w (s, true) k = k
  release_shared-Held w (s, false) k = k

  release_kind-Held :
      (kind : Kind) (server : Option (Server S)) (now : ℕ) (h : LockHandle) (w : World S)
      → str_eq token h.token ≡ false
      → Held w
      → Held (release_kind m kind server now h w)
  unfolding release_kind
  release_kind-Held local_lock server now h w n k =
      release_found-Held (lookup h.resource w.local_locks) h w refl n k
  release_kind-Held redis_lock none now h w n k = k
  release_kind-Held redis_lock (some server) now h w n k =
      release_shared-Held w (server.delete_owned now (lock_key m h.resource) h.token w.store) k

  run-Held :
      (ops : List Op) (w : World S) → AllForeign token end ops → Held w → Held (run m redis w ops)
  unfolding run step release
  run-Held [] w f h = h
  run-Held (acquires now r t ∷ ops) w f h =
      run-Held ops (try_acquire m redis now r t w).0 f.1 (try_acquire-Held redis now r t w f.0 h)
  run-Held (releases now g ∷ ops) w f h =
      run-Held ops (release m redis now g w) f.1 (release_kind-Held g.kind redis now g w f.0 h)

module _ {S : Type 0} (m : DistributedMutex) where
  try_acquire_local-taken :
      (now : ℕ) (resource token : String) (w : World S)
      → (try_acquire_local m now resource token w).1 ≢ none
      → Held m none resource token
          (now + m.lock_timeout_ms)
          (try_acquire_local m now resource token w).0
  unfolding try_acquire_local
  try_acquire_local-taken now resource token w h =
      let e =
        lookup-insert resource resource
          (record { token = token; expires_at = now + m.lock_timeout_ms }) w.local_locks in
      let r = eq_refl resource in ground arith

  if-taken :
      (b : Bool) (now : ℕ) (resource token : String) (w : World S)
      → (if◌then◌else◌ {A = World S × Option LockHandle} b
          (try_acquire_local m now resource token w)
          (w, none)).1
        ≢ none
      → Held m none resource token
          (now + m.lock_timeout_ms)
          (if◌then◌else◌ {A = World S × Option LockHandle} b
            (try_acquire_local m now resource token w)
            (w, none)).0
  if-taken true now resource token w h = try_acquire_local-taken now resource token w h
  if-taken false now resource token w h = absurd (h refl)

  -- Without a shared store, once a lock has been taken no other attempt takes it before its time to
  -- live has passed, whatever attempts and releases of other tokens lie between.
  pub try_acquire-exclusive :
      (now later : ℕ) (resource token other : String) (w : World S) (ops : List Op)
      → (try_acquire m none now resource token w).1 ≢ none
      → later < now + m.lock_timeout_ms
      → AllForeign token (now + m.lock_timeout_ms) ops
      → (try_acquire m none later resource other
          (run m none (try_acquire m none now resource token w).0 ops)).1
        ≡ none
  unfolding try_acquire
  try_acquire-exclusive now later resource token other w ops h l f =
      let w' = (try_acquire m none now resource token w).0 in
      let v = run m none w' ops in
      let k =
        run-Held m none resource token (now + m.lock_timeout_ms) ops w' f
          (if-taken m.allow_in_memory_fallback now resource token w h) in
      if-either (λ x. x.1 ≡ none) m.allow_in_memory_fallback
        (try_acquire_local m later resource other v) (v, none)
        (try_acquire_local-refused m none resource token (now + m.lock_timeout_ms) later other v l
          k)
        refl

  -- While a lock is held on the shared store and its command then throws, an attempt of any token
  -- takes the same lock in memory, where the fallback is allowed and the resource is not locked.
  pub fallback-admits :
      (redis : Server S) (now later : ℕ) (resource token other : String) (w : World S)
      → (redis.set_nx now (lock_key m resource) token m.lock_timeout_ms w.store).1 ≡ some true
      → lookup resource w.local_locks ≡ none
      → m.allow_in_memory_fallback ≡ true
      → let (w', held) = try_acquire m (some redis) now resource token w in
        (redis.set_nx later (lock_key m resource) other m.lock_timeout_ms w'.store).1 ≡ none
        → (held ≡ some (handle redis_lock resource token))
          × ((try_acquire m (some redis) later resource other w').1
              ≡ some (handle local_lock resource other))
  unfolding try_acquire after_set try_acquire_local local_free
  fallback-admits redis now later resource token other w h u a n =
      let v = record w {
        store = (redis.set_nx now (lock_key m resource) token m.lock_timeout_ms w.store).0;
      } in
      let p = ap (after_set m now resource token v) h in
      let n' =
        ap (λ x. (redis.set_nx later (lock_key m resource) other m.lock_timeout_ms x.0.store).1)
          (sym p)
        ∙ n in
      let v' = record v {
        store = (redis.set_nx later (lock_key m resource) other m.lock_timeout_ms v.store).0;
      } in
      let q = ap (λ o. (after_set m later resource other v' o).1) n' in
      let f : local_free (lookup resource w.local_locks) later ≡ true =
        ap (λ o. local_free o later) u in
      (
        ap (λ x. x.1) p,
        ap (λ x. (try_acquire m (some redis) later resource other x.0).1) p ∙ q ∙ ground arith,
      )
