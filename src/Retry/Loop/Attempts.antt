-- ===== src/Retry/Loop/Attempts.antt =====
-- How many calls there are, and how they end (src/utils/retry.ts).
use crash.Prelude.{
  ℕ, zero, suc, ◌+◌, ◌≤◌, ◌<◌, ◌≡◌, refl, true, false, not, ltb, ◌||◌, Bool-cases, get_or_else, [],
  length, arith, ◌⊎◌, inl, inr, subst, ltb→lt, ap, ◌∙◌,
}
use crash.Retry.Loop.{
  Error, RetryOptions, Attempt, returns, throws, Ending, returned, thrown, fell_through, Trace,
  is_retryable, loop, after, with_retry,
}

module _ {A : Type 0} (o : RetryOptions) (fn : ℕ → Attempt A) where
  -- Every attempt from one to before another fails with an error that is repeated.
  abbrev pub Fails : ℕ → ℕ → Type 0
  Fails first k =
      (i : ℕ) → first ≤ i → i < k → (e : Error) × (fn i ≡ throws e) × (is_retryable o e ≡ true)

  -- What a trace that ended says of the attempts.
  abbrev pub Explains : ℕ → ℕ → Ending A → Type 0
  Explains first k (returned a) = Fails first k × (fn k ≡ returns a)
  Explains first k (thrown e) =
      Fails first k
      × (fn k ≡ throws e)
      × ((k ≡ suc (get_or_else o.max_retries 3)) ⊎ (is_retryable o e ≡ false))
  Explains first k fell_through = ⊥

  abbrev pub Summary : ℕ → Trace A → Type 0
  Summary first t =
      (k : ℕ) × (suc k ≡ first + t.calls)
      × (k ≤ suc (get_or_else o.max_retries 3))
      × (1 ≤ t.calls)
      × (length t.delayed + 1 ≡ t.calls)
      × Explains first k t.ending

  Fails-before :
      (first k : ℕ) (x : Error)
      → fn first ≡ throws x
      → is_retryable o x ≡ true
      → Fails (suc first) k
      → Fails first k
  Fails-before first k x e r h i l u = elim (Bool-cases (ltb first i)) [
    | inl t ↦ h i (ltb→lt first i t) u
    | inr t ↦ let q : i ≡ first = ground arith in (x, ap fn q ∙ e, r)
  ]

  Explains-before :
      (first k : ℕ) (x : Error) (y : Ending A)
      → fn first ≡ throws x
      → is_retryable o x ≡ true
      → Explains (suc first) k y
      → Explains first k y
  Explains-before first k x (returned a) e r (f, g) = (Fails-before first k x e r f, g)
  Explains-before first k x (thrown z) e r (f, g, w) = (Fails-before first k x e r f, g, w)
  Explains-before first k x fell_through e r h = h

  stop-Summary :
      (first : ℕ) (y : Ending A)
      → first ≤ suc (get_or_else o.max_retries 3)
      → Explains first first y
      → Summary first (record { ending = y; calls = 1; delayed = [] })
  stop-Summary first y h e = (first, omega arith, h, omega arith, omega arith, e)

  none-Fails : (first : ℕ) → Fails first first
  none-Fails first i l u = absurd (omega arith)

  after-Summary :
      (first : ℕ) (a : Attempt A) (rest : Trace A)
      → fn first ≡ a
      → first ≤ suc (get_or_else o.max_retries 3)
      → (first ≤ get_or_else o.max_retries 3 → Summary (suc first) rest)
      → Summary first (after o fn a first rest)
  unfolding after
  after-Summary first (returns a) rest e h ih =
      stop-Summary first (returned a) h (none-Fails first, e)
  after-Summary first (throws x) rest e h ih =
      elim (Bool-cases (ltb (get_or_else o.max_retries 3) first || not (is_retryable o x))) [
        | inl t ↦ rw t (stop-Summary first (thrown x) h (none-Fails first, e, ground arith))
        | inr t ↦
            let (k, c, b, p, l, m) = ih (ground arith) in
            rw t (
              k,
              omega arith,
              b,
              omega arith,
              omega arith,
              Explains-before first k x rest.ending e (ground arith) m,
            )
      ]

  -- The rounds left and the attempt make up one more than the calls that are allowed.
  loop-Summary :
      (rounds first : ℕ)
      → suc rounds + first ≡ suc (suc (get_or_else o.max_retries 3))
      → Summary first (loop o fn (suc rounds) first)
  unfolding loop
  loop-Summary zero first h =
      after-Summary first (fn first) (loop o fn zero (suc first)) refl (omega arith)
        (λ l. absurd (omega arith))
  loop-Summary (suc rounds) first h =
      after-Summary first (fn first) (loop o fn (suc rounds) (suc first)) refl (omega arith)
        (λ l. loop-Summary rounds (suc first) (omega arith))

  -- The function is called at least once and at most once more than the retries allowed, with a
  -- delay between two calls; all calls but the last one fail with an error that is repeated; what
  -- the last call returns is returned, and its error is thrown only if it is not repeated or the
  -- retries are used up. The statement after the loop is never reached.
  pub with_retry-Summary :
      let t = with_retry o fn in
      (1 ≤ t.calls)
      × (t.calls ≤ suc (get_or_else o.max_retries 3))
      × (length t.delayed + 1 ≡ t.calls)
      × Explains 1 t.calls t.ending
  unfolding with_retry
  with_retry-Summary =
      let (k, c, b, p, l, m) = loop-Summary (get_or_else o.max_retries 3) 1 (omega arith) in
      let q : k ≡ (with_retry o fn).calls = omega arith in
      (p, omega arith, l, subst (λ j. Explains 1 j (with_retry o fn).ending) q m)
