-- ===== src/Risk/Velocity/Made.antt =====
-- The actions that the callers of a velocity controller make
-- (src/risk/velocity-controller.ts), which the controller itself forgets after an hour.
use crash.Prelude.{
  ℕ, ◌+◌, ◌≤◌, ◌≡◌, ap, ◌∙◌, Bool, true, false, leb, if◌then◌else◌, List, [], ◌∷◌, ◌++◌, Bool-cases,
  inl, inr, arith,
}
use crash.Risk.Velocity.{
  Config, Action, VelocityController, Attempt, Decision, create, within, filter_actions,
  count_within, prune, acquire, acquire_if, decide, record_action, attempt, settle,
}
use crash.Risk.Velocity.Rates.{IsPaced, InOrder, end_of, later-IsPaced, attempt-IsPaced}

-- The actions that are made: an attempt that is allowed is an action at the time of its record.
acted : Attempt → VelocityController × Decision → List Action → List Action
acted a (c, d) log =
    if d.allowed then log ++ record { timestamp = a.at + a.delay; type = a.type } ∷ [] else log

-- All actions of a sequence of attempts, after those of a list.
unfoldable pub made : List Action → VelocityController → List Attempt → List Action
unfolding acted
made log c [] = log
made log c (a ∷ rest) = made (acted a (acquire a.randoms a.at c) log) (attempt a c) rest

-- What the controller has forgotten lies in no minute and no hour from a time on.
abbrev Covers : ℕ → List Action → List Action → Type 0
Covers now log hs =
    (window later : ℕ)
    → window ≤ 3600000
    → now ≤ later
    → count_within window later log ≤ count_within window later hs

count_snoc :
    (window now : ℕ) (hs : List Action) (h : Action)
    → count_within window now (hs ++ h ∷ [])
      ≡ count_within window now hs + (if within window now h then 1 else 0)
unfolding count_within filter_actions
count_snoc window now [] h = ground arith
count_snoc window now (x ∷ hs) h = let ih = count_snoc window now hs h in ground arith

-- An action that is pruned is an hour old.
count_pruned :
    (window now later : ℕ) (hs : List Action)
    → window ≤ 3600000
    → now ≤ later
    → count_within window later hs
      ≤ count_within window later (filter_actions (λ h. leb now (h.timestamp + 3600000)) hs)
unfolding count_within filter_actions
count_pruned window now later [] w l = omega arith
count_pruned window now later (x ∷ hs) w l =
    let ih = count_pruned window now later hs w l in ground arith

settle-Covers :
    (a : Attempt) (c : VelocityController) (d : Decision) (log : List Action)
    → Covers a.at log c.history
    → Covers (a.at + a.delay) (acted a (c, d) log) (settle a (c, d)).history
unfolding settle acted record_action
settle-Covers a c d log h window later w l =
    let e : Action = record { timestamp = a.at + a.delay; type = a.type } in
    let p = count_snoc window later log e in
    let q = count_snoc window later c.history e in
    let x = h window later w (omega arith) in
    elim (Bool-cases d.allowed) [ inl t ↦ rw t (omega arith) | inr t ↦ rw t (omega arith) ]

acquire-Covers :
    (b : Bool) (a : Attempt) (c : VelocityController) (log : List Action)
    → Covers a.at log c.history
    → Covers
        (a.at + a.delay)
        (acted a (acquire_if b a.randoms a.at c) log)
        (settle a (acquire_if b a.randoms a.at c)).history
unfolding acquire_if prune
acquire-Covers false a c log h = settle-Covers a c _ log h
acquire-Covers true a c log h =
    settle-Covers a (prune a.at c) (decide a.randoms a.at (prune a.at c)) log (λ window later w l.
      let x = h window later w l in
      let y = count_pruned window a.at later c.history w l in omega arith)

made-IsPaced :
    (now : ℕ) (c : VelocityController) (log : List Action) (attempts : List Attempt)
    → c.config.enabled ≡ true
    → InOrder now attempts
    → IsPaced now c
    → Covers now log c.history
    → (count_within 60000 (end_of now attempts) (made log c attempts)
        ≤ c.config.max_actions_per_minute)
      × (count_within 3600000 (end_of now attempts) (made log c attempts)
          ≤ c.config.max_actions_per_hour)
unfolding made attempt acquire
made-IsPaced now c log [] e o p h =
    let x = h 60000 now (omega arith) (omega arith) in
    let y = h 3600000 now (omega arith) (omega arith) in
    let m = p.minute in let n = p.hour in (omega arith, omega arith)
made-IsPaced now c log (a ∷ rest) e o p h =
    let (q, same) = attempt-IsPaced a c e (later-IsPaced now a.at c o.0 p) in
    let k =
      acquire-Covers c.config.enabled a c log
        (λ window later w l. h window later w (omega arith)) in
    let (m, n) =
      made-IsPaced (a.at + a.delay) (attempt a c) _ rest (ap (λ x. x.enabled) same ∙ e) o.1 q k in
    let u = ap (λ x. x.max_actions_per_minute) same in
    let v = ap (λ x. x.max_actions_per_hour) same in (omega arith, omega arith)

-- Over every sequence of attempts at a new controller that is enabled, each of which makes its
-- action and records it before the next one asks, no minute and no hour before its end holds more
-- of the actions made than the configuration allows, though the controller forgets them after an
-- hour.
pub made-paced :
    (now : ℕ) (config : Config) (attempts : List Attempt)
    → config.enabled ≡ true
    → InOrder now attempts
    → (count_within 60000 (end_of now attempts) (made [] (create config) attempts)
        ≤ config.max_actions_per_minute)
      × (count_within 3600000 (end_of now attempts) (made [] (create config) attempts)
          ≤ config.max_actions_per_hour)
unfolding count_within filter_actions
made-paced now config attempts e o =
    made-IsPaced now (create config) [] attempts e o
      (record { minute = omega arith; hour = omega arith }) (λ window later w l. omega arith)
