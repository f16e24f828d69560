-- ===== src/Risk/Velocity/Waits.antt =====
-- The loop of src/risk/velocity-controller.ts that waits until an action is allowed. The readings of
-- the clock between two sleeps are arguments, as delays after the reading before: the clock does not
-- go back, and no timer fires early.
use crash.Prelude.{
  ℕ, zero, suc, ◌+◌, ◌-◌, ◌≤◌, ap, ◌∙◌, ◌≡◌, refl, Bool, true, false, ltb, min, if◌then◌else◌,
  ltb→lt, Option, none, some, arith,
}
use crash.Risk.Velocity.{
  refuse, max_wait_exceeded, VelocityController, Randoms, Decision, acquire, acquire_if, decide,
  prune, count_within,
}
use crash.Risk.Velocity.Rates.{decide-below, acquire-config}

-- What one turn of the loop meets: the randoms of its call, how long after the test of the loop
-- acquire reads the clock, how long after that the rest is computed, and how late the timer fires.
pub record Turn : Type 0 where
  pub randoms : Randoms
  pub asking : ℕ
  pub computing : ℕ
  pub late : ℕ

-- What a wait returns, with the controller, the time of the last reading and the milliseconds of
-- all sleeps that it asked for.
pub record Waited : Type 0 where
  pub decision : Decision
  pub controller : VelocityController
  pub at : ℕ
  pub slept : ℕ

abbrev exceeded : ℕ → ℕ → VelocityController → Waited
exceeded now slept c = record {
  decision = refuse 0 max_wait_exceeded;
  controller = c;
  at = now;
  slept = slept;
}

abbrev granted : ℕ → ℕ → VelocityController → Decision → Waited
granted now slept c d = record { decision = d; controller = c; at = now; slept = slept }

-- The loop that began at a time, by turns counted down from its fuel.
unfoldable pub wait_from :
    ℕ → (ℕ → Turn) → (deadline now slept : ℕ) → VelocityController → Option Waited
wait_from zero turns deadline now slept c = none
wait_from (suc n) turns deadline now slept c =
    let turn = turns n in
    let asked = now + turn.asking in
    let answer = acquire turn.randoms asked c in
    let sleep = min answer.1.wait_ms (deadline - (asked + turn.computing)) in
    let woken = asked + turn.computing + sleep + turn.late in
    let rest = wait_from n turns deadline woken (slept + sleep) answer.0 in
    if ltb now deadline
    then if answer.1.allowed
      then some (granted asked slept answer.0 answer.1)
      else if ltb 0 sleep
      then rest
      else some (exceeded (asked + turn.computing) slept answer.0)
    else some (exceeded now slept c)

-- A turn that does not end the loop sleeps for a millisecond at least.
unfoldable pub wait_until_allowed :
    (ℕ → Turn) → (max_wait_ms started : ℕ) → VelocityController → Option Waited
wait_until_allowed turns max_wait_ms started c =
    wait_from (suc max_wait_ms) turns (started + max_wait_ms) started 0 c

if-cases {ℓ} :
    {A : Type 0} (P : A → Type ℓ) (b : Bool) {x y : A}
    → (b ≡ true → P x)
    → (b ≡ false → P y)
    → P (if b then x else y)
if-cases P true f g = f refl
if-cases P false f g = g refl

-- The minute and the hour before a granted action have room for one more action.
abbrev pub HasRoom : Bool → ℕ → VelocityController → Type 0
HasRoom false now c = Unit
HasRoom true now c =
    (suc (count_within 60000 now c.history) ≤ c.config.max_actions_per_minute)
    × (suc (count_within 3600000 now c.history) ≤ c.config.max_actions_per_hour)

allowed-HasRoom :
    (b : Bool) (now : ℕ) (c : VelocityController)
    → b ≡ true
    → (suc (count_within 60000 now c.history) ≤ c.config.max_actions_per_minute)
      × (suc (count_within 3600000 now c.history) ≤ c.config.max_actions_per_hour)
    → HasRoom b now c
allowed-HasRoom true now c e h = h
allowed-HasRoom false now c e h = tt

-- The sleeps asked for are at most so long, and a granted action has room.
pub record IsWaited (max_wait_ms : ℕ) (w : Waited) : Type 0 where
  pub bounded : w.slept ≤ max_wait_ms
  pub room : HasRoom w.decision.allowed w.at w.controller

abbrev pub EndsIn : ℕ → Option Waited → Type 0
EndsIn max_wait_ms o = (w : Waited) × (o ≡ some w) × IsWaited max_wait_ms w

exceeded-EndsIn :
    (max_wait_ms now slept : ℕ) (c : VelocityController)
    → slept ≤ max_wait_ms
    → EndsIn max_wait_ms (some (exceeded now slept c))
exceeded-EndsIn max_wait_ms now slept c h =
    (exceeded now slept c, refl, record { bounded = h; room = tt })

granted-EndsIn :
    (max_wait_ms now slept : ℕ) (r : Randoms) (c : VelocityController) (b : Bool)
    → slept ≤ max_wait_ms
    → b ≡ true
    → (acquire_if b r now c).1.allowed ≡ true
    → EndsIn max_wait_ms
        (some (granted now slept (acquire_if b r now c).0 (acquire_if b r now c).1))
unfolding acquire_if
granted-EndsIn max_wait_ms now slept r c true h e k = (
  granted now slept (prune now c) (decide r now (prune now c)),
  refl,
  record {
    bounded = h;
    room = allowed-HasRoom _ now (prune now c) k (decide-below r now (prune now c) k);
  },
)
granted-EndsIn max_wait_ms now slept r c false h e k = cc

slept_within :
    (now a b wait deadline : ℕ)
    → 1 ≤ min wait (deadline - (now + a + b))
    → now + min wait (deadline - (now + a + b)) ≤ deadline
slept_within now a b wait deadline h = omega arith

-- One turn, given how the wait ends where it goes on.
turn-EndsIn :
    (n : ℕ) (turns : ℕ → Turn) (max_wait_ms deadline now slept : ℕ) (c : VelocityController)
    → c.config.enabled ≡ true
    → slept ≤ max_wait_ms
    → (suc now ≤ deadline
        → (woken sleep : ℕ) (c' : VelocityController) → c'.config ≡ c.config
        → now + sleep ≤ woken
        → 1 ≤ sleep
        → now + sleep ≤ deadline
        → EndsIn max_wait_ms (wait_from n turns deadline woken (slept + sleep) c'))
    → EndsIn max_wait_ms (wait_from (suc n) turns deadline now slept c)
unfolding wait_from acquire
turn-EndsIn n turns max_wait_ms deadline now slept c e h next =
    let turn = turns n in
    let asked = now + turn.asking in
    let answer = acquire_if c.config.enabled turn.randoms asked c in
    let sleep = min answer.1.wait_ms (deadline - (asked + turn.computing)) in
    if-cases (EndsIn max_wait_ms) _
      (λ before.
        if-cases (EndsIn max_wait_ms) _
          (λ a. granted-EndsIn max_wait_ms asked slept turn.randoms c c.config.enabled h e a)
          (λ a.
            if-cases (EndsIn max_wait_ms) _
              (λ s.
                next (ltb→lt now deadline before) (asked + turn.computing + sleep + turn.late) sleep
                  answer.0 (acquire-config c.config.enabled turn.randoms asked c) (omega arith)
                  (ltb→lt 0 sleep s)
                  (slept_within now turn.asking turn.computing answer.1.wait_ms deadline
                    (ltb→lt 0 sleep s)))
              (λ s. exceeded-EndsIn max_wait_ms _ slept _ h)))
      (λ after. exceeded-EndsIn max_wait_ms now slept c h)

wait_from-EndsIn :
    (n : ℕ) (turns : ℕ → Turn) (max_wait_ms started now slept : ℕ) (c : VelocityController)
    → c.config.enabled ≡ true
    → started + max_wait_ms ≤ now + n
    → slept ≤ max_wait_ms
    → started + slept ≤ now
    → EndsIn max_wait_ms (wait_from (suc n) turns (started + max_wait_ms) now slept c)
wait_from-EndsIn zero turns max_wait_ms started now slept c e f h k =
    turn-EndsIn zero turns max_wait_ms (started + max_wait_ms) now slept c e h
      (λ before woken sleep c' same later some_sleep within. absurd (omega arith))
wait_from-EndsIn (suc n) turns max_wait_ms started now slept c e f h k =
    turn-EndsIn (suc n) turns max_wait_ms (started + max_wait_ms) now slept c e h
      (λ before woken sleep c' same later some_sleep within.
        wait_from-EndsIn n turns max_wait_ms started woken (slept + sleep) c'
          (ap (λ x. x.enabled) same ∙ e) (omega arith) (omega arith) (omega arith))

-- Where the clock does not go back and no timer fires early, a wait at an enabled controller comes
-- to an end within one turn more than the milliseconds that it is given, however late the timers
-- fire and whatever the randoms are; its sleeps are not longer than those milliseconds together; and
-- where it grants the action, the minute and the hour before each have room for one more of the
-- actions that the controller remembers.
pub wait_until_allowed-EndsIn :
    (turns : ℕ → Turn) (max_wait_ms started : ℕ) (c : VelocityController)
    → c.config.enabled ≡ true
    → EndsIn max_wait_ms (wait_until_allowed turns max_wait_ms started c)
unfolding wait_until_allowed
wait_until_allowed-EndsIn turns max_wait_ms started c e =
    wait_from-EndsIn max_wait_ms turns max_wait_ms started started 0 c e (omega arith) (omega arith)
      (omega arith)
