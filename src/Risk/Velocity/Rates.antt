-- ===== src/Risk/Velocity/Rates.antt =====
-- The rates that a velocity controller holds its callers to (src/risk/velocity-controller.ts).
use crash.Prelude.{
  ℕ, suc, ◌+◌, ◌≤◌, ◌≡◌, refl, ◌∙◌, String, Bool, true, false, leb, List, [], ◌∷◌, ◌++◌, Bool-cases,
  inl, inr, arith,
}
use crash.Risk.Velocity.{
  Action, VelocityController, Randoms, Attempt, filter_actions, count_within, prune, acquire,
  decide, record_action, attempt, acquire_if, settle, Decision,
}

-- A window of a later time counts no more.
count_later :
    (window now later : ℕ) (hs : List Action)
    → now ≤ later
    → count_within window later hs ≤ count_within window now hs
unfolding count_within filter_actions
count_later window now later [] h = omega arith
count_later window now later (x ∷ hs) h = let ih = count_later window now later hs h in ground arith

count_filtered :
    (window now : ℕ) (p : Action → Bool) (hs : List Action)
    → count_within window now (filter_actions p hs) ≤ count_within window now hs
unfolding count_within filter_actions
count_filtered window now p [] = omega arith
count_filtered window now p (x ∷ hs) = let ih = count_filtered window now p hs in ground arith

count_append :
    (window now : ℕ) (hs : List Action) (h : Action)
    → count_within window now (hs ++ h ∷ []) ≤ suc (count_within window now hs)
unfolding count_within filter_actions
count_append window now [] h = ground arith
count_append window now (x ∷ hs) h = let ih = count_append window now hs h in ground arith

-- No more actions in the minute and the hour before a time than the configuration allows.
pub record IsPaced (now : ℕ) (c : VelocityController) : Type 0 where
  pub minute : count_within 60000 now c.history ≤ c.config.max_actions_per_minute
  pub hour : count_within 3600000 now c.history ≤ c.config.max_actions_per_hour

pub later-IsPaced :
    (now later : ℕ) (c : VelocityController) → now ≤ later → IsPaced now c → IsPaced later c
later-IsPaced now later c h p =
    let a = count_later 60000 now later c.history h in
    let b = count_later 3600000 now later c.history h in
    let m = p.minute in let n = p.hour in record { minute = omega arith; hour = omega arith }

record-IsPaced :
    (type : String) (now later : ℕ) (c : VelocityController)
    → now ≤ later
    → suc (count_within 60000 now c.history) ≤ c.config.max_actions_per_minute
    → suc (count_within 3600000 now c.history) ≤ c.config.max_actions_per_hour
    → IsPaced later (record_action type later c)
unfolding record_action
record-IsPaced type now later c h m n =
    let e : Action = record { timestamp = later; type = type } in
    let a = count_later 60000 now later c.history h in
    let b = count_later 3600000 now later c.history h in
    let x = count_append 60000 later c.history e in
    let y = count_append 3600000 later c.history e in
    record { minute = omega arith; hour = omega arith }

pub decide-below :
    (r : Randoms) (now : ℕ) (c : VelocityController)
    → (decide r now c).allowed ≡ true
    → (suc (count_within 60000 now c.history) ≤ c.config.max_actions_per_minute)
      × (suc (count_within 3600000 now c.history) ≤ c.config.max_actions_per_hour)
unfolding decide
decide-below r now c h = ground arith

prune-IsPaced : (now : ℕ) (c : VelocityController) → IsPaced now c → IsPaced now (prune now c)
unfolding prune
prune-IsPaced now c p =
    let a = count_filtered 60000 now (λ h. leb now (h.timestamp + 3600000)) c.history in
    let b = count_filtered 3600000 now (λ h. leb now (h.timestamp + 3600000)) c.history in
    let m = p.minute in let n = p.hour in record { minute = omega arith; hour = omega arith }

settle-IsPaced :
    (a : Attempt) (c : VelocityController) (d : Decision)
    → (d.allowed ≡ true
        → (suc (count_within 60000 a.at c.history) ≤ c.config.max_actions_per_minute)
          × (suc (count_within 3600000 a.at c.history) ≤ c.config.max_actions_per_hour))
    → IsPaced a.at c
    → IsPaced (a.at + a.delay) (settle a (c, d))
unfolding settle
settle-IsPaced a c d below p = elim (Bool-cases d.allowed) [
  | inl h ↦
      let (m, n) = below h in rw h (record-IsPaced a.type a.at (a.at + a.delay) c (omega arith) m n)
  | inr h ↦ rw h (later-IsPaced a.at (a.at + a.delay) c (omega arith) p)
]

acquire-IsPaced :
    (b : Bool) (a : Attempt) (c : VelocityController)
    → b ≡ true
    → IsPaced a.at c
    → IsPaced (a.at + a.delay) (settle a (acquire_if b a.randoms a.at c))
unfolding acquire_if
acquire-IsPaced false a c e p = cc
acquire-IsPaced true a c e p =
    settle-IsPaced a (prune a.at c) (decide a.randoms a.at (prune a.at c))
      (decide-below a.randoms a.at (prune a.at c)) (prune-IsPaced a.at c p)

settle-config : (a : Attempt) (p : VelocityController × Decision) → (settle a p).config ≡ p.0.config
unfolding settle record_action
settle-config a (c, d) = ground arith

pub acquire-config :
    (b : Bool) (r : Randoms) (now : ℕ) (c : VelocityController)
    → (acquire_if b r now c).0.config ≡ c.config
unfolding acquire_if prune
acquire-config false r now c = refl
acquire-config true r now c = refl

pub attempt-IsPaced :
    (a : Attempt) (c : VelocityController)
    → c.config.enabled ≡ true
    → IsPaced a.at c
    → IsPaced (a.at + a.delay) (attempt a c) × ((attempt a c).config ≡ c.config)
unfolding attempt acquire
attempt-IsPaced a c e p = (
  acquire-IsPaced c.config.enabled a c e p,
  settle-config a (acquire_if c.config.enabled a.randoms a.at c)
      ∙ acquire-config c.config.enabled a.randoms a.at c,
)

-- Attempts in order: each one begins no earlier than the one before it has ended.
abbrev pub InOrder : ℕ → List Attempt → Type 0
InOrder now [] = Unit
InOrder now (a ∷ rest) = (now ≤ a.at) × InOrder (a.at + a.delay) rest

abbrev pub end_of : ℕ → List Attempt → ℕ
end_of now [] = now
end_of now (a ∷ rest) = end_of (a.at + a.delay) rest
