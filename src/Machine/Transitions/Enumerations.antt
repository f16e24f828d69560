-- ===== src/Machine/Transitions/Enumerations.antt =====
-- The states and the event types as finite enumerations, with their equality tests.
use crash.Prelude.{
  ℕ, ◌==◌, ==_iff, ◌≡◌, refl, sym, ap, ◌∙◌, Bool, true, some, some_inj, List, [], ◌∷◌, get_elem?,
  all, all-get_elem?,
}
use crash.Machine.Types.{BettingState, EventType}

abbrev pub state_code : BettingState → ℕ
state_code BettingState.idle = 0
state_code BettingState.ready_to_observe = 1
state_code BettingState.observing = 2
state_code BettingState.entry_evaluating = 3
state_code BettingState.entry_approved = 4
state_code BettingState.bet_placing = 5
state_code BettingState.bet_active = 6
state_code BettingState.cash_out_armed = 7
state_code BettingState.cash_out_requested = 8
state_code BettingState.round_complete = 9
state_code BettingState.result_recorded = 10
state_code BettingState.cooldown = 11
state_code BettingState.paused = 12
state_code BettingState.error = 13
state_code BettingState.halted = 14
state_code BettingState.reconciling = 15

-- The states, each at the place of its code.
abbrev pub all_states : List BettingState
all_states =
    BettingState.idle ∷ BettingState.ready_to_observe ∷ BettingState.observing
    ∷ BettingState.entry_evaluating ∷ BettingState.entry_approved ∷ BettingState.bet_placing
    ∷ BettingState.bet_active ∷ BettingState.cash_out_armed ∷ BettingState.cash_out_requested
    ∷ BettingState.round_complete ∷ BettingState.result_recorded ∷ BettingState.cooldown
    ∷ BettingState.paused ∷ BettingState.error ∷ BettingState.halted ∷ BettingState.reconciling ∷ []

pub get_elem?-all_states : (x : BettingState) → get_elem? all_states (state_code x) ≡ some x
get_elem?-all_states BettingState.idle = refl
get_elem?-all_states BettingState.ready_to_observe = refl
get_elem?-all_states BettingState.observing = refl
get_elem?-all_states BettingState.entry_evaluating = refl
get_elem?-all_states BettingState.entry_approved = refl
get_elem?-all_states BettingState.bet_placing = refl
get_elem?-all_states BettingState.bet_active = refl
get_elem?-all_states BettingState.cash_out_armed = refl
get_elem?-all_states BettingState.cash_out_requested = refl
get_elem?-all_states BettingState.round_complete = refl
get_elem?-all_states BettingState.result_recorded = refl
get_elem?-all_states BettingState.cooldown = refl
get_elem?-all_states BettingState.paused = refl
get_elem?-all_states BettingState.error = refl
get_elem?-all_states BettingState.halted = refl
get_elem?-all_states BettingState.reconciling = refl

pub state_code-injective : (x y : BettingState) → state_code x ≡ state_code y → x ≡ y
state_code-injective x y e =
    some_inj x y
      (sym (get_elem?-all_states x) ∙ ap (get_elem? all_states) e ∙ get_elem?-all_states y)

unfoldable pub state_eq : BettingState → BettingState → Bool
state_eq x y = state_code x == state_code y

pub state_eq→≡ : (x y : BettingState) → state_eq x y ≡ true → x ≡ y
unfolding state_eq
state_eq→≡ x y h = state_code-injective x y ((==_iff _ _).0 h)

pub state_eq_refl : (x : BettingState) → state_eq x x ≡ true
unfolding state_eq
state_eq_refl x = (==_iff _ _).1 refl

abbrev pub type_code : EventType → ℕ
type_code EventType.browser_ready = 0
type_code EventType.authenticated = 1
type_code EventType.game_loaded = 2
type_code EventType.round_started = 3
type_code EventType.risk_approved = 4
type_code EventType.risk_rejected = 5
type_code EventType.entry_checks_passed = 6
type_code EventType.entry_checks_failed = 7
type_code EventType.bet_submitted = 8
type_code EventType.bet_confirmed = 9
type_code EventType.bet_placement_failed = 10
type_code EventType.bet_placement_timeout = 11
type_code EventType.multiplier_reached_target = 12
type_code EventType.cash_out_triggered = 13
type_code EventType.cash_out_confirmed = 14
type_code EventType.cash_out_failed = 15
type_code EventType.cash_out_timeout = 16
type_code EventType.round_crashed = 17
type_code EventType.outcome_recorded = 18
type_code EventType.cooldown_elapsed = 19
type_code EventType.pause_requested = 20
type_code EventType.resume_requested = 21
type_code EventType.recover = 22
type_code EventType.recovery_complete = 23
type_code EventType.reconcile = 24
type_code EventType.reconciliation_complete = 25
type_code EventType.stale_multiplier = 26
type_code EventType.health_degraded = 27
type_code EventType.critical_error = 28
type_code EventType.halt = 29
type_code EventType.reset = 30
type_code EventType.force_state = 31

-- The event types, each at the place of its code.
abbrev pub all_types : List EventType
all_types =
    EventType.browser_ready ∷ EventType.authenticated ∷ EventType.game_loaded
    ∷ EventType.round_started ∷ EventType.risk_approved ∷ EventType.risk_rejected
    ∷ EventType.entry_checks_passed ∷ EventType.entry_checks_failed ∷ EventType.bet_submitted
    ∷ EventType.bet_confirmed ∷ EventType.bet_placement_failed ∷ EventType.bet_placement_timeout
    ∷ EventType.multiplier_reached_target ∷ EventType.cash_out_triggered
    ∷ EventType.cash_out_confirmed ∷ EventType.cash_out_failed ∷ EventType.cash_out_timeout
    ∷ EventType.round_crashed ∷ EventType.outcome_recorded ∷ EventType.cooldown_elapsed
    ∷ EventType.pause_requested ∷ EventType.resume_requested ∷ EventType.recover
    ∷ EventType.recovery_complete ∷ EventType.reconcile ∷ EventType.reconciliation_complete
    ∷ EventType.stale_multiplier ∷ EventType.health_degraded ∷ EventType.critical_error
    ∷ EventType.halt ∷ EventType.reset ∷ EventType.force_state ∷ []

pub get_elem?-all_types : (x : EventType) → get_elem? all_types (type_code x) ≡ some x
get_elem?-all_types EventType.browser_ready = refl
get_elem?-all_types EventType.authenticated = refl
get_elem?-all_types EventType.game_loaded = refl
get_elem?-all_types EventType.round_started = refl
get_elem?-all_types EventType.risk_approved = refl
get_elem?-all_types EventType.risk_rejected = refl
get_elem?-all_types EventType.entry_checks_passed = refl
get_elem?-all_types EventType.entry_checks_failed = refl
get_elem?-all_types EventType.bet_submitted = refl
get_elem?-all_types EventType.bet_confirmed = refl
get_elem?-all_types EventType.bet_placement_failed = refl
get_elem?-all_types EventType.bet_placement_timeout = refl
get_elem?-all_types EventType.multiplier_reached_target = refl
get_elem?-all_types EventType.cash_out_triggered = refl
get_elem?-all_types EventType.cash_out_confirmed = refl
get_elem?-all_types EventType.cash_out_failed = refl
get_elem?-all_types EventType.cash_out_timeout = refl
get_elem?-all_types EventType.round_crashed = refl
get_elem?-all_types EventType.outcome_recorded = refl
get_elem?-all_types EventType.cooldown_elapsed = refl
get_elem?-all_types EventType.pause_requested = refl
get_elem?-all_types EventType.resume_requested = refl
get_elem?-all_types EventType.recover = refl
get_elem?-all_types EventType.recovery_complete = refl
get_elem?-all_types EventType.reconcile = refl
get_elem?-all_types EventType.reconciliation_complete = refl
get_elem?-all_types EventType.stale_multiplier = refl
get_elem?-all_types EventType.health_degraded = refl
get_elem?-all_types EventType.critical_error = refl
get_elem?-all_types EventType.halt = refl
get_elem?-all_types EventType.reset = refl
get_elem?-all_types EventType.force_state = refl

pub type_code-injective : (x y : EventType) → type_code x ≡ type_code y → x ≡ y
type_code-injective x y e =
    some_inj x y (sym (get_elem?-all_types x) ∙ ap (get_elem? all_types) e ∙ get_elem?-all_types y)

unfoldable pub type_eq : EventType → EventType → Bool
type_eq x y = type_code x == type_code y

pub type_eq→≡ : (x y : EventType) → type_eq x y ≡ true → x ≡ y
unfolding type_eq
type_eq→≡ x y h = type_code-injective x y ((==_iff _ _).0 h)

pub type_eq_refl : (x : EventType) → type_eq x x ≡ true
unfolding type_eq
type_eq_refl x = (==_iff _ _).1 refl

-- What a test finds of every state and every event type holds of all of them.
pub all-states-types :
    (p : BettingState → EventType → Bool)
    → all (λ s. all (p s) all_types) all_states ≡ true
    → (s : BettingState) (t : EventType) → p s t ≡ true
all-states-types p h s t =
    all-get_elem? (p s) all_types (type_code t) t
      (all-get_elem? (λ x. all (p x) all_types) all_states (state_code s) s h
        (get_elem?-all_states s))
      (get_elem?-all_types t)

pub all-states-states :
    (p : BettingState → BettingState → Bool)
    → all (λ s. all (p s) all_states) all_states ≡ true
    → (s s' : BettingState) → p s s' ≡ true
all-states-states p h s t =
    all-get_elem? (p s) all_states (state_code t) t
      (all-get_elem? (λ x. all (p x) all_states) all_states (state_code s) s h
        (get_elem?-all_states s))
      (get_elem?-all_states t)
