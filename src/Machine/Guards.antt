-- ===== src/Machine/Guards.antt =====
-- The guards of src/core/state-machine/guards.ts. A reason is a value that carries what its text
-- is printed from. `now` is the time that `Date.now()` reads.
pub mod Entry
use crash.Prelude.{
  ℕ, ◌+◌, ◌-◌, ◌/◌, String, Bool, true, false, not, ◌&&◌, ltb, leb, if◌then◌else◌, is_falsy,
  is_some, List, [], ◌∷◌, Option, none, some,
}
use crash.Machine.Types.{
  RoundPhase, RoundState, ObservationConfidence, high, medium, low, Event, round_started,
  risk_approved, entry_checks_passed, bet_submitted, multiplier_reached_target, cash_out_triggered,
}
use crash.Machine.Context.{Context}
use crash.Machine.Dates.{Dates}

pub data Reason : Type 0 where
  browser_unhealthy adapter_unhealthy : Reason
  confidence_below : (seen required : ObservationConfidence) → Reason
  system_paused kill_switch_engaged open_bet : Reason
  cooldown_active : (seconds : ℕ) → Reason
  no_round_state no_round_id : Reason
  wrong_phase : RoundPhase → Reason
  balance_unknown : Reason
  too_many_errors too_many_cash_out_failures : (count max : ℕ) → Reason
  not_round_started not_risk_approved not_placement not_cash_out : Reason
  nothing_to_cash_out no_bet_id not_paused resume_under_kill_switch : Reason
  recover_after_errors : (count : ℕ) → Reason

pub record GuardResult : Type 0 where
  pub permitted : Bool
  pub reason : Option Reason

abbrev pub permit : GuardResult
permit = record { permitted = true; reason = none }

abbrev pub refuse : Reason → GuardResult
refuse r = record { permitted = false; reason = some r }

unfoldable pub guard_browser_healthy : Context → GuardResult
guard_browser_healthy c = if not c.browser_healthy then refuse browser_unhealthy else permit

unfoldable pub guard_game_adapter_healthy : Context → GuardResult
guard_game_adapter_healthy c =
    if not c.game_adapter_healthy then refuse adapter_unhealthy else permit

abbrev pub level : ObservationConfidence → ℕ
level low = 1
level medium = 2
level high = 3

-- `ctx.roundState?.confidence ?? 'low'`
abbrev pub seen_confidence : Option RoundState → ObservationConfidence
seen_confidence none = low
seen_confidence (some r) = r.confidence

-- The guard is always called with its default for `required`.
unfoldable pub guard_observation_confidence : Context → GuardResult
guard_observation_confidence c =
    let seen = seen_confidence c.round_state in
    let required = c.min_confidence_for_entry in
    if ltb (level seen) (level required) then refuse (confidence_below seen required) else permit

unfoldable pub guard_not_paused : Context → GuardResult
guard_not_paused c = if c.paused then refuse system_paused else permit

unfoldable pub guard_kill_switch_off : Context → GuardResult
guard_kill_switch_off c = if c.kill_switch then refuse kill_switch_engaged else permit

unfoldable pub guard_no_open_bet : Context → GuardResult
guard_no_open_bet c = if c.open_bet_exists then refuse open_bet else permit

-- `elapsed < ctx.cooldownMs`, where `elapsed` is `now` less the time of the last bet and may be
-- negative; both sides are given that time once more. Against NaN the test is false.
cooldown_since : Option ℕ → ℕ → ℕ → GuardResult
cooldown_since none cooldown_ms now = permit
cooldown_since (some at) cooldown_ms now =
    if ltb now (at + cooldown_ms)
    then refuse (cooldown_active ((at + cooldown_ms - now + 999) / 1000))
    else permit

-- The time of the last bet, if one is recorded.
abbrev pub time_of : Dates → Option String → Option ℕ
time_of d none = none
time_of d (some at) = d.get_time at

unfoldable pub guard_cooldown_elapsed : Dates → ℕ → Context → GuardResult
unfolding cooldown_since
guard_cooldown_elapsed d now c =
    if is_falsy c.last_bet_at
    then permit
    else cooldown_since (time_of d c.last_bet_at) c.cooldown_ms now

abbrev is_open_phase : RoundPhase → Bool
is_open_phase RoundPhase.starting = true
is_open_phase RoundPhase.running = true
is_open_phase _ = false

round_valid : Option RoundState → Option String → Option String → GuardResult
round_valid none current_round_id event_round_id = refuse no_round_state
round_valid (some r) current_round_id event_round_id =
    if is_falsy current_round_id && is_falsy event_round_id
    then refuse no_round_id
    else if not (is_open_phase r.phase)
    then refuse (wrong_phase r.phase)
    else permit

unfoldable pub guard_round_valid : Context → Option String → GuardResult
unfolding round_valid
guard_round_valid c event_round_id = round_valid c.round_state c.current_round_id event_round_id

unfoldable pub guard_balance_known : Context → GuardResult
guard_balance_known c = if not (is_some c.current_balance) then refuse balance_unknown else permit

unfoldable pub guard_error_threshold : Context → GuardResult
guard_error_threshold c =
    if leb c.max_consecutive_errors c.consecutive_errors
    then refuse (too_many_errors c.consecutive_errors c.max_consecutive_errors)
    else permit

unfoldable pub guard_cash_out_failure_threshold : Context → GuardResult
guard_cash_out_failure_threshold c =
    if leb c.max_cash_out_failures c.cash_out_failures
    then refuse (too_many_cash_out_failures c.cash_out_failures c.max_cash_out_failures)
    else permit

-- `for (const guard of guards)`: the first refusal is the result.
unfoldable pub first_refusal : List GuardResult → GuardResult
first_refusal [] = permit
first_refusal (g ∷ gs) = if not g.permitted then g else first_refusal gs

abbrev pub event_round_id : Event → Option String
event_round_id (round_started id _) = some id
event_round_id _ = none

-- The array `guards`, each guard at the context.
entry_guards : Dates → ℕ → Context → Event → List GuardResult
entry_guards d now c e =
    guard_browser_healthy c
    ∷ guard_game_adapter_healthy c
    ∷ guard_not_paused c
    ∷ guard_kill_switch_off c
    ∷ guard_no_open_bet c
    ∷ guard_cooldown_elapsed d now c
    ∷ guard_round_valid c (event_round_id e)
    ∷ guard_observation_confidence c
    ∷ guard_balance_known c
    ∷ guard_error_threshold c
    ∷ guard_cash_out_failure_threshold c
    ∷ []

unfoldable pub guard_all_entry_conditions : Dates → ℕ → Context → Event → GuardResult
unfolding entry_guards
guard_all_entry_conditions d now c e = first_refusal (entry_guards d now c e)

unfoldable pub guard_can_evaluate_entry : Dates → ℕ → Context → Event → GuardResult
guard_can_evaluate_entry d now c (round_started id r) =
    let checked = guard_round_valid c (some id) in
    if not checked.permitted
    then checked
    else guard_all_entry_conditions d now c (round_started id r)
guard_can_evaluate_entry d now c _ = refuse not_round_started

unfoldable pub guard_can_approve_entry : Dates → ℕ → Context → Event → GuardResult
guard_can_approve_entry d now c (risk_approved r) =
    guard_all_entry_conditions d now c (risk_approved r)
guard_can_approve_entry d now c _ = refuse not_risk_approved

unfoldable pub guard_can_place_bet : Dates → ℕ → Context → Event → GuardResult
guard_can_place_bet d now c entry_checks_passed =
    guard_all_entry_conditions d now c entry_checks_passed
guard_can_place_bet d now c (bet_submitted id) =
    guard_all_entry_conditions d now c (bet_submitted id)
guard_can_place_bet d now c _ = refuse not_placement

cash_out_checks : Context → GuardResult
cash_out_checks c =
    if not c.open_bet_exists
    then refuse nothing_to_cash_out
    else if is_falsy c.current_bet_id
    then refuse no_bet_id
    else permit

unfoldable pub guard_can_cash_out : Context → Event → GuardResult
unfolding cash_out_checks
guard_can_cash_out c (multiplier_reached_target _) = cash_out_checks c
guard_can_cash_out c cash_out_triggered = cash_out_checks c
guard_can_cash_out c _ = refuse not_cash_out

unfoldable pub guard_can_resume : Context → GuardResult
guard_can_resume c =
    if not c.paused
    then refuse not_paused
    else if c.kill_switch
    then refuse resume_under_kill_switch
    else permit

unfoldable pub guard_can_recover : Context → GuardResult
guard_can_recover c =
    if leb c.max_consecutive_errors c.consecutive_errors
    then refuse (recover_after_errors c.consecutive_errors)
    else permit
