-- ===== src/Machine/Send/Results.antt =====
-- What `send` returns and reports, against what it does to the machine
-- (src/core/state-machine/machine.ts).
use crash.Prelude.{
  ◌&&◌, ℕ, ◌≡◌, refl, ◌⊎◌, inl, inr, true, false, List, [], ◌∷◌, ◌++◌, if◌then◌else◌, arith,
  eq_single_of_length,
}
use crash.Machine.Types.{BettingState, Event, event_type}
use crash.Machine.Context.{Context}
use crash.Machine.Dates.{Dates}
use crash.Machine.Effects.{preload_context, extract_failure_reason}
use crash.Machine.Transitions.{find_transitions}
use crash.Machine.Transitions.Rules.{TransitionRule}
use crash.Machine.Transitions.Table.{find_transitions_unique}
use crash.Machine.Instance.{Machine, Call, state_changed, failed, FailureReason, guard_rejected}
use crash.Machine.Send.{
  preloaded, reject, go_to_error, take_rule, should_transition_to_error, send, is_failure,
  evaluate_guard,
}
use crash.Machine.Send.Cases.{send_cases}

-- The result names the state and the context that the machine is left with, on every path.
pub send-result :
    (d : Dates) (now : ℕ) (m : Machine) (e : Event)
    → let o = send d now m e in
      (o.result.new_state ≡ o.machine.state) × (o.result.context ≡ o.machine.context)
send-result d now m e =
    send_cases
      (λ o. (o.result.new_state ≡ o.machine.state) × (o.result.context ≡ o.machine.context)) d now m
      e (λ msg. unfold reject in (refl, refl)) (λ s g. unfold go_to_error in (refl, refl))
      (λ r rest f g. unfold take_rule in (refl, refl))

-- A rejected event calls no callback, and leaves the machine as it was but for the round that a
-- ROUND_STARTED event carries.
pub send_rejected :
    (d : Dates) (now : ℕ) (m : Machine) (e : Event)
    → (send d now m e).result.accepted ≡ false
    → ((send d now m e).machine ≡ preloaded m e) × ((send d now m e).calls ≡ [])
send_rejected d now m e =
    send_cases (λ o. o.result.accepted ≡ false → (o.machine ≡ preloaded m e) × (o.calls ≡ [])) d now
      m e (λ msg h. unfold reject in (refl, refl)) (λ s g h. unfold go_to_error in cc)
      (λ r rest f g h. unfold take_rule in cc)

pub should_transition_to_error-kill_switch :
    (s : BettingState) (c : Context) (e : Event)
    → should_transition_to_error s (preload_context c e) e ≡ true
    → (c.kill_switch ≡ true) × ((s ≡ BettingState.observing) ⊎ (s ≡ BettingState.cooldown))
unfolding should_transition_to_error preload_context
should_transition_to_error-kill_switch s c e h = ground arith

-- The machine after an accepted event, against the table.
abbrev pub Follows : Machine → Event → Machine → Type 0
Follows m e m' =
    ((r : TransitionRule) × (find_transitions m.state (event_type e) ≡ r ∷ []) × (m'.state ≡ r.to))
    ⊎ ((m.context.kill_switch ≡ true)
        × ((m.state ≡ BettingState.observing) ⊎ (m.state ≡ BettingState.cooldown))
        × (m'.state ≡ BettingState.error))

-- An accepted event follows the one rule of the table for the state and the event's type, or the
-- machine observes or cools down under the kill switch and goes to ERROR.
pub send_accepted :
    (d : Dates) (now : ℕ) (m : Machine) (e : Event)
    → (send d now m e).result.accepted ≡ true
    → Follows m e (send d now m e).machine
send_accepted d now m e =
    send_cases (λ o. o.result.accepted ≡ true → Follows m e o.machine) d now m e
      (λ msg h. unfold reject in cc)
      (λ s g h.
        let (k, p) = should_transition_to_error-kill_switch m.state m.context e s in
        unfold go_to_error in inr (k, p, refl))
      (λ r rest f g h.
        unfold take_rule in
        inl (
          r,
          eq_single_of_length _ r rest (find_transitions_unique m.state (event_type e)).0 f,
          refl,
        ))

-- The reports of a change of state: the change, where that callback is set, and after it the
-- failure, where the new state is ERROR or HALTED and that callback is set.
abbrev pub reports : Machine → Event → Machine → FailureReason → List Call
reports m e m' reason =
    (if m.has_on_state_change then state_changed m.state m'.state e m'.context ∷ [] else [])
    ++ (if is_failure m'.state && m.has_on_failure
        then failed m'.state reason m'.context ∷ []
        else [])

-- An accepted event reports the change of state, where that callback is set, and after it the
-- failure, where the new state is ERROR or HALTED and that callback is set, both with the context
-- that the machine is left with.
pub send_calls :
    (d : Dates) (now : ℕ) (m : Machine) (e : Event)
    → (send d now m e).result.accepted ≡ true
    → (reason : FailureReason) × ((send d now m e).calls
        ≡ reports m e (send d now m e).machine reason)
send_calls d now m e =
    send_cases
      (λ o.
        o.result.accepted ≡ true
        → (reason : FailureReason) × (o.calls ≡ reports m e o.machine reason))
      d now m e (λ msg h. unfold reject in cc)
      (λ s g h. (
        guard_rejected (evaluate_guard d now (preloaded m e).context m.state e).reason,
        unfold go_to_error in refl,
      ))
      (λ r rest f g h. (extract_failure_reason e r.to, unfold take_rule in ground arith))
