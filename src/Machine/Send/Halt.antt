-- ===== src/Machine/Send/Halt.antt =====
-- HALTED and the kill switch: what they hold back until the machine is reset
-- (src/core/state-machine/machine.ts, transitions.ts).
use crash.Prelude.{
  ℕ, ◌≡◌, ◌≢◌, refl, sym, ◌∙◌, subst, inl, inr, true, false, false≢true, not, ◌||◌, List, [], ◌∷◌,
  all, All, arith, Bool-cases,
}
use crash.Machine.Types.{BettingState, Event, EventType, event_type}
use crash.Machine.Context.{Context}
use crash.Machine.Dates.{Dates}
use crash.Machine.Transitions.{find_transitions}
use crash.Machine.Transitions.Rules.{transition_rules}
use crash.Machine.Transitions.Enumerations.{state_eq, type_eq}
use crash.Machine.Transitions.Table.{found_event}
use crash.Machine.Instance.{Machine}
use crash.Machine.Effects.{preload_context, apply_side_effects, event_effects, target_effects}
use crash.Machine.Send.{
  preloaded, reject, go_to_error, take_rule, should_transition_to_error, send, run,
}
use crash.Machine.Send.Cases.{send_cases}
use crash.Machine.Send.Entry.{is_entry, entry_begins_safe}

-- No event of a history is a RESET.
abbrev pub NoReset : List (ℕ × Event) → Type 0
NoReset = All (λ x. event_type x.1 ≢ EventType.reset)

halted_event :
    all
      (λ r. not (state_eq r.from BettingState.halted) || type_eq r.event EventType.reset)
      transition_rules
    ≡ true
unfolding transition_rules type_eq state_eq
halted_event = refl

not_to_error :
    (s : BettingState) (c : Context) (e : Event)
    → s ≡ BettingState.halted
    → ¬ (should_transition_to_error s c e ≡ true)
unfolding should_transition_to_error
not_to_error s c e at h = ground arith

-- A halted machine rejects every event but a RESET, and stays halted.
pub send-halted :
    (d : Dates) (now : ℕ) (m : Machine) (e : Event)
    → m.state ≡ BettingState.halted
    → event_type e ≢ EventType.reset
    → ((send d now m e).result.accepted ≡ false)
      × ((send d now m e).machine.state ≡ BettingState.halted)
send-halted d now m e at other =
    send_cases (λ o. (o.result.accepted ≡ false) × (o.machine.state ≡ BettingState.halted)) d now m
      e (λ msg. unfold reject in (refl, at))
      (λ s g. absurd (not_to_error m.state (preloaded m e).context e at s))
      (λ r rest f g. absurd (
        other (
          found_event BettingState.halted EventType.reset halted_event _ r rest
            (subst (λ x. find_transitions x (event_type e) ≡ r ∷ rest) at f))))

-- Over a whole history without a RESET.
pub run-halted :
    (d : Dates) (m : Machine) (es : List (ℕ × Event))
    → m.state ≡ BettingState.halted
    → NoReset es
    → (run d m es).state ≡ BettingState.halted
unfolding run
run-halted d m [] at calm = at
run-halted d m ((now, e) ∷ es) at calm =
    run-halted d (send d now m e).machine es (send-halted d now m e at calm.0).1 calm.1

target_effects-kill_switch :
    (d : Dates) (now : ℕ) (to : BettingState) (e : Event) (c : Context)
    → (target_effects d now to e c).kill_switch ≡ c.kill_switch
unfolding target_effects
target_effects-kill_switch d now to e c = ground arith

event_effects-kill_switch :
    (e : Event) (c : Context)
    → event_type e ≢ EventType.reset
    → c.kill_switch ≡ true
    → (event_effects e c).kill_switch ≡ true
unfolding event_effects
event_effects-kill_switch e c other h = ground arith

preload-kill_switch : (e : Event) (c : Context) → (preload_context c e).kill_switch ≡ c.kill_switch
unfolding preload_context
preload-kill_switch e c = ground arith

-- Only a RESET takes the kill switch off.
send-kill_switch :
    (d : Dates) (now : ℕ) (m : Machine) (e : Event)
    → event_type e ≢ EventType.reset
    → m.context.kill_switch ≡ true
    → (send d now m e).machine.context.kill_switch ≡ true
send-kill_switch d now m e other h =
    let kept = preload-kill_switch e m.context ∙ h in
    send_cases (λ o. o.machine.context.kill_switch ≡ true) d now m e (λ msg. unfold reject in kept)
      (λ s g. unfold go_to_error in kept)
      (λ r rest f g.
        unfold take_rule apply_side_effects in
        target_effects-kill_switch d now r.to e _ ∙ event_effects-kill_switch e _ other kept)

-- Under the kill switch no history without a RESET takes the machine to the way to a bet, and the
-- switch stays on.
pub run_kill_switch :
    (d : Dates) (m : Machine) (es : List (ℕ × Event))
    → m.context.kill_switch ≡ true
    → is_entry m.state ≡ false
    → NoReset es
    → ((run d m es).context.kill_switch ≡ true) × (is_entry (run d m es).state ≡ false)
unfolding run
run_kill_switch d m [] on off calm = (on, off)
run_kill_switch d m ((now, e) ∷ es) on off calm =
    run_kill_switch d (send d now m e).machine es (send-kill_switch d now m e calm.0 on)
      (elim (Bool-cases (is_entry (send d now m e).machine.state)) [
        | inr f ↦ f
        | inl t ↦ absurd (
            false≢true (
              sym (entry_begins_safe d now m e off t).switch_off
              ∙ preload-kill_switch e m.context
              ∙ on))
      ])
      calm.1
