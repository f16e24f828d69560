-- ===== src/Machine/Send/Cooldown.antt =====
-- The pause between two bets: the time that the machine notes when an outcome is recorded, and the
-- guard that reads it (src/core/state-machine/machine.ts, guards.ts).
use crash.Prelude.{
  ℕ, ◌+◌, ◌<◌, ◌≡◌, ◌≢◌, refl, ap, ◌∙◌, true, false, not, ◌||◌, List, [], ◌∷◌, all, All, arith,
  Bool-cases, Option, some, is_falsy, inr, inl,
}
use crash.Machine.Types.{BettingState, Event, EventType, event_type}
use crash.Machine.Context.{Context}
use crash.Machine.Dates.{Dates, RoundTrips}
use crash.Machine.Guards.{time_of}
use crash.Machine.Transitions.Rules.{transition_rules}
use crash.Machine.Transitions.Enumerations.{state_eq, type_eq}
use crash.Machine.Transitions.Table.{found_cause, found_to}
use crash.Machine.Instance.{Machine}
use crash.Machine.Effects.{preload_context, apply_side_effects, event_effects, target_effects}
use crash.Machine.Send.{
  preloaded, reject, go_to_error, take_rule, should_transition_to_error, send, run, String,
}
use crash.Machine.Send.Cases.{send_cases}
use crash.Machine.Send.Entry.{is_entry, entry_begins_safe}

-- The fields that the cooldown guard reads.
abbrev Cooling : Option String → ℕ → Context → Type 0
Cooling at k c = (c.last_bet_at ≡ at) × (c.cooldown_ms ≡ k)

preload-Cooling :
    (at : Option String) (k : ℕ) (e : Event) (c : Context)
    → Cooling at k c
    → Cooling at k (preload_context c e)
unfolding preload_context
preload-Cooling at k e c h = ground arith

event_effects-Cooling :
    (at : Option String) (k : ℕ) (e : Event) (c : Context)
    → Cooling at k c
    → Cooling at k (event_effects e c)
unfolding event_effects
event_effects-Cooling at k e c h = ground arith

target_effects-Cooling :
    (d : Dates) (now : ℕ) (to : BettingState) (at : Option String) (k : ℕ) (e : Event) (c : Context)
    → to ≢ BettingState.result_recorded
    → Cooling at k c
    → Cooling at k (target_effects d now to e c)
unfolding target_effects
target_effects-Cooling d now to at k e c other h = ground arith

recorded_cause :
    all
      (λ r.
        not (state_eq r.to BettingState.result_recorded)
        || type_eq r.event EventType.outcome_recorded)
      transition_rules
    ≡ true
unfolding transition_rules type_eq state_eq
recorded_cause = refl

recorded_to :
    all
      (λ r.
        not (type_eq r.event EventType.outcome_recorded)
        || state_eq r.to BettingState.result_recorded)
      transition_rules
    ≡ true
unfolding transition_rules type_eq state_eq
recorded_to = refl

-- Only a recorded outcome moves the time of the last bet.
send-Cooling :
    (d : Dates) (now : ℕ) (at : Option String) (k : ℕ) (m : Machine) (e : Event)
    → event_type e ≢ EventType.outcome_recorded
    → Cooling at k m.context
    → Cooling at k (send d now m e).machine.context
send-Cooling d now at k m e other h =
    let kept = preload-Cooling at k e m.context h in
    send_cases (λ o. Cooling at k o.machine.context) d now m e (λ msg. unfold reject in kept)
      (λ s g. unfold go_to_error in kept)
      (λ r rest f g.
        unfold take_rule apply_side_effects in
        target_effects-Cooling d now r.to at k e _
          (λ to. other (
            found_cause BettingState.result_recorded EventType.outcome_recorded recorded_cause
              m.state (event_type e) r rest f to))
          (event_effects-Cooling at k e _ kept))

-- Events before the cooldown has run out, none of which records another outcome.
abbrev pub WithinCooldown : ℕ → List (ℕ × Event) → Type 0
WithinCooldown end = All (λ x. (event_type x.1 ≢ EventType.outcome_recorded) × (x.0 < end))

run-Cooling :
    (d : Dates) (t k : ℕ) (m : Machine) (es : List (ℕ × Event))
    → RoundTrips d
    → Cooling (some (d.to_iso_string t)) k m.context
    → is_entry m.state ≡ false
    → WithinCooldown (t + k) es
    → is_entry (run d m es).state ≡ false
unfolding run
run-Cooling d t k m [] law c off w = off
run-Cooling d t k m ((now, e) ∷ es) law c off w =
    run-Cooling d t k (send d now m e).machine es law
      (send-Cooling d now (some (d.to_iso_string t)) k m e w.0.0 c)
      (elim (Bool-cases (is_entry (send d now m e).machine.state)) [
        | inr f ↦ f
        | inl i ↦
            let (at, length) = preload-Cooling (some (d.to_iso_string t)) k e m.context c in
            let cooled =
              (entry_begins_safe d now m e off i).cooled t (ap is_falsy at ∙ law.nonempty t)
                (ap (time_of d) at ∙ law.parses t) in
            absurd (omega (arith, w.0.1))
      ])
      w.1

outcome_effects-Cooling :
    (d : Dates) (t : ℕ) (to : BettingState) (c : Context)
    → to ≡ BettingState.result_recorded
    → Cooling
        (some (d.to_iso_string t))
        c.cooldown_ms
        (apply_side_effects d t Event.outcome_recorded to c)
unfolding apply_side_effects event_effects target_effects
outcome_effects-Cooling d t to c e = rw e (refl, refl)

-- After an outcome is recorded at a time, no event sent before the cooldown has run out takes the
-- machine to the way to a bet, unless another outcome is recorded, given that a printed date is no
-- empty text and parses to its own time.
pub outcome_starts_cooldown :
    (d : Dates) (t : ℕ) (m : Machine) (es : List (ℕ × Event))
    → RoundTrips d
    → (send d t m Event.outcome_recorded).result.accepted ≡ true
    → WithinCooldown (t + m.context.cooldown_ms) es
    → is_entry (run d (send d t m Event.outcome_recorded).machine es).state ≡ false
outcome_starts_cooldown d t m es law =
    send_cases
      (λ o.
        o.result.accepted ≡ true
        → WithinCooldown (t + m.context.cooldown_ms) es
        → is_entry (run d o.machine es).state ≡ false)
      d t m Event.outcome_recorded (λ msg h w. unfold reject in cc)
      (λ s g h w. unfold should_transition_to_error in ground arith)
      (λ r rest f g h w.
        let to =
          found_to EventType.outcome_recorded BettingState.result_recorded recorded_to m.state r
            rest f in
        run-Cooling d t m.context.cooldown_ms
          (take_rule d t (preloaded m Event.outcome_recorded) Event.outcome_recorded r).machine es
          law (unfold take_rule preload_context in outcome_effects-Cooling d t r.to m.context to)
          (unfold take_rule in ap is_entry to) w)
