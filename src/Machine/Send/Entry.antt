-- ===== src/Machine/Send/Entry.antt =====
-- The way to a bet: no event takes the machine towards one unless the entry conditions hold
-- (the guarded rules of src/core/state-machine/transitions.ts, sent through machine.ts).
use crash.Prelude.{
  ℕ, ◌≡◌, refl, sym, ap, ◌∙◌, inl, inr, Bool, true, false, not, ◌&&◌, ◌||◌, List, ◌∷◌, all, &&-left,
  &&-right, ||-resolve, Bool-cases, false≢true,
}
use crash.Machine.Types.{BettingState, Event, EventType, event_type}
use crash.Machine.Context.{Context}
use crash.Machine.Dates.{Dates}
use crash.Machine.Guards.{event_round_id}
use crash.Machine.Guards.Entry.{
  IsSafeEntry, guard_can_evaluate_entry-IsSafeEntry, guard_can_approve_entry-IsSafeEntry,
  guard_can_place_bet-IsSafeEntry,
}
use crash.Machine.Transitions.{find_transitions}
use crash.Machine.Transitions.Rules.{TransitionRule, transition_rules}
use crash.Machine.Transitions.Table.{found_rule}
use crash.Machine.Instance.{Machine}
use crash.Machine.Send.{preloaded, reject, go_to_error, take_rule, evaluate_guard, send}
use crash.Machine.Send.Results.{send_rejected}
use crash.Machine.Send.Cases.{send_cases}

-- The states on the way to a bet.
abbrev pub is_entry : BettingState → Bool
is_entry BettingState.entry_evaluating = true
is_entry BettingState.entry_approved = true
is_entry BettingState.bet_placing = true
is_entry _ = false

-- The steps of the entry path: the state, the type of the event and the state it leads to.
abbrev pub is_entry_step : BettingState → EventType → BettingState → Bool
is_entry_step BettingState.observing EventType.round_started BettingState.entry_evaluating = true
is_entry_step BettingState.cooldown EventType.round_started BettingState.entry_evaluating = true
is_entry_step BettingState.entry_evaluating EventType.risk_approved BettingState.entry_approved =
    true
is_entry_step BettingState.entry_approved EventType.entry_checks_passed BettingState.bet_placing =
    true
is_entry_step BettingState.entry_approved EventType.bet_submitted BettingState.bet_placing = true
is_entry_step _ _ _ = false

-- A rule that leads to a state of the entry path is guarded, and is one of the steps.
entry_rule_test : TransitionRule → Bool
entry_rule_test r = not (is_entry r.to) || (r.requires_guard && is_entry_step r.from r.event r.to)

entry_rule_table : all entry_rule_test transition_rules ≡ true
unfolding entry_rule_test transition_rules
entry_rule_table = refl

entry_rule :
    (s : BettingState) (t : EventType) (r : TransitionRule) (rest : List TransitionRule)
    → find_transitions s t ≡ r ∷ rest
    → is_entry r.to ≡ true
    → (r.requires_guard ≡ true) × (is_entry_step s t r.to ≡ true)
unfolding entry_rule_test
entry_rule s t r rest f h =
    let (p, q, u) = found_rule entry_rule_test entry_rule_table s t r rest f in
    let both : (r.requires_guard && is_entry_step r.from r.event r.to) ≡ true =
      ||-resolve (is_entry r.to) _ p h in
    (&&-left _ _ both, rw (← q, ← u) (&&-right r.requires_guard _ both))

-- What a guard of the entry path permits is safe.
entry_step-IsSafeEntry :
    (d : Dates) (now : ℕ) (c : Context) (s : BettingState) (e : Event) (to : BettingState)
    → is_entry_step s (event_type e) to ≡ true
    → (evaluate_guard d now c s e).permitted ≡ true
    → IsSafeEntry d now c (event_round_id e)
unfolding evaluate_guard
entry_step-IsSafeEntry d now c BettingState.observing (Event.round_started id r)
      BettingState.entry_evaluating h g =
    guard_can_evaluate_entry-IsSafeEntry d now c (Event.round_started id r) g
entry_step-IsSafeEntry d now c BettingState.cooldown (Event.round_started id r)
      BettingState.entry_evaluating h g =
    guard_can_evaluate_entry-IsSafeEntry d now c (Event.round_started id r) g
entry_step-IsSafeEntry d now c BettingState.entry_evaluating (Event.risk_approved r)
      BettingState.entry_approved h g =
    guard_can_approve_entry-IsSafeEntry d now c (Event.risk_approved r) g
entry_step-IsSafeEntry d now c BettingState.entry_approved Event.entry_checks_passed
      BettingState.bet_placing h g =
    guard_can_place_bet-IsSafeEntry d now c Event.entry_checks_passed g
entry_step-IsSafeEntry d now c BettingState.entry_approved (Event.bet_submitted id)
      BettingState.bet_placing h g =
    guard_can_place_bet-IsSafeEntry d now c (Event.bet_submitted id) g
entry_step-IsSafeEntry d now c _ _ _ h g = cc

-- An accepted event that leaves the machine on the way to a bet is a step of the entry path, and
-- nothing speaks against a bet in the context in which its guard looks.
pub send_entry-IsSafeEntry :
    (d : Dates) (now : ℕ) (m : Machine) (e : Event)
    → (send d now m e).result.accepted ≡ true
    → is_entry (send d now m e).machine.state ≡ true
    → (is_entry_step m.state (event_type e) (send d now m e).machine.state ≡ true)
      × IsSafeEntry d now (preloaded m e).context (event_round_id e)
send_entry-IsSafeEntry d now m e =
    send_cases
      (λ o.
        o.result.accepted ≡ true
        → is_entry o.machine.state ≡ true
        → (is_entry_step m.state (event_type e) o.machine.state ≡ true)
          × IsSafeEntry d now (preloaded m e).context (event_round_id e))
      d now m e (λ msg h i. unfold reject in cc) (λ s g h i. unfold go_to_error in cc)
      (λ r rest f g h i.
        let (guarded, step) = entry_rule m.state (event_type e) r rest f (unfold take_rule in i) in
        (unfold take_rule in step, entry_step-IsSafeEntry d now _ m.state e r.to step (g guarded)))

-- The same of any event, the rejected ones included: the way to a bet begins with a safe entry.
pub entry_begins_safe :
    (d : Dates) (now : ℕ) (m : Machine) (e : Event)
    → is_entry m.state ≡ false
    → is_entry (send d now m e).machine.state ≡ true
    → IsSafeEntry d now (preloaded m e).context (event_round_id e)
entry_begins_safe d now m e off i = elim (Bool-cases (send d now m e).result.accepted) [
  | inl a ↦ (send_entry-IsSafeEntry d now m e a i).1
  | inr a ↦
      absurd
        (false≢true (sym off ∙ sym (ap (λ x. is_entry x.state) (send_rejected d now m e a).0) ∙ i))
]
