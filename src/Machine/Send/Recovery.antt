-- ===== src/Machine/Send/Recovery.antt =====
-- From every state the machine can be brought back to observation, and what `forceState` does
-- (src/core/state-machine/machine.ts, transitions.ts).
use crash.Machine.Transitions.Rules.{TransitionRule, transition_rules}
use crash.Machine.Transitions.{
  transition_map, build_map, push_rule, get, same_key, or_empty, find_transitions,
}
use crash.Machine.Transitions.Enumerations.{state_eq, type_eq}
use crash.Prelude.{
  if◌then◌else◌, ℕ, ◌≡◌, refl, ◌∙◌, true, false, String, is_blank, List, [], ◌∷◌, map, arith,
  Bool-cases, none, some, some_inj, Option-cases, inl, inr, false≢true, sym, is_empty_of_not_blank,
}
use crash.Machine.Types.{BettingState, Event, event_type}
use crash.Machine.Dates.{Dates}
use crash.Machine.Instance.{Machine, Call, failed, forced}
use crash.Machine.Send.{
  send, run, find_transitions, Option, take_rule, ForceOutcome, force_state, thrown, forced_to,
  ForceSource, get_or_else,
}
use crash.Machine.Send.Cases.{send_unguarded}

-- Events that bring a machine back to observation, by its state; none of their rules has a guard.
abbrev pub way_back : BettingState → List Event
way_back BettingState.idle = Event.browser_ready ∷ Event.game_loaded ∷ []
way_back BettingState.ready_to_observe = Event.game_loaded ∷ []
way_back BettingState.observing = []
way_back BettingState.entry_evaluating = Event.risk_rejected "" ∷ []
way_back BettingState.entry_approved =
    Event.pause_requested "" ∷ Event.reset ∷ Event.browser_ready ∷ Event.game_loaded ∷ []
way_back BettingState.bet_placing = Event.reconcile none ∷ Event.recovery_complete ∷ []
way_back BettingState.bet_active = Event.reconcile none ∷ Event.recovery_complete ∷ []
way_back BettingState.cash_out_armed = Event.reconcile none ∷ Event.recovery_complete ∷ []
way_back BettingState.cash_out_requested = Event.reconcile none ∷ Event.recovery_complete ∷ []
way_back BettingState.round_complete =
    Event.outcome_recorded ∷ Event.cooldown_elapsed ∷ Event.cooldown_elapsed ∷ []
way_back BettingState.result_recorded = Event.cooldown_elapsed ∷ Event.cooldown_elapsed ∷ []
way_back BettingState.cooldown = Event.cooldown_elapsed ∷ []
way_back BettingState.paused = Event.reset ∷ Event.browser_ready ∷ Event.game_loaded ∷ []
way_back BettingState.error = Event.reconcile none ∷ Event.recovery_complete ∷ []
way_back BettingState.halted = Event.reset ∷ Event.browser_ready ∷ Event.game_loaded ∷ []
way_back BettingState.reconciling = Event.recovery_complete ∷ []

-- The target of the first rule found, if it has no guard.
unguarded_target : List TransitionRule → Option BettingState
unguarded_target [] = none
unguarded_target (r ∷ rest) = if r.requires_guard then none else some r.to

-- The state that the rules without a guard lead to, where each event has one.
path_end : BettingState → List Event → Option BettingState
path_end s [] = some s
path_end s (e ∷ es) = elim (unguarded_target (find_transitions s (event_type e))) [
  | none ↦ none
  | some s' ↦ path_end s' es
]

send_target :
    (d : Dates) (now : ℕ) (m : Machine) (e : Event) (s : BettingState) (rs : List TransitionRule)
    → find_transitions m.state (event_type e) ≡ rs
    → unguarded_target rs ≡ some s
    → (send d now m e).machine.state ≡ s
unfolding unguarded_target take_rule
send_target d now m e s [] f h = cc
send_target d now m e s (r ∷ rest) f h =
    let go : r.requires_guard ≡ false = ground arith in
    rw (send_unguarded d now m e r rest f go) (ground arith)

-- A machine follows such rules in any context.
run_path :
    (d : Dates) (now : ℕ) (m : Machine) (s : BettingState) (es : List Event)
    → path_end m.state es ≡ some s
    → (run d m (map (λ e. (now, e)) es)).state ≡ s
unfolding run path_end
run_path d now m s [] h = some_inj m.state s h
run_path d now m s (e ∷ es) h =
    elim (Option-cases (unguarded_target (find_transitions m.state (event_type e)))) [
      | inl n ↦ absurd (ground arith)
      | inr (s', q) ↦ run_path d now (send d now m e).machine s es (
          rw (send_target d now m e s' (find_transitions m.state (event_type e)) refl q)
            (ground arith))
    ]

way_back-observing : (s : BettingState) → path_end s (way_back s) ≡ some BettingState.observing
unfolding path_end unguarded_target find_transitions transition_map build_map push_rule get same_key
    transition_rules state_eq type_eq or_empty
way_back-observing BettingState.idle = refl
way_back-observing _ = refl

-- Whatever its state and context, some events bring the machine back to observation.
pub run-way_back :
    (d : Dates) (now : ℕ) (m : Machine)
    → (run d m (map (λ e. (now, e)) (way_back m.state))).state ≡ BettingState.observing
run-way_back d now m =
    run_path d now m BettingState.observing (way_back m.state) (way_back-observing m.state)

-- What a call of `forceState` leaves: the machine as it was where it throws, and otherwise the same
-- machine in the forced state.
abbrev pub forced_machine : ForceOutcome → Machine
forced_machine (thrown m) = m
forced_machine (forced_to m calls) = m

abbrev pub first_report : ForceOutcome → Option Call
first_report (forced_to m (call ∷ calls)) = some call
first_report _ = none

-- Forcing with a reason of white space only throws and changes nothing. With any other reason it
-- changes the state alone, and where failures are reported the first report is the audit record,
-- which names the source, both states, the reason and the operator.
pub force_state_lem :
    (m : Machine) (to : BettingState) (reason : String) (source : ForceSource) (op : Option String)
    → let o = force_state m to reason source op in
      (is_blank reason ≡ true → (forced_machine o ≡ m) × (first_report o ≡ none))
      × (is_blank reason ≡ false
          → (forced_machine o ≡ record m { state = to })
            × (m.has_on_failure ≡ true
                → first_report o
                  ≡ some (
                      failed to
                        (forced source m.state to reason (get_or_else op "system"))
                        m.context)))
unfolding force_state
force_state_lem m to reason source op = elim (Bool-cases (is_blank reason)) [
  | inl b ↦ (λ h. ground arith, λ h. absurd (false≢true (sym h ∙ b)))
  | inr b ↦
      let e = is_empty_of_not_blank reason b in
      (λ h. absurd (false≢true (sym b ∙ h)), λ h. (ground arith, λ f. ground arith))
]
