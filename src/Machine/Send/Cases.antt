-- ===== src/Machine/Send/Cases.antt =====
-- The ways in which a sent event can end (BettingStateMachine.send,
-- src/core/state-machine/machine.ts), as one rule that the other proofs apply.
use crash.Prelude.{ℕ, ◌≡◌, refl, true, false, ◌&&◌, not, Bool-cases, List, [], ◌∷◌, arith, inl, inr}
use crash.Machine.Types.{Event, event_type}
use crash.Machine.Dates.{Dates}
use crash.Machine.Guards.{GuardResult}
use crash.Machine.Transitions.{find_transitions}
use crash.Machine.Transitions.Rules.{TransitionRule}
use crash.Machine.Instance.{Machine, Message, Outcome}
use crash.Machine.Send.{
  preloaded, reject, go_to_error, refuse_guarded, take_rule, evaluate_guard,
  should_transition_to_error, follow, send,
}

-- What the guard of a machine's state says of an event.
abbrev pub guard_of : Dates → ℕ → Machine → Event → GuardResult
guard_of d now m e = evaluate_guard d now (preloaded m e).context m.state e

module _ {ℓ} (P : Outcome → Type ℓ) (d : Dates) (now : ℕ) (m : Machine) (e : Event) where
  follow_cases :
      (rs : List TransitionRule)
      → ((msg : Message) → P (reject (preloaded m e) msg))
      → (should_transition_to_error m.state (preloaded m e).context e ≡ true
          → (guard_of d now m e).permitted ≡ false
          → P (go_to_error (preloaded m e) e (guard_of d now m e).reason))
      → ((r : TransitionRule) (rest : List TransitionRule)
          → rs ≡ r ∷ rest
          → (r.requires_guard ≡ true → (guard_of d now m e).permitted ≡ true)
          → P (take_rule d now (preloaded m e) e r))
      → P (follow d now (preloaded m e) e rs)
  unfolding follow refuse_guarded
  follow_cases [] rejects errs moves = rejects _
  follow_cases (r ∷ rest) rejects errs moves =
      elim (Bool-cases (r.requires_guard && not (guard_of d now m e).permitted)) [
        | inr b ↦ rw b (moves r rest refl (λ g. ground arith))
        | inl b ↦
            rw b (elim (Bool-cases (should_transition_to_error m.state (preloaded m e).context e)) [
              | inl s ↦ rw s (errs s (ground arith))
              | inr s ↦ rw s (rejects _)
            ])
      ]

  -- A sent event is rejected, or goes to ERROR in place of a rejection, or takes the first rule
  -- found, which has no guard or whose guard permits it.
  pub send_cases :
      ((msg : Message) → P (reject (preloaded m e) msg))
      → (should_transition_to_error m.state (preloaded m e).context e ≡ true
          → (guard_of d now m e).permitted ≡ false
          → P (go_to_error (preloaded m e) e (guard_of d now m e).reason))
      → ((r : TransitionRule) (rest : List TransitionRule)
          → find_transitions m.state (event_type e) ≡ r ∷ rest
          → (r.requires_guard ≡ true → (guard_of d now m e).permitted ≡ true)
          → P (take_rule d now (preloaded m e) e r))
      → P (send d now m e)
  unfolding send
  send_cases rejects errs moves =
      follow_cases (find_transitions m.state (event_type e)) rejects errs moves

-- A rule without a guard is taken in any context.
pub send_unguarded :
    (d : Dates) (now : ℕ) (m : Machine) (e : Event) (r : TransitionRule)
    (rest : List TransitionRule)
    → find_transitions m.state (event_type e) ≡ r ∷ rest
    → r.requires_guard ≡ false
    → send d now m e ≡ take_rule d now (preloaded m e) e r
unfolding send follow
send_unguarded d now m e r rest f g = rw f (ground arith)
