-- ===== src/Machine/Transitions/Lookup.antt =====
-- The lookup map against the list of rules that it is built from.
use crash.Prelude.{
  ◌≡◌, sym, ap, ap₂, ◌∙◌, inl, inr, Bool, true, false, false≢true, Bool-cases, &&-left, &&-right,
  List, [], ◌∷◌, ◌++◌, keep, keep-cons, keep-cons, arith,
}
use mathlib.Core.List.{append-nil, append_assoc}
use crash.Machine.Types.{BettingState, EventType}
use crash.Machine.Transitions.Rules.{TransitionRule, transition_rules}
use crash.Machine.Transitions.Enumerations.{
  state_eq, state_eq→≡, type_eq→≡, state_eq_refl, type_eq_refl,
}
use crash.Machine.Transitions.{
  Entry, same_key, get, push_rule, build_map, transition_map, or_empty, find_transitions,
}

-- The rules of a list for one state and event type, in their order.
abbrev pub matches : BettingState → EventType → TransitionRule → Bool
matches from event r = same_key r.from r.event from event

pub same_key→≡ :
    (s s' : BettingState) (t t' : EventType) → same_key s t s' t' ≡ true → (s ≡ s') × (t ≡ t')
unfolding same_key
same_key→≡ s s' t t' h =
    (state_eq→≡ s s' (&&-left _ _ h), type_eq→≡ t t' (&&-right (state_eq s s') _ h))

same_key_refl : (s : BettingState) (t : EventType) → same_key s t s t ≡ true
unfolding same_key
same_key_refl s t = rw (state_eq_refl s, type_eq_refl t)

-- A key that is equal to another is found exactly where that one is.
same_key_congr :
    (s₁ s₂ s : BettingState) (t₁ t₂ t : EventType)
    → same_key s₁ t₁ s₂ t₂ ≡ true
    → same_key s₁ t₁ s t ≡ same_key s₂ t₂ s t
same_key_congr s₁ s₂ s t₁ t₂ t h =
    let (p, q) = same_key→≡ s₁ s₂ t₁ t₂ h in ap₂ (λ a b. same_key a b s t) p q

-- Different keys are not both the key that is looked up.
same_key_apart :
    (s₁ s₂ s : BettingState) (t₁ t₂ t : EventType)
    → same_key s₁ t₁ s₂ t₂ ≡ false
    → same_key s₁ t₁ s t ≡ true
    → same_key s₂ t₂ s t ≡ false
same_key_apart s₁ s₂ s t₁ t₂ t d h = elim (Bool-cases (same_key s₂ t₂ s t)) [
  | inr f ↦ f
  | inl e ↦
      let (p, q) = same_key→≡ s₂ s t₂ t e in
      absurd (false≢true (sym d ∙ ap₂ (same_key s₁ t₁) p q ∙ h))
]

-- What one more rule does to the rules found under a key.
get-push_rule :
    (s : BettingState) (t : EventType) (r : TransitionRule) (m : List Entry)
    → or_empty (get s t (push_rule r m)) ≡ or_empty (get s t m) ++ keep (matches s t) (r ∷ [])
unfolding get push_rule or_empty
get-push_rule s t r [] = ground arith
get-push_rule s t r (e ∷ es) = elim (Bool-cases (same_key e.from e.event r.from r.event)) [
  | inl k ↦ rw k (
      ground (
        arith,
        same_key_congr e.from r.from s e.event r.event t k,
        append-nil (or_empty (get s t es)),
      ))
  | inr k ↦ rw k (
      ground (
        arith,
        get-push_rule s t r es,
        same_key_apart e.from r.from s e.event r.event t k,
        append-nil e.rules,
      ))
]

-- The loop adds to what is found under a key the rules of that key.
get-build_map :
    (s : BettingState) (t : EventType) (m : List Entry) (rs : List TransitionRule)
    → or_empty (get s t (build_map m rs)) ≡ or_empty (get s t m) ++ keep (matches s t) rs
unfolding build_map
get-build_map s t m [] = sym (append-nil _)
get-build_map s t m (r ∷ rs) =
    get-build_map s t (push_rule r m) rs
    ∙ ap (λ xs. xs ++ keep (matches s t) rs) (get-push_rule s t r m)
    ∙ append_assoc (or_empty (get s t m)) _ _
    ∙ ap (◌++◌ (or_empty (get s t m))) (keep-cons (matches s t) r rs)

-- The map finds for a state and an event type exactly the rules of the table for the two, in the
-- order of the table.
pub find_transitions-eq-keep :
    (s : BettingState) (t : EventType) → find_transitions s t ≡ keep (matches s t) transition_rules
unfolding find_transitions transition_map get or_empty
find_transitions-eq-keep s t = get-build_map s t [] transition_rules
