-- ===== src/Machine/Transitions/Table.antt =====
-- Facts of the whole transition table, read off it rule by rule or pair by pair.
use crash.Prelude.{
  ℕ, ◌≤◌, ◌≡◌, refl, sym, ◌∙◌, ◌↔◌, Bool, true, false, ◌==◌, leb, leb→le, bool_eq, bool_eq→≡,
  &&-left, &&-right, ==_iff, ◌&&◌, List, ◌∷◌, keep, any, all, All, All-keep, all-All, length, subst,
  not, ◌||◌, ||-resolve,
}
use crash.Machine.Types.{BettingState, EventType}
use crash.Machine.Transitions.Rules.{TransitionRule, transition_rules}
use crash.Machine.Transitions.Enumerations.{
  state_eq, type_eq, all-states-types, all-states-states, all_states, all_types, type_eq→≡,
  state_eq→≡, state_eq_refl, type_eq_refl,
}
use crash.Machine.Transitions.{
  same_key, get, push_rule, build_map, transition_map, find_transitions, is_transition_defined,
  get_valid_events_for_state, get_reachable_states,
}
use crash.Machine.Transitions.Lookup.{matches, find_transitions-eq-keep, same_key→≡}

-- What a test finds of every rule of the table holds of the rule that a lookup finds, and that
-- rule is for the state and the event type looked up.
pub found_rule :
    (p : TransitionRule → Bool)
    → all p transition_rules ≡ true
    → (s : BettingState) (t : EventType) (r : TransitionRule) (rest : List TransitionRule)
    → find_transitions s t ≡ r ∷ rest
    → (p r ≡ true) × (r.from ≡ s) × (r.event ≡ t)
found_rule p h s t r rest e =
    let facts =
      subst (All (λ x. (p x ≡ true) × (matches s t x ≡ true)))
        (sym (find_transitions-eq-keep s t) ∙ e)
        (All-keep (λ x. p x ≡ true) (matches s t) transition_rules
          (all-All p transition_rules h)) in
    let (f, g) = same_key→≡ r.from s r.event t facts.0.1 in (facts.0.0, f, g)

one_rule_test : BettingState → EventType → Bool
one_rule_test s t =
    leb (length (find_transitions s t)) 1
    && bool_eq (is_transition_defined s t) (length (find_transitions s t) == 1)

one_rule_table : all (λ s. all (one_rule_test s) all_types) all_states ≡ true
unfolding one_rule_test find_transitions is_transition_defined transition_map build_map push_rule
    get same_key transition_rules state_eq type_eq
one_rule_table = refl

-- A state and an event type have at most one rule in the table, so that taking the first loses
-- nothing, and a transition is defined exactly where there is one.
pub find_transitions_unique :
    (s : BettingState) (t : EventType)
    → (length (find_transitions s t) ≤ 1)
      × ((is_transition_defined s t ≡ true) ↔ (length (find_transitions s t) ≡ 1))
unfolding one_rule_test
find_transitions_unique s t =
    let h = all-states-types one_rule_test one_rule_table s t in
    let b : is_transition_defined s t ≡ (length (find_transitions s t) == 1) =
      bool_eq→≡ _ _ (&&-right (leb (length (find_transitions s t)) 1) _ h) in
    (leb→le _ _ (&&-left _ _ h), (λ d. (==_iff _ _).0 (sym b ∙ d), λ e. b ∙ (==_iff _ _).1 e))

-- How often a type or a state stands in a list.
pub count_type : EventType → List EventType → ℕ
count_type t ts = length (keep (type_eq t) ts)

pub count_state : BettingState → List BettingState → ℕ
count_state s ss = length (keep (state_eq s) ss)

abbrev pub bit : Bool → ℕ
bit true = 1
bit false = 0

valid_events_test : BettingState → EventType → Bool
valid_events_test s t =
    count_type t (get_valid_events_for_state s) == bit (is_transition_defined s t)

valid_events_table : all (λ s. all (valid_events_test s) all_types) all_states ≡ true
unfolding valid_events_test count_type get_valid_events_for_state is_transition_defined
    transition_map build_map push_rule get same_key transition_rules state_eq type_eq
valid_events_table = refl

-- The valid events of a state hold each event type that has a transition there once, and no other.
pub get_valid_events_for_state_lem :
    (s : BettingState) (t : EventType)
    → count_type t (get_valid_events_for_state s) ≡ bit (is_transition_defined s t)
unfolding valid_events_test
get_valid_events_for_state_lem s t =
    (==_iff _ _).0 (all-states-types valid_events_test valid_events_table s t)

-- Whether a single rule leads from one state to the other.
unfoldable pub leads : BettingState → BettingState → Bool
leads s s' = any (λ r. state_eq r.from s && state_eq r.to s') transition_rules

reachable_test : BettingState → BettingState → Bool
reachable_test s s' = count_state s' (get_reachable_states s) == bit (leads s s')

reachable_table : all (λ s. all (reachable_test s) all_states) all_states ≡ true
unfolding reachable_test count_state leads get_reachable_states transition_rules state_eq
reachable_table = refl

-- The reachable states of a state hold each target of a rule from it once, and no other.
pub get_reachable_states_lem :
    (s s' : BettingState) → count_state s' (get_reachable_states s) ≡ bit (leads s s')
unfolding reachable_test
get_reachable_states_lem s s' =
    (==_iff _ _).0 (all-states-states reachable_test reachable_table s s')

-- An event type whose rules all start in one state is found in that state only.
pub found_from :
    (t : EventType) (s₀ : BettingState)
    → all (λ r. not (type_eq r.event t) || state_eq r.from s₀) transition_rules ≡ true
    → (s : BettingState) (r : TransitionRule) (rest : List TransitionRule)
    → find_transitions s t ≡ r ∷ rest
    → s ≡ s₀
found_from t s₀ h s r rest f =
    let (p, q, u) =
      found_rule (λ x. not (type_eq x.event t) || state_eq x.from s₀) h s t r rest f in
    sym q ∙ state_eq→≡ _ _ (||-resolve (type_eq r.event t) _ p (rw u (type_eq_refl t)))

-- An event type whose rules all end in one state leads to that state.
pub found_to :
    (t : EventType) (s₁ : BettingState)
    → all (λ r. not (type_eq r.event t) || state_eq r.to s₁) transition_rules ≡ true
    → (s : BettingState) (r : TransitionRule) (rest : List TransitionRule)
    → find_transitions s t ≡ r ∷ rest
    → r.to ≡ s₁
found_to t s₁ h s r rest f =
    let (p, q, u) = found_rule (λ x. not (type_eq x.event t) || state_eq x.to s₁) h s t r rest f in
    state_eq→≡ _ _ (||-resolve (type_eq r.event t) _ p (rw u (type_eq_refl t)))

-- A state whose rules are all for one event type has no other event.
pub found_event :
    (s₀ : BettingState) (t₀ : EventType)
    → all (λ r. not (state_eq r.from s₀) || type_eq r.event t₀) transition_rules ≡ true
    → (t : EventType) (r : TransitionRule) (rest : List TransitionRule)
    → find_transitions s₀ t ≡ r ∷ rest
    → t ≡ t₀
found_event s₀ t₀ h t r rest f =
    let (p, q, u) =
      found_rule (λ x. not (state_eq x.from s₀) || type_eq x.event t₀) h s₀ t r rest f in
    sym u ∙ type_eq→≡ _ _ (||-resolve (state_eq r.from s₀) _ p (rw q (state_eq_refl s₀)))

-- A state that only one event type leads to is reached by that event.
pub found_cause :
    (s₁ : BettingState) (t₀ : EventType)
    → all (λ r. not (state_eq r.to s₁) || type_eq r.event t₀) transition_rules ≡ true
    → (s : BettingState) (t : EventType) (r : TransitionRule) (rest : List TransitionRule)
    → find_transitions s t ≡ r ∷ rest
    → r.to ≡ s₁
    → t ≡ t₀
found_cause s₁ t₀ h s t r rest f to =
    let (p, q, u) = found_rule (λ x. not (state_eq x.to s₁) || type_eq x.event t₀) h s t r rest f in
    sym u ∙ type_eq→≡ _ _ (||-resolve (state_eq r.to s₁) _ p (rw to (state_eq_refl s₁)))
