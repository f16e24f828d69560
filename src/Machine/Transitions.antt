-- ===== src/Machine/Transitions.antt =====
-- The transition table and its lookup map (src/core/state-machine/transitions.ts).
pub mod Rules
pub mod Enumerations
pub mod Lookup
pub mod Table
use crash.Prelude.{Bool, ◌&&◌, if◌then◌else◌, List, [], ◌∷◌, ◌++◌, Option, none, some, is_some}
use crash.Machine.Types.{BettingState, EventType}
use Rules.{TransitionRule, transition_rules}
use Enumerations.{state_eq, type_eq}

-- An entry of the map: the pair of state and event type that the text key spells, and its rules.
pub record Entry : Type 0 where
  pub from : BettingState
  pub event : EventType
  pub rules : List TransitionRule

-- Whether two keys are the same.
unfoldable pub same_key : BettingState → EventType → BettingState → EventType → Bool
same_key from event from' event' = state_eq from from' && type_eq event event'

abbrev pub has_key : BettingState → EventType → Entry → Bool
has_key from event e = same_key e.from e.event from event

-- `transitionMap.get`.
unfoldable pub get : BettingState → EventType → List Entry → Option (List TransitionRule)
get from event [] = none
get from event (e ∷ es) = if has_key from event e then some e.rules else get from event es

-- `existing.push(rule); transitionMap.set(key, existing)`.
unfoldable pub push_rule : TransitionRule → List Entry → List Entry
push_rule r [] = record { from = r.from; event = r.event; rules = r ∷ [] } ∷ []
push_rule r (e ∷ es) =
    if has_key r.from r.event e
    then record e { rules = e.rules ++ r ∷ [] } ∷ es
    else e ∷ push_rule r es

-- The loop over the rules.
unfoldable pub build_map : List Entry → List TransitionRule → List Entry
build_map m [] = m
build_map m (r ∷ rs) = build_map (push_rule r m) rs

unfoldable pub transition_map : List Entry
transition_map = build_map [] transition_rules

unfoldable pub or_empty : Option (List TransitionRule) → List TransitionRule
or_empty none = []
or_empty (some rs) = rs

unfoldable pub find_transitions : BettingState → EventType → List TransitionRule
unfolding or_empty
find_transitions from event = or_empty (get from event transition_map)

unfoldable pub is_transition_defined : BettingState → EventType → Bool
is_transition_defined from event = is_some (get from event transition_map)

-- Insertion into a `Set` that keeps the order of first insertion.
add_new {ℓ} : {A : Type ℓ} → (A → A → Bool) → A → List A → List A
add_new eq a [] = a ∷ []
add_new eq a (x ∷ xs) = if eq x a then x ∷ xs else x ∷ add_new eq a xs

valid_events_from : BettingState → List EventType → List TransitionRule → List EventType
unfolding add_new
valid_events_from from seen [] = seen
valid_events_from from seen (r ∷ rs) =
    valid_events_from from (if state_eq r.from from then add_new type_eq r.event seen else seen) rs

pub get_valid_events_for_state : BettingState → List EventType
unfolding valid_events_from
get_valid_events_for_state from = valid_events_from from [] transition_rules

reachable_from : BettingState → List BettingState → List TransitionRule → List BettingState
unfolding add_new
reachable_from from seen [] = seen
reachable_from from seen (r ∷ rs) =
    reachable_from from (if state_eq r.from from then add_new state_eq r.to seen else seen) rs

pub get_reachable_states : BettingState → List BettingState
unfolding reachable_from
get_reachable_states from = reachable_from from [] transition_rules
