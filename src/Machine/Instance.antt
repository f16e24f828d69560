-- ===== src/Machine/Instance.antt =====
-- The fields of the class BettingStateMachine, its constructor and queries, and what its methods
-- return and report (src/core/state-machine/machine.ts, types.ts).
use crash.Prelude.{String, Bool, true, false, if◌then◌else◌, get_or_else, List, [], ◌∷◌, Option}
use crash.Machine.Types.{BettingState, Event, EventType, ForceSource}
use crash.Machine.Context.{Context, Overrides, override, create_default_context}
use crash.Machine.Guards.{Reason}
use crash.Machine.Transitions.{is_transition_defined}

pub record Machine : Type 0 where
  pub state : BettingState
  pub context : Context
  pub has_on_state_change : Bool
  pub has_on_failure : Bool

pub record Config : Type 0 where
  pub session_id : String
  pub initial_state : Option BettingState
  pub context_overrides : Overrides
  pub has_on_state_change : Bool
  pub has_on_failure : Bool

pub data FailureReason : Type 0 where
  forced : ForceSource → (from to : BettingState) (reason operator : String) → FailureReason
  guard_rejected : Option Reason → FailureReason
  halted_for : String → FailureReason
  system_halted : FailureReason
  placement_failed : String → FailureReason
  degraded : (component reason : String) → FailureReason
  data_stale unknown_error : FailureReason

pub data Call : Type 0 where
  state_changed : (from to : BettingState) → Event → Context → Call
  failed : BettingState → FailureReason → Context → Call

pub data Message : Type 0 where
  invalid_transition : BettingState → EventType → Message
  rejected_to_error : Option Reason → Message
  rejected : Option Reason → Message
  described : String → Message

pub record TransitionResult : Type 0 where
  pub accepted : Bool
  pub new_state : BettingState
  pub message : Message
  pub context : Context

pub record Outcome : Type 0 where
  pub machine : Machine
  pub result : TransitionResult
  pub calls : List Call

unfoldable pub create : Config → Machine
create cfg = record {
  state = get_or_else cfg.initial_state BettingState.idle;
  context = create_default_context cfg.session_id cfg.context_overrides;
  has_on_state_change = cfg.has_on_state_change;
  has_on_failure = cfg.has_on_failure;
}

unfoldable pub update_context : Machine → Overrides → Machine
update_context m o = record m { context = override m.context o }

unfoldable pub can_accept : Machine → EventType → Bool
can_accept m t = is_transition_defined m.state t

abbrev halted : BettingState → Bool
halted BettingState.halted = true
halted _ = false

unfoldable pub is_halted : Machine → Bool
is_halted m = halted m.state

abbrev betting : BettingState → Bool
betting BettingState.bet_placing = true
betting BettingState.bet_active = true
betting BettingState.cash_out_armed = true
betting BettingState.cash_out_requested = true
betting _ = false

unfoldable pub has_active_bet : Machine → Bool
has_active_bet m = betting m.state

abbrev pub notify_state_change : Machine → BettingState → BettingState → Event → List Call
notify_state_change m from to e =
    if m.has_on_state_change then state_changed from to e m.context ∷ [] else []

abbrev pub notify_failure : Machine → BettingState → FailureReason → List Call
notify_failure m s reason = if m.has_on_failure then failed s reason m.context ∷ [] else []
