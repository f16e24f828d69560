-- ===== src/Machine/Send/Pending.antt =====
-- The states in which an entry is pending, which the events of a round and those of a placement
-- that has not begun do not leave (src/core/state-machine/machine.ts, transitions.ts).
use crash.Prelude.{ℕ, ◌≡◌, refl, Bool, true, false, not, ◌&&◌, ◌||◌, ||-resolve, all, arith}
use crash.Machine.Types.{BettingState, EventType, Event, RoundState, round_started, event_type}
use crash.Machine.Dates.{Dates}
use crash.Machine.Transitions.Rules.{TransitionRule, transition_rules}
use crash.Machine.Transitions.Table.{found_rule}
use crash.Machine.Instance.{Machine}
use crash.Machine.Send.{send, reject, take_rule, should_transition_to_error, String}
use crash.Machine.Send.Cases.{send_cases}

-- An entry is approved, or its bet is being placed.
abbrev pub is_pending : BettingState → Bool
is_pending BettingState.entry_approved = true
is_pending BettingState.bet_placing = true
is_pending _ = false

-- The events of a round, and those of a placement before the executor is asked.
abbrev pub is_idle : EventType → Bool
is_idle EventType.round_started = true
is_idle EventType.round_crashed = true
is_idle EventType.entry_checks_passed = true
is_idle EventType.bet_submitted = true
is_idle EventType.risk_rejected = true
is_idle _ = false

pending_rule_test : TransitionRule → Bool
pending_rule_test r = not (is_pending r.from && is_idle r.event) || is_pending r.to

pending_rule_table : all pending_rule_test transition_rules ≡ true
unfolding pending_rule_test transition_rules
pending_rule_table = refl

abbrev starts_round : EventType → Bool
starts_round EventType.round_started = true
starts_round _ = false

start_rule_test : TransitionRule → Bool
start_rule_test r = not (starts_round r.event) || not (is_pending r.from)

start_rule_table : all start_rule_test transition_rules ≡ true
unfolding start_rule_test transition_rules
start_rule_table = refl

pub send-pending :
    (d : Dates) (now : ℕ) (m : Machine) (e : Event)
    → is_pending m.state ≡ true
    → is_idle (event_type e) ≡ true
    → is_pending (send d now m e).machine.state ≡ true
unfolding pending_rule_test
send-pending d now m e p h =
    send_cases (λ o. is_pending o.machine.state ≡ true) d now m e (λ msg. unfold reject in p)
      (λ s g. unfold should_transition_to_error in absurd (ground arith))
      (λ r rest f g.
        let (q, u, v) =
          found_rule pending_rule_test pending_rule_table m.state (event_type e) r rest f in
        let premise : (is_pending r.from && is_idle r.event) ≡ true = rw (u, v, p, h) refl in
        unfold take_rule in ||-resolve _ _ q premise)

pub send_start-pending :
    (d : Dates) (now : ℕ) (m : Machine) (id : String) (r : RoundState)
    → is_pending m.state ≡ true
    → (send d now m (round_started id r)).result.accepted ≡ false
unfolding start_rule_test
send_start-pending d now m id r p =
    send_cases (λ o. o.result.accepted ≡ false) d now m (round_started id r)
      (λ msg. unfold reject in refl)
      (λ s g. unfold should_transition_to_error in absurd (ground arith))
      (λ rule rest f g.
        let (q, u, v) =
          found_rule start_rule_test start_rule_table m.state EventType.round_started rule rest f in
        absurd (ground arith))
