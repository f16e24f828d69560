-- ===== src/Machine/Send/OpenBet.antt =====
-- The flag of an open bet against the state of the machine, over every history of events
-- (src/core/state-machine/machine.ts, transitions.ts).
use crash.Machine.Transitions.Enumerations.{state_eq, type_eq}
use crash.Prelude.{
  some, ℕ, ◌≡◌, refl, sym, ap, ◌∙◌, subst, Bool, true, false, not, ◌&&◌, ◌||◌, List, [], ◌∷◌, all,
  arith, ||-resolve, some,
}
use crash.Machine.Types.{BettingState, Event, EventType, event_type}
use crash.Machine.Context.{Context}
use crash.Machine.Dates.{Dates}
use crash.Machine.Transitions.{find_transitions}
use crash.Machine.Transitions.Rules.{TransitionRule, transition_rules}
use crash.Machine.Transitions.Table.{found_from, found_to, found_rule}
use crash.Machine.Instance.{Machine}
use crash.Machine.Effects.{preload_context, apply_side_effects, event_effects, target_effects}
use crash.Machine.Send.{
  reject, go_to_error, take_rule, send, run, String, should_transition_to_error,
}
use crash.Machine.Send.Cases.{send_cases}
use crash.Machine.Send.Entry.{is_entry, send_entry-IsSafeEntry}

-- What a state says of the flag: there is no open bet, or there is one, or nothing.
abbrev pub fits_bet : BettingState → Bool → Bool
fits_bet BettingState.idle b = not b
fits_bet BettingState.ready_to_observe b = not b
fits_bet BettingState.entry_evaluating b = not b
fits_bet BettingState.entry_approved b = not b
fits_bet BettingState.bet_placing b = not b
fits_bet BettingState.bet_active b = b
fits_bet BettingState.cash_out_armed b = b
fits_bet BettingState.cash_out_requested b = b
fits_bet BettingState.round_complete b = not b
fits_bet BettingState.result_recorded b = not b
fits_bet BettingState.cooldown b = not b
fits_bet _ b = true

abbrev pub BetFits : Machine → Type 0
BetFits m = fits_bet m.state m.context.open_bet_exists ≡ true

-- What the side effects of an event make of the flag.
abbrev open_after : EventType → Bool → Bool
open_after EventType.bet_confirmed b = true
open_after EventType.cash_out_confirmed b = false
open_after EventType.round_crashed b = false
open_after EventType.reset b = false
open_after EventType.reconciliation_complete b = false
open_after _ b = b

target_effects-open_bet :
    (d : Dates) (now : ℕ) (to : BettingState) (e : Event) (c : Context)
    → (target_effects d now to e c).open_bet_exists ≡ c.open_bet_exists
unfolding target_effects
target_effects-open_bet d now to e c = ground arith

event_effects-open_bet :
    (e : Event) (c : Context)
    → (event_effects e c).open_bet_exists ≡ open_after (event_type e) c.open_bet_exists
unfolding event_effects
event_effects-open_bet e c = ground arith

preload-open_bet :
    (e : Event) (c : Context) → (preload_context c e).open_bet_exists ≡ c.open_bet_exists
unfolding preload_context
preload-open_bet e c = ground arith

effects-open_bet :
    (d : Dates) (now : ℕ) (e : Event) (to : BettingState) (c : Context)
    → (apply_side_effects d now e to (preload_context c e)).open_bet_exists
      ≡ open_after (event_type e) c.open_bet_exists
unfolding apply_side_effects
effects-open_bet d now e to c =
    target_effects-open_bet d now to e _
    ∙ event_effects-open_bet e _
    ∙ ap (open_after (event_type e)) (preload-open_bet e c)

-- Each rule keeps the flag in line, given that no bet is open where it enters the entry path.
bet_rule_test : Bool → TransitionRule → Bool
bet_rule_test b r =
    not (fits_bet r.from b && not (is_entry r.to && b)) || fits_bet r.to (open_after r.event b)

bet_rule_table : (b : Bool) → all (bet_rule_test b) transition_rules ≡ true
unfolding bet_rule_test transition_rules
bet_rule_table true = refl
bet_rule_table false = refl

bet_rule :
    (s : BettingState) (t : EventType) (b : Bool) (r : TransitionRule) (rest : List TransitionRule)
    → find_transitions s t ≡ r ∷ rest
    → fits_bet s b ≡ true
    → (is_entry r.to ≡ true → b ≡ false)
    → fits_bet r.to (open_after t b) ≡ true
unfolding bet_rule_test
bet_rule s t b r rest f fits entry =
    let (p, q, u) = found_rule (bet_rule_test b) (bet_rule_table b) s t r rest f in
    let premise : (fits_bet r.from b && not (is_entry r.to && b)) ≡ true =
      rw (q, fits) (ground arith) in
    subst (λ x. fits_bet r.to (open_after x b) ≡ true) u (||-resolve _ _ p premise)

-- Whatever event is sent, the flag of an open bet stays in line with the state: there is none on
-- the way to a bet and after its outcome, and there is one from its confirmation on.
pub send-BetFits :
    (d : Dates) (now : ℕ) (m : Machine) (e : Event) → BetFits m → BetFits (send d now m e).machine
send-BetFits d now m e fits =
    send_cases
      (λ o.
        (o.result.accepted ≡ true
          → is_entry o.machine.state ≡ true
          → m.context.open_bet_exists ≡ false)
        → BetFits o.machine)
      d now m e (λ msg entry. unfold reject in rw (preload-open_bet e m.context) fits)
      (λ s g entry. unfold go_to_error in refl)
      (λ r rest f g entry.
        unfold take_rule in
        rw (effects-open_bet d now e r.to m.context) (
          bet_rule m.state (event_type e) m.context.open_bet_exists r rest f fits
            (entry (unfold take_rule in refl))))
      (λ a i.
        sym (preload-open_bet e m.context) ∙ (send_entry-IsSafeEntry d now m e a i).1.no_open_bet)

-- Over every history of events the flag of an open bet stays in line with the state, where it is at
-- the start: there is none on the way to a bet and after its outcome, and there is one from its
-- confirmation on.
pub run-BetFits :
    (d : Dates) (m : Machine) (es : List (ℕ × Event)) → BetFits m → BetFits (run d m es)
unfolding run
run-BetFits d m [] fits = fits
run-BetFits d m ((now, e) ∷ es) fits =
    run-BetFits d (send d now m e).machine es (send-BetFits d now m e fits)

confirmed_from :
    all
      (λ r.
        not (type_eq r.event EventType.bet_confirmed) || state_eq r.from BettingState.bet_placing)
      transition_rules
    ≡ true
unfolding transition_rules type_eq state_eq
confirmed_from = refl

confirmed_to :
    all
      (λ r. not (type_eq r.event EventType.bet_confirmed) || state_eq r.to BettingState.bet_active)
      transition_rules
    ≡ true
unfolding transition_rules type_eq state_eq
confirmed_to = refl

-- A bet is confirmed only while one is being placed and none is open, and it is then the open one.
pub send-bet_confirmed :
    (d : Dates) (now : ℕ) (m : Machine) (id : String)
    → BetFits m
    → (send d now m (Event.bet_confirmed id)).result.accepted ≡ true
    → let m' = (send d now m (Event.bet_confirmed id)).machine in
      (m.state ≡ BettingState.bet_placing)
      × (m.context.open_bet_exists ≡ false)
      × (m'.state ≡ BettingState.bet_active)
      × (m'.context.open_bet_exists ≡ true)
      × (m'.context.current_bet_id ≡ some id)
send-bet_confirmed d now m id fits =
    send_cases
      (λ o.
        o.result.accepted ≡ true
        → (m.state ≡ BettingState.bet_placing)
          × (m.context.open_bet_exists ≡ false)
          × (o.machine.state ≡ BettingState.bet_active)
          × (o.machine.context.open_bet_exists ≡ true)
          × (o.machine.context.current_bet_id ≡ some id))
      d now m (Event.bet_confirmed id) (λ msg h. unfold reject in cc)
      (λ s g h. unfold should_transition_to_error in ground arith)
      (λ r rest f g h.
        let placing =
          found_from EventType.bet_confirmed BettingState.bet_placing confirmed_from m.state r rest
            f in
        let active =
          found_to EventType.bet_confirmed BettingState.bet_active confirmed_to m.state r rest f in
        let shut : m.context.open_bet_exists ≡ false = ground arith in
        unfold take_rule apply_side_effects event_effects target_effects in
        (placing, shut, active, ground arith, ground arith))
