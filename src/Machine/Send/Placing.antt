-- ===== src/Machine/Send/Placing.antt =====
-- The steps of the machine that a placement takes, each from the state before it
-- (src/core/state-machine/machine.ts, transitions.ts).
use crash.Prelude.{
  ℕ, ◌≤◌, String, ◌≡◌, refl, Bool, true, false, not, ◌||◌, all, List, [], ◌∷◌, none, some, arith,
  subst,
}
use crash.Machine.Types.{
  BettingState, EventType, EntryConditions, risk_approved, entry_checks_passed, bet_submitted,
  bet_confirmed, bet_placement_failed, round_crashed,
}
use crash.Machine.Context.{Context}
use crash.Machine.Dates.{Dates}
use crash.Machine.Guards.Entry.{
  IsSafeEntry, guard_can_approve_entry-IsSafeEntry, guard_all_entry_conditions_iff,
}
use crash.Machine.Guards.{guard_can_place_bet}
use crash.Machine.Effects.{preload_context, apply_side_effects, event_effects, target_effects}
use crash.Machine.Transitions.{
  find_transitions, transition_map, build_map, push_rule, get, same_key, or_empty,
}
use crash.Machine.Transitions.Enumerations.{state_eq, type_eq}
use crash.Machine.Transitions.Rules.{TransitionRule, transition_rules}
use crash.Machine.Transitions.Table.{found_to, found_from, found_rule}
use crash.Machine.Instance.{Machine}
use crash.Machine.Send.{send, reject, take_rule, should_transition_to_error, follow, evaluate_guard}
use crash.Machine.Send.Cases.{send_cases, guard_of}
use crash.Machine.Send.Results.{send_rejected}

approved_from :
    all
      (λ r.
        not (type_eq r.event EventType.risk_approved)
        || state_eq r.from BettingState.entry_evaluating)
      transition_rules
    ≡ true
unfolding transition_rules type_eq state_eq
approved_from = refl

approved_to :
    all
      (λ r.
        not (type_eq r.event EventType.risk_approved) || state_eq r.to BettingState.entry_approved)
      transition_rules
    ≡ true
unfolding transition_rules type_eq state_eq
approved_to = refl

approved_guarded :
    all (λ r. not (type_eq r.event EventType.risk_approved) || r.requires_guard) transition_rules
    ≡ true
unfolding transition_rules type_eq
approved_guarded = refl

approved-IsSafeEntry :
    (d : Dates) (now : ℕ) (m : Machine) (conditions : EntryConditions) (r : TransitionRule)
    (rest : List TransitionRule)
    → m.state ≡ BettingState.entry_evaluating
    → find_transitions m.state EventType.risk_approved ≡ r ∷ rest
    → (r.requires_guard ≡ true → (guard_of d now m (risk_approved conditions)).permitted ≡ true)
    → IsSafeEntry d now m.context none
unfolding evaluate_guard preload_context type_eq
approved-IsSafeEntry d now m conditions r rest e f g =
    let (p, q, u) =
      found_rule (λ r. not (type_eq r.event EventType.risk_approved) || r.requires_guard)
        approved_guarded m.state EventType.risk_approved r rest f in
    guard_can_approve_entry-IsSafeEntry d now m.context (risk_approved conditions) (
      subst (λ x. (evaluate_guard d now m.context x (risk_approved conditions)).permitted ≡ true) e
        (g (ground arith)))

approved_effects-IsSafeEntry :
    (d : Dates) (now : ℕ) (c : Context) (conditions : EntryConditions)
    → IsSafeEntry d now c none
    → IsSafeEntry d now (event_effects (risk_approved conditions) c) none
unfolding event_effects
approved_effects-IsSafeEntry d now c conditions safe = record {
  browser = safe.browser;
  adapter = safe.adapter;
  unpaused = safe.unpaused;
  switch_off = safe.switch_off;
  no_open_bet = safe.no_open_bet;
  cooled = safe.cooled;
  round =
      let (x, y) = safe.round in
      (x, record { seen = y.seen; identified = y.identified; in_phase = y.in_phase });
  confident = safe.confident;
  balance = safe.balance;
  few_errors = safe.few_errors;
  few_failures = safe.few_failures;
}

-- An approval that is accepted takes the machine to ENTRY_APPROVED, nothing speaks against a bet
-- at its time, and what the guards read of the context stays.
pub send_approved :
    (d : Dates) (now : ℕ) (m : Machine) (conditions : EntryConditions)
    → (send d now m (risk_approved conditions)).result.accepted ≡ true
    → let m' = (send d now m (risk_approved conditions)).machine in
      (m'.state ≡ BettingState.entry_approved) × IsSafeEntry d now m'.context none
send_approved d now m conditions =
    send_cases
      (λ o.
        o.result.accepted ≡ true
        → (o.machine.state ≡ BettingState.entry_approved)
          × IsSafeEntry d now o.machine.context none)
      d now m (risk_approved conditions) (λ msg h. unfold reject in cc)
      (λ s g h. unfold should_transition_to_error in absurd (ground arith))
      (λ r rest f g h.
        let to =
          found_to EventType.risk_approved BettingState.entry_approved approved_to m.state r rest
            f in
        let from =
          found_from EventType.risk_approved BettingState.entry_evaluating approved_from m.state r
            rest f in
        let safe = approved-IsSafeEntry d now m conditions r rest from f g in
        unfold take_rule apply_side_effects event_effects target_effects preload_context in
        (to, rw to (approved_effects-IsSafeEntry d now m.context conditions safe)))

-- An entry stays safe as time goes on.
pub later-IsSafeEntry :
    (d : Dates) (now later : ℕ) (c : Context)
    → now ≤ later
    → IsSafeEntry d now c none
    → IsSafeEntry d later c none
later-IsSafeEntry d now later c h s = record {
  browser = s.browser;
  adapter = s.adapter;
  unpaused = s.unpaused;
  switch_off = s.switch_off;
  no_open_bet = s.no_open_bet;
  cooled = λ t f e. let k = s.cooled t f e in omega (arith, h, k);
  round = s.round;
  confident = s.confident;
  balance = s.balance;
  few_errors = s.few_errors;
  few_failures = s.few_failures;
}

abbrev to_rule : BettingState → EventType → BettingState → Bool → String → List TransitionRule
to_rule from event to guarded description =
    record {
      from = from;
      event = event;
      to = to;
      requires_guard = guarded;
      description = description;
    }
    ∷ []

-- The table at the two states of a placement.
placing_table :
    (find_transitions BettingState.entry_approved EventType.entry_checks_passed
      ≡ to_rule BettingState.entry_approved EventType.entry_checks_passed BettingState.bet_placing
          true "All entry checks confirmed — place bet")
    × (find_transitions BettingState.bet_placing EventType.bet_confirmed
        ≡ to_rule BettingState.bet_placing EventType.bet_confirmed BettingState.bet_active false
            "Bet confirmed by game")
    × (find_transitions BettingState.bet_placing EventType.bet_placement_failed
        ≡ to_rule BettingState.bet_placing EventType.bet_placement_failed BettingState.error false
            "Bet placement failed")
    × (find_transitions BettingState.bet_placing EventType.bet_submitted ≡ [])
    × (find_transitions BettingState.bet_active EventType.bet_placement_failed ≡ [])
unfolding find_transitions transition_map build_map push_rule get same_key or_empty transition_rules
    state_eq type_eq
placing_table = (refl, refl, refl, refl, refl)

-- From ENTRY_APPROVED a safe entry passes its checks.
pub send_checked :
    (d : Dates) (now : ℕ) (m : Machine)
    → m.state ≡ BettingState.entry_approved
    → IsSafeEntry d now m.context none
    → (send d now m entry_checks_passed).machine.state ≡ BettingState.bet_placing
unfolding send follow evaluate_guard guard_can_place_bet take_rule preload_context
send_checked d now m e s =
    let g = (guard_all_entry_conditions_iff d now m.context entry_checks_passed).1 s in
    rw (e, placing_table.0, g) refl

-- A confirmation opens the bet that is being placed.
pub send_confirmed :
    (d : Dates) (now : ℕ) (m : Machine) (id : String)
    → m.state ≡ BettingState.bet_placing
    → let m' = (send d now m (bet_confirmed id)).machine in
      (m'.state ≡ BettingState.bet_active)
      × (m'.context.open_bet_exists ≡ true)
      × (m'.context.current_bet_id ≡ some id)
unfolding send follow take_rule apply_side_effects event_effects target_effects
send_confirmed d now m id e = rw (e, placing_table.1) (refl, refl, refl)

pub send_failed :
    (d : Dates) (now : ℕ) (m : Machine) (reason : String)
    → m.state ≡ BettingState.bet_placing
    → (send d now m (bet_placement_failed reason)).machine.state ≡ BettingState.error
unfolding send follow take_rule
send_failed d now m reason e = rw (e, placing_table.2) refl

-- A failure of a placement does not touch a bet that is open.
pub send_failed-open :
    (d : Dates) (now : ℕ) (m : Machine) (reason : String)
    → m.state ≡ BettingState.bet_active
    → (send d now m (bet_placement_failed reason)).machine ≡ m
unfolding send follow reject preload_context
send_failed-open d now m reason e =
    (send_rejected d now m (bet_placement_failed reason) (rw (e, placing_table.4) refl)).0

-- While a bet is being placed, its submission changes nothing.
pub send_submitted :
    (d : Dates) (now : ℕ) (m : Machine) (id : String)
    → m.state ≡ BettingState.bet_placing
    → (send d now m (bet_submitted id)).machine ≡ m
unfolding send follow reject preload_context
send_submitted d now m id e =
    (send_rejected d now m (bet_submitted id) (rw (e, placing_table.3) refl)).0

crashing_table :
    find_transitions BettingState.bet_active EventType.round_crashed
    ≡ to_rule BettingState.bet_active EventType.round_crashed BettingState.round_complete false
        "Round crashed before cash-out — bet lost"
unfolding find_transitions transition_map build_map push_rule get same_key or_empty transition_rules
    state_eq type_eq
crashing_table = refl

-- The crash of its round ends an active bet.
pub send_crashed :
    (d : Dates) (now : ℕ) (m : Machine) (crash_point : ℕ)
    → m.state ≡ BettingState.bet_active
    → let m' = (send d now m (round_crashed crash_point)).machine in
      (m'.state ≡ BettingState.round_complete) × (m'.context.open_bet_exists ≡ false)
unfolding send follow take_rule apply_side_effects event_effects target_effects
send_crashed d now m crash_point e = rw (e, crashing_table) (refl, refl)
