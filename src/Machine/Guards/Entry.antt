-- ===== src/Machine/Guards/Entry.antt =====
-- What the conjunction of the entry guards amounts to (guardAllEntryConditions and the guards that
-- use it, src/core/state-machine/guards.ts).
use crash.Prelude.{
  ℕ, ◌+◌, ◌≤◌, ◌<◌, String, ◌≡◌, refl, ◌⊎◌, inl, inr, ◌↔◌, true, false, is_falsy, is_some, List, [],
  ◌∷◌, All, Option, none, some, Bool-cases, arith,
}
use crash.Machine.Types.{RoundPhase, RoundState, risk_approved, entry_checks_passed, bet_submitted}
use crash.Machine.Context.{Context}
use crash.Machine.Dates.{Dates}
use crash.Machine.Guards.{
  GuardResult, level, seen_confidence, cooldown_since, time_of, guard_cooldown_elapsed,
  guard_round_valid, first_refusal, guard_game_adapter_healthy, guard_not_paused,
  guard_observation_confidence, guard_no_open_bet, guard_error_threshold, guard_browser_healthy,
  guard_cash_out_failure_threshold, guard_balance_known, round_valid, guard_all_entry_conditions,
  guard_kill_switch_off, Event, event_round_id, entry_guards, guard_can_evaluate_entry,
  guard_can_approve_entry, guard_can_place_bet, bet_submitted, round_started, risk_approved,
}

-- A round is there, it is identified, and it can still be bet on.
pub record IsOpenRound (c : Context) (event_id : Option String) (r : RoundState) : Type 0 where
  pub seen : c.round_state ≡ some r
  pub identified : (is_falsy c.current_round_id ≡ false) ⊎ (is_falsy event_id ≡ false)
  pub in_phase : (r.phase ≡ RoundPhase.starting) ⊎ (r.phase ≡ RoundPhase.running)

-- Nothing speaks against a bet: what the operator of the machine relies on.
pub record IsSafeEntry (d : Dates) (now : ℕ) (c : Context) (event_id : Option String) : Type 0 where
  pub browser : c.browser_healthy ≡ true
  pub adapter : c.game_adapter_healthy ≡ true
  pub unpaused : c.paused ≡ false
  pub switch_off : c.kill_switch ≡ false
  pub no_open_bet : c.open_bet_exists ≡ false
  pub cooled :
      (t : ℕ)
      → is_falsy c.last_bet_at ≡ false
      → time_of d c.last_bet_at ≡ some t
      → t + c.cooldown_ms ≤ now
  pub round : (r : RoundState) × IsOpenRound c event_id r
  pub confident : level c.min_confidence_for_entry ≤ level (seen_confidence c.round_state)
  pub balance : is_some c.current_balance ≡ true
  pub few_errors : c.consecutive_errors < c.max_consecutive_errors
  pub few_failures : c.cash_out_failures < c.max_cash_out_failures

first_refusal_iff :
    (gs : List GuardResult)
    → ((first_refusal gs).permitted ≡ true) ↔ All (λ g. g.permitted ≡ true) gs
unfolding first_refusal
first_refusal_iff [] = (λ _. tt, λ _. refl)
first_refusal_iff (g ∷ gs) =
    let (to, from) = first_refusal_iff gs in
    (λ h. (ground arith, to (ground arith)), λ h. ground (arith, from h.1))

cooldown_since_iff :
    (o : Option ℕ) (cooldown_ms now : ℕ)
    → ((cooldown_since o cooldown_ms now).permitted ≡ true)
      ↔ ((t : ℕ) → o ≡ some t → t + cooldown_ms ≤ now)
unfolding cooldown_since
cooldown_since_iff none cooldown_ms now = (λ _ t e. cc, λ _. refl)
cooldown_since_iff (some at) cooldown_ms now =
    (λ h t e. ground arith, λ h. let k = h at refl in ground arith)

guard_cooldown_elapsed_iff :
    (d : Dates) (now : ℕ) (c : Context)
    → ((guard_cooldown_elapsed d now c).permitted ≡ true) ↔ (
        (t : ℕ)
        → is_falsy c.last_bet_at ≡ false
        → time_of d c.last_bet_at ≡ some t
        → t + c.cooldown_ms ≤ now)
unfolding guard_cooldown_elapsed
guard_cooldown_elapsed_iff d now c =
    let (to, from) = cooldown_since_iff (time_of d c.last_bet_at) c.cooldown_ms now in
    (
      λ h t f e. to (ground arith) t e,
      λ h. elim (Bool-cases (is_falsy c.last_bet_at)) [
        | inl f ↦ ground arith
        | inr f ↦ ground (arith, from (λ t e. h t f e))
      ],
    )

round_valid-IsOpenRound :
    (c : Context) (event_id : Option String) (o : Option RoundState)
    → c.round_state ≡ o
    → (round_valid o c.current_round_id event_id).permitted ≡ true
    → (r : RoundState) × IsOpenRound c event_id r
unfolding round_valid
round_valid-IsOpenRound c event_id none e h = cc
round_valid-IsOpenRound c event_id (some r) e h =
    (r, record { seen = e; identified = ground arith; in_phase = ground arith })

guard_round_valid_iff :
    (c : Context) (event_id : Option String)
    → ((guard_round_valid c event_id).permitted ≡ true)
      ↔ ((r : RoundState) × IsOpenRound c event_id r)
unfolding guard_round_valid
guard_round_valid_iff c event_id =
    (λ h. round_valid-IsOpenRound c event_id c.round_state refl h, λ (r, o). ground arith)

guard_browser_healthy_iff :
    (c : Context) → ((guard_browser_healthy c).permitted ≡ true) ↔ (c.browser_healthy ≡ true)
unfolding guard_browser_healthy
guard_browser_healthy_iff c = (λ h. ground arith, λ h. ground arith)

guard_game_adapter_healthy_iff :
    (c : Context)
    → ((guard_game_adapter_healthy c).permitted ≡ true) ↔ (c.game_adapter_healthy ≡ true)
unfolding guard_game_adapter_healthy
guard_game_adapter_healthy_iff c = (λ h. ground arith, λ h. ground arith)

guard_not_paused_iff : (c : Context) → ((guard_not_paused c).permitted ≡ true) ↔ (c.paused ≡ false)
unfolding guard_not_paused
guard_not_paused_iff c = (λ h. ground arith, λ h. ground arith)

guard_kill_switch_off_iff :
    (c : Context) → ((guard_kill_switch_off c).permitted ≡ true) ↔ (c.kill_switch ≡ false)
unfolding guard_kill_switch_off
guard_kill_switch_off_iff c = (λ h. ground arith, λ h. ground arith)

guard_no_open_bet_iff :
    (c : Context) → ((guard_no_open_bet c).permitted ≡ true) ↔ (c.open_bet_exists ≡ false)
unfolding guard_no_open_bet
guard_no_open_bet_iff c = (λ h. ground arith, λ h. ground arith)

guard_observation_confidence_iff :
    (c : Context)
    → ((guard_observation_confidence c).permitted ≡ true)
      ↔ (level c.min_confidence_for_entry ≤ level (seen_confidence c.round_state))
unfolding guard_observation_confidence
guard_observation_confidence_iff c = (λ h. ground arith, λ h. ground arith)

guard_balance_known_iff :
    (c : Context) → ((guard_balance_known c).permitted ≡ true) ↔ (is_some c.current_balance ≡ true)
unfolding guard_balance_known
guard_balance_known_iff c = (λ h. ground arith, λ h. ground arith)

guard_error_threshold_iff :
    (c : Context)
    → ((guard_error_threshold c).permitted ≡ true)
      ↔ (c.consecutive_errors < c.max_consecutive_errors)
unfolding guard_error_threshold
guard_error_threshold_iff c = (λ h. ground arith, λ h. ground arith)

guard_cash_out_failure_threshold_iff :
    (c : Context)
    → ((guard_cash_out_failure_threshold c).permitted ≡ true)
      ↔ (c.cash_out_failures < c.max_cash_out_failures)
unfolding guard_cash_out_failure_threshold
guard_cash_out_failure_threshold_iff c = (λ h. ground arith, λ h. ground arith)

-- The entry guards let a bet through exactly when nothing speaks against it.
pub guard_all_entry_conditions_iff :
    (d : Dates) (now : ℕ) (c : Context) (e : Event)
    → ((guard_all_entry_conditions d now c e).permitted ≡ true)
      ↔ IsSafeEntry d now c (event_round_id e)
unfolding guard_all_entry_conditions
guard_all_entry_conditions_iff d now c e =
    let (to, from) = first_refusal_iff (entry_guards d now c e) in
    (
      λ h.
          let t = to h in
          record {
            browser = (guard_browser_healthy_iff c).0 t.0;
            adapter = (guard_game_adapter_healthy_iff c).0 t.1.0;
            unpaused = (guard_not_paused_iff c).0 t.1.1.0;
            switch_off = (guard_kill_switch_off_iff c).0 t.1.1.1.0;
            no_open_bet = (guard_no_open_bet_iff c).0 t.1.1.1.1.0;
            cooled = (guard_cooldown_elapsed_iff d now c).0 t.1.1.1.1.1.0;
            round = (guard_round_valid_iff c (event_round_id e)).0 t.1.1.1.1.1.1.0;
            confident = (guard_observation_confidence_iff c).0 t.1.1.1.1.1.1.1.0;
            balance = (guard_balance_known_iff c).0 t.1.1.1.1.1.1.1.1.0;
            few_errors = (guard_error_threshold_iff c).0 t.1.1.1.1.1.1.1.1.1.0;
            few_failures = (guard_cash_out_failure_threshold_iff c).0 t.1.1.1.1.1.1.1.1.1.1.0;
          },
      λ s. from (
        (guard_browser_healthy_iff c).1 s.browser,
        (
          (guard_game_adapter_healthy_iff c).1 s.adapter,
          (
            (guard_not_paused_iff c).1 s.unpaused,
            (
              (guard_kill_switch_off_iff c).1 s.switch_off,
              (
                (guard_no_open_bet_iff c).1 s.no_open_bet,
                (
                  (guard_cooldown_elapsed_iff d now c).1 s.cooled,
                  (
                    (guard_round_valid_iff c (event_round_id e)).1 s.round,
                    (
                      (guard_observation_confidence_iff c).1 s.confident,
                      (
                        (guard_balance_known_iff c).1 s.balance,
                        (
                          (guard_error_threshold_iff c).1 s.few_errors,
                          ((guard_cash_out_failure_threshold_iff c).1 s.few_failures, tt),
                        ),
                      ),
                    ),
                  ),
                ),
              ),
            ),
          ),
        ),
      ),
    )

-- Each composite guard of the entry path lets through only what nothing speaks against.
pub guard_can_evaluate_entry-IsSafeEntry :
    (d : Dates) (now : ℕ) (c : Context) (e : Event)
    → (guard_can_evaluate_entry d now c e).permitted ≡ true
    → IsSafeEntry d now c (event_round_id e)
unfolding guard_can_evaluate_entry
guard_can_evaluate_entry-IsSafeEntry d now c (round_started id r) h =
    (guard_all_entry_conditions_iff d now c (round_started id r)).0 (ground arith)
guard_can_evaluate_entry-IsSafeEntry d now c _ h = cc

pub guard_can_approve_entry-IsSafeEntry :
    (d : Dates) (now : ℕ) (c : Context) (e : Event)
    → (guard_can_approve_entry d now c e).permitted ≡ true
    → IsSafeEntry d now c (event_round_id e)
unfolding guard_can_approve_entry
guard_can_approve_entry-IsSafeEntry d now c (risk_approved r) h =
    (guard_all_entry_conditions_iff d now c (risk_approved r)).0 h
guard_can_approve_entry-IsSafeEntry d now c _ h = cc

pub guard_can_place_bet-IsSafeEntry :
    (d : Dates) (now : ℕ) (c : Context) (e : Event)
    → (guard_can_place_bet d now c e).permitted ≡ true
    → IsSafeEntry d now c (event_round_id e)
unfolding guard_can_place_bet
guard_can_place_bet-IsSafeEntry d now c entry_checks_passed h =
    (guard_all_entry_conditions_iff d now c entry_checks_passed).0 h
guard_can_place_bet-IsSafeEntry d now c (bet_submitted id) h =
    (guard_all_entry_conditions_iff d now c (bet_submitted id)).0 h
guard_can_place_bet-IsSafeEntry d now c _ h = cc
