-- ===== src/Risk/Engine/Approval.antt =====
-- What an approval of the risk engine means, and which failure it names first
-- (src/betting/risk-engine.ts).
use crash.Prelude.{
  ℕ, ◌+◌, ◌≤◌, ◌<◌, ◌≡◌, ◌≢◌, refl, ap, ◌⊎◌, ◌↔◌, ◌&&◌, inl, inr, Bool, true, false, Bool-cases,
  Option, none, some, List, [], ◌∷◌, ◌++◌, get_elem?, All, All-get_elem?, arith, is_some,
}
use crash.Machine.Types.{RoundPhase, RoundState, ObservationConfidence}
use crash.Machine.Dates.{Dates}
use crash.Risk.Breaker.{CircuitState, opened}
use crash.Risk.Engine.{
  live, Input, Condition, mode_is_live, operator_authorized, session_authenticated, game_loaded,
  round_state_valid, balance_sufficient, daily_entries_below_limit, not_paused, kill_switch_off,
  browser_healthy, game_adapter_healthy, observation_confidence_high, no_open_bet, cooldown_elapsed,
  error_threshold_ok, cash_out_failure_threshold_ok, prediction_acceptable, condition, checks,
  collect_failures, conclude, evaluate, of_condition, round_valid, balance_covers, confidence_high,
}

collect_failures_iff :
    (holds : Condition → Bool) (cs : List Condition)
    → (collect_failures holds cs ≡ []) ↔ All (λ c. holds c ≡ true) cs
unfolding collect_failures
collect_failures_iff holds [] = (λ _. tt, λ _. refl)
collect_failures_iff holds (c ∷ cs) =
    let (to, from) = collect_failures_iff holds cs in
    (λ h. (ground arith, to (ground arith)), λ h. ground (arith, from h.1))

-- The failures begin with the first condition that does not hold.
collect_failures-first :
    (holds : Condition → Bool) (cs : List Condition) (f : Condition) (fs : List Condition)
    → collect_failures holds cs ≡ f ∷ fs
    → (before : List Condition) × (after : List Condition) × (cs ≡ before ++ f ∷ after)
      × All (λ c. holds c ≡ true) before
      × (holds f ≡ false)
unfolding collect_failures
collect_failures-first holds [] f fs h = cc
collect_failures-first holds (c ∷ cs) f fs h = elim (Bool-cases (holds c)) [
  | inl t ↦
      let (before, after, e, ok, failed) = collect_failures-first holds cs f fs (ground arith) in
      (c ∷ before, after, ap (λ xs. c ∷ xs) e, (t, ok), failed)
  | inr t ↦ let e : c ≡ f = ground arith in ([], cs, rw e, tt, ground arith)
]

conclude_iff :
    (holds : Condition → Bool) (fs : List Condition)
    → ((conclude holds fs).approved ≡ true) ↔ (fs ≡ [])
unfolding conclude
conclude_iff holds [] = (λ _. refl, λ _. refl)
conclude_iff holds (f ∷ fs) = (λ h. cc, λ h. cc)

abbrev place : Condition → ℕ
place mode_is_live = 0
place operator_authorized = 1
place session_authenticated = 2
place game_loaded = 3
place round_state_valid = 4
place balance_sufficient = 5
place daily_entries_below_limit = 6
place not_paused = 7
place kill_switch_off = 8
place browser_healthy = 9
place game_adapter_healthy = 10
place observation_confidence_high = 11
place no_open_bet = 12
place cooldown_elapsed = 13
place error_threshold_ok = 14
place cash_out_failure_threshold_ok = 15
place prediction_acceptable = 16

-- Every condition is checked.
get_elem?-checks : (c : Condition) → get_elem? checks (place c) ≡ some c
unfolding checks
get_elem?-checks mode_is_live = refl
get_elem?-checks _ = refl

checks-All :
    (holds : Condition → Bool)
    → ((c : Condition) → holds c ≡ true)
    → (cs : List Condition) → All (λ c. holds c ≡ true) cs
checks-All holds h [] = tt
checks-All holds h (c ∷ cs) = (h c, checks-All holds h cs)

-- A bet is approved exactly when the financial circuit is not open and every condition holds.
pub evaluate_approved_iff :
    (d : Dates) (now : ℕ) (circuit : CircuitState) (i : Input)
    → ((evaluate d now circuit i).approved ≡ true)
      ↔ ((circuit ≢ opened) × ((c : Condition) → condition d now i c ≡ true))
unfolding evaluate
evaluate_approved_iff d now circuit i =
    let holds = condition d now i in
    let (to, from) = conclude_iff holds (collect_failures holds checks) in
    let (all, some_fail) = collect_failures_iff holds checks in
    (
      λ h. (
        λ o. ground arith,
        λ c.
            All-get_elem? (λ x. holds x ≡ true) checks (place c) c (all (to (ground arith)))
              (get_elem?-checks c),
      ),
      λ h. ground (arith, from (some_fail (checks-All holds h.1 checks)), h.0),
    )

-- What an approval in live mode says of the input itself.
pub record IsCovered (d : Dates) (now : ℕ) (i : Input) : Type 0 where
  pub operator : i.operator_authorized ≡ true
  pub session : i.session_authenticated ≡ true
  pub balance : (b : ℕ) × (i.current_balance ≡ some b) × (i.required_stake + i.balance_buffer ≤ b)
  pub round :
      (r : RoundState) × (i.round_state ≡ some r)
      × ((r.phase ≡ RoundPhase.starting) ⊎ (r.phase ≡ RoundPhase.running))
      × (r.round_id ≢ none)
      × (r.confidence ≡ ObservationConfidence.high)
  pub below_limit : i.daily_entries_confirmed < i.max_daily_entries
  pub switches : (i.paused ≡ false) × (i.kill_switch ≡ false) × (i.open_bet_exists ≡ false)
  pub few_errors : i.consecutive_errors < i.max_consecutive_errors
  pub few_failures : i.cash_out_failures < i.max_cash_out_failures

balance_facts :
    (o : Option ℕ) (required : ℕ)
    → (is_some o && balance_covers o required) ≡ true
    → (b : ℕ) × (o ≡ some b) × (required ≤ b)
unfolding balance_covers
balance_facts none required h = cc
balance_facts (some b) required h = (b, refl, ground arith)

round_facts :
    (o : Option RoundState)
    → round_valid o ≡ true
    → confidence_high o ≡ true
    → (r : RoundState) × (o ≡ some r)
      × ((r.phase ≡ RoundPhase.starting) ⊎ (r.phase ≡ RoundPhase.running))
      × (r.round_id ≢ none)
      × (r.confidence ≡ ObservationConfidence.high)
round_facts none h k = cc
round_facts (some r) h k = (r, refl, ground arith, λ e. ground arith, ground arith)

-- In live mode an approval means that the balance is known and covers stake and buffer, the round
-- is identified, can still be bet on and is seen with high confidence, the daily limit leaves room,
-- nothing is paused or switched off, no bet is open, and the error counts are below their limits.
pub approved-IsCovered :
    (d : Dates) (now : ℕ) (circuit : CircuitState) (i : Input)
    → i.mode ≡ live
    → (evaluate d now circuit i).approved ≡ true
    → IsCovered d now i
unfolding condition
approved-IsCovered d now circuit i m a =
    let (_, all) = (evaluate_approved_iff d now circuit i).0 a in
    let bal = all balance_sufficient in
    let rnd = all round_state_valid in
    let conf = all observation_confidence_high in
    record {
      operator = all operator_authorized;
      session = let s = all session_authenticated in ground arith;
      balance =
          balance_facts i.current_balance (i.required_stake + i.balance_buffer) (ground arith);
      round = round_facts i.round_state rnd conf;
      below_limit = let s = all daily_entries_below_limit in ground arith;
      switches =
          let p = all not_paused in
          let k = all kill_switch_off in
          let o = all no_open_bet in (ground arith, ground arith, ground arith);
      few_errors = let s = all error_threshold_ok in ground arith;
      few_failures = let s = all cash_out_failure_threshold_ok in ground arith;
    }

conclude-first_failure :
    (holds : Condition → Bool) (fs : List Condition) (c : Condition)
    → (conclude holds fs).first_failure ≡ some (of_condition c)
    → (rest : List Condition) × (fs ≡ c ∷ rest)
unfolding conclude
conclude-first_failure holds [] c h = cc
conclude-first_failure holds (f ∷ fs) c h = let e : f ≡ c = ground arith in (fs, rw e)

-- The failure of a condition that is named first is the first of the checks that
-- does not hold: all checks before it hold.
pub evaluate-first_failure :
    (d : Dates) (now : ℕ) (circuit : CircuitState) (i : Input) (c : Condition)
    → (evaluate d now circuit i).first_failure ≡ some (of_condition c)
    → (before : List Condition) × (after : List Condition) × (checks ≡ before ++ c ∷ after)
      × All (λ x. condition d now i x ≡ true) before
      × (condition d now i c ≡ false)
unfolding evaluate
evaluate-first_failure d now circuit i c h =
    let (rest, e) =
      conclude-first_failure (condition d now i) (collect_failures (condition d now i) checks) c
        (ground arith) in
    collect_failures-first (condition d now i) checks c rest e
