-- ===== src/Coordinator/Round/Asks.antt =====
-- When a round asks the executor (src/betting/betting-coordinator.ts).
use crash.Prelude.{
  ℕ, zero, suc, ◌≤◌, String, ◌≡◌, refl, ◌∙◌, ◌⊎◌, inl, inr, Bool, true, false, Bool-cases, Option,
  none, some,
}
use crash.Machine.Types.{BettingState, RoundState, round_started, entry_checks_passed}
use crash.Machine.Dates.{Dates}
use crash.Machine.Guards.Entry.{IsSafeEntry}
use crash.Machine.Send.{send}
use crash.Machine.Send.Placing.{send_approved, later-IsSafeEntry, send_checked}
use crash.Risk.Engine.{Signal, Evaluation}
use crash.Executor.Outside.{PlaceBetRequest}
use crash.Coordinator.Outside.{
  Options, Coordinator, Decided, evaluation_throws, decides, Verdict, enters, refuses,
  verdict_throws, Placing, starting, deciding, checking, Outside,
}
use crash.Coordinator.Place.{try_place_bet, round_target}
use crash.Coordinator.Place.Asks.{asked, IsServed, try_place_bet-Asks}
use crash.Coordinator.Round.{
  approval, verdict_on, keep_signal, keep_target, catch_entry, approve_entry, follow_risk,
  follow_verdict, follow_decision, evaluate_entry, on_round_started, suspended,
}

module _ {X : Type 0} (place_live_bet : PlaceBetRequest → X → X × Placing) (d : Dates)
    (opts : Options) (o : Outside) (round_id : String) where
  keep_target-executor :
      (target : ℕ) (s : Signal) (c : Coordinator X)
      → (keep_target place_live_bet d opts target round_id s c).executor ≡ c.executor
  unfolding keep_target
  keep_target-executor zero s c = refl
  keep_target-executor (suc n) s c = refl

  pub keep_signal-executor :
      (s : Option Signal) (c : Coordinator X)
      → (keep_signal place_live_bet d opts round_id s c).executor ≡ c.executor
  unfolding keep_signal
  keep_signal-executor none c = refl
  keep_signal-executor (some s) c = keep_target-executor s.target s _

  catch-executor :
      (p : Coordinator X × Option String)
      → (catch_entry place_live_bet d opts o p).executor ≡ p.0.executor
  unfolding catch_entry
  catch-executor (c, none) = refl
  catch-executor (c, some reason) = refl

  -- The coordinator once the machine has the approval.
  abbrev pub approved_at : Evaluation → Coordinator X → Coordinator X
  approved_at e c = record c { machine = (send d (o.at deciding) c.machine (approval e)).machine }

  -- An approval that the machine takes, and a placement that asks the executor.
  pub record IsPlaced (e : Evaluation) (c : Coordinator X) (after : X) : Type 0 where
    pub approved : e.approved ≡ true
    pub safe : IsSafeEntry d (o.at deciding) (approved_at e c).machine.context none
    pub placing :
        o.at deciding ≤ o.at checking
        → (send d (o.at checking) (approved_at e c).machine entry_checks_passed).machine.state
          ≡ BettingState.bet_placing
    pub served : IsServed place_live_bet d opts o (approved_at e c)
    pub leaves :
        after
        ≡ asked place_live_bet d opts o round_id
            (round_target place_live_bet d opts round_id (approved_at e c))
            (approved_at e c)

  place-IsPlaced :
      (e : Evaluation) (c : Coordinator X) (after : X)
      → e.approved ≡ true
      → (send d (o.at deciding) c.machine (approval e)).result.accepted ≡ true
      → after ≡ (try_place_bet place_live_bet d opts o round_id (approved_at e c)).0.executor
      → (after ≡ c.executor) ⊎ IsPlaced e c after
  place-IsPlaced e c after a b k =
      elim (try_place_bet-Asks place_live_bet d opts o round_id (approved_at e c)) [
        | inl same ↦ inl (k ∙ same)
        | inr (s, l) ↦
            let (state, safe) = send_approved d (o.at deciding) c.machine _ b in
            inr (record {
              approved = a;
              safe = safe;
              placing = λ t.
                  send_checked d (o.at checking) _ state
                    (later-IsSafeEntry d (o.at deciding) (o.at checking) _ t safe);
              served = s;
              leaves = k ∙ l;
            })
      ]

  risk-IsPlaced :
      (e : Evaluation) (c : Coordinator X) (after : X)
      → after ≡ (follow_risk place_live_bet d opts o round_id e c).executor
      → (after ≡ c.executor) ⊎ IsPlaced e c after
  unfolding follow_risk approve_entry
  risk-IsPlaced e c after k = elim (Bool-cases e.approved) [
    | inr a ↦ inl (k ∙ rw a refl)
    | inl a ↦ elim (Bool-cases (send d (o.at deciding) c.machine (approval e)).result.accepted) [
      | inr b ↦ inl (k ∙ rw (a, b) refl)
      | inl b ↦ place-IsPlaced e c after a b (k ∙ rw (a, b) (catch-executor _))
    ]
  ]

  verdict-IsPlaced :
      (v : Verdict) (e : Evaluation) (c : Coordinator X) (after : X)
      → after ≡ (follow_verdict place_live_bet d opts v o round_id e c).executor
      → (after ≡ c.executor) ⊎ ((v ≡ enters) × IsPlaced e c after)
  unfolding follow_verdict
  verdict-IsPlaced (refuses reason) e c after k = inl k
  verdict-IsPlaced (verdict_throws reason) e c after k = inl k
  verdict-IsPlaced enters e c after k = elim (risk-IsPlaced e c after k) [
    | inl same ↦ inl same
    | inr p ↦ inr (refl, p)
  ]

  -- The coordinator once its machine has taken the start of the round.
  abbrev pub started_at : RoundState → Coordinator X → Coordinator X
  started_at r c = record c {
    evaluating = true;
    machine = (send d (o.at starting) c.machine (round_started round_id r)).machine;
  }

  -- A round that asks the executor.
  pub record IsEntered (r : RoundState) (c : Coordinator X) (after : X) : Type 0 where
    pub healthy : Bool
    pub signal : Option Signal
    pub evaluation : Evaluation
    pub decided : o.decided ≡ decides healthy signal evaluation
    pub unsuspended : suspended c.sheath ≡ false
    pub verdict :
        verdict_on place_live_bet d opts opts.has_decision_engine o round_id r healthy signal
        ≡ enters
    pub placed :
        IsPlaced evaluation
          (keep_signal place_live_bet d opts round_id signal (started_at r c))
          after

  decision-IsEntered :
      (t : Decided) (r : RoundState) (c : Coordinator X) (after : X)
      → o.decided ≡ t
      → suspended c.sheath ≡ false
      → after ≡ (follow_decision place_live_bet d opts t o round_id r (started_at r c)).executor
      → (after ≡ c.executor) ⊎ IsEntered r c after
  unfolding follow_decision
  decision-IsEntered (evaluation_throws reason) r c after e u k = inl k
  decision-IsEntered (decides healthy signal evaluation) r c after e u k =
      elim (verdict-IsPlaced
        (verdict_on place_live_bet d opts opts.has_decision_engine o round_id r healthy signal)
        evaluation (keep_signal place_live_bet d opts round_id signal (started_at r c)) after k) [
          | inl same ↦ inl (same ∙ keep_signal-executor signal (started_at r c))
          | inr (v, p) ↦ inr (record {
            healthy = healthy;
            signal = signal;
            evaluation = evaluation;
            decided = e;
            unsuspended = u;
            verdict = v;
            placed = p;
          })
        ]

  evaluate-IsEntered :
      (r : RoundState) (c : Coordinator X) (after : X)
      → suspended c.sheath ≡ false
      → after
        ≡ (evaluate_entry place_live_bet d opts o round_id r
            (record c { evaluating = true })).executor
      → (after ≡ c.executor) ⊎ IsEntered r c after
  unfolding evaluate_entry
  evaluate-IsEntered r c after u k =
      elim (Bool-cases
        (send d (o.at starting) c.machine (round_started round_id r)).result.accepted) [
          | inr a ↦ inl (k ∙ rw a refl)
          | inl a ↦ decision-IsEntered o.decided r c after refl u (k ∙ rw a refl)
        ]

  -- A round asks the executor once at most, and only where the sheath lets bets through, the risk
  -- engine approves, the decision engine, where there is one, enters, the machine takes the
  -- approval, nothing speaks against a bet at that time, and the placement is served: the mode, the
  -- browser, the quota, the expiry of the signal and the limit of the day allow it. Unless the clock
  -- goes back, the machine is in BET_PLACING then.
  pub on_round_started-IsEntered :
      (r : RoundState) (c : Coordinator X)
      → let after = (on_round_started place_live_bet d opts o round_id r c).executor in
        (after ≡ c.executor) ⊎ IsEntered r c after
  unfolding on_round_started
  on_round_started-IsEntered r c = elim (Bool-cases c.evaluating) [
    | inl a ↦ inl (rw a refl)
    | inr a ↦ elim (Bool-cases (suspended c.sheath)) [
      | inl b ↦ inl (rw (a, b) refl)
      | inr b ↦ evaluate-IsEntered r c _ b (rw (a, b) refl)
    ]
  ]
