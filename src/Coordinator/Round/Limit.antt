-- ===== src/Coordinator/Round/Limit.antt =====
-- The limit of the day over the rounds of a coordinator (src/betting/betting-coordinator.ts).
use crash.Prelude.{
  ℕ, zero, suc, String, ◌≡◌, refl, sym, subst, true, Bool-cases, inl, inr, is_falsy, List, [], ◌∷◌,
  Option, none, some,
}
use crash.Machine.Types.{RoundState, round_started}
use crash.Machine.Dates.{Dates}
use crash.Machine.Send.{send}
use crash.Daily.Types.{find_entry}
use crash.Daily.Ledger.Counts.{Counted}
use crash.Risk.Engine.{Signal, Evaluation}
use crash.Executor.Outside.{PlaceBetRequest}
use crash.Coordinator.Outside.{
  Options, Coordinator, Decided, evaluation_throws, decides, Verdict, enters, refuses,
  verdict_throws, Placing, starting, deciding, Outside,
}
use crash.Coordinator.Place.Limit.{IsQuiet, try_place_bet-Limited}
use crash.Coordinator.Round.{
  approval, keep_signal, keep_target, catch_entry, approve_entry, follow_risk, follow_verdict,
  follow_decision, evaluate_entry, on_round_started, suspended, resolve_crash, on_round_crashed, Op,
  starts, crashes, step, run,
}

module _ {X : Type 0} (place_live_bet : PlaceBetRequest → X → X × Placing) (d : Dates)
    (opts : Options) where
  abbrev Limited : Coordinator X → Type 0
  Limited c = Counted opts.max_daily_entries c.day

  module _ (o : Outside) (round_id : String) where
    keep_target-day :
        (target : ℕ) (s : Signal) (c : Coordinator X)
        → (keep_target place_live_bet d opts target round_id s c).day ≡ c.day
    unfolding keep_target
    keep_target-day zero s c = refl
    keep_target-day (suc n) s c = refl

    keep_signal-day :
        (s : Option Signal) (c : Coordinator X)
        → (keep_signal place_live_bet d opts round_id s c).day ≡ c.day
    unfolding keep_signal
    keep_signal-day none c = refl
    keep_signal-day (some s) c = keep_target-day s.target s _

    catch-Limited :
        (p : Coordinator X × Option String)
        → Limited p.0
        → Limited (catch_entry place_live_bet d opts o p)
    unfolding catch_entry
    catch-Limited (c, none) k = k
    catch-Limited (c, some reason) k = k

    risk-Limited :
        (e : Evaluation) (c : Coordinator X)
        → IsQuiet o c
        → Limited c
        → Limited (follow_risk place_live_bet d opts o round_id e c)
    unfolding follow_risk approve_entry
    risk-Limited e c q k = elim (Bool-cases e.approved) [
      | inr a ↦ rw a k
      | inl a ↦ elim (Bool-cases (send d (o.at deciding) c.machine (approval e)).result.accepted) [
        | inr b ↦ rw (a, b) k
        | inl b ↦
            rw (a, b)
              (catch-Limited _ (
                try_place_bet-Limited place_live_bet d opts o round_id _
                  (record { fresh = q.fresh; confirms = q.confirms }) k))
      ]
    ]

    verdict-Limited :
        (v : Verdict) (e : Evaluation) (c : Coordinator X)
        → IsQuiet o c
        → Limited c
        → Limited (follow_verdict place_live_bet d opts v o round_id e c)
    unfolding follow_verdict
    verdict-Limited enters e c q k = risk-Limited e c q k
    verdict-Limited (refuses reason) e c q k = k
    verdict-Limited (verdict_throws reason) e c q k = k

    decision-Limited :
        (t : Decided) (r : RoundState) (c : Coordinator X)
        → IsQuiet o c
        → Limited c
        → Limited (follow_decision place_live_bet d opts t o round_id r c)
    unfolding follow_decision
    decision-Limited (evaluation_throws reason) r c q k = k
    decision-Limited (decides healthy s e) r c q k =
        let same = sym (keep_signal-day s c) in
        verdict-Limited _ e _
          (record {
            fresh = subst (λ x. find_entry o.bet_id x.entries ≡ none) same q.fresh;
            confirms = q.confirms;
          })
          (subst (Counted opts.max_daily_entries) same k)

    evaluate-Limited :
        (r : RoundState) (c : Coordinator X)
        → IsQuiet o c
        → Limited c
        → Limited (evaluate_entry place_live_bet d opts o round_id r c)
    unfolding evaluate_entry
    evaluate-Limited r c q k =
        elim (Bool-cases
          (send d (o.at starting) c.machine (round_started round_id r)).result.accepted) [
            | inr a ↦ rw a k
            | inl a ↦ rw a (
                decision-Limited o.decided r _ (record { fresh = q.fresh; confirms = q.confirms })
                  k)
          ]

    started-Limited :
        (r : RoundState) (c : Coordinator X)
        → IsQuiet o c
        → Limited c
        → Limited (on_round_started place_live_bet d opts o round_id r c)
    unfolding on_round_started
    started-Limited r c q k = elim (Bool-cases c.evaluating) [
      | inl a ↦ rw a k
      | inr a ↦ elim (Bool-cases (suspended c.sheath)) [
        | inl b ↦ rw (a, b) k
        | inr b ↦
            rw (a, b)
              (evaluate-Limited r (record c { evaluating = true })
                (record { fresh = q.fresh; confirms = q.confirms }) k)
      ]
    ]

  crash-Limited :
      (p : Option String) (round_id : String) (crash_point : ℕ) (c : Coordinator X)
      → Limited c
      → Limited (resolve_crash place_live_bet d opts p round_id crash_point c)
  unfolding resolve_crash
  crash-Limited none round_id crash_point c k = k
  crash-Limited (some id) round_id crash_point c k = elim (Bool-cases (is_falsy (some id))) [
    | inl e ↦ rw e k
    | inr e ↦ rw e k
  ]

  abbrev pub IsQuietOp : Coordinator X → Op place_live_bet d opts → Type 0
  IsQuietOp c (starts o round_id r) = IsQuiet o c
  IsQuietOp c (crashes now round_id crash_point) = Unit

  -- Each bet is new to the day when its round starts, and no callback of an entry throws.
  abbrev pub AllQuiet : Coordinator X → List (Op place_live_bet d opts) → Type 0
  AllQuiet c [] = Unit
  AllQuiet c (op ∷ ops) = IsQuietOp c op × AllQuiet (step place_live_bet d opts c op) ops

  step-Limited :
      (c : Coordinator X) (op : Op place_live_bet d opts)
      → IsQuietOp c op
      → Limited c
      → Limited (step place_live_bet d opts c op)
  unfolding step on_round_crashed
  step-Limited c (starts o round_id r) q k = started-Limited o round_id r c q k
  step-Limited c (crashes now round_id crash_point) q k = crash-Limited _ round_id crash_point _ k

  -- Over every history of rounds in which each bet is new to the day and no callback of a confirmed
  -- entry throws, the counts of the day are those of its entries and the confirmed and the reserved
  -- entries together stay within the limit, whatever else fails.
  pub run-Limited :
      (c : Coordinator X) (ops : List (Op place_live_bet d opts))
      → AllQuiet c ops
      → Counted opts.max_daily_entries c.day
      → Counted opts.max_daily_entries (run place_live_bet d opts c ops).day
  unfolding run
  run-Limited c [] q k = k
  run-Limited c (op ∷ ops) q k =
      run-Limited (step place_live_bet d opts c op) ops q.1 (step-Limited c op q.0 k)
