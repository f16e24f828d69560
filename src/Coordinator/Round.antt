-- ===== src/Coordinator/Round.antt =====
-- The methods `onRoundStarted` and `onRoundCrashed` of src/betting/betting-coordinator.ts. Calls of
-- `onRoundStarted` wait for each other there, so that they are serial; a call of the other method
-- in the middle of one is not modelled. The history and the observer of the crash do not throw.
pub mod Crash
pub mod Asks
pub mod Limit
pub mod Strands
use crash.Prelude.{
  ℕ, zero, suc, String, Bool, true, false, not, is_falsy, if◌then◌else◌, get_or_else, List, [], ◌∷◌,
  Option, none, some, insert, remove,
}
use crash.Machine.Types.{
  RoundState, Event, round_started, round_crashed, risk_approved, risk_rejected,
}
use crash.Machine.Dates.{Dates}
use crash.Machine.Send.{send}
use crash.Risk.Engine.{Signal, Evaluation, Rejection}
use crash.Executor.Outside.{PlaceBetRequest}
use crash.Sheath.Mode.{SheathMode, is_betting_suspended, on_round_tick}
use crash.Coordinator.Outside.{
  Options, completed, crash_observed, Coordinator, Decided, evaluation_throws, decides, Verdict,
  enters, refuses, verdict_throws, Placing, Moment, starting, deciding, ending, Outside,
  to_entry_conditions, decision_input,
}
use crash.Coordinator.Place as Place

-- `expiresAt` as a time, where it is there and parses.
abbrev pub expiry : Dates → String → Option ℕ
expiry d text = if is_falsy (some text) then none else d.get_time text

abbrev pub prediction_of : Option Signal → Option String
prediction_of none = none
prediction_of (some s) = some s.prediction_id

abbrev pub approval : Evaluation → Event
approval e = risk_approved (to_entry_conditions e.conditions)

abbrev pub suspended : Option SheathMode → Bool
suspended none = false
suspended (some s) = is_betting_suspended s

module _ {X : Type 0} (place_live_bet : PlaceBetRequest → X → X × Placing) (d : Dates)
    (opts : Options) where
  abbrev tell : Event → Moment → Outside → Coordinator X → Coordinator X
  tell = Place.tell place_live_bet d opts

  -- A target of zero counts as none; then the expiry of an earlier signal stays.
  unfoldable pub keep_target : ℕ → String → Signal → Coordinator X → Coordinator X
  keep_target zero round_id s c = record c {
    last_cash_out_target = get_or_else opts.cash_out_target 130;
  }
  keep_target (suc n) round_id s c = record c {
    last_cash_out_target = suc n;
    last_cash_out_target_by_round = insert round_id (suc n) c.last_cash_out_target_by_round;
    last_signal_expires_at = expiry d s.expires_at;
  }

  unfoldable pub keep_signal : String → Option Signal → Coordinator X → Coordinator X
  keep_signal round_id none c = record c {
    last_prediction_id = none;
    last_cash_out_target = get_or_else opts.cash_out_target 130;
  }
  keep_signal round_id (some s) c =
      keep_target s.target round_id s (record c { last_prediction_id = some s.prediction_id })

  -- The outer `catch`, for what `tryPlaceBet` throws.
  catch_entry : Outside → Coordinator X × Option String → Coordinator X
  catch_entry o (c, none) = c
  catch_entry o (c, some reason) = tell (risk_rejected reason) ending o c

  approve_entry : Outside → String → Evaluation → Coordinator X → Coordinator X
  unfolding catch_entry
  approve_entry o round_id e c =
      let sent = send d (o.at deciding) c.machine (approval e) in
      let c' = record c { machine = sent.machine } in
      if sent.result.accepted
      then catch_entry o (Place.try_place_bet place_live_bet d opts o round_id c')
      else c'

  abbrev rejection_of : Outside → Option Rejection → String
  rejection_of o none = "Risk rejected"
  rejection_of o (some r) = o.rejection_text r

  follow_risk : Outside → String → Evaluation → Coordinator X → Coordinator X
  unfolding approve_entry
  follow_risk o round_id e c =
      if e.approved
      then approve_entry o round_id e c
      else tell (risk_rejected (rejection_of o e.rejection_reason)) deciding o c

  follow_verdict : Verdict → Outside → String → Evaluation → Coordinator X → Coordinator X
  unfolding follow_risk
  follow_verdict enters o round_id e c = follow_risk o round_id e c
  follow_verdict (refuses reason) o round_id e c = tell (risk_rejected reason) deciding o c
  follow_verdict (verdict_throws reason) o round_id e c = tell (risk_rejected reason) deciding o c

  -- The decision engine is asked where there is one and a signal.
  abbrev verdict_on : Bool → Outside → String → RoundState → Bool → Option Signal → Verdict
  verdict_on true o round_id r healthy (some s) = o.decide (decision_input round_id r healthy s)
  verdict_on _ o round_id r healthy _ = enters

  follow_decision : Decided → Outside → String → RoundState → Coordinator X → Coordinator X
  unfolding follow_verdict
  follow_decision (evaluation_throws reason) o round_id r c =
      tell (risk_rejected reason) deciding o c
  follow_decision (decides healthy s e) o round_id r c =
      follow_verdict (verdict_on opts.has_decision_engine o round_id r healthy s) o round_id e
        (keep_signal round_id s c)

  evaluate_entry : Outside → String → RoundState → Coordinator X → Coordinator X
  unfolding follow_decision
  evaluate_entry o round_id r c =
      let sent = send d (o.at starting) c.machine (round_started round_id r) in
      let c' = record c { machine = sent.machine } in
      if not sent.result.accepted then c' else follow_decision o.decided o round_id r c'

  -- A tick without checks, for which the text of the time is `now`.
  abbrev tick : String → Option SheathMode → Option SheathMode
  tick now none = none
  tick now (some s) = some (on_round_tick now [] s)

  unfoldable pub on_round_started : Outside → String → RoundState → Coordinator X → Coordinator X
  unfolding evaluate_entry
  on_round_started o round_id r c =
      if c.evaluating
      then c
      else if suspended c.sheath
      then record c { sheath = tick (d.to_iso_string (o.at starting)) c.sheath }
      else record (evaluate_entry o round_id r (record c { evaluating = true })) {
        evaluating = false;
      }

  -- `if (this.lastPredictionId)`.
  resolve_crash : Option String → String → ℕ → Coordinator X → Coordinator X
  resolve_crash none round_id crash_point c = c
  resolve_crash (some id) round_id crash_point c =
      if is_falsy (some id)
      then c
      else (let target = Place.round_target place_live_bet d opts round_id c in
          let c' = record c {
            last_cash_out_target_by_round = remove round_id c.last_cash_out_target_by_round;
          } in
          record (Place.resolve place_live_bet d opts (some id) round_id crash_point target
            c.machine.context.open_bet_exists c') { last_prediction_id = none })

  unfoldable pub on_round_crashed : ℕ → String → ℕ → Coordinator X → Coordinator X
  unfolding resolve_crash
  on_round_crashed now round_id crash_point c =
      let c' = record c {
        machine = (send d now c.machine (round_crashed crash_point)).machine;
        told = crash_observed round_id crash_point ∷ completed round_id crash_point ∷ c.told;
      } in
      resolve_crash c'.last_prediction_id round_id crash_point c'

  -- The calls of a coordinator, and a history of them.
  pub data Op : Type 0 where
    starts : Outside → String → RoundState → Op
    crashes : ℕ → String → ℕ → Op

  unfoldable pub step : Coordinator X → Op → Coordinator X
  step c (starts o round_id r) = on_round_started o round_id r c
  step c (crashes now round_id crash_point) = on_round_crashed now round_id crash_point c

  unfoldable pub run : Coordinator X → List Op → Coordinator X
  run c [] = c
  run c (op ∷ ops) = run (step c op) ops
