-- ===== src/Coordinator/Round/Crash.antt =====
-- What a crash tells of the prediction of its round (onRoundCrashed,
-- src/betting/betting-coordinator.ts).
use crash.Prelude.{
  ℕ, String, ◌≡◌, refl, ap, false, is_falsy, ◌∷◌, Option, none, some, ◌∙◌, some_inj,
}
use crash.Machine.Types.{BettingState}
use crash.Machine.Dates.{Dates}
use crash.Machine.Send.Placing.{send_crashed}
use crash.Executor.Outside.{PlaceBetRequest}
use crash.Coordinator.Outside.{
  Options, Coordinator, Placing, completed, crash_observed, outcome_resolved,
}
use crash.Coordinator.Place.{round_target}
use crash.Coordinator.Round.{resolve_crash, on_round_crashed}

module _ {X : Type 0} (place_live_bet : PlaceBetRequest → X → X × Placing) (d : Dates)
    (opts : Options) where
  resolve_crash-told :
      (p : Option String) (id round_id : String) (crash_point : ℕ) (c : Coordinator X)
      → p ≡ some id
      → is_falsy (some id) ≡ false
      → let c' = resolve_crash place_live_bet d opts p round_id crash_point c in
        (c'.told
          ≡ outcome_resolved id round_id crash_point
              (round_target place_live_bet d opts round_id c)
              c.machine.context.open_bet_exists
            ∷ c.told)
        × (c'.last_prediction_id ≡ none)
        × (c'.machine ≡ c.machine)
  unfolding resolve_crash
  resolve_crash-told none id round_id crash_point c e f = cc
  resolve_crash-told (some id') id round_id crash_point c e f =
      let same : id' ≡ id = some_inj id' id e in
      let g : is_falsy (some id') ≡ false = ap (λ x. is_falsy (some x)) same ∙ f in
      rw g (
        ap
            (λ x.
              outcome_resolved x round_id crash_point
                (round_target place_live_bet d opts round_id c) c.machine.context.open_bet_exists
              ∷ c.told)
            same,
        refl,
        refl,
      )

  -- The crash of the round of an active bet completes the round, and its prediction is resolved
  -- once, with the target of the round, but as one on which no bet was executed.
  pub on_round_crashed-unexecuted :
      (now : ℕ) (id round_id : String) (crash_point : ℕ) (c : Coordinator X)
      → c.machine.state ≡ BettingState.bet_active
      → c.last_prediction_id ≡ some id
      → is_falsy (some id) ≡ false
      → let c' = on_round_crashed place_live_bet d opts now round_id crash_point c in
        (c'.machine.state ≡ BettingState.round_complete)
        × (c'.told
            ≡ outcome_resolved id round_id crash_point
                (round_target place_live_bet d opts round_id c)
                false
              ∷ crash_observed round_id crash_point
              ∷ completed round_id crash_point
              ∷ c.told)
        × (c'.last_prediction_id ≡ none)
  unfolding on_round_crashed
  on_round_crashed-unexecuted now id round_id crash_point c e p f =
      let (state, shut) = send_crashed d now c.machine crash_point e in
      let (t, l, m) = resolve_crash-told c.last_prediction_id id round_id crash_point _ p f in
      (ap (λ x. x.state) m ∙ state, t ∙ rw shut refl, l)
