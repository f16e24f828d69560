-- ===== src/Executor/Stop/Halts.antt =====
-- A stop halts the executor that is handed over (src/core/emergency-stop.ts,
-- src/betting/live-executor.ts).
use crash.Prelude.{ℕ, String, ◌≡◌, refl, sym, subst, Bool, true, false, List, [], ◌∷◌}
use crash.Idempotency.Redis.{Commands, Client}
use crash.Executor.Safeguards.{SafeguardsConfig}
use crash.Executor.Outside.{PlaceBetRequest}
use crash.Executor.Place as Place
use crash.Executor.Place.{World, place_live_bet, stop}
use crash.Executor.Place.Halted.{place_live_bet-stopped}
use crash.Executor.Stop.{
  EmergencyStop, StopOutside, is_triggered, trigger, trigger_if, run_stop, reset,
}

module _ {S : Type 0} (redis : Commands S) (client : Client) (safeguards : SafeguardsConfig)
    (retries : ℕ) where
  -- The calls after a stop: another trigger, with or without the executor, a reset by an operator,
  -- and a placement.
  pub data Op : Type 0 where
    triggers : StopOutside → String → Bool → Op
    resets : Op
    places : PlaceBetRequest → Place.Outside → Op

  unfoldable pub step : EmergencyStop × World S → Op → EmergencyStop × World S
  step (s, w) (triggers o reason has_live) =
      let (s', w', r) = trigger o reason has_live s w in (s', w')
  step (s, w) resets = (reset s, w)
  step (s, w) (places r o) = (s, (place_live_bet redis client r safeguards retries o w).0)

  unfoldable pub run : EmergencyStop × World S → List Op → EmergencyStop × World S
  run p [] = p
  run p (op ∷ ops) = run (step p op) ops

  -- The executor is stopped, and has clicked so often.
  abbrev IsHalted : ℕ → World S → Type 0
  IsHalted n w = (w.stopped ≡ true) × (w.clicked ≡ n)

  trigger-IsHalted :
      (b : Bool) (o : StopOutside) (reason : String) (has_live : Bool) (s : EmergencyStop) (n : ℕ)
      (w : World S)
      → IsHalted n w
      → IsHalted n (trigger_if b o reason has_live s w).1
  unfolding trigger_if run_stop stop
  trigger-IsHalted true o reason has_live s n w h = h
  trigger-IsHalted false o reason true s n w h = (refl, h.1)
  trigger-IsHalted false o reason false s n w h = h

  step-IsHalted :
      (p : EmergencyStop × World S) (op : Op) (n : ℕ) → IsHalted n p.1 → IsHalted n (step p op).1
  unfolding step trigger
  step-IsHalted (s, w) (triggers o reason has_live) n h =
      trigger-IsHalted (is_triggered s) o reason has_live s n w h
  step-IsHalted (s, w) resets n h = h
  step-IsHalted (s, w) (places r o) n h =
      subst (λ x. IsHalted n x.0)
        (sym (place_live_bet-stopped redis client r safeguards retries o w h.0)) h

  run-IsHalted :
      (p : EmergencyStop × World S) (ops : List Op) (n : ℕ)
      → IsHalted n p.1
      → IsHalted n (run p ops).1
  unfolding run
  run-IsHalted p [] n h = h
  run-IsHalted p (op ∷ ops) n h = run-IsHalted (step p op) ops n (step-IsHalted p op n h)

  first-IsHalted :
      (b : Bool) (o : StopOutside) (reason : String) (s : EmergencyStop) (w : World S)
      → b ≡ false
      → IsHalted w.clicked (trigger_if b o reason true s w).1
  unfolding trigger_if run_stop stop
  first-IsHalted false o reason s w e = (refl, refl)
  first-IsHalted true o reason s w e = cc

  -- Once a stop is triggered with the executor, no later placement clicks, whatever the database
  -- and the bus of events throw, and neither another trigger nor a reset by an operator makes the
  -- executor place again.
  pub trigger-halts :
      (o : StopOutside) (reason : String) (s : EmergencyStop) (w : World S) (ops : List Op)
      → is_triggered s ≡ false
      → let (s', w', r) = trigger o reason true s w in
        let after = (run (s', w') ops).1 in (after.stopped ≡ true) × (after.clicked ≡ w.clicked)
  unfolding trigger
  trigger-halts o reason s w ops e =
      run-IsHalted _ ops w.clicked (first-IsHalted (is_triggered s) o reason s w e)
