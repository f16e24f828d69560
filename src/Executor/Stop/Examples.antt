-- ===== src/Executor/Stop/Examples.antt =====
-- A stop at concrete inputs (src/core/emergency-stop.ts).
use crash.Prelude.{◌≡◌, refl, true, false, List, [], ◌∷◌, none}
use crash.Idempotency.Local.{local, client}
use crash.Executor.Fixtures.{request, safeguards, outside, world}
use crash.Executor.Bets.{pending, Bet}
use crash.Executor.Stop.{
  default_config, create, StopOutside, trigger, is_triggered, cancel_pending_bets, cancel_each,
  find_by_state,
}
use crash.Executor.Stop.Halts.{Op, resets, places, run, trigger-halts}

abbrev quiet : StopOutside
quiet = record {
  timestamp = "t";
  query_throws = false;
  update_throws = λ id. false;
  snapshot_throws = false;
  emitting = none;
}

abbrev later : List (Op local client safeguards 3)
later = resets ∷ places request outside ∷ []

-- The reset arms the stop again, and the executor places nothing.
trigger-halts_example :
    let (s, w, r) = trigger quiet "operator" true (create default_config) world in
    let after = (run local client safeguards 3 (s, w) later).1 in
    (after.stopped ≡ true) × (after.clicked ≡ 0)
unfolding is_triggered
trigger-halts_example =
    trigger-halts local client safeguards 3 quiet "operator" (create default_config) world later
      refl

abbrev waiting : Bet
waiting = record {
  id = "row1";
  session_id = "s1";
  round_id = "r1";
  stake = 100;
  cash_out_target = 150;
  state = pending;
  failure_reason = none;
}

cancels_waiting : (cancel_pending_bets quiet (waiting ∷ [])).1 ≡ 1
unfolding cancel_pending_bets cancel_each find_by_state
cancels_waiting = refl
