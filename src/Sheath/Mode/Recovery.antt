-- ===== src/Sheath/Mode/Recovery.antt =====
-- How a sheath that has been active ends (src/core/sheath-mode/sheath-mode.ts).
use crash.Prelude.{
  ℕ, ◌+◌, ◌≤◌, ◌≡◌, refl, String, Bool, true, false, ◌&&◌, ◌||◌, leb, all, if◌then◌else◌, List, [],
  ◌∷◌, arith,
}
use crash.Sheath.Types.{
  SheathState, normal, evaluating, active, recovering, persistent, Trigger, TriggerId,
  RecoveryCheck,
}
use crash.Sheath.Mode.{
  SheathMode, transition, report_triggers, react, operator_sheath, operator_unsheath, unsheath_from,
  start_recovery, stop_evaluating, on_round_tick, tick_in, tick_evaluating, tick_recovering,
  tick_passed, tick_failed, clear_trigger, Op, reports, sheaths, unsheaths, ticks, clears, step,
  run, is_betting_suspended, command_trigger,
}

-- The states after an evaluation.
abbrev pub is_engaged : SheathState → Bool
is_engaged active = true
is_engaged recovering = true
is_engaged persistent = true
is_engaged _ = false

-- The rounds whose checks were there and all passed.
abbrev pub passes : Op → ℕ
passes (ticks []) = 0
passes (ticks (c ∷ cs)) = if all (λ x. x.passed) (c ∷ cs) then 1 else 0
passes _ = 0

abbrev pub passed : List (String × Op) → ℕ
passed [] = 0
passed ((now, op) ∷ ops) = passes op + passed ops

-- No more good rounds in a row than good rounds, or enough of them.
abbrev Behind : ℕ → ℕ → SheathMode → Type 0
Behind required n s =
    (s.opts.recovery_required_rounds ≡ required)
    × ((leb required n || (is_engaged s.state && leb s.consecutive_recovery_rounds n)) ≡ true)

module _ (required n : ℕ) where
  react-Behind :
      (p : SheathState) (now : String) (ts : List Trigger) (s : SheathMode)
      → s.state ≡ p
      → Behind required n s
      → Behind required n (react p now ts s)
  unfolding react transition
  react-Behind normal now ts s e h = ground arith
  react-Behind evaluating now ts s e h = ground arith
  react-Behind active now ts s e h = ground arith
  react-Behind recovering now ts s e h = ground arith
  react-Behind persistent now ts s e h = ground arith

  report-Behind :
      (now : String) (ts : List Trigger) (s : SheathMode)
      → Behind required n s
      → Behind required n (report_triggers now ts s)
  unfolding report_triggers
  report-Behind now [] s h = h
  report-Behind now (t ∷ ts) s h = react-Behind s.state now (t ∷ ts) _ refl h

  unsheath-Behind :
      (p : SheathState) (now : String) (s : SheathMode)
      → s.state ≡ p
      → Behind required n s
      → Behind required n (unsheath_from p now s)
  unfolding unsheath_from start_recovery stop_evaluating transition
  unsheath-Behind normal now s e h = h
  unsheath-Behind evaluating now s e h = ground arith
  unsheath-Behind active now s e h = ground arith
  unsheath-Behind recovering now s e h = h
  unsheath-Behind persistent now s e h = ground arith

  clear-Behind :
      (now : String) (id : TriggerId) (s : SheathMode)
      → Behind required n s
      → Behind required n (clear_trigger now id s)
  unfolding clear_trigger start_recovery transition
  clear-Behind now id s h = ground arith

  tick-Behind :
      (p : SheathState) (now : String) (checks : List RecoveryCheck) (s : SheathMode)
      → s.state ≡ p
      → Behind required n s
      → Behind required (passes (ticks checks) + n) (tick_in p now checks s)
  unfolding tick_in tick_evaluating tick_recovering tick_passed tick_failed stop_evaluating
      transition
  tick-Behind evaluating now checks s e h = ground arith
  tick-Behind recovering now [] s e h = ground arith
  tick-Behind recovering now (c ∷ cs) s e h = ground arith
  tick-Behind p now checks s e h = ground arith

  step-Behind :
      (s : SheathMode) (now : String) (op : Op)
      → Behind required n s
      → Behind required (passes op + n) (step s (now, op))
  unfolding step operator_sheath operator_unsheath on_round_tick
  step-Behind s now (reports ts) h = let k = report-Behind now ts s h in ground arith
  step-Behind s now sheaths h =
      let k = report-Behind now (command_trigger now ∷ []) s h in ground arith
  step-Behind s now unsheaths h = let k = unsheath-Behind s.state now s refl h in ground arith
  step-Behind s now (ticks checks) h = tick-Behind s.state now checks s refl h
  step-Behind s now (clears id) h = let k = clear-Behind now id s h in ground arith

run-Behind :
    (required n : ℕ) (s : SheathMode) (ops : List (String × Op))
    → Behind required n s
    → Behind required (passed ops + n) (run s ops)
unfolding run
run-Behind required n s [] h = ground arith
run-Behind required n s ((now, op) ∷ ops) h =
    let ih =
      run-Behind required (passes op + n) (step s (now, op)) ops
        (step-Behind required n s now op h) in
    ground arith

-- A sheath that is active, recovering or persistent lets bets through again only after as many
-- rounds whose checks all passed as the recovery requires, less those counted at the start: no
-- command of the operator and no clearing of triggers makes up for one.
pub run-suspended :
    (s : SheathMode) (ops : List (String × Op))
    → is_engaged s.state ≡ true
    → is_betting_suspended (run s ops) ≡ false
    → s.opts.recovery_required_rounds ≤ s.consecutive_recovery_rounds + passed ops
unfolding is_betting_suspended
run-suspended s ops e f =
    let (a, b) =
      run-Behind s.opts.recovery_required_rounds s.consecutive_recovery_rounds s ops
        (refl, ground arith) in
    ground arith
