-- ===== src/Sheath/Examples.antt =====
-- The theorems about a sheath at concrete inputs (src/core/sheath-mode/).
use crash.Prelude.{◌+◌, ◌≤◌, ◌≡◌, refl, String, true, List, [], ◌∷◌, none}
use crash.Sheath.Types.{
  critical, text, Trigger, prediction_divergence, normal, recovering, id_eq, trigger_code,
}
use crash.Sheath.Mode.{
  SheathMode, create, defaults, Op, sheaths, unsheaths, ticks, run, step, report_triggers,
  operator_sheath, operator_unsheath, on_round_tick, transition, start_recovery, max_severity,
  some_severity, merge_trigger, merge_triggers, is_betting_suspended,
}
use crash.Sheath.Mode.Recovery.{run-suspended}
use crash.Sheath.Mode.Masked.{has_command, report_triggers-masked}

abbrev good_round : String × Op
good_round = ("t", ticks (record { name = "latency"; passed = true; detail = none } ∷ []))

-- A sheath that asks for two good rounds, put up by the operator.
abbrev sheathed : SheathMode
sheathed = run (create (record defaults { recovery_required_rounds = 2 })) (("t", sheaths) ∷ [])

abbrev recovery : List (String × Op)
recovery = ("t", unsheaths) ∷ good_round ∷ good_round ∷ []

unfoldable pub whole_sheath : Unit {0}
unfolding run step report_triggers operator_sheath operator_unsheath on_round_tick transition
    start_recovery max_severity some_severity merge_trigger merge_triggers is_betting_suspended
    id_eq trigger_code
whole_sheath = tt

-- The operator lifts the sheath, and two good rounds end it.
recovery_ends : (run sheathed recovery).state ≡ normal
unfolding whole_sheath
recovery_ends = refl

run-suspended_example : 2 ≤ 0 + 2
unfolding whole_sheath
run-suspended_example = run-suspended sheathed recovery refl refl

abbrev divergence : Trigger
divergence = record {
  id = prediction_divergence;
  severity = critical;
  message = text "Divergence level 5";
  detected_at = "t";
}

abbrev lifted : SheathMode
lifted = run sheathed (("t", unsheaths) ∷ good_round ∷ [])

report_triggers-masked_example :
    let s = report_triggers "t" (divergence ∷ []) lifted in
    (s.state ≡ recovering)
    × (s.consecutive_recovery_rounds ≡ 1)
    × (has_command s.active_triggers ≡ true)
unfolding whole_sheath
report_triggers-masked_example =
    report_triggers-masked "t" (divergence ∷ []) lifted refl refl (refl, tt)
