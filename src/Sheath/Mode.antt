-- ===== src/Sheath/Mode.antt =====
-- The class SheathMode of src/core/sheath-mode/sheath-mode.ts. `now` is the text of the present
-- time. The listeners of a transition are not modelled, and a trigger that is reported is copied.
pub mod Recovery
pub mod Masked
use crash.Prelude.{
  ℕ, suc, String, Bool, true, false, not, ◌&&◌, ◌||◌, ltb, leb, all, if◌then◌else◌, List, [], ◌∷◌,
  ◌++◌, Option, none, some,
}
use crash.Sheath.Types.{
  SheathState, normal, evaluating, active, recovering, persistent, Severity, critical, high, medium,
  manual, TriggerId, operator_command, prediction_divergence, prediction_calibration_degraded,
  prediction_cold_state, poor_prediction_accuracy, Message, text, calibration_above_budget,
  divergence_level, Trigger, RecoveryCheck, Transition, id_eq, severity_eq, state_eq,
}

pub record Options : Type 0 where
  pub evaluate_high_rounds : ℕ
  pub evaluate_medium_rounds : ℕ
  pub recovery_required_rounds : ℕ
  pub max_recovery_attempts : ℕ

abbrev pub defaults : Options
defaults = record {
  evaluate_high_rounds = 3;
  evaluate_medium_rounds = 5;
  recovery_required_rounds = 10;
  max_recovery_attempts = 3;
}

pub record SheathMode : Type 0 where
  pub state : SheathState
  pub active_triggers : List Trigger
  pub evaluating_since : Option String
  pub recovering_since : Option String
  pub recovery_attempts : ℕ
  pub consecutive_recovery_rounds : ℕ
  pub evaluate_round_count : ℕ
  pub last_transition : Option Transition
  pub opts : Options

abbrev pub create : Options → SheathMode
create o = record {
  state = normal;
  active_triggers = [];
  evaluating_since = none;
  recovering_since = none;
  recovery_attempts = 0;
  consecutive_recovery_rounds = 0;
  evaluate_round_count = 0;
  last_transition = none;
  opts = o;
}

unfoldable pub is_betting_suspended : SheathMode → Bool
is_betting_suspended s = not (state_eq s.state normal)

unfoldable pub some_severity : Severity → List Trigger → Bool
some_severity v [] = false
some_severity v (t ∷ ts) = severity_eq t.severity v || some_severity v ts

unfoldable pub max_severity : List Trigger → Option Severity
max_severity ts =
    if some_severity manual ts
    then some manual
    else if some_severity critical ts
    then some critical
    else if some_severity high ts
    then some high
    else if some_severity medium ts
    then some medium
    else none

unfoldable pub transition :
    String
    → SheathState
    → List Trigger
    → Option String
    → Option (List RecoveryCheck)
    → SheathMode
    → SheathMode
transition now next triggers command results s = if state_eq next s.state then s else record s {
  state = next;
  last_transition = some (record {
    previous = s.state;
    next = next;
    triggers = triggers;
    timestamp = now;
    operator_command = command;
    recovery_results = results;
  });
}

-- `Object.assign` on the first trigger with the identifier, or `push`.
unfoldable pub merge_trigger : Trigger → List Trigger → List Trigger
merge_trigger t [] = t ∷ []
merge_trigger t (x ∷ xs) =
    let rest = merge_trigger t xs in if id_eq x.id t.id then t ∷ xs else x ∷ rest

unfoldable pub merge_triggers : List Trigger → List Trigger → List Trigger
merge_triggers [] xs = xs
merge_triggers (t ∷ ts) xs = merge_triggers ts (merge_trigger t xs)

abbrev pub is_immediate : Option Severity → Bool
is_immediate (some critical) = true
is_immediate (some manual) = true
is_immediate _ = false

-- `maxSeverity === 'critical' || maxSeverity === 'high'`.
abbrev pub interrupts_recovery : Option Severity → Bool
interrupts_recovery (some critical) = true
interrupts_recovery (some high) = true
interrupts_recovery _ = false

-- The branches on the state, once the triggers are merged.
react : SheathState → String → List Trigger → SheathMode → SheathMode
unfolding transition max_severity
react normal now ts s =
    if is_immediate (max_severity s.active_triggers)
    then transition now active ts none none s
    else record (transition now evaluating ts none none s) {
      evaluating_since = some now;
      evaluate_round_count = 0;
    }
react evaluating now ts s =
    if is_immediate (max_severity s.active_triggers)
    then transition now active ts none none s
    else s
react recovering now ts s =
    if interrupts_recovery (max_severity s.active_triggers)
    then transition now active ts none none (record s { consecutive_recovery_rounds = 0 })
    else s
react _ now ts s = s

unfoldable pub report_triggers : String → List Trigger → SheathMode → SheathMode
unfolding react
report_triggers now [] s = s
report_triggers now (t ∷ ts) s =
    react s.state now (t ∷ ts)
      (record s { active_triggers = merge_triggers (t ∷ ts) s.active_triggers })

abbrev pub command_trigger : String → Trigger
command_trigger now = record {
  id = operator_command;
  severity = manual;
  message = text "Operator issued /sheath";
  detected_at = now;
}

unfoldable pub operator_sheath : String → SheathMode → SheathMode
operator_sheath now s = report_triggers now (command_trigger now ∷ []) s

unfoldable pub keep_triggers : (Trigger → Bool) → List Trigger → List Trigger
keep_triggers p [] = []
keep_triggers p (t ∷ ts) = if p t then t ∷ keep_triggers p ts else keep_triggers p ts

abbrev pub has_none : List Trigger → Bool
has_none [] = true
has_none _ = false

unfoldable pub start_recovery : String → Option String → SheathMode → SheathMode
start_recovery now command s = record (transition now recovering [] command none s) {
  recovering_since = some now;
  consecutive_recovery_rounds = 0;
}

-- Back to NORMAL from an evaluation.
stop_evaluating : String → Option String → SheathMode → SheathMode
stop_evaluating now command s = record (transition now normal [] command none s) {
  evaluating_since = none;
  evaluate_round_count = 0;
}

unsheath_from : SheathState → String → SheathMode → SheathMode
unfolding stop_evaluating start_recovery transition
unsheath_from active now s = start_recovery now (some "/unsheath") s
unsheath_from persistent now s = start_recovery now (some "/unsheath") s
unsheath_from evaluating now s =
    let s' = record s {
      active_triggers = keep_triggers (λ t. severity_eq t.severity critical) s.active_triggers;
    } in
    if has_none s'.active_triggers then stop_evaluating now (some "/unsheath") s' else s'
unsheath_from _ now s = s

unfoldable pub operator_unsheath : String → SheathMode → SheathMode
unfolding unsheath_from
operator_unsheath now s = unsheath_from s.state now s

abbrev is_medium : Option Severity → Bool
is_medium (some medium) = true
is_medium _ = false

-- The end of an evaluation, `suc` of the rounds counted so far.
tick_evaluating : String → SheathMode → SheathMode
unfolding stop_evaluating transition
tick_evaluating now s =
    let threshold =
      if is_medium (max_severity s.active_triggers)
      then s.opts.evaluate_medium_rounds
      else s.opts.evaluate_high_rounds in
    let s' = record s { evaluate_round_count = suc s.evaluate_round_count } in
    if not (leb threshold s'.evaluate_round_count)
    then s'
    else if has_none s'.active_triggers
    then stop_evaluating now none s'
    else transition now active s'.active_triggers none none s'

tick_passed : String → List RecoveryCheck → SheathMode → SheathMode
unfolding transition
tick_passed now checks s =
    let s' = record s { consecutive_recovery_rounds = suc s.consecutive_recovery_rounds } in
    if not (leb s'.opts.recovery_required_rounds s'.consecutive_recovery_rounds)
    then s'
    else record (transition now normal [] none (some checks) (record s' { active_triggers = [] })) {
      recovering_since = none;
      recovery_attempts = 0;
      consecutive_recovery_rounds = 0;
    }

tick_failed : String → List RecoveryCheck → SheathMode → SheathMode
unfolding transition
tick_failed now checks s =
    let s' = record s {
      consecutive_recovery_rounds = 0;
      recovery_attempts = suc s.recovery_attempts;
    } in
    if leb s'.opts.max_recovery_attempts s'.recovery_attempts
    then transition now persistent s'.active_triggers none (some checks) s'
    else s'

-- `!recoveryChecks || recoveryChecks.length === 0` returns.
tick_recovering : String → List RecoveryCheck → SheathMode → SheathMode
unfolding tick_passed tick_failed
tick_recovering now [] s = s
tick_recovering now (c ∷ cs) s =
    if all (λ x. x.passed) (c ∷ cs) then tick_passed now (c ∷ cs) s else tick_failed now (c ∷ cs) s

tick_in : SheathState → String → List RecoveryCheck → SheathMode → SheathMode
unfolding tick_evaluating tick_recovering
tick_in evaluating now checks s = tick_evaluating now s
tick_in recovering now checks s = tick_recovering now checks s
tick_in _ now checks s = s

-- Checks that are absent are an empty list.
unfoldable pub on_round_tick : String → List RecoveryCheck → SheathMode → SheathMode
unfolding tick_in
on_round_tick now checks s = tick_in s.state now checks s

-- The second test of the source, for a manual trigger, is true of an empty list.
unfoldable pub clear_trigger : String → TriggerId → SheathMode → SheathMode
unfolding start_recovery
clear_trigger now id s =
    let s' = record s {
      active_triggers = keep_triggers (λ t. not (id_eq t.id id)) s.active_triggers;
    } in
    if state_eq s'.state active && has_none s'.active_triggers
    then start_recovery now none s'
    else s'

pub record Health : Type 0 where
  pub divergence_level : ℕ
  pub ece : Option ℕ
  pub reason : Option String
  pub cold_state : Bool

abbrev trigger_at : String → TriggerId → Severity → Message → Trigger
trigger_at now id severity message = record {
  id = id;
  severity = severity;
  message = message;
  detected_at = now;
}

abbrev level_message : Health → Message
level_message h = elim h.reason [ none ↦ divergence_level h.divergence_level | some r ↦ text r ]

ece_triggers : String → Option ℕ → List Trigger
ece_triggers now none = []
ece_triggers now (some e) =
    if ltb 800 e
    then trigger_at now prediction_calibration_degraded (if ltb 1200 e then critical else high)
        (calibration_above_budget e)
      ∷ []
    else []

divergence_triggers : String → Health → List Trigger
divergence_triggers now h =
    if leb 5 h.divergence_level
    then trigger_at now prediction_divergence critical (level_message h) ∷ []
    else if leb 3 h.divergence_level
    then trigger_at now prediction_divergence high (level_message h) ∷ []
    else if leb 1 h.divergence_level
    then trigger_at now poor_prediction_accuracy medium (level_message h) ∷ []
    else []

unfoldable pub report_prediction_health : String → Health → SheathMode → SheathMode
unfolding ece_triggers divergence_triggers
report_prediction_health now h s =
    report_triggers now
      ((if h.cold_state
          then trigger_at now prediction_cold_state critical
              (text "Prediction stack cold — live entries blocked")
            ∷ []
          else [])
        ++ ece_triggers now h.ece
        ++ divergence_triggers now h)
      s

abbrev blocks : Trigger → Bool
blocks t =
    (id_eq t.id prediction_divergence && severity_eq t.severity critical)
    || id_eq t.id prediction_cold_state

unfoldable pub is_prediction_entries_blocked : SheathMode → Bool
is_prediction_entries_blocked s =
    not (has_none (keep_triggers blocks s.active_triggers)) || is_betting_suspended s

-- The calls of a sheath, each at a time, and a history of them.
pub data Op : Type 0 where
  reports : List Trigger → Op
  sheaths unsheaths : Op
  ticks : List RecoveryCheck → Op
  clears : TriggerId → Op

unfoldable pub step : SheathMode → String × Op → SheathMode
step s (now, reports ts) = report_triggers now ts s
step s (now, sheaths) = operator_sheath now s
step s (now, unsheaths) = operator_unsheath now s
step s (now, ticks checks) = on_round_tick now checks s
step s (now, clears id) = clear_trigger now id s

unfoldable pub run : SheathMode → List (String × Op) → SheathMode
run s [] = s
run s (op ∷ ops) = run (step s op) ops
