-- ===== src/Sheath/Mode/Masked.antt =====
-- What a manual trigger hides (src/core/sheath-mode/sheath-mode.ts).
use crash.Prelude.{◌≡◌, refl, String, Bool, true, false, ◌&&◌, ◌||◌, List, [], ◌∷◌, arith}
use crash.Sheath.Types.{
  recovering, manual, operator_command, Trigger, id_eq, severity_eq, id_eq-false,
}
use crash.Sheath.Mode.{
  SheathMode, some_severity, max_severity, merge_trigger, merge_triggers, react, report_triggers,
}

-- Triggers under other names than that of the operator's command.
abbrev pub IsAutomatic : List Trigger → Type 0
IsAutomatic [] = Unit
IsAutomatic (t ∷ ts) = (id_eq t.id operator_command ≡ false) × IsAutomatic ts

-- The operator's own trigger is among the triggers.
abbrev pub has_command : List Trigger → Bool
has_command [] = false
has_command (t ∷ ts) =
    (id_eq t.id operator_command && severity_eq t.severity manual) || has_command ts

merge-has_command :
    (t : Trigger) (xs : List Trigger)
    → id_eq t.id operator_command ≡ false
    → has_command xs ≡ true
    → has_command (merge_trigger t xs) ≡ true
unfolding merge_trigger
merge-has_command t [] a h = cc
merge-has_command t (x ∷ xs) a h =
    let ih = merge-has_command t xs a in
    let differs = id_eq-false x.id t.id operator_command in ground arith

merges-has_command :
    (ts xs : List Trigger)
    → IsAutomatic ts
    → has_command xs ≡ true
    → has_command (merge_triggers ts xs) ≡ true
unfolding merge_triggers
merges-has_command [] xs a h = h
merges-has_command (t ∷ ts) xs (a, b) h =
    merges-has_command ts (merge_trigger t xs) b (merge-has_command t xs a h)

command-manual : (xs : List Trigger) → has_command xs ≡ true → some_severity manual xs ≡ true
unfolding some_severity
command-manual [] h = h
command-manual (x ∷ xs) h = let ih = command-manual xs in ground arith

-- While the sheath recovers from a command of the operator, no automatic trigger, a critical one
-- included, makes it active again: the rounds of recovery that it has counted stay as they are.
pub report_triggers-masked :
    (now : String) (ts : List Trigger) (s : SheathMode)
    → s.state ≡ recovering
    → has_command s.active_triggers ≡ true
    → IsAutomatic ts
    → let s' = report_triggers now ts s in
      (s'.state ≡ recovering)
      × (s'.consecutive_recovery_rounds ≡ s.consecutive_recovery_rounds)
      × (has_command s'.active_triggers ≡ true)
unfolding report_triggers react max_severity
report_triggers-masked now [] s e h a = (e, refl, h)
report_triggers-masked now (t ∷ ts) s e h a =
    let k = merges-has_command (t ∷ ts) s.active_triggers a h in
    let m = command-manual _ k in ground arith
