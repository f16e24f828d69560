-- ===== src/Sheath/Types.antt =====
-- src/core/sheath-mode/types.ts. The metadata of a trigger is left out; a message that is printed
-- from a value carries the value. Calibration errors are ten-thousandths.
use crash.Prelude.{ℕ, String, Bool, true, false, ◌==◌, List, Option, ◌≡◌, arith}

pub data SheathState : Type 0 where
  normal evaluating active recovering persistent : SheathState

pub data Severity : Type 0 where
  critical high medium manual : Severity

pub data TriggerId : Type 0 where
  low_prediction_confidence poor_prediction_accuracy abnormal_market : TriggerId
  data_quality_degradation worker_instability excessive_false_signals : TriggerId
  execution_problems api_failures model_drift unexpected_volatility risk_thresholds : TriggerId
  system_health_degradation queue_backlog operator_command prediction_divergence : TriggerId
  prediction_calibration_degraded prediction_cold_state : TriggerId

pub data Message : Type 0 where
  text : String → Message
  calibration_above_budget : ℕ → Message
  divergence_level : ℕ → Message

pub record Trigger : Type 0 where
  pub id : TriggerId
  pub severity : Severity
  pub message : Message
  pub detected_at : String

pub record RecoveryCheck : Type 0 where
  pub name : String
  pub passed : Bool
  pub detail : Option String

pub record Transition : Type 0 where
  pub previous : SheathState
  pub next : SheathState
  pub triggers : List Trigger
  pub timestamp : String
  pub operator_command : Option String
  pub recovery_results : Option (List RecoveryCheck)

-- The place of an identifier in the list of them.
unfoldable pub trigger_code : TriggerId → ℕ
trigger_code low_prediction_confidence = 0
trigger_code poor_prediction_accuracy = 1
trigger_code abnormal_market = 2
trigger_code data_quality_degradation = 3
trigger_code worker_instability = 4
trigger_code excessive_false_signals = 5
trigger_code execution_problems = 6
trigger_code api_failures = 7
trigger_code model_drift = 8
trigger_code unexpected_volatility = 9
trigger_code risk_thresholds = 10
trigger_code system_health_degradation = 11
trigger_code queue_backlog = 12
trigger_code operator_command = 13
trigger_code prediction_divergence = 14
trigger_code prediction_calibration_degraded = 15
trigger_code prediction_cold_state = 16

unfoldable pub id_eq : TriggerId → TriggerId → Bool
id_eq a b = trigger_code a == trigger_code b

abbrev pub severity_eq : Severity → Severity → Bool
severity_eq critical critical = true
severity_eq high high = true
severity_eq medium medium = true
severity_eq manual manual = true
severity_eq _ _ = false

abbrev pub state_eq : SheathState → SheathState → Bool
state_eq normal normal = true
state_eq evaluating evaluating = true
state_eq active active = true
state_eq recovering recovering = true
state_eq persistent persistent = true
state_eq _ _ = false

pub id_eq-false : (a b c : TriggerId) → id_eq a b ≡ true → id_eq b c ≡ false → id_eq a c ≡ false
unfolding id_eq
id_eq-false a b c h k = ground arith
