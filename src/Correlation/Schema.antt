-- ===== src/Correlation/Schema.antt =====
-- Correlation rules, hits and matches: backend/app/correlation/schema.py, and the data classes of
-- backend/app/correlation/state.py and backend/app/correlation/engine.py. Times are in milliseconds.
use lunatic92i.Common.{
  ℕ, Bool, false, Option, none, some, List, [], ◌∷◌, Text, text_eq, keep, any, ltb, length,
  if◌then◌else◌, ◌||◌,
}
use lunatic92i.Common.Int.{ℤ}
use lunatic92i.Detection.Value.{Fields}
use lunatic92i.Detection.Schema.{ConditionNode, RuleStatus, Severity, duration_seconds}

-- `MAX_WINDOW_SECONDS`
abbrev pub max_window_seconds : ℕ
max_window_seconds = 86_400

pub data InputKind : Type 0 where
  event detection any_kind : InputKind

-- "event" and "detection", of an input and of a hit.
pub data Kind : Type 0 where
  of_event of_detection : Kind

-- "event" and "ingestion"
pub data TimeSource : Type 0 where
  event_time ingestion_time : TimeSource

pub record CorrelationStage (N : Type 0) : Type 0 where
  pub name : Text
  pub matches : InputKind
  pub conditions : ConditionNode N
  pub min_count : ℕ
  pub required : Bool

pub record CorrelationRule (N : Type 0) : Type 0 where
  pub correlation_id : Text
  pub name : Text
  pub severity : Severity
  pub confidence : ℕ
  pub risk_score : ℕ
  pub status : RuleStatus
  pub version : ℕ
  pub window : Text
  pub correlate_by : List Text
  pub ordered : Bool
  pub stages : List (CorrelationStage N)
  pub suppression : Option Text
  pub mitre_attack : List Text

pub record StageHit (N : Type 0) : Type 0 where
  pub stage : Text
  pub occurred_at_ms : ℤ
  pub claimed_at_ms : ℤ
  pub ingested_at_ms : ℤ
  pub time_source : TimeSource
  pub kind : Kind
  pub event_id : Text
  pub summary : Fields N

pub record CorrelationInput (N : Type 0) : Type 0 where
  pub kind : Kind
  pub tenant_id : Text
  pub event_id : Text
  pub document : Fields N
  pub claimed_at_ms : ℤ
  pub ingested_at_ms : ℤ
  pub occurred_at_ms : ℤ
  pub time_source : TimeSource

pub data ShapeError : Type 0 where
  duplicate_names no_required_stage one_required_stage window_too_long bad_window : ShapeError

unfoldable pub check_window : Option ℕ → Option ShapeError
check_window none = some bad_window
check_window (some seconds) = if ltb max_window_seconds seconds then some window_too_long else none

module _ {N : Type 0} where
  unfoldable pub required_stages : CorrelationRule N → List (CorrelationStage N)
  unfolding keep
  required_stages rule = keep (λ stage. stage.required) rule.stages

  unfoldable pub names_repeat : List (CorrelationStage N) → Bool
  unfolding any
  names_repeat [] = false
  names_repeat (stage ∷ rest) =
      any (λ other. text_eq stage.name other.name) rest || names_repeat rest

  -- `_check_shape`: the error that refuses the rule, if one does.
  unfoldable pub check_shape : (ℕ → Option ℕ) → CorrelationRule N → Option ShapeError
  unfolding names_repeat required_stages check_window
  check_shape digit_of rule =
      if names_repeat rule.stages
      then some duplicate_names
      else if ltb (length (required_stages rule)) 1
      then some no_required_stage
      else if ltb (length (required_stages rule)) 2
      then some one_required_stage
      else check_window (duration_seconds digit_of rule.window)

  unfoldable pub suppression_seconds : (ℕ → Option ℕ) → CorrelationRule N → Option ℕ
  suppression_seconds digit_of rule = elim rule.suppression [
    | none ↦ some 0
    | some [] ↦ some 0
    | some (c ∷ cs) ↦ duration_seconds digit_of (c ∷ cs)
  ]
