-- ===== src/Playbooks/Model.antt =====
-- backend/app/models/playbooks.py, backend/app/playbooks/context.py and the interface of
-- backend/app/playbooks/actions.py: the rows of the playbook tables and what a step is given. A UUID is a
-- number; a parameter of a step is a string. `W` is the tables that the actions work on, and `D` what they
-- report as details, a JSON column.
use lunatic92i.Common.{ℕ, Bool, Option, List, Text}
use lunatic92i.Audit.{AuditEvent}
use lunatic92i.Alerts.Model.{Alert}
use lunatic92i.Incidents.Model.{Incident}
use lunatic92i.Incidents.Opening.{Moment}

-- `RUN_STATUSES`
pub data RunStatus : Type 0 where
  pending running awaiting_approval completed failed rejected_run : RunStatus

-- `APPROVAL_STATUSES`
pub data ApprovalStatus : Type 0 where
  pending_approval approved rejected executed : ApprovalStatus

-- `StepDefinition`
pub record Step : Type 0 where
  pub action : Text
  pub params : List (Text × Text)

pub record Playbook : Type 0 where
  pub id : ℕ
  pub tenant_id : ℕ
  pub key : Text
  pub name : Text
  pub description : Option Text
  pub trigger_type : Text
  pub steps : List Step
  pub created_by : Option ℕ

-- The `kind` of an outcome.
pub data OutcomeKind : Type 0 where
  preview result awaiting error : OutcomeKind

pub record StepOutcome (D : Type 0) : Type 0 where
  pub step_index : ℕ
  pub action : Text
  pub kind : OutcomeKind
  pub summary : Text
  pub details : D

pub record PlaybookRun (D : Type 0) : Type 0 where
  pub id : ℕ
  pub tenant_id : ℕ
  pub playbook_id : ℕ
  pub status : RunStatus
  pub dry_run : Bool
  pub triggered_by : Option ℕ
  pub alert_id : Option ℕ
  pub incident_id : Option ℕ
  pub current_step : ℕ
  pub results : List (StepOutcome D)
  pub error : Option Text

pub record Approval (D : Type 0) : Type 0 where
  pub id : ℕ
  pub tenant_id : ℕ
  pub playbook_run_id : ℕ
  pub step_index : ℕ
  pub action_name : Text
  pub preview : D
  pub status : ApprovalStatus
  pub requested_by : ℕ
  pub decided_by : Option ℕ
  pub decided_at : Option ℕ
  pub reason : Option Text

-- `PlaybookContext`, and the time and the new ids of the step.
pub record Context (D : Type 0) : Type 0 where
  pub tenant_id : ℕ
  pub actor_id : Option ℕ
  pub alert : Option Alert
  pub incident : Option Incident
  pub params : List (Text × Text)
  pub state : List (Text × D)
  pub moment : Moment

-- `ActionPreview` and `ActionResult`
pub record Report (D : Type 0) : Type 0 where
  pub summary : Text
  pub details : D

-- What a call of an action comes to: `missing` is `ActionTargetNotFound`, with its text, which an action
-- raises before it writes anything, and `raised` any exception that the engine does not catch.
pub data Attempt (A : Type 0) : Type 0 where
  done : A → Attempt A
  missing : Text → Attempt A
  raised : Attempt A

-- `PlaybookAction` and `DestructiveAction`; `execute` is the part after `_verify_grant`.
pub record Action (W D : Type 0) : Type 0 where
  pub is_destructive : Bool
  pub dry_run : W → Context D → Attempt (Report D)
  pub execute : W → Context D → Attempt (Report D × Context D × W)

-- What the engine uses of the rest: `ACTION_REGISTRY`, `record_audit_event`, `db.get` of an alert and of an
-- incident, an alert of a tenant, and the details `{}`.
pub record Platform (W D : Type 0) : Type 0 where
  pub registry : Text → Option (Action W D)
  pub write_audit : AuditEvent → W → W
  pub alert_of : W → ℕ → Option Alert
  pub incident_of : W → ℕ → Option Incident
  pub alert_in : W → ℕ → ℕ → Option Alert
  pub no_details : D

pub record PlaybookDb (W D : Type 0) : Type 0 where
  pub playbooks : List Playbook
  pub runs : List (PlaybookRun D)
  pub approvals : List (Approval D)
  pub world : W
