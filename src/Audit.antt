-- ===== src/Audit.antt =====
-- The audit log: backend/app/audit/service.py. A state is a dictionary of
-- strings, counts, truth values and `None`.
use lunatic92i.Common.{ℕ, Bool, Option, none, some, List, [], ◌∷◌, ◌++◌, Text}

pub data Cell : Type 0 where
  null : Cell
  text : Text → Cell
  count : ℕ → Cell
  flag : Bool → Cell

-- A string or `None`.
unfoldable pub cell : Option Text → Cell
cell none = null
cell (some t) = text t

abbrev pub State : Type 0
State = List (Text × Cell)

pub record AuditEvent : Type 0 where
  pub tenant_id : ℕ
  pub actor_id : Option ℕ
  pub actor_ip : Option Text
  pub action : Text
  pub object_type : Text
  pub object_id : Option Text
  pub before_state : Option State
  pub after_state : Option State
  pub success : Bool

-- `record_audit_event`: one more row in the caller's transaction.
unfoldable pub record_audit_event : List AuditEvent → AuditEvent → List AuditEvent
record_audit_event log event = log ++ event ∷ []
