-- ===== src/Incidents/Model.antt =====
-- backend/app/models/incidents.py and the constants of backend/app/services/incidents.py: the rows of
-- the incident tables and the lifecycle as data. A UUID is a number and a time is in microseconds; the
-- detail of a timeline entry, a JSON column, is one constructor for each form that the service writes.
use lunatic92i.Common.{
  ℕ, Bool, true, false, Option, none, some, List, [], ◌∷◌, Text, codes, text_eq, if◌then◌else◌, any,
}
use lunatic92i.Audit.{AuditEvent}
use lunatic92i.Sequences.{Sequence}
use lunatic92i.Alerts.Model.{Alert}

pub data Status : Type 0 where
  new triage investigation containment eradication recovery closed : Status

-- The statuses as the strings that the table holds.
unfoldable pub status_text : Status → Text
status_text new = codes "NEW"
status_text triage = codes "TRIAGE"
status_text investigation = codes "INVESTIGATION"
status_text containment = codes "CONTAINMENT"
status_text eradication = codes "ERADICATION"
status_text recovery = codes "RECOVERY"
status_text closed = codes "CLOSED"

-- `a == b` on statuses.
unfoldable pub status_eq : Status → Status → Bool
status_eq new new = true
status_eq triage triage = true
status_eq investigation investigation = true
status_eq containment containment = true
status_eq eradication eradication = true
status_eq recovery recovery = true
status_eq closed closed = true
status_eq _ _ = false

abbrev pub all_statuses : List Status
all_statuses = new ∷ triage ∷ investigation ∷ containment ∷ eradication ∷ recovery ∷ closed ∷ []

-- The status that a string names, if it names one.
unfoldable pub status_among : List Status → Text → Option Status
unfolding status_text
status_among [] t = none
status_among (s ∷ rest) t = if text_eq t (status_text s) then some s else status_among rest t

unfoldable pub status_of : Text → Option Status
unfolding status_among
status_of t = status_among all_statuses t

-- `TRANSITIONS`: what may follow a status.
unfoldable pub transitions_from : Status → List Status
transitions_from new = triage ∷ investigation ∷ closed ∷ []
transitions_from triage = investigation ∷ containment ∷ closed ∷ new ∷ []
transitions_from investigation = containment ∷ eradication ∷ triage ∷ closed ∷ []
transitions_from containment = eradication ∷ investigation ∷ closed ∷ []
transitions_from eradication = recovery ∷ containment ∷ investigation ∷ closed ∷ []
transitions_from recovery = closed ∷ eradication ∷ investigation ∷ []
transitions_from closed = investigation ∷ triage ∷ []

unfoldable pub is_allowed : Status → Status → Bool
unfolding status_eq transitions_from any
is_allowed current target = any (status_eq target) (transitions_from current)

pub record Incident : Type 0 where
  pub id : ℕ
  pub tenant_id : ℕ
  pub display_id : Text
  pub title : Text
  pub description : Option Text
  pub severity : Text
  pub priority : Text
  pub status : Status
  pub analyst_id : Option ℕ
  pub resolution : Option Text
  pub lessons_learned : Option Text
  pub detected_at : Option ℕ
  pub contained_at : Option ℕ
  pub closed_at : Option ℕ

-- `IncidentAlert`, `IncidentAsset` and `IncidentIoc`: a link to the row of that id.
pub record Link : Type 0 where
  pub tenant_id : ℕ
  pub incident_id : ℕ
  pub target_id : ℕ

pub record IncidentUser : Type 0 where
  pub tenant_id : ℕ
  pub incident_id : ℕ
  pub username : Text

pub record IncidentNote : Type 0 where
  pub tenant_id : ℕ
  pub incident_id : ℕ
  pub author_id : Option ℕ
  pub body : Text

pub data TaskStatus : Type 0 where
  open_task in_progress done : TaskStatus

pub record IncidentTask : Type 0 where
  pub id : ℕ
  pub tenant_id : ℕ
  pub incident_id : ℕ
  pub title : Text
  pub description : Option Text
  pub assignee_id : Option ℕ
  pub status : TaskStatus
  pub due_at : Option ℕ
  pub completed_at : Option ℕ

-- The detail of an entry.
pub data Detail : Type 0 where
  opened : Text → Text → Detail
  moved : Status → Status → Option Text → Detail
  assigned : Option ℕ → Detail
  linked_alert : ℕ → Text → Text → Detail
  linked_asset : ℕ → Option Text → Detail
  linked_ioc : ℕ → Text → Text → Detail
  linked_user : Text → Detail
  noted : ℕ → Detail
  worked : ℕ → Option TaskStatus → TaskStatus → Detail

-- `TIMELINE_KINDS`
pub data Kind : Type 0 where
  status_change note task alert_linked asset_linked ioc_linked assignment created : Kind

pub record IncidentTimeline : Type 0 where
  pub tenant_id : ℕ
  pub incident_id : ℕ
  pub kind : Kind
  pub summary : Text
  pub detail : Detail
  pub actor_id : Option ℕ

-- `Asset` of backend/app/models/assets.py: the columns that the service reads or writes.
pub record Asset : Type 0 where
  pub id : ℕ
  pub tenant_id : ℕ
  pub hostname : Option Text
  pub ip_address : Option Text
  pub criticality : Text
  pub is_isolated : Bool
  pub isolated_at : Option ℕ

-- `Ioc` of backend/app/models/threat_intel.py: the columns that the service reads.
pub record Ioc : Type 0 where
  pub id : ℕ
  pub tenant_id : Option ℕ
  pub ioc_type : Text
  pub value : Text
  pub classification : Text

-- The tables that the incident service reads and writes. It only reads `alerts`, `assets` and `iocs`.
pub record IncidentDb : Type 0 where
  pub incidents : List Incident
  pub sequences : List Sequence
  pub alert_links : List Link
  pub asset_links : List Link
  pub ioc_links : List Link
  pub users : List IncidentUser
  pub notes : List IncidentNote
  pub tasks : List IncidentTask
  pub timeline : List IncidentTimeline
  pub audit : List AuditEvent
  pub alerts : List Alert
  pub assets : List Asset
  pub iocs : List Ioc

-- `SEVERITY_TO_PRIORITY.get(severity, "P3")`
unfoldable pub priority_of : Text → Text
priority_of severity =
    if text_eq severity (codes "critical")
    then codes "P1"
    else if text_eq severity (codes "high")
    then codes "P2"
    else if text_eq severity (codes "medium")
    then codes "P3"
    else if text_eq severity (codes "low")
    then codes "P4"
    else codes "P3"

-- `IncidentDraft`
pub record IncidentDraft : Type 0 where
  pub title : Text
  pub description : Option Text
  pub severity : Text
  pub priority : Option Text
  pub alert_ids : List ℕ
