-- ===== src/Alerts/Model.antt =====
-- backend/app/models/alerts.py and the constants of backend/app/services/alerts.py: the rows of the
-- alert tables and the lifecycle as data. A UUID is a number, a time is in microseconds, and a JSON
-- column is its text.
use lunatic92i.Common.{
  ℕ, Bool, true, false, Option, none, some, List, [], ◌∷◌, Text, codes, text_eq, if◌then◌else◌, any,
}

pub data Status : Type 0 where
  new in_progress escalated false_positive resolved closed : Status

pub Status-discrete : Discrete Status
Status-discrete = hlevel

-- The statuses as the strings that the table holds.
unfoldable pub status_text : Status → Text
status_text new = codes "NEW"
status_text in_progress = codes "IN_PROGRESS"
status_text escalated = codes "ESCALATED"
status_text false_positive = codes "FALSE_POSITIVE"
status_text resolved = codes "RESOLVED"
status_text closed = codes "CLOSED"

-- `a == b` on statuses.
unfoldable pub status_eq : Status → Status → Bool
status_eq new new = true
status_eq in_progress in_progress = true
status_eq escalated escalated = true
status_eq false_positive false_positive = true
status_eq resolved resolved = true
status_eq closed closed = true
status_eq _ _ = false

-- The status that a string names, if it names one.
unfoldable pub status_of : Text → Option Status
unfolding status_text
status_of t =
    if text_eq t (status_text new)
    then some new
    else if text_eq t (status_text in_progress)
    then some in_progress
    else if text_eq t (status_text escalated)
    then some escalated
    else if text_eq t (status_text false_positive)
    then some false_positive
    else if text_eq t (status_text resolved)
    then some resolved
    else if text_eq t (status_text closed)
    then some closed
    else none

-- `TRANSITIONS`: what may follow a status.
unfoldable pub transitions_from : Status → List Status
transitions_from new = in_progress ∷ escalated ∷ false_positive ∷ resolved ∷ closed ∷ []
transitions_from in_progress = escalated ∷ false_positive ∷ resolved ∷ closed ∷ new ∷ []
transitions_from escalated = in_progress ∷ false_positive ∷ resolved ∷ closed ∷ []
transitions_from false_positive = in_progress ∷ closed ∷ []
transitions_from resolved = in_progress ∷ closed ∷ []
transitions_from closed = in_progress ∷ []

-- `CLOSING` and `OPEN_STATUSES`.
unfoldable pub closing : List Status
closing = false_positive ∷ resolved ∷ closed ∷ []

unfoldable pub open_statuses : List Status
open_statuses = new ∷ in_progress ∷ escalated ∷ []

-- `status in statuses`
unfoldable pub status_in : Status → List Status → Bool
unfolding status_eq any
status_in s statuses = any (status_eq s) statuses

unfoldable pub is_closing : Status → Bool
unfolding status_in closing
is_closing s = status_in s closing

unfoldable pub is_open : Status → Bool
unfolding status_in open_statuses
is_open s = status_in s open_statuses

unfoldable pub is_allowed : Status → Status → Bool
unfolding status_in transitions_from
is_allowed current target = status_in target (transitions_from current)

pub record Alert : Type 0 where
  pub id : ℕ
  pub tenant_id : ℕ
  pub display_id : Text
  pub rule_key : Option Text
  pub correlation_id : Option Text
  pub source : Text
  pub title : Text
  pub description : Text
  pub severity : Text
  pub confidence : ℕ
  pub risk_score : ℕ
  pub risk_bucket : Option Text
  pub risk_explanation : Text
  pub event_ids : List Text
  pub detection_ids : List Text
  pub evidence : Text
  pub affected_user : Option Text
  pub affected_host : Option Text
  pub source_ip : Option Text
  pub destination_ip : Option Text
  pub mitre_techniques : List Text
  pub status : Status
  pub analyst_id : Option ℕ
  pub resolution_note : Option Text
  pub dedup_key : Text
  pub occurrence_count : ℕ
  pub first_seen_at : ℕ
  pub last_seen_at : ℕ
  pub acknowledged_at : Option ℕ
  pub closed_at : Option ℕ

pub record AlertNote : Type 0 where
  pub alert_id : ℕ
  pub tenant_id : ℕ
  pub author_id : Option ℕ
  pub body : Text

pub record AlertTransition : Type 0 where
  pub alert_id : ℕ
  pub tenant_id : ℕ
  pub from_status : Option Status
  pub to_status : Status
  pub actor_id : Option ℕ
  pub note : Option Text

-- `AlertInput`
pub record AlertInput : Type 0 where
  pub tenant_id : ℕ
  pub source : Text
  pub title : Text
  pub description : Text
  pub severity : Text
  pub confidence : ℕ
  pub risk_score : ℕ
  pub risk_bucket : Option Text
  pub risk_explanation : Text
  pub dedup_key : Text
  pub event_ids : List Text
  pub detection_ids : List Text
  pub evidence : Text
  pub mitre_techniques : List Text
  pub rule_key : Option Text
  pub correlation_id : Option Text
  pub affected_user : Option Text
  pub affected_host : Option Text
  pub source_ip : Option Text
  pub destination_ip : Option Text
