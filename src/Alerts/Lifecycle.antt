-- ===== src/Alerts/Lifecycle.antt =====
-- The state machine and the other changes of an alert: backend/app/services/alerts.py, `get_alert`
-- to `add_note`.
use lunatic92i.Common.{
  ℕ, Bool, true, false, not, ◌&&◌, Option, none, some, [], ◌∷◌, ◌++◌, Text, codes, ◌==◌,
  if◌then◌else◌, is_some, find, update,
}
use lunatic92i.Common.Decimal.{decimal}
use lunatic92i.Audit.{text, cell, record_audit_event}
use lunatic92i.Alerts.Model.{
  Status, new, in_progress, Alert, AlertNote, AlertTransition, status_text, status_of, status_eq,
  is_closing, is_allowed,
}
use lunatic92i.Alerts.Dedup.{AlertDb, has_id}

-- `AlertNotFound` and `InvalidTransition`.
pub data AlertError : Type 0 where
  not_found : ℕ → AlertError
  invalid_transition : Status → Text → AlertError

pub data Outcome (A : Type 0) : Type 0 where
  ok : A → Outcome A
  err : AlertError → Outcome A

unfoldable pub is_alert : ℕ → ℕ → Alert → Bool
is_alert tenant i alert = (alert.id == i) && (alert.tenant_id == tenant)

-- `get_alert`, with `none` for `AlertNotFound`.
unfoldable pub get_alert : AlertDb → ℕ → ℕ → Option Alert
get_alert db tenant i = find (is_alert tenant i) db.alerts

-- `if note:`
unfoldable pub truthy : Option Text → Bool
truthy none = false
truthy (some []) = false
truthy (some (c ∷ cs)) = true

unfoldable pub acknowledge : Status → ℕ → Alert → Alert
acknowledge target now alert =
    if status_eq target in_progress && not (is_some alert.acknowledged_at)
    then record alert { acknowledged_at = some now }
    else alert

unfoldable pub stamp_closed : Status → Option Text → ℕ → Alert → Alert
stamp_closed target note now alert =
    if is_closing target
    then record alert {
      closed_at = some now;
      resolution_note = if truthy note then note else alert.resolution_note;
    }
    else record alert { closed_at = none }

unfoldable pub take_ownership : Status → Option ℕ → Alert → Alert
take_ownership target actor alert =
    if is_some actor && not (is_some alert.analyst_id) && not (status_eq target new)
    then record alert { analyst_id = actor }
    else alert

-- The columns that an accepted transition writes.
unfoldable pub move : Status → Option ℕ → Option Text → ℕ → Alert → Alert
unfolding acknowledge stamp_closed take_ownership
move target actor note now alert =
    take_ownership target actor
      (stamp_closed target note now (acknowledge target now (record alert { status = target })))

-- `_audit_action`
unfoldable pub audit_action : Status → Status → Text
audit_action current target =
    if is_closing target
    then codes "CLOSE_ALERT_" ++ status_text target
    else if is_closing current
    then codes "REOPEN_ALERT"
    else codes "ALERT_" ++ status_text target

pub record Request : Type 0 where
  pub tenant_id : ℕ
  pub alert_id : ℕ
  pub actor_id : Option ℕ
  pub actor_ip : Option Text

-- The history row of an accepted transition.
unfoldable pub move_row : Request → Alert → Status → Option Text → AlertTransition
move_row r alert target note = record {
  alert_id = alert.id;
  tenant_id = r.tenant_id;
  from_status = some alert.status;
  to_status = target;
  actor_id = r.actor_id;
  note = note;
}

-- The tables after an accepted transition.
unfoldable pub apply_move : AlertDb → Request → Alert → Status → Option Text → ℕ → AlertDb
apply_move db r alert target note now = record db {
  alerts = update (has_id alert.id) (λ _. move target r.actor_id note now alert) db.alerts;
  transitions = db.transitions ++ move_row r alert target note ∷ [];
  audit = record_audit_event db.audit (record {
    tenant_id = r.tenant_id;
    actor_id = r.actor_id;
    actor_ip = r.actor_ip;
    action = audit_action alert.status target;
    object_type = codes "alert";
    object_id = some alert.display_id;
    before_state = some ((codes "status", text (status_text alert.status)) ∷ []);
    after_state =
        some ((codes "status", text (status_text target)) ∷ (codes "note", cell note) ∷ []);
    success = true;
  });
}

-- A target that no status has is in no set of `TRANSITIONS`.
unfoldable pub transition : AlertDb → Request → Text → Option Text → ℕ → Outcome Alert × AlertDb
transition db r target note now = elim (get_alert db r.tenant_id r.alert_id) [
  | none ↦ (err (not_found r.alert_id), db)
  | some alert ↦ elim (status_of target) [
    | none ↦ (err (invalid_transition alert.status target), db)
    | some t ↦
        if status_eq t alert.status
        then (ok alert, db)
        else if is_allowed alert.status t
        then (ok (move t r.actor_id note now alert), apply_move db r alert t note now)
        else (err (invalid_transition alert.status target), db)
  ]
]

unfoldable pub id_text : Option ℕ → Option Text
id_text none = none
id_text (some i) = some (decimal i)

-- The tables after an assignment of a found alert.
unfoldable pub apply_assign : AlertDb → Request → Alert → Option ℕ → AlertDb
apply_assign db r alert analyst = record db {
  alerts = update (has_id alert.id) (λ _. record alert { analyst_id = analyst }) db.alerts;
  audit = record_audit_event db.audit (record {
    tenant_id = r.tenant_id;
    actor_id = r.actor_id;
    actor_ip = r.actor_ip;
    action = codes "ASSIGN_ALERT";
    object_type = codes "alert";
    object_id = some alert.display_id;
    before_state = some ((codes "analyst_id", cell (id_text alert.analyst_id)) ∷ []);
    after_state = some ((codes "analyst_id", cell (id_text analyst)) ∷ []);
    success = true;
  });
}

unfoldable pub assign : AlertDb → Request → Option ℕ → Outcome Alert × AlertDb
assign db r analyst = elim (get_alert db r.tenant_id r.alert_id) [
  | none ↦ (err (not_found r.alert_id), db)
  | some alert ↦ (ok (record alert { analyst_id = analyst }), apply_assign db r alert analyst)
]

unfoldable pub note_row : Request → Text → AlertNote
note_row r body = record {
  alert_id = r.alert_id;
  tenant_id = r.tenant_id;
  author_id = r.actor_id;
  body = body;
}

unfoldable pub add_note : AlertDb → Request → Text → Outcome AlertNote × AlertDb
add_note db r body = elim (get_alert db r.tenant_id r.alert_id) [
  | none ↦ (err (not_found r.alert_id), db)
  | some alert ↦ (ok (note_row r body), record db { notes = db.notes ++ note_row r body ∷ [] })
]
