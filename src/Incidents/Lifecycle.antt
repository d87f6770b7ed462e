-- ===== src/Incidents/Lifecycle.antt =====
-- Moving and changing an incident: backend/app/services/incidents.py, `transition` and `update_incident`.
use lunatic92i.Common.{
  ℕ, Bool, true, false, ◌&&◌, not, Option, none, some, List, [], ◌∷◌, ◌++◌, map, Text, codes,
  if◌then◌else◌, is_some, update,
}
use lunatic92i.Common.Decimal.{decimal}
use lunatic92i.Audit.{State, text, cell}
use lunatic92i.Incidents.Model.{
  Status, containment, closed, Incident, IncidentDb, status_change, assignment, moved, assigned,
  status_text, status_eq, status_of, is_allowed,
}
use lunatic92i.Incidents.Links.{
  Case, Outcome, ok, err, not_found, invalid_transition, entry_of, record_timeline, get_incident,
}
use lunatic92i.Incidents.Opening.{has_id, audit_row, log}

-- `if note:`
unfoldable pub truthy : Option Text → Bool
truthy none = false
truthy (some []) = false
truthy (some (c ∷ cs)) = true

unfoldable pub stamp_contained : Status → ℕ → Incident → Incident
stamp_contained target now incident =
    if status_eq target containment && not (is_some incident.contained_at)
    then record incident { contained_at = some now }
    else incident

unfoldable pub stamp_closed : Status → Option Text → ℕ → Incident → Incident
unfolding truthy
stamp_closed target remark now incident =
    if status_eq target closed
    then record incident {
      closed_at = some now;
      resolution = if truthy remark then remark else incident.resolution;
    }
    else record incident { closed_at = none }

-- The columns that an accepted transition writes.
unfoldable pub move : Status → Option Text → ℕ → Incident → Incident
unfolding stamp_contained stamp_closed
move target remark now incident =
    stamp_closed target remark now
      (stamp_contained target now (record incident { status = target }))

unfoldable pub move_action : Status → Status → Text
move_action current target =
    if status_eq current closed
    then codes "REOPEN_INCIDENT"
    else codes "INCIDENT_" ++ status_text target

-- The tables after an accepted transition.
unfoldable pub apply_move :
    IncidentDb → Case → Option Text → Incident → Status → Option Text → ℕ → IncidentDb
unfolding record_timeline entry_of move move_action audit_row log
apply_move db c ip incident target remark now =
    log
      (record_timeline
        (record db {
          incidents =
              update (has_id incident.id) (λ _. move target remark now incident) db.incidents;
        })
        (entry_of c status_change
          (status_text incident.status ++ (codes " → " ++ status_text target))
          (moved incident.status target remark)))
      (audit_row c.tenant_id c.actor_id ip (move_action incident.status target) incident.display_id
        (some ((codes "status", text (status_text incident.status)) ∷ []))
        (some ((codes "status", text (status_text target)) ∷ (codes "note", cell remark) ∷ [])))

-- A target that no status has is in no set of `TRANSITIONS`.
unfoldable pub transition :
    IncidentDb → Case → Option Text → Text → Option Text → ℕ → Outcome Incident × IncidentDb
unfolding get_incident status_of is_allowed apply_move move
transition db c ip target remark now = elim (get_incident db c.tenant_id c.incident_id) [
  | none ↦ (err (not_found c.incident_id), db)
  | some incident ↦ elim (status_of target) [
    | none ↦ (err (invalid_transition incident.status target), db)
    | some t ↦
        if status_eq t incident.status
        then (ok incident, db)
        else if is_allowed incident.status t
        then (ok (move t remark now incident), apply_move db c ip incident t remark now)
        else (err (invalid_transition incident.status target), db)
  ]
]

-- An entry of `values`: the fields of `IncidentUpdate` of backend/app/schemas/incidents.py, with the
-- type of the column.
pub data Change : Type 0 where
  set_title set_severity set_priority : Text → Change
  set_description set_lessons : Option Text → Change
  set_analyst : Option ℕ → Change

unfoldable pub set_field : Change → Incident → Incident
set_field (set_title t) incident = record incident { title = t }
set_field (set_severity t) incident = record incident { severity = t }
set_field (set_priority t) incident = record incident { priority = t }
set_field (set_description t) incident = record incident { description = t }
set_field (set_lessons t) incident = record incident { lessons_learned = t }
set_field (set_analyst a) incident = record incident { analyst_id = a }

unfoldable pub set_fields : List Change → Incident → Incident
unfolding set_field
set_fields [] incident = incident
set_fields (c ∷ more) incident = set_fields more (set_field c incident)

unfoldable pub key_of : Change → Text
key_of (set_title t) = codes "title"
key_of (set_severity t) = codes "severity"
key_of (set_priority t) = codes "priority"
key_of (set_description t) = codes "description"
key_of (set_lessons t) = codes "lessons_learned"
key_of (set_analyst a) = codes "analyst_id"

-- `str(value)`
unfoldable pub text_or_none : Option Text → Text
text_or_none none = codes "None"
text_or_none (some t) = t

unfoldable pub id_or_none : Option ℕ → Text
id_or_none none = codes "None"
id_or_none (some i) = decimal i

-- `str(getattr(incident, key))`
unfoldable pub field_text : Incident → Change → Text
unfolding text_or_none id_or_none
field_text incident (set_title t) = incident.title
field_text incident (set_severity t) = incident.severity
field_text incident (set_priority t) = incident.priority
field_text incident (set_description t) = text_or_none incident.description
field_text incident (set_lessons t) = text_or_none incident.lessons_learned
field_text incident (set_analyst a) = id_or_none incident.analyst_id

unfoldable pub field_states : List Change → Incident → State
unfolding key_of field_text
field_states values incident = map (λ c. (key_of c, text (field_text incident c))) values

-- `values["analyst_id"]`, if the key is in `values`.
unfoldable pub analyst_in : List Change → Option (Option ℕ)
analyst_in [] = none
analyst_in (set_analyst a ∷ more) = some a
analyst_in (c ∷ more) = analyst_in more

unfoldable pub assignee_text : Option ℕ → Text
assignee_text none = codes "nobody"
assignee_text (some i) = decimal i

-- The entry of an assignment.
unfoldable pub record_assignment : IncidentDb → Case → List Change → IncidentDb
unfolding analyst_in record_timeline entry_of assignee_text
record_assignment db c values = elim (analyst_in values) [
  | none ↦ db
  | some a ↦
      record_timeline db
        (entry_of c assignment (codes "assigned to " ++ assignee_text a) (assigned a))
]

unfoldable pub apply_changes : IncidentDb → Case → Option Text → Incident → List Change → IncidentDb
unfolding record_assignment set_fields field_states audit_row log
apply_changes db c ip incident values =
    log
      (record_assignment
        (record db {
          incidents = update (has_id incident.id) (λ _. set_fields values incident) db.incidents;
        })
        c values)
      (audit_row c.tenant_id c.actor_id ip (codes "UPDATE_INCIDENT") incident.display_id
        (some (field_states values incident))
        (some (field_states values (set_fields values incident))))

unfoldable pub update_incident :
    IncidentDb → Case → Option Text → List Change → Outcome Incident × IncidentDb
unfolding get_incident apply_changes set_fields
update_incident db c ip values = elim (get_incident db c.tenant_id c.incident_id) [
  | none ↦ (err (not_found c.incident_id), db)
  | some incident ↦ (ok (set_fields values incident), apply_changes db c ip incident values)
]
