-- ===== src/Incidents/Opening.antt =====
-- Opening an incident: backend/app/services/incidents.py, `next_display_id` and `create_incident`.
use lunatic92i.Common.{
  ℕ, Bool, true, Option, none, some, List, [], ◌∷◌, ◌++◌, Text, codes, ◌==◌, take, length,
}
use lunatic92i.Audit.{AuditEvent, State, text, count, record_audit_event}
use lunatic92i.Sequences.{Sequence, next_number, numbered}
use lunatic92i.Incidents.Model.{
  new, Incident, IncidentDb, IncidentDraft, created, opened, priority_of,
}
use lunatic92i.Incidents.Links.{Case, Outcome, ok, err, entry_of, record_timeline, link_alert}

abbrev pub has_id : ℕ → Incident → Bool
has_id i incident = incident.id == i

-- f"INC-{year}-{row.last_number:06d}"
unfoldable pub display_text : ℕ → ℕ → Text
display_text year number = numbered (codes "INC-") year number

-- The new counters and the id; `none` is the exception of `scalar_one` on no row.
unfoldable pub next_display_id : ℕ → ℕ → List Sequence → Option (Text × List Sequence)
next_display_id tenant year rows = elim (next_number tenant year rows) [
  | none ↦ none
  | some (number, after) ↦ some (display_text year number, after)
]

-- The clock, the year that it shows and the id that a new row would get.
pub record Moment : Type 0 where
  pub now : ℕ
  pub year : ℕ
  pub fresh_id : ℕ

-- `text or default`
unfoldable pub text_or : Option Text → Text → Text
text_or none default = default
text_or (some []) default = default
text_or (some (c ∷ cs)) default = c ∷ cs

unfoldable pub new_incident : ℕ → IncidentDraft → Option ℕ → Moment → Text → Incident
unfolding text_or priority_of
new_incident tenant draft actor m display_id = record {
  id = m.fresh_id;
  tenant_id = tenant;
  display_id = display_id;
  title = take 300 draft.title;
  description = draft.description;
  severity = draft.severity;
  priority = text_or draft.priority (priority_of draft.severity);
  status = new;
  analyst_id = actor;
  resolution = none;
  lessons_learned = none;
  detected_at = some m.now;
  contained_at = none;
  closed_at = none;
}

-- One row of the audit log, of an incident.
unfoldable pub audit_row :
    ℕ → Option ℕ → Option Text → Text → Text → Option State → Option State → AuditEvent
audit_row tenant actor ip action display_id before after = record {
  tenant_id = tenant;
  actor_id = actor;
  actor_ip = ip;
  action = action;
  object_type = codes "incident";
  object_id = some display_id;
  before_state = before;
  after_state = after;
  success = true;
}

unfoldable pub log : IncidentDb → AuditEvent → IncidentDb
unfolding record_audit_event
log db row = record db { audit = record_audit_event db.audit row }

-- The row of the incident and its first entry.
unfoldable pub insert_incident : IncidentDb → Incident → List Sequence → Case → IncidentDb
unfolding record_timeline entry_of
insert_incident db incident sequences c =
    record_timeline (record db { incidents = db.incidents ++ incident ∷ []; sequences = sequences })
      (entry_of c created (incident.display_id ++ codes " opened")
        (opened incident.severity incident.priority))

-- The loop over `draft.alert_ids`, which an unknown alert ends.
unfoldable pub link_all : IncidentDb → Case → List ℕ → Outcome ℕ × IncidentDb
unfolding link_alert
link_all db c [] = (ok 0, db)
link_all db c (i ∷ more) =
    let (linked, after) = link_alert db c i in
    elim linked [ err e ↦ (err e, after) | ok fresh ↦ link_all after c more ]

-- The tables after a creation; an exception leaves them as they were. The inner `none` is an
-- exception in `next_display_id`.
unfoldable pub create_incident :
    IncidentDb
    → ℕ
    → IncidentDraft
    → Option ℕ
    → Option Text
    → Moment
    → Option (Outcome Incident × IncidentDb)
unfolding next_display_id insert_incident link_all new_incident audit_row log
create_incident db tenant draft actor ip m = elim (next_display_id tenant m.year db.sequences) [
  | none ↦ none
  | some (display_id, sequences) ↦
      let incident = new_incident tenant draft actor m display_id in
      let c : Case = record { tenant_id = tenant; incident_id = m.fresh_id; actor_id = actor } in
      let (linked, after) = link_all (insert_incident db incident sequences c) c draft.alert_ids in
      some (elim linked [
        | err e ↦ (err e, db)
        | ok n ↦ (
          ok incident,
          log after (
              audit_row tenant actor ip (codes "CREATE_INCIDENT") display_id none (
                some (
                  (codes "title", text incident.title)
                  ∷ (codes "severity", text incident.severity)
                  ∷ (codes "alerts", count (length draft.alert_ids))
                  ∷ []))),
        )
      ])
]
