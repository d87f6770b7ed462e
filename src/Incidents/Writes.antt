-- ===== src/Incidents/Writes.antt =====
-- The kinds of write that the calls of backend/app/services/incidents.py are made of.
use lunatic92i.Common.{ℕ, ◌≡◌, Bool, true, false, Option, none, some, List, Text, any, is_some}
use lunatic92i.Audit.{AuditEvent}
use lunatic92i.Sequences.{Sequence}
use lunatic92i.Alerts.Model.{Alert}
use lunatic92i.Incidents.Model.{
  Status, new, Incident, IncidentTask, IncidentDb, Asset, Ioc, is_allowed,
}
use lunatic92i.Incidents.Links.{
  Case, get_incident, find_alert, find_asset, find_ioc, is_link, is_user_link, add_alert_link,
  add_asset_link, add_ioc_link, add_user_link,
}
use lunatic92i.Incidents.Lifecycle.{Change, apply_move, analyst_in, apply_changes}
use lunatic92i.Incidents.Opening.{has_id, log, insert_incident}
use lunatic92i.Incidents.Work.{insert_note, insert_task, write_task}

-- One write on behalf of a case. `tracked` says that a change of fields names the analyst.
pub data Write (c : Case) (tracked : Bool) (db : IncidentDb) : IncidentDb → Type 0 where
  born :
      (incident : Incident) (sequences : List Sequence)
      → any (has_id c.incident_id) db.incidents ≡ false
      → incident.id ≡ c.incident_id
      → incident.tenant_id ≡ c.tenant_id
      → incident.status ≡ new
      → incident.closed_at ≡ none
      → Write c tracked db (insert_incident db incident sequences c)
  moved :
      (ip : Option Text) (incident : Incident) (t : Status) (remark : Option Text) (now : ℕ)
      → get_incident db c.tenant_id c.incident_id ≡ some incident
      → is_allowed incident.status t ≡ true
      → Write c tracked db (apply_move db c ip incident t remark now)
  changed :
      (ip : Option Text) (incident : Incident) (values : List Change)
      → get_incident db c.tenant_id c.incident_id ≡ some incident
      → is_some (analyst_in values) ≡ tracked
      → Write c tracked db (apply_changes db c ip incident values)
  alert_joined :
      (alert : Alert) (i : ℕ) (incident : Incident)
      → get_incident db c.tenant_id c.incident_id ≡ some incident
      → find_alert db c.tenant_id i ≡ some alert
      → any (is_link c.incident_id i) db.alert_links ≡ false
      → Write c tracked db (add_alert_link db c alert)
  asset_joined :
      (asset : Asset) (i : ℕ) (incident : Incident)
      → get_incident db c.tenant_id c.incident_id ≡ some incident
      → find_asset db c.tenant_id i ≡ some asset
      → any (is_link c.incident_id i) db.asset_links ≡ false
      → Write c tracked db (add_asset_link db c asset)
  ioc_joined :
      (ioc : Ioc) (i : ℕ) (incident : Incident)
      → get_incident db c.tenant_id c.incident_id ≡ some incident
      → find_ioc db c.tenant_id i ≡ some ioc
      → any (is_link c.incident_id i) db.ioc_links ≡ false
      → Write c tracked db (add_ioc_link db c ioc)
  user_joined :
      (username : Text)
      → any (is_user_link c.incident_id username) db.users ≡ false
      → Write c tracked db (add_user_link db c username)
  noted : (body line : Text) → Write c tracked db (insert_note db c body line)
  task_given : (t : IncidentTask) → Write c tracked db (insert_task db c t)
  task_changed : (before after : IncidentTask) → Write c tracked db (write_task db c before after)
  logged : (row : AuditEvent) → Write c tracked db (log db row)

pub data Writes (c : Case) (tracked : Bool) (db : IncidentDb) : IncidentDb → Type 0 where
  stop : Writes c tracked db db
  next :
      {mid after : IncidentDb}
      → Writes c tracked db mid
      → Write c tracked mid after
      → Writes c tracked db after

pub one :
    {c : Case} {tracked : Bool} {db after : IncidentDb}
    → Write c tracked db after
    → Writes c tracked db after
one w = next stop w
