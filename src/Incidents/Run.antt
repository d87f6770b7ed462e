-- ===== src/Incidents/Run.antt =====
-- The calls that change an incident, as the API makes them, and the tables that they reach:
-- backend/app/services/incidents.py, with the guards of backend/app/api/incidents.py, which look the
-- incident up before they link anything to it.
use lunatic92i.Common.{ℕ, ◌≡◌, Bool, false, Option, none, some, List, [], Text, any}
use lunatic92i.Alerts.Model.{Alert}
use lunatic92i.Incidents.Model.{IncidentDb, Incident, IncidentDraft, Asset, Ioc}
use lunatic92i.Incidents.Links.{
  Case, Outcome, err, not_found, get_incident, link_alert, link_asset, link_ioc, link_user,
}
use lunatic92i.Incidents.Lifecycle.{Change, transition, update_incident}
use lunatic92i.Incidents.Opening.{Moment, has_id, create_incident}
use lunatic92i.Incidents.Work.{TaskChange, add_note, add_task, update_task}

pub data Op : Type 0 where
  create : ℕ → IncidentDraft → Option ℕ → Option Text → Moment → Op
  transit : Case → Option Text → Text → Option Text → ℕ → Op
  change : Case → Option Text → List Change → Op
  attach_alert attach_asset attach_ioc : Case → ℕ → Op
  attach_user : Case → Text → Op
  annotate : Case → Text → Op
  give_task : Case → Text → Option Text → Option ℕ → Option ℕ → ℕ → Op
  change_task : Case → ℕ → List TaskChange → ℕ → Op

-- `service.get_incident` before a link.
unfoldable pub guarded : IncidentDb → Case → Outcome Bool × IncidentDb → Outcome Bool × IncidentDb
unfolding get_incident
guarded db c linked = elim (get_incident db c.tenant_id c.incident_id) [
  | none ↦ (err (not_found c.incident_id), db)
  | some incident ↦ linked
]

unfoldable pub created_db : IncidentDb → Option (Outcome Incident × IncidentDb) → IncidentDb
created_db db none = db
created_db db (some (result, after)) = after

-- The tables after a call. An exception leaves them as they were, since nothing is committed.
unfoldable pub apply : IncidentDb → Op → IncidentDb
unfolding created_db create_incident transition update_incident guarded link_alert link_asset
    link_ioc link_user add_note add_task update_task
apply db (create tenant draft actor ip m) =
    created_db db (create_incident db tenant draft actor ip m)
apply db (transit c ip target remark now) = (transition db c ip target remark now).1
apply db (change c ip values) = (update_incident db c ip values).1
apply db (attach_alert c i) = (guarded db c (link_alert db c i)).1
apply db (attach_asset c i) = (guarded db c (link_asset db c i)).1
apply db (attach_ioc c i) = (guarded db c (link_ioc db c i)).1
apply db (attach_user c username) = (guarded db c (link_user db c username)).1
apply db (annotate c body) = (add_note db c body).1
apply db (give_task c title description assignee due fresh_id) =
    (add_task db c title description assignee due fresh_id).1
apply db (change_task c i values now) = (update_task db c i values now).1

-- A new incident gets an id that no incident has.
abbrev pub IsFresh : IncidentDb → Op → Type 0
IsFresh db (create tenant draft actor ip m) = any (has_id m.fresh_id) db.incidents ≡ false
IsFresh db _ = Unit

-- No incidents yet, over the alerts, assets and indicators that there are.
abbrev pub start_db : List Alert → List Asset → List Ioc → IncidentDb
start_db alerts assets iocs = record {
  incidents = [];
  sequences = [];
  alert_links = [];
  asset_links = [];
  ioc_links = [];
  users = [];
  notes = [];
  tasks = [];
  timeline = [];
  audit = [];
  alerts = alerts;
  assets = assets;
  iocs = iocs;
}

pub data Reach (alerts : List Alert) (assets : List Asset) (iocs : List Ioc)
    : IncidentDb → Type 0 where
  start : Reach alerts assets iocs (start_db alerts assets iocs)
  step :
      {db : IncidentDb}
      → Reach alerts assets iocs db
      → (op : Op) → IsFresh db op
      → Reach alerts assets iocs (apply db op)
