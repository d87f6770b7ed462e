-- ===== src/Incidents/Links.antt =====
-- The timeline, and what is linked to an incident: backend/app/services/incidents.py,
-- `record_timeline`, `get_incident` and `link_alert` to `link_user`.
use lunatic92i.Common.{
  ℕ, Bool, true, false, ◌&&◌, Option, none, some, [], ◌∷◌, ◌++◌, Text, codes, text_eq, ◌==◌,
  if◌then◌else◌, any, find,
}
use lunatic92i.Common.Decimal.{decimal}
use lunatic92i.Alerts.Model.{Alert}
use lunatic92i.Incidents.Model.{
  Status, Incident, Link, IncidentUser, IncidentTimeline, Kind, Detail, Asset, Ioc, IncidentDb,
  note, alert_linked, asset_linked, ioc_linked, linked_alert, linked_asset, linked_ioc, linked_user,
}

-- `IncidentNotFound` of an incident and of what is linked to one, `InvalidTransition`, and the
-- `IndexError` of a note without lines.
pub data IncidentError : Type 0 where
  not_found : ℕ → IncidentError
  no_alert no_asset no_ioc no_task : ℕ → IncidentError
  invalid_transition : Status → Text → IncidentError
  no_line : IncidentError

pub data Outcome (A : Type 0) : Type 0 where
  ok : A → Outcome A
  err : IncidentError → Outcome A

unfoldable pub record_timeline : IncidentDb → IncidentTimeline → IncidentDb
record_timeline db entry = record db { timeline = db.timeline ++ entry ∷ [] }

unfoldable pub is_incident : ℕ → ℕ → Incident → Bool
is_incident tenant i incident = (incident.id == i) && (incident.tenant_id == tenant)

-- `get_incident`, with `none` for `IncidentNotFound`.
unfoldable pub get_incident : IncidentDb → ℕ → ℕ → Option Incident
get_incident db tenant i = find (is_incident tenant i) db.incidents

unfoldable pub find_alert : IncidentDb → ℕ → ℕ → Option Alert
find_alert db tenant i = find (λ (a : Alert). (a.id == i) && (a.tenant_id == tenant)) db.alerts

unfoldable pub find_asset : IncidentDb → ℕ → ℕ → Option Asset
find_asset db tenant i = find (λ (a : Asset). (a.id == i) && (a.tenant_id == tenant)) db.assets

-- `(Ioc.tenant_id == tenant_id) | (Ioc.tenant_id.is_(None))`
unfoldable pub is_visible : ℕ → Option ℕ → Bool
is_visible tenant none = true
is_visible tenant (some owner) = owner == tenant

unfoldable pub find_ioc : IncidentDb → ℕ → ℕ → Option Ioc
unfolding is_visible
find_ioc db tenant i = find (λ (x : Ioc). (x.id == i) && is_visible tenant x.tenant_id) db.iocs

unfoldable pub is_link : ℕ → ℕ → Link → Bool
is_link incident target link = (link.incident_id == incident) && (link.target_id == target)

unfoldable pub is_user_link : ℕ → Text → IncidentUser → Bool
is_user_link incident username link =
    (link.incident_id == incident) && text_eq link.username username

-- `asset.hostname or asset.id`
unfoldable pub asset_name : Asset → Text
asset_name asset = elim asset.hostname [
  | none ↦ decimal asset.id
  | some [] ↦ decimal asset.id
  | some (c ∷ cs) ↦ c ∷ cs
]

-- The tenant, the incident and who acts.
pub record Case : Type 0 where
  pub tenant_id : ℕ
  pub incident_id : ℕ
  pub actor_id : Option ℕ

unfoldable pub entry_of : Case → Kind → Text → Detail → IncidentTimeline
entry_of c kind summary detail = record {
  tenant_id = c.tenant_id;
  incident_id = c.incident_id;
  kind = kind;
  summary = summary;
  detail = detail;
  actor_id = c.actor_id;
}

unfoldable pub link_of : Case → ℕ → Link
link_of c target = record {
  tenant_id = c.tenant_id;
  incident_id = c.incident_id;
  target_id = target;
}

unfoldable pub add_alert_link : IncidentDb → Case → Alert → IncidentDb
unfolding record_timeline entry_of link_of
add_alert_link db c alert =
    record_timeline (record db { alert_links = db.alert_links ++ link_of c alert.id ∷ [] })
      (entry_of c alert_linked (codes "alert " ++ (alert.display_id ++ codes " linked"))
        (linked_alert alert.id alert.display_id alert.title))

-- The result says whether the link is new.
unfoldable pub link_alert : IncidentDb → Case → ℕ → Outcome Bool × IncidentDb
unfolding find_alert is_link add_alert_link
link_alert db c alert_id = elim (find_alert db c.tenant_id alert_id) [
  | none ↦ (err (no_alert alert_id), db)
  | some alert ↦
      if any (is_link c.incident_id alert_id) db.alert_links
      then (ok false, db)
      else (ok true, add_alert_link db c alert)
]

unfoldable pub add_asset_link : IncidentDb → Case → Asset → IncidentDb
unfolding record_timeline entry_of link_of asset_name
add_asset_link db c asset =
    record_timeline (record db { asset_links = db.asset_links ++ link_of c asset.id ∷ [] })
      (entry_of c asset_linked (codes "asset " ++ (asset_name asset ++ codes " linked"))
        (linked_asset asset.id asset.hostname))

unfoldable pub link_asset : IncidentDb → Case → ℕ → Outcome Bool × IncidentDb
unfolding find_asset is_link add_asset_link
link_asset db c asset_id = elim (find_asset db c.tenant_id asset_id) [
  | none ↦ (err (no_asset asset_id), db)
  | some asset ↦
      if any (is_link c.incident_id asset_id) db.asset_links
      then (ok false, db)
      else (ok true, add_asset_link db c asset)
]

unfoldable pub add_ioc_link : IncidentDb → Case → Ioc → IncidentDb
unfolding record_timeline entry_of link_of
add_ioc_link db c ioc =
    record_timeline (record db { ioc_links = db.ioc_links ++ link_of c ioc.id ∷ [] })
      (entry_of c ioc_linked (codes "indicator " ++ (ioc.value ++ codes " linked"))
        (linked_ioc ioc.id ioc.value ioc.ioc_type))

unfoldable pub link_ioc : IncidentDb → Case → ℕ → Outcome Bool × IncidentDb
unfolding find_ioc is_link add_ioc_link
link_ioc db c ioc_id = elim (find_ioc db c.tenant_id ioc_id) [
  | none ↦ (err (no_ioc ioc_id), db)
  | some ioc ↦
      if any (is_link c.incident_id ioc_id) db.ioc_links
      then (ok false, db)
      else (ok true, add_ioc_link db c ioc)
]

unfoldable pub add_user_link : IncidentDb → Case → Text → IncidentDb
unfolding record_timeline entry_of
add_user_link db c username =
    record_timeline
      (record db {
        users =
            db.users
            ++ record { tenant_id = c.tenant_id; incident_id = c.incident_id; username = username }
              ∷ [];
      })
      (entry_of c note (codes "account " ++ (username ++ codes " linked")) (linked_user username))

unfoldable pub link_user : IncidentDb → Case → Text → Outcome Bool × IncidentDb
unfolding is_user_link add_user_link
link_user db c username =
    if any (is_user_link c.incident_id username) db.users
    then (ok false, db)
    else (ok true, add_user_link db c username)
