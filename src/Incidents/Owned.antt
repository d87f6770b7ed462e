-- ===== src/Incidents/Owned.antt =====
-- The links of the incident tables that calls of backend/app/services/incidents.py reach.
use lunatic92i.Common.{
  ℕ, ◌≡◌, refl, ◌∙◌, ap, Bool, true, ◌&&◌, some, List, [], arith, ◌==◌, ==_iff, ==_refl, any,
  find-passes, keep, Option-cases, inl, inr,
}
use lunatic92i.Common.Keys.{find-any}
use lunatic92i.Alerts.Model.{Alert}
use lunatic92i.Incidents.Model.{Incident, Asset, Ioc, IncidentDb}
use lunatic92i.Incidents.Links.{
  Case, is_incident, is_visible, get_incident, find_alert, find_asset, find_ioc, record_timeline,
  add_alert_link, add_asset_link, add_ioc_link, add_user_link,
}
use lunatic92i.Incidents.Lifecycle.{
  Change, apply_move, apply_changes, record_assignment, analyst_in,
}
use lunatic92i.Incidents.Opening.{log, insert_incident}
use lunatic92i.Incidents.Work.{insert_note, insert_task, write_task}
use lunatic92i.Incidents.Run.{Reach}
use lunatic92i.Incidents.Writes.{Write}
use lunatic92i.Incidents.Consistency.{move_keeps, set_fields_keeps}
use lunatic92i.Incidents.Induction.{IsKept, Reach-keeps}
use lunatic92i.Incidents.Ownership.{
  has_alert, has_asset, has_ioc, IsOwned, OwnsAll, linked-IsOwned, written-OwnsAll, born-OwnsAll,
}

module _ (db : IncidentDb) (tenant i : ℕ) where
  is_there :
      (incident : Incident)
      → get_incident db tenant i ≡ some incident
      → any (is_incident tenant i) db.incidents ≡ true
  unfolding get_incident
  is_there incident e =
      find-any (λ (x : Incident). x.id) (is_incident tenant i) (is_incident tenant i) db.incidents
        incident e (find-passes (is_incident tenant i) db.incidents incident e)

  found_alert :
      (alert : Alert)
      → find_alert db tenant i ≡ some alert
      → (alert.id ≡ i) × (has_alert db.alerts tenant alert.id ≡ true)
  unfolding find_alert
  found_alert alert e =
      let passes : (alert.id == i) && (alert.tenant_id == tenant) ≡ true =
        find-passes _ db.alerts alert e in
      (
        (==_iff alert.id i).0 (ground (arith, passes)),
        find-any (λ (x : Alert). x.id) _ (λ a. (a.id == alert.id) && (a.tenant_id == tenant))
            db.alerts alert e (rw (==_refl alert.id) (ground (arith, passes))),
      )

  found_asset :
      (asset : Asset)
      → find_asset db tenant i ≡ some asset
      → (asset.id ≡ i) × (has_asset db.assets tenant asset.id ≡ true)
  unfolding find_asset
  found_asset asset e =
      let passes : (asset.id == i) && (asset.tenant_id == tenant) ≡ true =
        find-passes _ db.assets asset e in
      (
        (==_iff asset.id i).0 (ground (arith, passes)),
        find-any (λ (x : Asset). x.id) _ (λ a. (a.id == asset.id) && (a.tenant_id == tenant))
            db.assets asset e (rw (==_refl asset.id) (ground (arith, passes))),
      )

  found_ioc :
      (ioc : Ioc)
      → find_ioc db tenant i ≡ some ioc
      → (ioc.id ≡ i) × (has_ioc db.iocs tenant ioc.id ≡ true)
  unfolding find_ioc
  found_ioc ioc e =
      let passes : (ioc.id == i) && is_visible tenant ioc.tenant_id ≡ true =
        find-passes _ db.iocs ioc e in
      (
        (==_iff ioc.id i).0 (ground (arith, passes)),
        find-any (λ (x : Ioc). x.id) _ (λ x. (x.id == ioc.id) && is_visible tenant x.tenant_id)
            db.iocs ioc e (rw (==_refl ioc.id) (ground (arith, passes))),
      )

-- A table that an entry or a row elsewhere leaves alone.
same-OwnsAll :
    (db db' : IncidentDb)
    → OwnsAll db
    → db'.incidents ≡ db.incidents
    → db'.alert_links ≡ db.alert_links
    → db'.asset_links ≡ db.asset_links
    → db'.ioc_links ≡ db.ioc_links
    → db'.alerts ≡ db.alerts
    → db'.assets ≡ db.assets
    → db'.iocs ≡ db.iocs
    → OwnsAll db'
same-OwnsAll db db' h a b c d e f g = record {
  keys = rw a h.keys;
  of_alerts = rw (a, b, e) h.of_alerts;
  of_assets = rw (a, c, f) h.of_assets;
  of_iocs = rw (a, d, g) h.of_iocs;
}

assigned-OwnsAll :
    (db : IncidentDb) (c : Case) (values : List Change)
    → OwnsAll db
    → OwnsAll (record_assignment db c values)
unfolding record_assignment record_timeline
assigned-OwnsAll db c values h = elim (Option-cases (analyst_in values)) [
  | inl e ↦ rw (e, record_assignment) h
  | inr (a, e) ↦ rw (e, record_assignment) (same-OwnsAll db _ h refl refl refl refl refl refl refl)
]

Write-OwnsAll : IsKept OwnsAll
unfolding add_alert_link add_asset_link add_ioc_link add_user_link insert_note insert_task
    write_task log insert_incident apply_move apply_changes record_timeline
Write-OwnsAll c tracked db _ (Write.born incident sequences fresh same_id same_tenant _ _) h =
    same-OwnsAll _ _
      (born-OwnsAll db h incident (ap (λ n. any (λ x. x.id == n) db.incidents) same_id ∙ fresh))
      refl refl refl refl refl refl refl
Write-OwnsAll c tracked db _ (Write.moved ip incident t remark now found allowed) h =
    let keeps = move_keeps t remark now incident in
    same-OwnsAll _ _
      (written-OwnsAll db h c.tenant_id c.incident_id incident _ found keeps.0 keeps.1) refl refl
      refl refl refl refl refl
Write-OwnsAll c tracked db _ (Write.changed ip incident values found _) h =
    let keeps = set_fields_keeps values incident in
    same-OwnsAll _ _
      (assigned-OwnsAll _ c values
        (written-OwnsAll db h c.tenant_id c.incident_id incident _ found keeps.0 keeps.1))
      refl refl refl refl refl refl refl
Write-OwnsAll c tracked db _ (Write.alert_joined alert i incident here e new) h =
    let (same, there) = found_alert db c.tenant_id i alert e in
    record {
      keys = h.keys;
      of_alerts =
          linked-IsOwned c db.incidents alert.id
            (is_there db c.tenant_id c.incident_id incident here) there (rw same new) h.of_alerts;
      of_assets = h.of_assets;
      of_iocs = h.of_iocs;
    }
Write-OwnsAll c tracked db _ (Write.asset_joined asset i incident here e new) h =
    let (same, there) = found_asset db c.tenant_id i asset e in
    record {
      keys = h.keys;
      of_alerts = h.of_alerts;
      of_assets =
          linked-IsOwned c db.incidents asset.id
            (is_there db c.tenant_id c.incident_id incident here) there (rw same new) h.of_assets;
      of_iocs = h.of_iocs;
    }
Write-OwnsAll c tracked db _ (Write.ioc_joined ioc i incident here e new) h =
    let (same, there) = found_ioc db c.tenant_id i ioc e in
    record {
      keys = h.keys;
      of_alerts = h.of_alerts;
      of_assets = h.of_assets;
      of_iocs =
          linked-IsOwned c db.incidents ioc.id (is_there db c.tenant_id c.incident_id incident here)
            there (rw same new) h.of_iocs;
    }
Write-OwnsAll c tracked db _ (Write.user_joined username _) h =
    same-OwnsAll db _ h refl refl refl refl refl refl refl
Write-OwnsAll c tracked db _ (Write.noted body line) h =
    same-OwnsAll db _ h refl refl refl refl refl refl refl
Write-OwnsAll c tracked db _ (Write.task_given t) h =
    same-OwnsAll db _ h refl refl refl refl refl refl refl
Write-OwnsAll c tracked db _ (Write.task_changed before after) h =
    same-OwnsAll db _ h refl refl refl refl refl refl refl
Write-OwnsAll c tracked db _ (Write.logged row) h =
    same-OwnsAll db _ h refl refl refl refl refl refl refl

-- In every state that the calls reach, an alert, an asset or an indicator that is linked to an incident is
-- a row of the link's tenant (an indicator may also be nobody's), the incident is one of that tenant, and
-- no incident has two links to one alert, asset or indicator; no two incidents have one id.
pub Reach-OwnsAll :
    {alerts : List Alert} {assets : List Asset} {iocs : List Ioc} {db : IncidentDb}
    → Reach alerts assets iocs db
    → OwnsAll db
Reach-OwnsAll =
    let none_yet : (has : ℕ → ℕ → Bool) → IsOwned has [] [] =
      λ has. unfold keep in record { joined = tt; once = λ i j. omega arith } in
    Reach-keeps OwnsAll Write-OwnsAll
      (record { keys = tt; of_alerts = none_yet _; of_assets = none_yet _; of_iocs = none_yet _ })
