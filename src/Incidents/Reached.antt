-- ===== src/Incidents/Reached.antt =====
-- The lifecycle columns and the timeline of the incident tables that calls of
-- backend/app/services/incidents.py reach.
use lunatic92i.Common.{ℕ, ◌≡◌, refl, some, List, inl, inr, Option-cases, find-passes, arith, ==_iff}
use lunatic92i.Alerts.Model.{Alert}
use lunatic92i.Incidents.Model.{Incident, Asset, Ioc, IncidentDb}
use lunatic92i.Incidents.Links.{
  Case, get_incident, is_incident, entry_of, add_alert_link, add_asset_link, add_ioc_link,
  add_user_link,
}
use lunatic92i.Incidents.Lifecycle.{Change, apply_changes, record_assignment, analyst_in}
use lunatic92i.Incidents.Opening.{log}
use lunatic92i.Incidents.Work.{insert_note, insert_task, write_task}
use lunatic92i.Incidents.Run.{Reach}
use lunatic92i.Incidents.Writes.{Write}
use lunatic92i.Incidents.History.{read_detail, replay}
use lunatic92i.Incidents.Consistency.{
  IsCoherent, born-IsCoherent, moved-IsCoherent, entry-IsCoherent, fields-IsCoherent,
  same-IsCoherent,
}
use lunatic92i.Incidents.Induction.{IsKept, Reach-keeps}

-- A found incident has the id that was asked for.
pub get_incident-id :
    (db : IncidentDb) (tenant i : ℕ) (incident : Incident)
    → get_incident db tenant i ≡ some incident
    → incident.id ≡ i
unfolding get_incident is_incident
get_incident-id db tenant i incident found =
    let passes = find-passes (is_incident tenant i) db.incidents incident found in
    (==_iff incident.id i).0 (unfold is_incident in ground (arith, passes))

assigned-IsCoherent :
    (db : IncidentDb) (c : Case) (values : List Change)
    → IsCoherent db
    → IsCoherent (record_assignment db c values)
unfolding record_assignment entry_of
assigned-IsCoherent db c values h = elim (Option-cases (analyst_in values)) [
  | inl e ↦ rw (e, record_assignment) h
  | inr (a, e) ↦
      rw (e, record_assignment) (entry-IsCoherent db h _ (λ s. unfold read_detail in refl))
]

Write-IsCoherent : IsKept IsCoherent
unfolding add_alert_link add_asset_link add_ioc_link add_user_link insert_note insert_task
    write_task log entry_of read_detail apply_changes
Write-IsCoherent c tracked db _ (Write.born incident sequences fresh same _ is_new not_closed) h =
    born-IsCoherent db h c incident sequences fresh same is_new not_closed
Write-IsCoherent c tracked db _ (Write.moved ip incident t remark now found allowed) h =
    moved-IsCoherent db h c ip incident t remark now found
      (get_incident-id db c.tenant_id c.incident_id incident found) allowed
Write-IsCoherent c tracked db _ (Write.changed ip incident values found _) h =
    same-IsCoherent _
      (assigned-IsCoherent _ c values
        (fields-IsCoherent db h c.tenant_id c.incident_id incident values found))
      _ refl refl
Write-IsCoherent c tracked db _ (Write.alert_joined alert i incident _ _ _) h =
    entry-IsCoherent _ (same-IsCoherent db h _ refl refl) _ (λ s. refl)
Write-IsCoherent c tracked db _ (Write.asset_joined asset i incident _ _ _) h =
    entry-IsCoherent _ (same-IsCoherent db h _ refl refl) _ (λ s. refl)
Write-IsCoherent c tracked db _ (Write.ioc_joined ioc i incident _ _ _) h =
    entry-IsCoherent _ (same-IsCoherent db h _ refl refl) _ (λ s. refl)
Write-IsCoherent c tracked db _ (Write.user_joined username _) h =
    entry-IsCoherent _ (same-IsCoherent db h _ refl refl) _ (λ s. refl)
Write-IsCoherent c tracked db _ (Write.noted body line) h =
    entry-IsCoherent _ (same-IsCoherent db h _ refl refl) _ (λ s. refl)
Write-IsCoherent c tracked db _ (Write.task_given t) h =
    entry-IsCoherent _ (same-IsCoherent db h _ refl refl) _ (λ s. refl)
Write-IsCoherent c tracked db _ (Write.task_changed before after) h =
    entry-IsCoherent _ (same-IsCoherent db h _ refl refl) _ (λ s. refl)
Write-IsCoherent c tracked db _ (Write.logged row) h = same-IsCoherent db h _ refl refl

-- In every state that the calls reach, an incident has a closing time exactly if its status is `closed`,
-- and its timeline is a walk of allowed moves, each from the status that the one before it left, which
-- starts with the opening and ends in the incident's status.
pub Reach-IsCoherent :
    {alerts : List Alert} {assets : List Asset} {iocs : List Ioc} {db : IncidentDb}
    → Reach alerts assets iocs db
    → IsCoherent db
unfolding replay
Reach-IsCoherent =
    Reach-keeps IsCoherent Write-IsCoherent (record { sound = tt; unborn = λ i h. refl })
