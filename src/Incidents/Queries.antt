-- ===== src/Incidents/Queries.antt =====
-- The queries over one incident: backend/app/services/incidents.py, `count_by_status` and `timeline_for` to
-- `evidence_event_ids`. A table holds its rows in the order in which they were added, which is that of their
-- times; among alerts of one risk score the one that was linked first is first.
use lunatic92i.Common.{
  ℕ, ◌+◌, Bool, ◌&&◌, Option, none, some, List, [], ◌∷◌, ◌++◌, map, Text, text_eq, ◌==◌, ltb,
  if◌then◌else◌, keep, any,
}
use lunatic92i.Alerts.Model.{Alert}
use lunatic92i.Incidents.Model.{
  Status, Incident, Link, IncidentUser, IncidentNote, IncidentTask, IncidentTimeline, Asset, Ioc,
  IncidentDb, status_eq,
}
use lunatic92i.Incidents.Links.{Outcome, ok, err, not_found, get_incident}

-- One more row of a group.
unfoldable pub tally : Status → List (Status × ℕ) → List (Status × ℕ)
unfolding status_eq
tally s [] = (s, 1) ∷ []
tally s ((t, n) ∷ rest) = if status_eq t s then (t, n + 1) ∷ rest else (t, n) ∷ tally s rest

unfoldable pub group_by_status : ℕ → List Incident → List (Status × ℕ)
unfolding tally
group_by_status tenant [] = []
group_by_status tenant (incident ∷ rest) =
    let groups = group_by_status tenant rest in
    if incident.tenant_id == tenant then tally incident.status groups else groups

unfoldable pub count_by_status : IncidentDb → ℕ → List (Status × ℕ)
unfolding group_by_status
count_by_status db tenant = group_by_status tenant db.incidents

-- `get_incident` before a query.
unfoldable pub of_incident : {A : Type 0} → IncidentDb → ℕ → ℕ → A → Outcome A
unfolding get_incident
of_incident db tenant i rows = elim (get_incident db tenant i) [
  | none ↦ err (not_found i)
  | some incident ↦ ok rows
]

unfoldable pub timeline_for : IncidentDb → ℕ → ℕ → Outcome (List IncidentTimeline)
unfolding of_incident keep
timeline_for db tenant i =
    of_incident db tenant i
      (keep (λ (e : IncidentTimeline). (e.incident_id == i) && (e.tenant_id == tenant)) db.timeline)

unfoldable pub notes_for : IncidentDb → ℕ → ℕ → Outcome (List IncidentNote)
unfolding of_incident keep
notes_for db tenant i =
    of_incident db tenant i
      (keep (λ (n : IncidentNote). (n.incident_id == i) && (n.tenant_id == tenant)) db.notes)

unfoldable pub tasks_for : IncidentDb → ℕ → ℕ → Outcome (List IncidentTask)
unfolding of_incident keep
tasks_for db tenant i =
    of_incident db tenant i
      (keep (λ (t : IncidentTask). (t.incident_id == i) && (t.tenant_id == tenant)) db.tasks)

abbrev pub is_of_case : ℕ → ℕ → Link → Bool
is_of_case tenant i link = (link.incident_id == i) && (link.tenant_id == tenant)

-- The join of the links of a case with the table whose rows `id_of` names.
unfoldable pub join_rows : {A : Type 0} → (A → ℕ) → List A → List Link → ℕ → ℕ → List A
unfolding keep
join_rows id_of rows [] tenant i = []
join_rows id_of rows (link ∷ links) tenant i =
    let rest = join_rows id_of rows links tenant i in
    if is_of_case tenant i link then keep (λ a. id_of a == link.target_id) rows ++ rest else rest

-- `ORDER BY risk_score DESC`
unfoldable pub insert_by_risk : Alert → List Alert → List Alert
insert_by_risk a [] = a ∷ []
insert_by_risk a (b ∷ rest) =
    if ltb a.risk_score b.risk_score then b ∷ insert_by_risk a rest else a ∷ b ∷ rest

unfoldable pub sort_by_risk : List Alert → List Alert
unfolding insert_by_risk
sort_by_risk [] = []
sort_by_risk (a ∷ rest) = insert_by_risk a (sort_by_risk rest)

unfoldable pub linked_alerts : IncidentDb → ℕ → ℕ → List Alert
unfolding sort_by_risk join_rows
linked_alerts db tenant i =
    sort_by_risk (join_rows (λ (a : Alert). a.id) db.alerts db.alert_links tenant i)

-- The dictionaries of `linked_entities`.
pub record Entities : Type 0 where
  pub of_assets : List (ℕ × Option Text × Text)
  pub of_iocs : List (ℕ × Text × Text × Text)
  pub of_users : List Text

unfoldable pub linked_entities : IncidentDb → ℕ → ℕ → Entities
unfolding join_rows keep
linked_entities db tenant i = record {
  of_assets =
      map (λ (a : Asset). (a.id, a.hostname, a.criticality))
        (join_rows (λ (a : Asset). a.id) db.assets db.asset_links tenant i);
  of_iocs =
      map (λ (x : Ioc). (x.id, x.value, x.ioc_type, x.classification))
        (join_rows (λ (x : Ioc). x.id) db.iocs db.ioc_links tenant i);
  of_users =
      map (λ (u : IncidentUser). u.username)
        (keep (λ (u : IncidentUser). (u.incident_id == i) && (u.tenant_id == tenant)) db.users);
}

-- `if event_id not in seen: seen.append(event_id)`
unfoldable pub see : List Text → Text → List Text
unfolding any
see seen t = if any (text_eq t) seen then seen else seen ++ t ∷ []

unfoldable pub see_all : List Text → List Text → List Text
unfolding see
see_all seen [] = seen
see_all seen (t ∷ more) = see_all (see seen t) more

unfoldable pub see_alerts : List Text → List Alert → List Text
unfolding see_all
see_alerts seen [] = seen
see_alerts seen (a ∷ more) = see_alerts (see_all seen a.event_ids) more

unfoldable pub evidence_event_ids : IncidentDb → ℕ → ℕ → List Text
unfolding see_alerts linked_alerts
evidence_event_ids db tenant i = see_alerts [] (linked_alerts db tenant i)
