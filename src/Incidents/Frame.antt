-- ===== src/Incidents/Frame.antt =====
-- What the calls of backend/app/services/incidents.py that a playbook makes leave alone.
use lunatic92i.Common.{
  ℕ, ◌≡◌, inl, inr, refl, ◌∙◌, Option, List, [], ◌∷◌, Text, any, Bool-cases, Option-cases,
}
use lunatic92i.Incidents.Model.{IncidentDb, IncidentDraft}
use lunatic92i.Incidents.Links.{
  Case, is_link, get_incident, find_alert, record_timeline, add_alert_link, link_alert,
}
use lunatic92i.Incidents.Opening.{
  Moment, next_display_id, new_incident, insert_incident, link_all, create_incident, log,
}
use lunatic92i.Incidents.Work.{first_line, insert_note, add_note}
use lunatic92i.Incidents.Run.{created_db}
use lunatic92i.Incidents.Effect.{Outcome-cases}

link_alert-assets : (db : IncidentDb) (c : Case) (i : ℕ) → (link_alert db c i).1.assets ≡ db.assets
unfolding link_alert add_alert_link record_timeline
link_alert-assets db c i = elim (Option-cases (find_alert db c.tenant_id i)) [
  | inl e ↦ rw (e, link_alert) refl
  | inr (alert, e) ↦ elim (Bool-cases (any (is_link c.incident_id i) db.alert_links)) [
    | inl b ↦ rw (e, link_alert) (rw (b, link_alert) refl)
    | inr b ↦ rw (e, link_alert) (rw (b, link_alert) refl)
  ]
]

link_all-assets :
    (ids : List ℕ) (db : IncidentDb) (c : Case) → (link_all db c ids).1.assets ≡ db.assets
unfolding link_all
link_all-assets [] db c = refl
link_all-assets (i ∷ ids) db c =
    let (result, after) = link_alert db c i in
    elim (Outcome-cases result) [
      | inl (x, e) ↦ rw (e, link_all) (link_alert-assets db c i)
      | inr (x, e) ↦ rw (e, link_all) (link_all-assets ids after c ∙ link_alert-assets db c i)
    ]

pub create_incident-assets :
    (db : IncidentDb) (tenant : ℕ) (draft : IncidentDraft) (actor : Option ℕ) (ip : Option Text)
    (m : Moment)
    → (created_db db (create_incident db tenant draft actor ip m)).assets ≡ db.assets
unfolding created_db create_incident insert_incident record_timeline log
create_incident-assets db tenant draft actor ip m =
    elim (Option-cases (next_display_id tenant m.year db.sequences)) [
      | inl e ↦ rw (e, created_db, create_incident) refl
      | inr ((display_id, sequences), e) ↦
          let c : Case = record {
            tenant_id = tenant;
            incident_id = m.fresh_id;
            actor_id = actor;
          } in
          let opened_db =
            insert_incident db (new_incident tenant draft actor m display_id) sequences c in
          let kept = link_all-assets draft.alert_ids opened_db c in
          rw (e, created_db, create_incident)
            (elim (Outcome-cases (link_all opened_db c draft.alert_ids).0) [
              | inl (x, r) ↦ rw (r, created_db) refl
              | inr (n, r) ↦ rw (r, created_db) kept
            ])
    ]

pub add_note-assets :
    (db : IncidentDb) (c : Case) (body : Text) → (add_note db c body).1.assets ≡ db.assets
unfolding add_note insert_note record_timeline
add_note-assets db c body = elim (Option-cases (get_incident db c.tenant_id c.incident_id)) [
  | inl e ↦ rw (e, add_note) refl
  | inr (incident, e) ↦
      rw (e, add_note)
        (elim (Option-cases (first_line body)) [
          | inl l ↦ rw (l, add_note) refl
          | inr (line, l) ↦ rw (l, add_note) refl
        ])
]
