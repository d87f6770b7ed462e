-- ===== src/Incidents/Consistency.antt =====
-- The columns of the lifecycle and the timeline, for the writes of backend/app/services/incidents.py.
use lunatic92i.Common.{
  ℕ, ◌≡◌, refl, sym, ◌∙◌, ap, true, false, Option, none, some, List, [], ◌∷◌, ◌++◌, arith, Text,
  codes, ◌==◌, is_some, any, All, update, find-All, update-All_cases, All-append, All-imp, All-both,
  any-false_All, any-update, any-snoc_false, ==_iff, ==_refl, ==_comm,
}
use lunatic92i.Sequences.{Sequence}
use lunatic92i.Incidents.Model.{
  Status, new, closed, Incident, IncidentDb, IncidentTimeline, created, opened, is_allowed,
  status_eq, status_text, moved, status_change,
}
use lunatic92i.Incidents.Links.{Case, get_incident, is_incident, entry_of, record_timeline}
use lunatic92i.Incidents.Lifecycle.{Change, move, apply_move, set_fields, set_field}
use lunatic92i.Incidents.Opening.{has_id, log, insert_incident}
use lunatic92i.Incidents.History.{
  IsNeutral, read_detail, read_entry, replay, replay-snoc, replay-other, replay-neutral,
  status_eq_refl,
}

-- An incident has a closing time exactly if it is closed, and its timeline ends in its status.
abbrev pub IsSound : List IncidentTimeline → Incident → Type 0
IsSound timeline incident =
    (is_some incident.closed_at ≡ status_eq incident.status closed)
    × (replay incident.id timeline ≡ some (some incident.status))

pub record IsCoherent (db : IncidentDb) : Type 0 where
  pub sound : All (IsSound db.timeline) db.incidents
  pub unborn : (i : ℕ) → any (has_id i) db.incidents ≡ false → replay i db.timeline ≡ some none

-- An accepted move: the id stays, the status is the target and `closed_at` agrees with it.
pub move_keeps :
    (t : Status) (remark : Option Text) (now : ℕ) (incident : Incident)
    → ((move t remark now incident).id ≡ incident.id)
      × ((move t remark now incident).tenant_id ≡ incident.tenant_id)
      × ((move t remark now incident).status ≡ t)
      × (is_some (move t remark now incident).closed_at ≡ status_eq t closed)
unfolding move
move_keeps t remark now incident = ground arith

-- A change of fields leaves the columns of the lifecycle alone.
pub set_fields_keeps :
    (values : List Change) (incident : Incident)
    → ((set_fields values incident).id ≡ incident.id)
      × ((set_fields values incident).tenant_id ≡ incident.tenant_id)
      × ((set_fields values incident).status ≡ incident.status)
      × ((set_fields values incident).closed_at ≡ incident.closed_at)
unfolding set_fields
set_fields_keeps [] incident = (refl, refl, refl, refl)
set_fields_keeps (c ∷ more) incident =
    let (a, b, d, e) = set_fields_keeps more (set_field c incident) in
    let (a', b', d', e') = once c in (a ∙ a', b ∙ b', d ∙ d', e ∙ e')
  where
    once :
        (v : Change)
        → ((set_field v incident).id ≡ incident.id)
          × ((set_field v incident).tenant_id ≡ incident.tenant_id)
          × ((set_field v incident).status ≡ incident.status)
          × ((set_field v incident).closed_at ≡ incident.closed_at)
    once v = ground arith

module _ (db : IncidentDb) (h : IsCoherent db) where
  pub born-IsCoherent :
      (c : Case) (incident : Incident) (sequences : List Sequence)
      → any (has_id c.incident_id) db.incidents ≡ false
      → incident.id ≡ c.incident_id
      → incident.status ≡ new
      → incident.closed_at ≡ none
      → IsCoherent (insert_incident db incident sequences c)
  unfolding insert_incident record_timeline
  born-IsCoherent c incident sequences fresh same is_new not_closed = record {
    sound =
        All-append (IsSound (db.timeline ++ entry ∷ [])) db.incidents _
          (All-imp _ _ db.incidents
            (λ x k. (
              k.0.0,
              replay-other x.id db.timeline entry (some x.status)
                  (unfold entry_of in ==_comm c.incident_id x.id ∙ k.1) k.0.1,
            ))
            (All-both _ _ db.incidents h.sound
              (any-false_All (has_id c.incident_id) db.incidents fresh)))
          ((rw (is_new, not_closed) (unfold status_eq in refl), rw (same, is_new) first), tt);
    unborn = λ i away.
        let (old, other) = any-snoc_false (has_id i) db.incidents incident away in
        replay-other i db.timeline entry none
          (unfold entry_of in ap (λ n. n == i) (sym same) ∙ other) (h.unborn i old);
  }
    where
      entry : IncidentTimeline
      entry =
          entry_of c created (incident.display_id ++ codes " opened")
            (opened incident.severity incident.priority)

      first : replay c.incident_id (db.timeline ++ entry ∷ []) ≡ some (some new)
      first =
          replay-snoc c.incident_id db.timeline entry none (h.unborn c.incident_id fresh)
          ∙ unfold read_entry entry_of read_detail in rw (==_refl c.incident_id)

  pub moved-IsCoherent :
      (c : Case) (ip : Option Text) (incident : Incident) (t : Status) (remark : Option Text)
      (now : ℕ)
      → get_incident db c.tenant_id c.incident_id ≡ some incident
      → incident.id ≡ c.incident_id
      → is_allowed incident.status t ≡ true
      → IsCoherent (apply_move db c ip incident t remark now)
  unfolding apply_move record_timeline log get_incident
  moved-IsCoherent c ip incident t remark now found same allowed = record {
    sound =
        update-All_cases (IsSound db.timeline) (IsSound (db.timeline ++ entry ∷ []))
          (has_id incident.id) (λ _. after) db.incidents (λ x _ k. after-IsSound)
          (λ x other k. (
            k.0,
            replay-other x.id db.timeline entry (some x.status)
                (unfold entry_of in
                  ap (λ n. n == x.id) (sym same) ∙ (==_comm incident.id x.id ∙ other))
                k.1,
          ))
          h.sound;
    unborn = λ i away.
        let old =
          any-update (has_id i) (has_id incident.id) (λ _. after) db.incidents
            (λ x this. ap (λ n. n == i) (keeps.0 ∙ sym ((==_iff x.id incident.id).0 this))) in
        let there = sym old ∙ away in
        replay-other i db.timeline entry none
          (unfold entry_of in
            ap (λ n. n == i) (sym same)
            ∙ find-All (λ x. has_id i x ≡ false) (is_incident c.tenant_id c.incident_id)
                db.incidents incident (any-false_All (has_id i) db.incidents there) found)
          (h.unborn i there);
  }
    where
      after : Incident
      after = move t remark now incident

      entry : IncidentTimeline
      entry =
          entry_of c status_change (status_text incident.status ++ (codes " → " ++ status_text t))
            (moved incident.status t remark)

      keeps :
          (after.id ≡ incident.id)
          × (after.tenant_id ≡ incident.tenant_id)
          × (after.status ≡ t)
          × (is_some after.closed_at ≡ status_eq t closed)
      keeps = move_keeps t remark now incident

      before-IsSound : IsSound db.timeline incident
      before-IsSound =
          find-All (IsSound db.timeline) (is_incident c.tenant_id c.incident_id) db.incidents
            incident h.sound found

      last : replay incident.id (db.timeline ++ entry ∷ []) ≡ some (some t)
      last =
          replay-snoc incident.id db.timeline entry (some incident.status) before-IsSound.1
          ∙ unfold read_entry entry_of read_detail in
            rw (sym same, ==_refl incident.id, status_eq_refl incident.status) (rw allowed)

      after-IsSound : IsSound (db.timeline ++ entry ∷ []) after
      after-IsSound =
          (keeps.3 ∙ ap (λ s. status_eq s closed) (sym keeps.2), rw (keeps.0, keeps.2) last)

  -- An entry that says nothing about a status keeps the rest as it is.
  pub entry-IsCoherent :
      (entry : IncidentTimeline) → IsNeutral entry.detail → IsCoherent (record_timeline db entry)
  unfolding record_timeline
  entry-IsCoherent entry neutral = record {
    sound =
        All-imp (IsSound db.timeline) (IsSound (db.timeline ++ entry ∷ [])) db.incidents
          (λ x k. (k.0, replay-neutral x.id db.timeline entry (some x.status) neutral k.1)) h.sound;
    unborn = λ i away. replay-neutral i db.timeline entry none neutral (h.unborn i away);
  }

  -- Writing a found row back with other fields changed.
  pub fields-IsCoherent :
      (tenant i : ℕ) (incident : Incident) (values : List Change)
      → get_incident db tenant i ≡ some incident
      → IsCoherent (record db {
        incidents = update (has_id incident.id) (λ _. set_fields values incident) db.incidents;
      })
  unfolding get_incident
  fields-IsCoherent tenant i incident values found = record {
    sound =
        update-All_cases (IsSound db.timeline) (IsSound db.timeline) (has_id incident.id)
          (λ _. set_fields values incident) db.incidents
          (λ x _ k.
            rw (keeps.0, keeps.2, keeps.3)
              (find-All (IsSound db.timeline) (is_incident tenant i) db.incidents incident h.sound
                found))
          (λ x _ k. k) h.sound;
    unborn = λ j away. h.unborn j (
        sym (
          any-update (has_id j) (has_id incident.id) (λ _. set_fields values incident) db.incidents
            (λ x this. ap (λ n. n == j) (keeps.0 ∙ sym ((==_iff x.id incident.id).0 this))))
        ∙ away);
  }
    where
      keeps :
          ((set_fields values incident).id ≡ incident.id)
          × ((set_fields values incident).tenant_id ≡ incident.tenant_id)
          × ((set_fields values incident).status ≡ incident.status)
          × ((set_fields values incident).closed_at ≡ incident.closed_at)
      keeps = set_fields_keeps values incident

  -- The other tables do not matter.
  pub same-IsCoherent :
      (db' : IncidentDb)
      → db'.incidents ≡ db.incidents
      → db'.timeline ≡ db.timeline
      → IsCoherent db'
  same-IsCoherent db' incidents timeline = record {
    sound = rw (incidents, timeline) h.sound;
    unborn = rw (incidents, timeline) h.unborn;
  }
