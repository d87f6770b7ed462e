-- ===== src/Incidents/Timeline.antt =====
-- The timeline as a log of the work, for the calls of backend/app/services/incidents.py.
use lunatic92i.Common.{
  ◌≡◌, ◌⊎◌, inl, inr, refl, sym, ◌∙◌, ap, Bool, true, List, [], ◌∷◌, ◌++◌, arith, codes, ◌≤◌,
  length, length-append, append_assoc, append-nil, All, All-append, Option-cases, is_some,
}
use lunatic92i.Incidents.Model.{
  Incident, Link, IncidentUser, IncidentNote, IncidentTask, IncidentDb, IncidentTimeline,
  assignment, assigned,
}
use lunatic92i.Incidents.Links.{
  Case, entry_of, record_timeline, add_alert_link, add_asset_link, add_ioc_link, add_user_link,
}
use lunatic92i.Incidents.Lifecycle.{
  Change, apply_move, apply_changes, record_assignment, analyst_in, assignee_text,
}
use lunatic92i.Incidents.Opening.{log, insert_incident}
use lunatic92i.Incidents.Work.{insert_note, insert_task, write_task}
use lunatic92i.Incidents.Run.{Op, apply, IsFresh}
use lunatic92i.Incidents.Effect.{case_of, is_tracked, apply-Writes}
use lunatic92i.Incidents.Writes.{Write, Writes, stop, next}

-- The entry names the tenant, the incident and the actor of the case.
abbrev pub IsEntryOf : Case → IncidentTimeline → Type 0
IsEntryOf c entry =
    (entry.tenant_id ≡ c.tenant_id)
    × (entry.incident_id ≡ c.incident_id)
    × (entry.actor_id ≡ c.actor_id)

-- The tables that describe the work on the incidents.
abbrev pub work_of :
    IncidentDb
    → List Incident
      × List Link
      × List Link
      × List Link
      × List IncidentUser
      × List IncidentNote
      × List IncidentTask
work_of db =
    (db.incidents, db.alert_links, db.asset_links, db.ioc_links, db.users, db.notes, db.tasks)

-- The timeline is extended by entries of the case, and without a new entry no work has changed.
pub record Recorded (c : Case) (db after : IncidentDb) : Type 0 where
  pub entries : List IncidentTimeline
  pub extends : after.timeline ≡ db.timeline ++ entries
  pub own : All (IsEntryOf c) entries
  pub explained : (work_of after ≡ work_of db) ⊎ (1 ≤ length entries)

nothing : (c : Case) (db : IncidentDb) → Recorded c db db
nothing c db = record {
  entries = [];
  extends = sym (append-nil db.timeline);
  own = tt;
  explained = inl refl;
}

-- One entry of the case.
one_entry :
    (c : Case) (db after : IncidentDb) (entry : IncidentTimeline)
    → IsEntryOf c entry
    → after.timeline ≡ db.timeline ++ entry ∷ []
    → Recorded c db after
one_entry c db after entry own e = record {
  entries = entry ∷ [];
  extends = e;
  own = (own, tt);
  explained = inr (omega arith);
}

module _ {c : Case} {db mid after : IncidentDb} where
  both_explained :
      (first : Recorded c db mid) (second : Recorded c mid after)
      → (work_of after ≡ work_of db) ⊎ (1 ≤ length (first.entries ++ second.entries))
  both_explained first second =
      let size = length-append first.entries second.entries in
      elim first.explained [
        | inr e ↦ inr (omega (arith, size, e))
        | inl e ↦ elim second.explained [
          | inl f ↦ inl (f ∙ e)
          | inr f ↦ inr (omega (arith, size, f))
        ]
      ]

  -- Two writes one after the other.
  in_turn : Recorded c db mid → Recorded c mid after → Recorded c db after
  in_turn first second = record {
    entries = first.entries ++ second.entries;
    extends =
        second.extends
        ∙ ap (λ ts. ts ++ second.entries) first.extends
        ∙ append_assoc db.timeline first.entries second.entries;
    own = All-append (IsEntryOf c) first.entries second.entries first.own second.own;
    explained = both_explained first second;
  }

changed-Recorded :
    (c : Case) (db mid : IncidentDb) (values : List Change)
    → mid.timeline ≡ db.timeline
    → is_some (analyst_in values) ≡ true
    → Recorded c db (record_assignment mid c values)
unfolding record_assignment record_timeline entry_of
changed-Recorded c db mid values same h = elim (Option-cases (analyst_in values)) [
  | inl e ↦ absurd (ground arith)
  | inr (a, e) ↦
      rw (e, record_assignment)
        (one_entry c db _
          (entry_of c assignment (codes "assigned to " ++ assignee_text a) (assigned a))
          (refl, refl, refl) (rw same))
]

Write-Recorded :
    (c : Case) (tracked : Bool) (db after : IncidentDb)
    → Write c tracked db after
    → tracked ≡ true
    → Recorded c db after
unfolding add_alert_link add_asset_link add_ioc_link add_user_link insert_note insert_task
    write_task log entry_of apply_changes apply_move insert_incident record_timeline
Write-Recorded c tracked db _ (Write.born incident sequences fresh _ _ _ _) on =
    one_entry c db _ _ (refl, refl, refl) refl
Write-Recorded c tracked db _ (Write.moved ip incident t remark now found allowed) on =
    one_entry c db _ _ (refl, refl, refl) refl
Write-Recorded c tracked db _ (Write.changed ip incident values found named) on =
    let r = changed-Recorded c db _ values refl (named ∙ on) in
    record { entries = r.entries; extends = r.extends; own = r.own; explained = r.explained }
Write-Recorded c tracked db _ (Write.alert_joined alert i incident _ _ _) on =
    one_entry c db _ _ (refl, refl, refl) refl
Write-Recorded c tracked db _ (Write.asset_joined asset i incident _ _ _) on =
    one_entry c db _ _ (refl, refl, refl) refl
Write-Recorded c tracked db _ (Write.ioc_joined ioc i incident _ _ _) on =
    one_entry c db _ _ (refl, refl, refl) refl
Write-Recorded c tracked db _ (Write.user_joined username _) on =
    one_entry c db _ _ (refl, refl, refl) refl
Write-Recorded c tracked db _ (Write.noted body line) on =
    one_entry c db _ _ (refl, refl, refl) refl
Write-Recorded c tracked db _ (Write.task_given t) on = one_entry c db _ _ (refl, refl, refl) refl
Write-Recorded c tracked db _ (Write.task_changed before after) on =
    one_entry c db _ _ (refl, refl, refl) refl
Write-Recorded c tracked db _ (Write.logged row) on = record {
  entries = [];
  extends = sym (append-nil db.timeline);
  own = tt;
  explained = inl refl;
}

Writes-Recorded :
    {c : Case} {tracked : Bool} {db after : IncidentDb}
    → Writes c tracked db after
    → tracked ≡ true
    → Recorded c db after
Writes-Recorded stop on = nothing _ _
Writes-Recorded (next before w) on =
    in_turn (Writes-Recorded before on) (Write-Recorded _ _ _ _ w on)

-- Every call but a change of fields that does not name the analyst extends the timeline by entries that
-- carry its tenant, its incident and its actor, erases no entry, and leaves the incidents, links,
-- accounts, notes and tasks as they were if it adds none. A new incident has an id that no incident has.
pub apply-Recorded :
    (db : IncidentDb) (op : Op)
    → IsFresh db op
    → is_tracked op ≡ true
    → Recorded (case_of op) db (apply db op)
apply-Recorded db op fresh on = Writes-Recorded (apply-Writes db op fresh) on
