-- ===== src/Incidents/Effect.antt =====
-- What the calls of backend/app/services/incidents.py write, said once for all of them.
use lunatic92i.Common.{
  ℕ, ◌≡◌, ◌⊎◌, refl, ap, ◌∙◌, inl, inr, Bool, true, false, Option, some, List, [], ◌∷◌, ◌++◌, Text,
  Bool-cases, Option-cases, find, any, is_some, ==_refl,
}
use lunatic92i.Incidents.Model.{
  Incident, IncidentDraft, IncidentDb, is_allowed, status_eq, status_of,
}
use lunatic92i.Incidents.Links.{
  Case, Outcome, ok, err, IncidentError, is_incident, record_timeline, get_incident, find_alert,
  find_asset, find_ioc, is_link, is_user_link, link_alert, link_asset, link_ioc, link_user,
  add_alert_link,
}
use lunatic92i.Incidents.Lifecycle.{Change, transition, analyst_in, update_incident}
use lunatic92i.Incidents.Opening.{
  Moment, has_id, next_display_id, new_incident, insert_incident, link_all, create_incident,
}
use lunatic92i.Incidents.Work.{
  TaskChange, first_line, add_note, task_of, add_task, is_task, complete, update_task,
}
use lunatic92i.Incidents.Run.{
  Op, create, transit, change, attach_alert, attach_asset, attach_ioc, attach_user, annotate,
  give_task, change_task, guarded, created_db, apply, IsFresh,
}
use lunatic92i.Incidents.Writes.{
  Write, Writes, one, born, moved, changed, alert_joined, asset_joined, ioc_joined, user_joined,
  noted, task_given, task_changed, logged, stop, next,
}

abbrev pub case_of : Op → Case
case_of (create tenant draft actor ip m) = record {
  tenant_id = tenant;
  incident_id = m.fresh_id;
  actor_id = actor;
}
case_of (transit c ip target remark now) = c
case_of (change c ip values) = c
case_of (attach_alert c i) = c
case_of (attach_asset c i) = c
case_of (attach_ioc c i) = c
case_of (attach_user c username) = c
case_of (annotate c body) = c
case_of (give_task c title description assignee due fresh_id) = c
case_of (change_task c i values now) = c

abbrev pub is_tracked : Op → Bool
is_tracked (change c ip values) = is_some (analyst_in values)
is_tracked _ = true

pub Outcome-cases :
    {A : Type 0} (o : Outcome A) → ((x : IncidentError) × (o ≡ err x)) ⊎ ((a : A) × (o ≡ ok a))
Outcome-cases (ok a) = inr (a, refl)
Outcome-cases (err x) = inl (x, refl)

link_alert-incidents :
    (db : IncidentDb) (c : Case) (i : ℕ) → (link_alert db c i).1.incidents ≡ db.incidents
unfolding link_alert add_alert_link record_timeline
link_alert-incidents db c i = elim (Option-cases (find_alert db c.tenant_id i)) [
  | inl e ↦ rw (e, link_alert) refl
  | inr (alert, e) ↦ elim (Bool-cases (any (is_link c.incident_id i) db.alert_links)) [
    | inl b ↦ rw (e, link_alert) (rw (b, link_alert) refl)
    | inr b ↦ rw (e, link_alert) (rw (b, link_alert) refl)
  ]
]

module _ (c : Case) (tracked : Bool) (db : IncidentDb) where
  -- A link to an incident that is there writes once or not at all.
  link_alert-Writes :
      (mid : IncidentDb) (i : ℕ) (incident : Incident)
      → get_incident mid c.tenant_id c.incident_id ≡ some incident
      → Writes c tracked db mid
      → Writes c tracked db (link_alert mid c i).1
  unfolding link_alert
  link_alert-Writes mid i incident here w = elim (Option-cases (find_alert mid c.tenant_id i)) [
    | inl e ↦ rw (e, link_alert) w
    | inr (alert, e) ↦ elim (Bool-cases (any (is_link c.incident_id i) mid.alert_links)) [
      | inl b ↦ rw (e, link_alert) (rw (b, link_alert) w)
      | inr b ↦
          rw (e, link_alert) (rw (b, link_alert) (next w (alert_joined alert i incident here e b)))
    ]
  ]

  link_all-Writes :
      (ids : List ℕ) (mid : IncidentDb) (incident : Incident)
      → get_incident mid c.tenant_id c.incident_id ≡ some incident
      → Writes c tracked db mid
      → Writes c tracked db (link_all mid c ids).1
  unfolding link_all get_incident
  link_all-Writes [] mid incident here w = w
  link_all-Writes (i ∷ ids) mid incident here w =
      let (result, after) = link_alert mid c i in
      let after_w = link_alert-Writes mid i incident here w in
      let still : get_incident after c.tenant_id c.incident_id ≡ some incident =
        ap (find (is_incident c.tenant_id c.incident_id)) (link_alert-incidents mid c i) ∙ here in
      elim (Outcome-cases result) [
        | inl (x, e) ↦ rw (e, link_all) after_w
        | inr (x, e) ↦ rw (e, link_all) (link_all-Writes ids after incident still after_w)
      ]

find-snoc :
    {A : Type 0} (p : A → Bool) (xs : List A) (y : A)
    → p y ≡ true
    → (a : A) × (find p (xs ++ y ∷ []) ≡ some a)
unfolding find
find-snoc p [] y h = (y, rw h)
find-snoc p (x ∷ xs) y h = elim (Bool-cases (p x)) [
  | inl b ↦ (x, rw b)
  | inr b ↦ let (a, e) = find-snoc p xs y h in (a, rw b e)
]

create-Writes :
    (db : IncidentDb) (tenant : ℕ) (draft : IncidentDraft) (actor : Option ℕ) (ip : Option Text)
    (m : Moment)
    → any (has_id m.fresh_id) db.incidents ≡ false
    → Writes
        (case_of (create tenant draft actor ip m))
        true
        db
        (created_db db (create_incident db tenant draft actor ip m))
unfolding created_db create_incident
create-Writes db tenant draft actor ip m fresh =
    elim (Option-cases (next_display_id tenant m.year db.sequences)) [
      | inl e ↦ rw (e, created_db, create_incident) stop
      | inr ((display_id, sequences), e) ↦
          let c = case_of (create tenant draft actor ip m) in
          let incident = new_incident tenant draft actor m display_id in
          let opened_db = insert_incident db incident sequences c in
          let first : Write c true db opened_db =
            unfold new_incident in born incident sequences fresh refl refl refl refl in
          let (found, here) : (a : Incident) × (get_incident opened_db tenant m.fresh_id ≡ some a) =
            unfold get_incident insert_incident record_timeline in
            find-snoc (is_incident tenant m.fresh_id) db.incidents incident
              (unfold is_incident new_incident in rw (==_refl m.fresh_id, ==_refl tenant) refl) in
          let linked = link_all-Writes c true db draft.alert_ids opened_db found here (one first) in
          rw (e, created_db, create_incident)
            (elim (Outcome-cases (link_all opened_db c draft.alert_ids).0) [
              | inl (x, r) ↦ rw (r, created_db) stop
              | inr (n, r) ↦ rw (r, created_db) (next linked (logged _))
            ])
    ]

transit-Writes :
    (db : IncidentDb) (c : Case) (ip : Option Text) (target : Text) (remark : Option Text) (now : ℕ)
    → Writes c true db (transition db c ip target remark now).1
unfolding transition
transit-Writes db c ip target remark now =
    elim (Option-cases (get_incident db c.tenant_id c.incident_id)) [
      | inl e ↦ rw (e, transition) stop
      | inr (incident, e) ↦
          rw (e, transition)
            (elim (Option-cases (status_of target)) [
              | inl u ↦ rw (u, transition) stop
              | inr (t, u) ↦
                  rw (u, transition)
                    (elim (Bool-cases (status_eq t incident.status)) [
                      | inl b ↦ rw (b, transition) stop
                      | inr b ↦
                          rw (b, transition)
                            (elim (Bool-cases (is_allowed incident.status t)) [
                              | inl a ↦
                                  rw (a, transition) (one (moved ip incident t remark now e a))
                              | inr a ↦ rw (a, transition) stop
                            ])
                    ])
            ])
    ]

module _ (db : IncidentDb) (c : Case) where
  change-Writes :
      (ip : Option Text) (values : List Change)
      → Writes c (is_some (analyst_in values)) db (update_incident db c ip values).1
  unfolding update_incident
  change-Writes ip values = elim (Option-cases (get_incident db c.tenant_id c.incident_id)) [
    | inl e ↦ rw (e, update_incident) stop
    | inr (incident, e) ↦ rw (e, update_incident) (one (changed ip incident values e refl))
  ]

  -- A guarded call writes nothing, or what it writes with the incident there.
  guarded-Writes :
      (linked : Outcome Bool × IncidentDb)
      → ((incident : Incident)
          → get_incident db c.tenant_id c.incident_id ≡ some incident
          → Writes c true db linked.1)
      → Writes c true db (guarded db c linked).1
  unfolding guarded
  guarded-Writes linked h = elim (Option-cases (get_incident db c.tenant_id c.incident_id)) [
    | inl e ↦ rw (e, guarded) stop
    | inr (incident, e) ↦ rw (e, guarded) (h incident e)
  ]

  link_asset-Writes :
      (i : ℕ) (incident : Incident)
      → get_incident db c.tenant_id c.incident_id ≡ some incident
      → Writes c true db (link_asset db c i).1
  unfolding link_asset
  link_asset-Writes i incident here = elim (Option-cases (find_asset db c.tenant_id i)) [
    | inl e ↦ rw (e, link_asset) stop
    | inr (asset, e) ↦ elim (Bool-cases (any (is_link c.incident_id i) db.asset_links)) [
      | inl b ↦ rw (e, link_asset) (rw (b, link_asset) stop)
      | inr b ↦
          rw (e, link_asset) (rw (b, link_asset) (one (asset_joined asset i incident here e b)))
    ]
  ]

  link_ioc-Writes :
      (i : ℕ) (incident : Incident)
      → get_incident db c.tenant_id c.incident_id ≡ some incident
      → Writes c true db (link_ioc db c i).1
  unfolding link_ioc
  link_ioc-Writes i incident here = elim (Option-cases (find_ioc db c.tenant_id i)) [
    | inl e ↦ rw (e, link_ioc) stop
    | inr (ioc, e) ↦ elim (Bool-cases (any (is_link c.incident_id i) db.ioc_links)) [
      | inl b ↦ rw (e, link_ioc) (rw (b, link_ioc) stop)
      | inr b ↦ rw (e, link_ioc) (rw (b, link_ioc) (one (ioc_joined ioc i incident here e b)))
    ]
  ]

  link_user-Writes : (username : Text) → Writes c true db (link_user db c username).1
  unfolding link_user
  link_user-Writes username =
      elim (Bool-cases (any (is_user_link c.incident_id username) db.users)) [
        | inl b ↦ rw (b, link_user) stop
        | inr b ↦ rw (b, link_user) (one (user_joined username b))
      ]

  add_note-Writes : (body : Text) → Writes c true db (add_note db c body).1
  unfolding add_note
  add_note-Writes body = elim (Option-cases (get_incident db c.tenant_id c.incident_id)) [
    | inl e ↦ rw (e, add_note) stop
    | inr (incident, e) ↦
        rw (e, add_note)
          (elim (Option-cases (first_line body)) [
            | inl l ↦ rw (l, add_note) stop
            | inr (line, l) ↦ rw (l, add_note) (one (noted body line))
          ])
  ]

  add_task-Writes :
      (title : Text) (description : Option Text) (assignee due : Option ℕ) (fresh_id : ℕ)
      → Writes c true db (add_task db c title description assignee due fresh_id).1
  unfolding add_task
  add_task-Writes title description assignee due fresh_id =
      elim (Option-cases (get_incident db c.tenant_id c.incident_id)) [
        | inl e ↦ rw (e, add_task) stop
        | inr (incident, e) ↦
            rw (e, add_task) (one (task_given (task_of c title description assignee due fresh_id)))
      ]

  update_task-Writes :
      (i : ℕ) (values : List TaskChange) (now : ℕ)
      → Writes c true db (update_task db c i values now).1
  unfolding update_task
  update_task-Writes i values now = elim (Option-cases (find (is_task c i) db.tasks)) [
    | inl e ↦ rw (e, update_task) stop
    | inr (t, e) ↦ rw (e, update_task) (one (task_changed t (complete values now t)))
  ]

-- Every call is a sequence of writes on behalf of its case.
pub apply-Writes :
    (db : IncidentDb) (op : Op)
    → IsFresh db op
    → Writes (case_of op) (is_tracked op) db (apply db op)
unfolding apply
apply-Writes db (create tenant draft actor ip m) fresh =
    create-Writes db tenant draft actor ip m fresh
apply-Writes db (transit c ip target remark now) fresh = transit-Writes db c ip target remark now
apply-Writes db (change c ip values) fresh = change-Writes db c ip values
apply-Writes db (attach_alert c i) fresh =
    guarded-Writes db c (link_alert db c i)
      (λ incident here. link_alert-Writes c true db db i incident here stop)
apply-Writes db (attach_asset c i) fresh =
    guarded-Writes db c (link_asset db c i) (link_asset-Writes db c i)
apply-Writes db (attach_ioc c i) fresh =
    guarded-Writes db c (link_ioc db c i) (link_ioc-Writes db c i)
apply-Writes db (attach_user c username) fresh =
    guarded-Writes db c (link_user db c username) (λ incident here. link_user-Writes db c username)
apply-Writes db (annotate c body) fresh = add_note-Writes db c body
apply-Writes db (give_task c title description assignee due fresh_id) fresh =
    add_task-Writes db c title description assignee due fresh_id
apply-Writes db (change_task c i values now) fresh = update_task-Writes db c i values now
