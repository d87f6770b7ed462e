-- ===== src/Incidents/Work.antt =====
-- Notes and tasks: backend/app/services/incidents.py, `add_note`, `add_task` and `update_task`.
use lunatic92i.Common.{
  ℕ, Bool, true, false, ◌&&◌, not, Option, none, some, List, [], ◌∷◌, ◌++◌, Text, codes, ◌==◌,
  if◌then◌else◌, is_some, find, update, take, length, any,
}
use lunatic92i.Incidents.Model.{
  IncidentNote, IncidentTask, TaskStatus, open_task, in_progress, done, IncidentDb, note, task,
  noted, worked,
}
use lunatic92i.Incidents.Links.{
  Case, Outcome, ok, err, not_found, no_task, no_line, entry_of, record_timeline, get_incident,
}

-- The characters at which `str.splitlines` ends a line.
abbrev pub line_ends : List ℕ
line_ends = 10 ∷ 11 ∷ 12 ∷ 13 ∷ 28 ∷ 29 ∷ 30 ∷ 133 ∷ 8232 ∷ 8233 ∷ []

unfoldable pub is_line_end : ℕ → Bool
unfolding any
is_line_end c = any (λ e. c == e) line_ends

unfoldable pub until_line_end : Text → Text
unfolding is_line_end
until_line_end [] = []
until_line_end (c ∷ cs) = if is_line_end c then [] else c ∷ until_line_end cs

-- `body.splitlines()[0]`; an empty text has no line.
unfoldable pub first_line : Text → Option Text
unfolding until_line_end
first_line [] = none
first_line (c ∷ cs) = some (until_line_end (c ∷ cs))

unfoldable pub note_of : Case → Text → IncidentNote
note_of c body = record {
  tenant_id = c.tenant_id;
  incident_id = c.incident_id;
  author_id = c.actor_id;
  body = body;
}

unfoldable pub insert_note : IncidentDb → Case → Text → Text → IncidentDb
unfolding record_timeline entry_of note_of
insert_note db c body line =
    record_timeline (record db { notes = db.notes ++ note_of c body ∷ [] })
      (entry_of c note (take 200 line) (noted (length body)))

unfoldable pub add_note : IncidentDb → Case → Text → Outcome IncidentNote × IncidentDb
unfolding get_incident first_line insert_note note_of
add_note db c body = elim (get_incident db c.tenant_id c.incident_id) [
  | none ↦ (err (not_found c.incident_id), db)
  | some incident ↦ elim (first_line body) [
    | none ↦ (err no_line, db)
    | some line ↦ (ok (note_of c body), insert_note db c body line)
  ]
]

unfoldable pub task_status_text : TaskStatus → Text
task_status_text open_task = codes "open"
task_status_text in_progress = codes "in_progress"
task_status_text done = codes "done"

unfoldable pub is_done : TaskStatus → Bool
is_done done = true
is_done _ = false

unfoldable pub task_of : Case → Text → Option Text → Option ℕ → Option ℕ → ℕ → IncidentTask
task_of c title description assignee due fresh_id = record {
  id = fresh_id;
  tenant_id = c.tenant_id;
  incident_id = c.incident_id;
  title = take 300 title;
  description = description;
  assignee_id = assignee;
  status = open_task;
  due_at = due;
  completed_at = none;
}

unfoldable pub insert_task : IncidentDb → Case → IncidentTask → IncidentDb
unfolding record_timeline entry_of
insert_task db c t =
    record_timeline (record db { tasks = db.tasks ++ t ∷ [] })
      (entry_of c task (codes "task created: " ++ t.title) (worked t.id none t.status))

unfoldable pub add_task :
    IncidentDb
    → Case
    → Text
    → Option Text
    → Option ℕ
    → Option ℕ
    → ℕ
    → Outcome IncidentTask × IncidentDb
unfolding get_incident task_of insert_task
add_task db c title description assignee due fresh_id =
    elim (get_incident db c.tenant_id c.incident_id) [
      | none ↦ (err (not_found c.incident_id), db)
      | some incident ↦
          let t = task_of c title description assignee due fresh_id in (ok t, insert_task db c t)
    ]

-- An entry of `values`: the fields of `TaskUpdate` of backend/app/schemas/incidents.py, with the type
-- of the column.
pub data TaskChange : Type 0 where
  set_title : Text → TaskChange
  set_description : Option Text → TaskChange
  set_assignee : Option ℕ → TaskChange
  set_status : TaskStatus → TaskChange
  set_due : Option ℕ → TaskChange

unfoldable pub set_task_field : TaskChange → IncidentTask → IncidentTask
set_task_field (set_title title) t = record t { title = title }
set_task_field (set_description d) t = record t { description = d }
set_task_field (set_assignee a) t = record t { assignee_id = a }
set_task_field (set_status s) t = record t { status = s }
set_task_field (set_due d) t = record t { due_at = d }

unfoldable pub set_task_fields : List TaskChange → IncidentTask → IncidentTask
unfolding set_task_field
set_task_fields [] t = t
set_task_fields (c ∷ more) t = set_task_fields more (set_task_field c t)

-- `values.get("status") == "done"`
unfoldable pub sets_done : List TaskChange → Bool
unfolding is_done
sets_done [] = false
sets_done (set_status s ∷ more) = is_done s
sets_done (c ∷ more) = sets_done more

unfoldable pub complete : List TaskChange → ℕ → IncidentTask → IncidentTask
unfolding set_task_fields sets_done
complete values now t =
    let changed = set_task_fields values t in
    if sets_done values && not (is_some changed.completed_at)
    then record changed { completed_at = some now }
    else changed

unfoldable pub is_task : Case → ℕ → IncidentTask → Bool
is_task c i t = (t.id == i) && ((t.incident_id == c.incident_id) && (t.tenant_id == c.tenant_id))

abbrev pub task_has_id : ℕ → IncidentTask → Bool
task_has_id i t = t.id == i

unfoldable pub write_task : IncidentDb → Case → IncidentTask → IncidentTask → IncidentDb
unfolding record_timeline entry_of task_status_text
write_task db c before after =
    record_timeline (record db { tasks = update (task_has_id before.id) (λ _. after) db.tasks })
      (entry_of c task
        (codes "task "
          ++ (after.title
              ++ (codes ": "
                  ++ (task_status_text before.status
                      ++ (codes " → " ++ task_status_text after.status)))))
        (worked before.id (some before.status) after.status))

unfoldable pub update_task :
    IncidentDb → Case → ℕ → List TaskChange → ℕ → Outcome IncidentTask × IncidentDb
unfolding is_task complete write_task
update_task db c i values now = elim (find (is_task c i) db.tasks) [
  | none ↦ (err (no_task i), db)
  | some t ↦ (ok (complete values now t), write_task db c t (complete values now t))
]
