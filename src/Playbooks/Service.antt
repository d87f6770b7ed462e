-- ===== src/Playbooks/Service.antt =====
-- backend/app/services/playbooks.py: playbooks and runs. What an exception leaves behind is not
-- committed, so that a refused call hands the tables back as they were. The playbook that `start_run` is
-- given is the one that `get_playbook` found (backend/app/api/playbooks.py, `run`).
use lunatic92i.Common.{
  ◌≡◌, ◌⊎◌, inl, inr, refl, ℕ, Bool, true, ◌&&◌, Option, none, some, List, [], ◌∷◌, ◌++◌, map,
  length, Text, codes, text_eq, ◌==◌, if◌then◌else◌, find, update, keep, any, is_some, not,
}
use lunatic92i.Common.Decimal.{decimal}
use lunatic92i.Audit.{AuditEvent, State, text, count, flag}
use lunatic92i.Playbooks.Model.{
  pending, ApprovalStatus, Step, Playbook, PlaybookRun, Platform, PlaybookDb,
}
use lunatic92i.Playbooks.Engine.{run_playbook}
use lunatic92i.Playbooks.Progress.{Supply, Progress}

pub data ServiceError : Type 0 where
  duplicate_playbook : Text → ServiceError
  unknown_action : List Text → ServiceError
  playbook_not_found : Text → ServiceError
  no_alert approval_not_found run_not_found : ℕ → ServiceError
  invalid_approval_state : ApprovalStatus → ServiceError
  self_approval : ServiceError
  uncaught : ServiceError

pub data Answer (A : Type 0) : Type 0 where
  ok : A → Answer A
  err : ServiceError → Answer A

pub Answer-cases :
    {A : Type 0} (t : Answer A) → ((e : ServiceError) × (t ≡ err e)) ⊎ ((a : A) × (t ≡ ok a))
Answer-cases (ok a) = inr (a, refl)
Answer-cases (err e) = inl (e, refl)

pub List-cases :
    {A : Type 0} (xs : List A) → (xs ≡ []) ⊎ ((x : A) × (more : List A) × (xs ≡ x ∷ more))
List-cases [] = inl refl
List-cases (x ∷ more) = inr (x, more, refl)

-- `PlaybookDefinition` and what the caller adds, with the id of the row.
pub record PlaybookDraft : Type 0 where
  pub key : Text
  pub name : Text
  pub description : Option Text
  pub trigger_type : Text
  pub steps : List Step

abbrev pub has_playbook_key : ℕ → Text → Playbook → Bool
has_playbook_key tenant key p = (p.tenant_id == tenant) && text_eq p.key key

abbrev pub has_playbook_id : ℕ → Playbook → Bool
has_playbook_id i p = p.id == i

unfoldable pub playbook_row : ℕ → PlaybookDraft → Option ℕ → ℕ → Playbook
playbook_row tenant draft actor fresh_id = record {
  id = fresh_id;
  tenant_id = tenant;
  key = draft.key;
  name = draft.name;
  description = draft.description;
  trigger_type = draft.trigger_type;
  steps = draft.steps;
  created_by = actor;
}

unfoldable pub audit_of :
    ℕ → Option ℕ → Option Text → Text → Text → Text → Option State → State → AuditEvent
audit_of tenant actor ip action object_type object_id before after = record {
  tenant_id = tenant;
  actor_id = actor;
  actor_ip = ip;
  action = action;
  object_type = object_type;
  object_id = some object_id;
  before_state = before;
  after_state = some after;
  success = true;
}

module _ {D : Type 0} where
  abbrev pub run_has_id : ℕ → PlaybookRun D → Bool
  run_has_id i r = r.id == i

  abbrev pub is_run : ℕ → ℕ → PlaybookRun D → Bool
  is_run tenant i r = (r.tenant_id == tenant) && (r.id == i)

  unfoldable pub run_row : ℕ → Playbook → Option ℕ → Bool → Option ℕ → ℕ → PlaybookRun D
  run_row tenant playbook actor dry alert fresh_id = record {
    id = fresh_id;
    tenant_id = tenant;
    playbook_id = playbook.id;
    status = pending;
    dry_run = dry;
    triggered_by = actor;
    alert_id = alert;
    incident_id = none;
    current_step = 0;
    results = [];
    error = none;
  }

unfoldable pub missing_alert : Option ℕ → ServiceError
missing_alert none = uncaught
missing_alert (some i) = no_alert i

module _ {W D : Type 0} where
  unfoldable pub get_playbook : PlaybookDb W D → ℕ → Text → Answer Playbook
  unfolding find
  get_playbook db tenant key = elim (find (has_playbook_key tenant key) db.playbooks) [
    | none ↦ err (playbook_not_found key)
    | some p ↦ ok p
  ]

  -- The changed run is the row of its id.
  unfoldable pub write_back : PlaybookDb W D → Progress W D → PlaybookDb W D
  unfolding update
  write_back db p = record db {
    runs = update (run_has_id p.run.id) (λ _. p.run) db.runs;
    approvals = p.approvals;
    world = p.world;
  }

  unfoldable pub finish :
      PlaybookDb W D
      → PlaybookDb W D
      → Option (Progress W D)
      → Answer (Progress W D) × PlaybookDb W D
  unfolding write_back
  finish before db none = (err uncaught, before)
  finish before db (some p) = (ok p, write_back db p)

module _ {W D : Type 0} (platform : Platform W D) where
  -- The steps that name no registered action.
  unfoldable pub unknown_actions : List Step → List Text
  unfolding keep
  unknown_actions steps =
      keep (λ name. not (is_some (platform.registry name))) (map (λ (s : Step). s.action) steps)

  unfoldable pub create_playbook :
      PlaybookDb W D
      → ℕ
      → PlaybookDraft
      → Option ℕ
      → Option Text
      → ℕ
      → Answer Playbook × PlaybookDb W D
  unfolding any unknown_actions playbook_row audit_of
  create_playbook db tenant draft actor ip fresh_id =
      if any (has_playbook_key tenant draft.key) db.playbooks
      then (err (duplicate_playbook draft.key), db)
      else elim (unknown_actions draft.steps) [
        | name ∷ more ↦ (err (unknown_action (name ∷ more)), db)
        | [] ↦
            let row = playbook_row tenant draft actor fresh_id in
            (
              ok row,
              record db {
                playbooks = db.playbooks ++ row ∷ [];
                world =
                    platform.write_audit
                      (audit_of tenant actor ip (codes "CREATE_PLAYBOOK") (codes "playbook")
                        draft.key none
                        ((codes "name", text draft.name)
                          ∷ (codes "steps", count (length draft.steps))
                          ∷ []))
                      db.world;
              },
            )
      ]

  -- `if alert_id is not None` and the query: whether the call may go on.
  unfoldable pub alert_is_there : W → ℕ → Option ℕ → Bool
  alert_is_there world tenant none = true
  alert_is_there world tenant (some i) = is_some (platform.alert_in world tenant i)

  -- The new run and the entry of its start.
  unfoldable pub insert_run : PlaybookDb W D → PlaybookRun D → Playbook → PlaybookDb W D
  unfolding audit_of
  insert_run db run playbook = record db {
    runs = db.runs ++ run ∷ [];
    world =
        platform.write_audit
          (audit_of run.tenant_id run.triggered_by none (codes "PLAYBOOK_RUN_STARTED")
            (codes "playbook_run") (decimal run.id) none
            ((codes "playbook", text playbook.key) ∷ (codes "dry_run", flag run.dry_run) ∷ []))
          db.world;
  }

  unfoldable pub start_run :
      PlaybookDb W D
      → Supply
      → ℕ
      → Playbook
      → Option ℕ
      → Bool
      → Option ℕ
      → ℕ
      → Answer (Progress W D) × PlaybookDb W D
  unfolding alert_is_there missing_alert run_row insert_run run_playbook finish
  start_run db supply tenant playbook actor dry alert fresh_id =
      let run = run_row tenant playbook actor dry alert fresh_id in
      let after = insert_run db run playbook in
      if alert_is_there db.world tenant alert
      then finish db after
          (run_playbook platform supply after.approvals after.world run playbook actor)
      else (err (missing_alert alert), db)
