-- ===== src/Playbooks/Run.antt =====
-- The calls that change the playbook tables, as backend/app/api/playbooks.py makes them, and the tables that
-- they reach.
use lunatic92i.Common.{ℕ, ◌≡◌, Bool, false, Option, List, [], Text, any}
use lunatic92i.Playbooks.Model.{Platform, PlaybookDb}
use lunatic92i.Playbooks.Gate.{approval_has_id}
use lunatic92i.Playbooks.Progress.{Supply, Progress}
use lunatic92i.Playbooks.Service.{
  Answer, ok, err, PlaybookDraft, run_has_id, get_playbook, create_playbook, start_run,
}
use lunatic92i.Playbooks.Install.{install_default_playbooks}
use lunatic92i.Playbooks.Approvals.{Decision, approve_action, reject_action}

pub data Op : Type 0 where
  make : ℕ → PlaybookDraft → Option ℕ → Option Text → ℕ → Op
  begin : Supply → ℕ → Text → Option ℕ → Bool → Option ℕ → ℕ → Op
  install : ℕ → Option ℕ → List (PlaybookDraft × ℕ) → Op
  approve : Supply → Decision → Op
  reject : Decision → Text → Op

module _ {W D : Type 0} where
  abbrev pub empty_db : W → PlaybookDb W D
  empty_db world = record { playbooks = []; runs = []; approvals = []; world = world }

  -- A new run and a new approval get ids that no row has.
  abbrev pub IsFresh : PlaybookDb W D → Op → Type 0
  IsFresh db (begin supply tenant key actor dry alert fresh_id) =
      (any (run_has_id fresh_id) db.runs ≡ false)
      × (any (approval_has_id supply.approval_id) db.approvals ≡ false)
  IsFresh db (approve supply d) = any (approval_has_id supply.approval_id) db.approvals ≡ false
  IsFresh db _ = Unit

module _ {W D : Type 0} (platform : Platform W D) where
  -- `get_playbook` and `start_run`.
  unfoldable pub begin_run :
      PlaybookDb W D
      → Supply
      → ℕ
      → Text
      → Option ℕ
      → Bool
      → Option ℕ
      → ℕ
      → Answer (Progress W D) × PlaybookDb W D
  unfolding get_playbook start_run
  begin_run db supply tenant key actor dry alert fresh_id = elim (get_playbook db tenant key) [
    | err e ↦ (err e, db)
    | ok playbook ↦ start_run platform db supply tenant playbook actor dry alert fresh_id
  ]

  unfoldable pub apply : PlaybookDb W D → Op → PlaybookDb W D
  unfolding create_playbook install_default_playbooks begin_run approve_action reject_action
  apply db (make tenant draft actor ip fresh_id) =
      (create_playbook platform db tenant draft actor ip fresh_id).1
  apply db (begin supply tenant key actor dry alert fresh_id) =
      (begin_run db supply tenant key actor dry alert fresh_id).1
  apply db (install tenant actor drafts) =
      (install_default_playbooks platform db tenant actor drafts).1
  apply db (approve supply d) = (approve_action platform db supply d).1
  apply db (reject d reason) = (reject_action platform db d reason).1

  pub data Reach (world : W) : PlaybookDb W D → Type 0 where
    start : Reach world (empty_db world)
    step :
        {db : PlaybookDb W D}
        → Reach world db
        → (op : Op) → IsFresh db op
        → Reach world (apply db op)
