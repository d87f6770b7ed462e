-- ===== src/Playbooks/Approvals.antt =====
-- backend/app/services/playbooks.py: `approve_action`, `reject_action` and `list_pending_approvals`.
use lunatic92i.Common.{
  ℕ, Bool, true, false, ◌&&◌, Option, none, some, List, [], ◌∷◌, ◌++◌, Text, codes, ◌==◌,
  if◌then◌else◌, find, update, keep, not,
}
use lunatic92i.Common.Decimal.{decimal}
use lunatic92i.Audit.{text}
use lunatic92i.Playbooks.Model.{
  rejected_run, ApprovalStatus, pending_approval, approved, rejected, PlaybookRun, Approval,
  Platform, PlaybookDb,
}
use lunatic92i.Playbooks.Gate.{approval_has_id}
use lunatic92i.Playbooks.Service.{
  uncaught, approval_not_found, run_not_found, invalid_approval_state, self_approval, Answer, ok,
  err, has_playbook_id, audit_of, run_has_id, is_run, finish,
}
use lunatic92i.Playbooks.Engine.{run_playbook}
use lunatic92i.Playbooks.Progress.{Supply, Progress}

-- Who decides, and when.
pub record Decision : Type 0 where
  pub tenant_id : ℕ
  pub approval_id : ℕ
  pub approver_id : ℕ
  pub actor_ip : Option Text
  pub now : ℕ

unfoldable pub is_pending : ApprovalStatus → Bool
is_pending pending_approval = true
is_pending _ = false

module _ {D : Type 0} where
  abbrev pub is_approval : ℕ → ℕ → Approval D → Bool
  is_approval tenant i a = (a.tenant_id == tenant) && (a.id == i)

  unfoldable pub decide : ApprovalStatus → Decision → Option Text → Approval D → Approval D
  decide status d reason a = record a {
    status = status;
    decided_by = some d.approver_id;
    decided_at = some d.now;
    reason = reason;
  }

  -- `f"step {approval.step_index} ({approval.action_name}) rejected: {reason}"`
  unfoldable pub rejection_text : Approval D → Text → Text
  rejection_text a reason =
      codes "step "
      ++ (decimal a.step_index
          ++ (codes " (" ++ (a.action_name ++ (codes ") rejected: " ++ reason))))

module _ {W D : Type 0} where
  unfoldable pub list_pending_approvals : PlaybookDb W D → ℕ → List (Approval D)
  unfolding keep is_pending
  list_pending_approvals db tenant =
      keep (λ a. (a.tenant_id == tenant) && is_pending a.status) db.approvals

module _ {W D : Type 0} (platform : Platform W D) where
  -- The decided row and its entry in the log.
  unfoldable pub grant : PlaybookDb W D → Decision → Approval D → PlaybookDb W D
  unfolding decide audit_of update
  grant db d a = record db {
    approvals = update (approval_has_id a.id) (λ _. decide approved d a.reason a) db.approvals;
    world =
        platform.write_audit
          (audit_of d.tenant_id (some d.approver_id) d.actor_ip (codes "PLAYBOOK_APPROVAL_GRANTED")
            (codes "playbook_action_approval") (decimal a.id)
            (some ((codes "status", text (codes "PENDING_APPROVAL")) ∷ []))
            ((codes "status", text (codes "APPROVED"))
              ∷ (codes "requested_by", text (decimal a.requested_by))
              ∷ []))
          db.world;
  }

  unfoldable pub resume :
      PlaybookDb W D → PlaybookDb W D → Supply → ℕ → ℕ → Answer (Progress W D) × PlaybookDb W D
  unfolding find run_playbook finish
  resume before db supply tenant run_id = elim (find (is_run tenant run_id) db.runs) [
    | none ↦ (err (run_not_found run_id), before)
    | some run ↦ elim (find (has_playbook_id run.playbook_id) db.playbooks) [
      | none ↦ (err uncaught, before)
      | some playbook ↦
          finish before db
            (run_playbook platform supply db.approvals db.world run playbook run.triggered_by)
    ]
  ]

  unfoldable pub approve_action :
      PlaybookDb W D → Supply → Decision → Answer (Progress W D) × PlaybookDb W D
  unfolding find is_pending grant resume
  approve_action db supply d = elim (find (is_approval d.tenant_id d.approval_id) db.approvals) [
    | none ↦ (err (approval_not_found d.approval_id), db)
    | some a ↦
        if not (is_pending a.status)
        then (err (invalid_approval_state a.status), db)
        else if d.approver_id == a.requested_by
        then (err self_approval, db)
        else resume db (grant db d a) supply d.tenant_id a.playbook_run_id
  ]

  unfoldable pub refuse :
      PlaybookDb W D → Decision → Approval D → PlaybookRun D → Text → PlaybookDb W D
  unfolding decide audit_of update rejection_text
  refuse db d a run reason = record db {
    approvals = update (approval_has_id a.id) (λ _. decide rejected d (some reason) a) db.approvals;
    runs =
        update (run_has_id run.id)
          (λ _. record run { status = rejected_run; error = some (rejection_text a reason) })
          db.runs;
    world =
        platform.write_audit
          (audit_of d.tenant_id (some d.approver_id) d.actor_ip (codes "PLAYBOOK_APPROVAL_REJECTED")
            (codes "playbook_action_approval") (decimal a.id) none
            ((codes "status", text (codes "REJECTED")) ∷ (codes "reason", text reason) ∷ []))
          db.world;
  }

  unfoldable pub reject_action :
      PlaybookDb W D → Decision → Text → Answer (Approval D) × PlaybookDb W D
  unfolding find is_pending refuse decide
  reject_action db d reason = elim (find (is_approval d.tenant_id d.approval_id) db.approvals) [
    | none ↦ (err (approval_not_found d.approval_id), db)
    | some a ↦
        if not (is_pending a.status)
        then (err (invalid_approval_state a.status), db)
        else if d.approver_id == a.requested_by
        then (err self_approval, db)
        else elim (find (is_run d.tenant_id a.playbook_run_id) db.runs) [
          | none ↦ (err (run_not_found a.playbook_run_id), db)
          | some run ↦ (ok (decide rejected d (some reason) a), refuse db d a run reason)
        ]
  ]
