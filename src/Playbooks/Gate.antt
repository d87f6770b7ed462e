-- ===== src/Playbooks/Gate.antt =====
-- The gate of destructive actions: `require_approved` and `_verify_grant` of
-- backend/app/playbooks/actions.py, and the row of `_create_pending_approval` of
-- backend/app/playbooks/engine.py.
use lunatic92i.Common.{
  ℕ, Bool, true, false, ◌&&◌, Option, none, some, List, ◌++◌, Text, codes, text_eq, ◌==◌,
  if◌then◌else◌, find,
}
use lunatic92i.Common.Decimal.{decimal}
use lunatic92i.Playbooks.Model.{ApprovalStatus, pending_approval, approved, PlaybookRun, Approval}

unfoldable pub is_approved : ApprovalStatus → Bool
is_approved approved = true
is_approved _ = false

-- `f"step {step_index} ({action_name}) has no approved record"`
unfoldable pub unapproved_text : ℕ → Text → Text
unapproved_text index name =
    codes "step " ++ (decimal index ++ (codes " (" ++ (name ++ codes ") has no approved record")))

unfoldable pub unverified_text : Text → Text
unverified_text name =
    codes "grant for " ++ (name ++ codes " does not reference an approved record")

module _ {D : Type 0} where
  abbrev pub approval_has_id : ℕ → Approval D → Bool
  approval_has_id i a = a.id == i

  -- The query of `require_approved`.
  unfoldable pub is_grant : ℕ → ℕ → ℕ → Text → Approval D → Bool
  unfolding is_approved
  is_grant tenant run_id index name a =
      (a.tenant_id == tenant)
      && (a.playbook_run_id == run_id)
      && (a.step_index == index)
      && text_eq a.action_name name
      && is_approved a.status

  -- `_verify_grant`, with the row that it reads.
  unfoldable pub verify_grant : ℕ → Text → ℕ → List (Approval D) → Option (Approval D)
  unfolding find is_approved
  verify_grant tenant name grant approvals = elim (find (approval_has_id grant) approvals) [
    | none ↦ none
    | some a ↦
        if (a.tenant_id == tenant) && text_eq a.action_name name && is_approved a.status
        then some a
        else none
  ]

  unfoldable pub pending_row : PlaybookRun D → ℕ → Text → D → ℕ → ℕ → Approval D
  pending_row run index name details requester fresh_id = record {
    id = fresh_id;
    tenant_id = run.tenant_id;
    playbook_run_id = run.id;
    step_index = index;
    action_name = name;
    preview = details;
    status = pending_approval;
    requested_by = requester;
    decided_by = none;
    decided_at = none;
    reason = none;
  }
