-- ===== src/Playbooks/Kept.antt =====
-- The promises of the playbook tables through a call of `run_playbook` of backend/app/playbooks/engine.py.
use lunatic92i.Common.{
  ℕ, suc, ◌≡◌, refl, ◌∙◌, true, false, Option, some, List, arith, Text, ==_refl, any,
  any-update_hit, true_false, find, find-passes, find-Mem,
}
use lunatic92i.Common.Keys.{find-has_key, any-update_row, any-update_grows}
use lunatic92i.Playbooks.Model.{
  Step, Playbook, PlaybookRun, Approval, Context, Report, Action, Platform,
}
use lunatic92i.Playbooks.Gate.{is_approved, approval_has_id, is_grant}
use lunatic92i.Playbooks.Engine.{complete, run_playbook}
use lunatic92i.Playbooks.Progress.{Supply, Progress, outcome_of, advance, mark_executed}
use lunatic92i.Playbooks.Turns.{Turn, prepared, Held, run_steps-Held}
use lunatic92i.Playbooks.Guards.{
  is_executed, is_executed_for, is_destructive_name, is_result, is_gated, key, Guards,
}
use lunatic92i.Playbooks.Underway.{
  Controlled, verified, used, used-Controlled, Kept, Underway, previewed-Underway, result-Underway,
  failed-Kept, requested-Kept,
}

module _ {D : Type 0} where
  -- What the query of `require_approved` says of its row.
  grant_facts :
      (tenant run_id index : ℕ) (name : Text) (a : Approval D)
      → is_grant tenant run_id index name a ≡ true
      → (is_approved a.status ≡ true) × (is_executed_for run_id index name (used a) ≡ true)
  unfolding is_grant is_executed_for is_executed
  grant_facts tenant run_id index name a h = (ground (arith, h), ground (arith, h))

  -- An approved row has not been used.
  not_used :
      (a : Approval D) (run_id index : ℕ) (name : Text)
      → is_approved a.status ≡ true
      → is_executed_for run_id index name a ≡ false
  unfolding is_approved is_executed_for is_executed
  not_used a run_id index name h = ground arith

module _ {W D : Type 0} (platform : Platform W D) (before : List (Approval D)) (run_id : ℕ)
    (supply : Supply) where
  module _ (index : ℕ) (step : Step) (p : Progress W D)
      (h : Underway platform before run_id supply index p) where
    ran-Underway :
        (action : Action W D) (report : Report D) (context : Context D) (world : W)
        → platform.registry step.action ≡ some action
        → p.run.dry_run ≡ false
        → action.is_destructive ≡ false
        → Underway platform before run_id supply
            (suc index)
            (advance index step report context world (prepared platform supply index step p))
    ran-Underway action report context world e wet safe =
        result-Underway platform before run_id supply index step p h report context world
          p.approvals wet h.kept.rows (λ r s n k. k)
          (unfold is_gated outcome_of is_result is_destructive_name in
            rw (e, is_destructive_name) (rw safe refl))
          h.room

    approved-Underway :
        (grant : Approval D) (report : Report D) (context : Context D) (world : W)
        → p.run.dry_run ≡ false
        → find (is_grant p.context.tenant_id p.run.id index step.action) p.approvals ≡ some grant
        → Underway platform before run_id supply (suc index) (
            advance index step report context world
              (mark_executed grant (prepared platform supply index step p)))
    unfolding mark_executed
    approved-Underway grant report context world wet found =
        result-Underway platform before run_id supply index step p h report context world _ wet
          (used-Controlled p.approvals grant _ found facts.0 h.kept.rows)
          (λ r s n k.
            any-update_grows key (is_executed_for r s n) p.approvals grant (used grant)
              h.kept.rows.keys here (λ t. true_false t (not_used grant r s n facts.0)) k)
          (unfold is_gated outcome_of is_result in
            rw
              (any-update_hit (is_executed_for p.run.id index step.action)
                (approval_has_id grant.id) (λ _. used grant) p.approvals grant
                (find-Mem _ p.approvals grant found) (==_refl grant.id) facts.1)
              (unfold any in ground arith))
          (any-update_row key (approval_has_id supply.approval_id) p.approvals grant (used grant)
              h.kept.rows.keys here refl
            ∙ h.room)
      where
        facts :
            (is_approved grant.status ≡ true)
            × (is_executed_for p.run.id index step.action (used grant) ≡ true)
        facts =
            grant_facts p.context.tenant_id p.run.id index step.action grant
              (find-passes _ p.approvals grant found)

        here : find (approval_has_id grant.id) p.approvals ≡ some grant
        here = find-has_key key _ p.approvals grant h.kept.rows.keys found

  goes_on :
      (index : ℕ) (step : Step) (p q : Progress W D)
      → Underway platform before run_id supply index p
      → Turn platform supply index step (prepared platform supply index step p) true q
      → Underway platform before run_id supply (suc index) q
  goes_on index step p _ h (Turn.previewed report dry) =
      previewed-Underway platform before run_id supply index step p h report dry
  goes_on index step p _ h (Turn.ran action report context world e wet safe) =
      ran-Underway index step p h action report context world e wet safe
  goes_on index step p _ h (Turn.ran_approved grant a report context world wet found e) =
      rw
        (verified p.approvals grant a p.context.tenant_id p.run.id index step.action
          h.kept.rows.keys found e)
        (approved-Underway index step p h grant report context world wet found)

  stops :
      (index : ℕ) (step : Step) (p q : Progress W D)
      → Underway platform before run_id supply index p
      → Turn platform supply index step (prepared platform supply index step p) false q
      → Kept platform before run_id q
  stops index step p _ h (Turn.requested report requester wet) =
      requested-Kept platform before run_id supply index step p h report requester wet
  stops index step p _ h (Turn.failed message wet) =
      failed-Kept platform before run_id supply index step p h message wet

  ends :
      (index : ℕ) (p : Progress W D)
      → Underway platform before run_id supply index p
      → Kept platform before run_id (complete p)
  unfolding complete
  ends index p h = record {
    same_id = h.kept.same_id;
    rows = h.kept.rows;
    guards = record { gated = h.kept.guards.gated; in_order = h.kept.guards.in_order };
    grows = h.kept.grows;
  }

-- A call on a run that keeps the promises ends in one that does, or in an exception.
pub run_playbook-Kept :
    {W D : Type 0} (platform : Platform W D) (supply : Supply) (approvals : List (Approval D))
    (world : W) (run : PlaybookRun D) (playbook : Playbook) (actor : Option ℕ)
    → Controlled approvals
    → any (approval_has_id supply.approval_id) approvals ≡ false
    → Guards platform approvals run
    → Held platform supply
        (Kept platform approvals run.id)
        (run_playbook platform supply approvals world run playbook actor)
unfolding run_playbook
run_playbook-Kept platform supply approvals world run playbook actor rows room guards =
    run_steps-Held platform supply (Underway platform approvals run.id supply)
      (Kept platform approvals run.id) (goes_on platform approvals run.id supply)
      (stops platform approvals run.id supply) (ends platform approvals run.id supply) _ _ _
      (record {
        kept = record {
          same_id = refl;
          rows = rows;
          guards = record { gated = guards.gated; in_order = guards.in_order };
          grows = λ r s n k. k;
        };
        here = λ _. refl;
        room = room;
      })
