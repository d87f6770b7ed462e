-- ===== src/Playbooks/Progress.antt =====
-- The state of a call of `run_playbook` of backend/app/playbooks/engine.py, and what a step does to it.
use lunatic92i.Common.{ℕ, suc, true, Option, none, some, List, [], ◌∷◌, ◌++◌, Text, codes, update}
use lunatic92i.Common.Decimal.{decimal}
use lunatic92i.Audit.{text, count}
use lunatic92i.Incidents.Opening.{Moment}
use lunatic92i.Playbooks.Gate.{approval_has_id, pending_row}
use lunatic92i.Playbooks.Model.{
  awaiting_approval, failed, executed, Step, OutcomeKind, result, awaiting, error, StepOutcome,
  PlaybookRun, Approval, Context, Report, Platform,
}

-- The clock and the ids that the database gives to new rows, by the index of the step, and the id of the
-- approval that the call may request.
pub record Supply : Type 0 where
  pub moments : ℕ → Moment
  pub approval_id : ℕ

-- The state of a call of `run_playbook`.
pub record Progress (W D : Type 0) : Type 0 where
  pub run : PlaybookRun D
  pub approvals : List (Approval D)
  pub world : W
  pub context : Context D
  pub outcomes : List (StepOutcome D)

module _ {D : Type 0} where
  unfoldable pub outcome_of : ℕ → Step → OutcomeKind → Report D → StepOutcome D
  outcome_of index step kind report = record {
    step_index = index;
    action = step.action;
    kind = kind;
    summary = report.summary;
    details = report.details;
  }

  unfoldable pub incident_id_after : Option ℕ → Context D → Option ℕ
  incident_id_after before context = elim context.incident [
    | none ↦ before
    | some incident ↦ some incident.id
  ]

module _ {W D : Type 0} where
  -- `outcomes.append(outcome)` and `run.results = [*run.results, ...]`
  unfoldable pub add_result : StepOutcome D → Progress W D → Progress W D
  add_result outcome p = record p {
    run = record p.run { results = p.run.results ++ outcome ∷ [] };
    outcomes = p.outcomes ++ outcome ∷ [];
  }

  -- The handler of `ActionTargetNotFound` and `ApprovalRequired`.
  unfoldable pub fail : Platform W D → ℕ → Step → Text → Progress W D → Progress W D
  unfolding add_result outcome_of
  fail platform index step message p =
      add_result
        (outcome_of index step error (record { summary = message; details = platform.no_details }))
        (record p {
          run = record p.run { status = failed; error = some message; current_step = index };
        })

  -- `_create_pending_approval`, and the halt of the run.
  unfoldable pub request :
      Platform W D → Supply → ℕ → Step → Report D → ℕ → Progress W D → Progress W D
  unfolding pending_row outcome_of
  request platform supply index step report requester p = record p {
    run = record p.run { status = awaiting_approval; current_step = index };
    approvals =
        p.approvals
        ++ pending_row p.run index step.action report.details requester supply.approval_id ∷ [];
    world =
        platform.write_audit
          (record {
            tenant_id = p.run.tenant_id;
            actor_id = some requester;
            actor_ip = none;
            action = codes "PLAYBOOK_APPROVAL_REQUESTED";
            object_type = codes "playbook_action_approval";
            object_id = some (decimal supply.approval_id);
            before_state = none;
            after_state =
                some ((codes "action", text step.action) ∷ (codes "step_index", count index) ∷ []);
            success = true;
          })
          p.world;
    outcomes = p.outcomes ++ outcome_of index step awaiting report ∷ [];
  }

  -- After an executed step.
  unfoldable pub advance : ℕ → Step → Report D → Context D → W → Progress W D → Progress W D
  unfolding add_result outcome_of incident_id_after
  advance index step report context world p =
      let q = add_result (outcome_of index step result report) p in
      record q {
        run = record q.run {
          current_step = suc index;
          incident_id = incident_id_after q.run.incident_id context;
        };
        world = world;
        context = context;
      }

  -- `approval.status = "EXECUTED"`
  unfoldable pub mark_executed : Approval D → Progress W D → Progress W D
  mark_executed a p = record p {
    approvals = update (approval_has_id a.id) (λ _. record a { status = executed }) p.approvals;
  }
