-- ===== src/Playbooks/Engine.antt =====
-- The engine: backend/app/playbooks/engine.py. A run is changed in place; here it is handed on from step to
-- step.
use lunatic92i.Common.{ℕ, suc, Bool, true, false, Option, none, some, List, [], ◌∷◌, drop, find}
use lunatic92i.Playbooks.Gate.{is_grant, verify_grant, unapproved_text, unverified_text}
use lunatic92i.Playbooks.Model.{
  running, completed, Step, Playbook, preview, PlaybookRun, Approval, Context, done, missing,
  raised, Action, Platform,
}
use lunatic92i.Playbooks.Progress.{
  Supply, Progress, outcome_of, add_result, fail, request, advance, mark_executed,
}

module _ {W D : Type 0} where
  -- One pass of the loop: whether it goes on, and `none` for an exception that nothing catches.
  unfoldable pub preview_step : Action W D → ℕ → Step → Progress W D → Option (Bool × Progress W D)
  unfolding add_result outcome_of
  preview_step action index step p = elim (action.dry_run p.world p.context) [
    | done report ↦ some (true, add_result (outcome_of index step preview report) p)
    | missing message ↦ none
    | raised ↦ none
  ]

  unfoldable pub execute_step :
      Platform W D
      → Action W D
      → ℕ
      → Step
      → Progress W D
      → Progress W D
      → Option (Bool × Progress W D)
  unfolding advance fail
  execute_step platform action index step p marked = elim (action.execute p.world p.context) [
    | done (report, context, world) ↦ some (true, advance index step report context world marked)
    | missing message ↦ some (false, fail platform index step message p)
    | raised ↦ none
  ]

  unfoldable pub request_step :
      Platform W D
      → Supply
      → Action W D
      → ℕ
      → Step
      → Progress W D
      → Option ℕ
      → Option (Bool × Progress W D)
  unfolding fail request unapproved_text
  request_step platform supply action index step p none =
      some (false, fail platform index step (unapproved_text index step.action) p)
  request_step platform supply action index step p (some requester) =
      elim (action.dry_run p.world p.context) [
        | done report ↦ some (false, request platform supply index step report requester p)
        | missing message ↦ some (false, fail platform index step message p)
        | raised ↦ none
      ]

  unfoldable pub destructive_step :
      Platform W D → Supply → Action W D → ℕ → Step → Progress W D → Option (Bool × Progress W D)
  unfolding is_grant find request_step verify_grant execute_step mark_executed fail unverified_text
  destructive_step platform supply action index step p =
      elim (find (is_grant p.context.tenant_id p.run.id index step.action) p.approvals) [
        | none ↦ request_step platform supply action index step p p.context.actor_id
        | some grant ↦ elim (verify_grant p.context.tenant_id step.action grant.id p.approvals) [
          | none ↦ some (false, fail platform index step (unverified_text step.action) p)
          | some a ↦ execute_step platform action index step p (mark_executed a p)
        ]
      ]

  -- `isinstance(action, DestructiveAction)`
  unfoldable pub live_step :
      Bool
      → Platform W D
      → Supply
      → Action W D
      → ℕ
      → Step
      → Progress W D
      → Option (Bool × Progress W D)
  unfolding destructive_step execute_step
  live_step true platform supply action index step p =
      destructive_step platform supply action index step p
  live_step false platform supply action index step p = execute_step platform action index step p p

  -- `if run.dry_run`
  unfoldable pub any_step :
      Bool
      → Platform W D
      → Supply
      → Action W D
      → ℕ
      → Step
      → Progress W D
      → Option (Bool × Progress W D)
  unfolding preview_step live_step
  any_step true platform supply action index step p = preview_step action index step p
  any_step false platform supply action index step p =
      live_step action.is_destructive platform supply action index step p

  unfoldable pub take_step :
      Platform W D → Supply → ℕ → Step → Progress W D → Option (Bool × Progress W D)
  unfolding any_step
  take_step platform supply index step before = elim (platform.registry step.action) [
    | none ↦ none
    | some action ↦ any_step before.run.dry_run platform supply action index step (record before {
      context = record before.context { params = step.params; moment = supply.moments index };
    })
  ]

  unfoldable pub complete : Progress W D → Progress W D
  complete p = record p { run = record p.run { status = completed } }

  -- The loop, over the steps from `index` on.
  unfoldable pub run_steps :
      Platform W D → Supply → List Step → ℕ → Progress W D → Option (Progress W D)
  unfolding take_step complete
  run_steps platform supply [] index p = some (complete p)
  run_steps platform supply (step ∷ more) index p = elim (take_step platform supply index step p) [
    | none ↦ none
    | some (goes_on, q) ↦ elim goes_on [
      | true ↦ run_steps platform supply more (suc index) q
      | false ↦ some q
    ]
  ]

  unfoldable pub load_context : Platform W D → Supply → PlaybookRun D → Option ℕ → W → Context D
  load_context platform supply run actor world = record {
    tenant_id = run.tenant_id;
    actor_id = actor;
    alert = elim run.alert_id [ none ↦ none | some i ↦ platform.alert_of world i ];
    incident = elim run.incident_id [ none ↦ none | some i ↦ platform.incident_of world i ];
    params = [];
    state = [];
    moment = supply.moments run.current_step;
  }

  -- The run, the tables and the outcomes after the call; `none` for an exception.
  unfoldable pub run_playbook :
      Platform W D
      → Supply
      → List (Approval D)
      → W
      → PlaybookRun D
      → Playbook
      → Option ℕ
      → Option (Progress W D)
  unfolding load_context run_steps
  run_playbook platform supply approvals world run playbook actor =
      run_steps platform supply (drop run.current_step playbook.steps) run.current_step (record {
        run = record run { status = running };
        approvals = approvals;
        world = world;
        context = load_context platform supply run actor world;
        outcomes = [];
      })
