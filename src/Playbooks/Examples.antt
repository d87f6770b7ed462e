-- ===== src/Playbooks/Examples.antt =====
-- Runs of backend/app/services/playbooks.py at concrete inputs.
use lunatic92i.Common.{
  List, All, is_some, ℕ, suc, ◌+◌, ◌==◌, ◌≡◌, ◌⊎◌, refl, sym, subst, true, false, none, some, [],
  ◌∷◌, codes, arith, any, find, update, Memᴰ, text_eq, keep,
}
use lunatic92i.Playbooks.Model.{
  Playbook, PlaybookRun, Approval, StepOutcome, Action, Platform, PlaybookDb, Context, done,
  completed, executed, result,
}
use lunatic92i.Playbooks.Gate.{is_approved, is_grant, verify_grant, pending_row, approval_has_id}
use lunatic92i.Playbooks.Engine.{
  execute_step, request_step, destructive_step, live_step, any_step, take_step, complete, run_steps,
  load_context, run_playbook,
}
use lunatic92i.Playbooks.Progress.{
  Supply, outcome_of, add_result, request, advance, incident_id_after, mark_executed,
}
use lunatic92i.Playbooks.Service.{
  ok, PlaybookDraft, playbook_row, unknown_actions, get_playbook, create_playbook, alert_is_there,
  run_row, insert_run, write_back, finish, start_run,
}
use lunatic92i.Playbooks.Approvals.{Decision, is_pending, decide, grant, resume, approve_action}
use lunatic92i.Playbooks.Install.{
  install_all, install_default_playbooks, install_default_playbooks_twice,
}
use lunatic92i.Playbooks.Run.{make, begin, approve, empty_db, begin_run, apply, Reach, start, step}
use lunatic92i.Playbooks.Guards.{
  is_controlled, is_executed_for, is_destructive_name, is_result, result_steps, upto,
}
use lunatic92i.Playbooks.Reached.{Reach-is_controlled, Reach-approved, Reach-in_order}
use lunatic92i.Playbooks.DryRun.{start_run-dry}
use lunatic92i.Playbooks.Settles.{IsOutcome, run_playbook-settles}
use lunatic92i.Common.Decimal.{decimal, decimal_from}
use lunatic92i.Incidents.Run.{start_db}
use lunatic92i.Playbooks.Targets.{World, Details, reputation, Services, matches, get}
use lunatic92i.Playbooks.Actions.{
  calculate_reputation, matches_in, is_critical, reputation_score, verdict_of, report, finished,
}
use lunatic92i.Playbooks.Registry.{platform, registry, action_of, of_calculate_reputation}
use lunatic92i.Playbooks.Confined.{registry-confined}

-- An action that adds to a counter and wants an approval.
abbrev count_up : Action ℕ Unit
count_up = record {
  is_destructive = true;
  dry_run = λ w c. done (record { summary = codes "would count"; details = tt });
  execute = λ w c. done (record { summary = codes "counted"; details = tt }, c, suc w);
}

abbrev counter : Platform ℕ Unit
counter = record {
  registry = λ name. some count_up;
  write_audit = λ row w. w;
  alert_of = λ w i. none;
  incident_of = λ w i. none;
  alert_in = λ w tenant i. none;
  no_details = tt;
}

abbrev supply : Supply
supply = record {
  moments = λ i. record { now = i; year = 2026; fresh_id = 100 + i };
  approval_id = 50;
}

abbrev later : Supply
later = record {
  moments = λ i. record { now = i; year = 2026; fresh_id = 200 + i };
  approval_id = 51;
}

abbrev draft : PlaybookDraft
draft = record {
  key = codes "PB-1";
  name = codes "Count";
  description = none;
  trigger_type = codes "manual";
  steps = record { action = codes "count"; params = [] } ∷ [];
}

abbrev made : PlaybookDb ℕ Unit
made = apply counter (empty_db 0) (make 1 draft (some 3) none 10)

abbrev begun : PlaybookDb ℕ Unit
begun = apply counter made (begin supply 1 (codes "PB-1") (some 3) false none 20)

abbrev decision : Decision
decision = record { tenant_id = 1; approval_id = 50; approver_id = 4; actor_ip = none; now = 9 }

abbrev resumed : PlaybookDb ℕ Unit
resumed = apply counter begun (approve later decision)

abbrev outcome : StepOutcome Unit
outcome = record {
  step_index = 0;
  action = codes "count";
  kind = result;
  summary = codes "counted";
  details = tt;
}

abbrev finished_run : PlaybookRun Unit
finished_run = record {
  id = 20;
  tenant_id = 1;
  playbook_id = 10;
  status = completed;
  dry_run = false;
  triggered_by = some 3;
  alert_id = none;
  incident_id = none;
  current_step = 1;
  results = outcome ∷ [];
  error = none;
}

abbrev used_row : Approval Unit
used_row = record {
  id = 50;
  tenant_id = 1;
  playbook_run_id = 20;
  step_index = 0;
  action_name = codes "count";
  preview = tt;
  status = executed;
  requested_by = 3;
  decided_by = some 4;
  decided_at = some 9;
  reason = none;
}

-- The step is executed once, after the approval.
resumed_lem :
    (resumed.runs ≡ finished_run ∷ []) × (resumed.approvals ≡ used_row ∷ []) × (resumed.world ≡ 1)
unfolding apply create_playbook any unknown_actions keep playbook_row begin_run get_playbook find
    start_run alert_is_there run_row insert_run run_playbook load_context run_steps take_step
    any_step live_step destructive_step is_grant is_approved request_step request pending_row finish
    write_back update approve_action is_pending grant decide resume verify_grant execute_step
    mark_executed advance add_result outcome_of complete incident_id_after text_eq
resumed_lem = (refl, refl, refl)

-- The ids of the rows are new.
begun_fresh :
    (any (λ (r : PlaybookRun Unit). r.id == 20) made.runs ≡ false)
    × (any (approval_has_id 50) made.approvals ≡ false)
    × (any (approval_has_id 51) begun.approvals ≡ false)
unfolding apply create_playbook any unknown_actions keep playbook_row begin_run get_playbook find
    start_run alert_is_there run_row insert_run run_playbook load_context run_steps take_step
    any_step live_step destructive_step is_grant is_approved request_step request pending_row finish
    write_back update approve_action is_pending grant decide resume verify_grant execute_step
    mark_executed advance add_result outcome_of complete incident_id_after text_eq
begun_fresh = (refl, refl, refl)

resumed-Reach : Reach counter 0 resumed
resumed-Reach =
    step
      (step (step start (make 1 draft (some 3) none 10) tt)
        (begin supply 1 (codes "PB-1") (some 3) false none 20) (begun_fresh.0, begun_fresh.1))
      (approve later decision) begun_fresh.2

used_row-Mem : Memᴰ used_row resumed.approvals
used_row-Mem = subst (λ rows. Memᴰ used_row rows) (sym resumed_lem.1) (Memᴰ.head refl)

finished_run-Mem : Memᴰ finished_run resumed.runs
finished_run-Mem = subst (λ rows. Memᴰ finished_run rows) (sym resumed_lem.0) (Memᴰ.head refl)

Reach-is_controlled_example : is_controlled used_row ≡ true
Reach-is_controlled_example = Reach-is_controlled counter resumed-Reach used_row used_row-Mem

Reach-approved_example :
    (a : Approval Unit) × Memᴰ a resumed.approvals
    × (is_executed_for 20 0 (codes "count") a ≡ true)
    × (who : ℕ) × (a.decided_by ≡ some who)
    × ((who == a.requested_by) ≡ false)
unfolding is_result is_destructive_name
Reach-approved_example =
    Reach-approved counter resumed-Reach finished_run outcome finished_run-Mem (Memᴰ.head refl) refl
      refl

Reach-in_order_example : result_steps (outcome ∷ []) ≡ upto 1
Reach-in_order_example = Reach-in_order counter resumed-Reach finished_run finished_run-Mem

abbrev the_playbook : Playbook
the_playbook = record {
  id = 10;
  tenant_id = 1;
  key = codes "PB-1";
  name = codes "Count";
  description = none;
  trigger_type = codes "manual";
  steps = record { action = codes "count"; params = [] } ∷ [];
  created_by = some 3;
}

start_run-dry_example :
    ((start_run counter made supply 1 the_playbook (some 3) true none 20).1.approvals
      ≡ made.approvals)
    × (((start_run counter made supply 1 the_playbook (some 3) true none 20).1.world ≡ made.world)
        ⊎ ((start_run counter made supply 1 the_playbook (some 3) true none 20).1.world
            ≡ (insert_run counter made
                (run_row 1 the_playbook (some 3) true none 20)
                the_playbook).world))
start_run-dry_example = start_run-dry counter made supply 1 the_playbook (some 3) none 20

abbrev no_services : Services
no_services = record {
  is_private = λ ip. none;
  fold_case = λ email. email;
  look_up = λ tables tenant ip. matches [];
}

abbrev quiet_world : World
quiet_world = record {
  tables = start_db [] [] [];
  users = record { id = 5; tenant_id = 1; email = codes "a@b"; is_active = true } ∷ [];
}

-- A playbook over the registry of the program, at the start of a run.
abbrev containment : Playbook
containment = record the_playbook {
  steps =
      record { action = codes "calculate_reputation"; params = [] }
      ∷ record { action = codes "isolate_host"; params = [] }
      ∷ [];
}

abbrev fresh_run : PlaybookRun Details
fresh_run = run_row 1 containment (some 3) false none 20

containment_known : All (λ s. is_some (registry no_services s.action) ≡ true) containment.steps
unfolding registry get text_eq
containment_known = (refl, (refl, tt))

run_playbook-settles_example :
    IsOutcome
      (platform no_services)
      supply
      (run_playbook (platform no_services) supply [] quiet_world fresh_run containment (some 3))
      2
      containment.steps
unfolding platform run_row
run_playbook-settles_example =
    run_playbook-settles (platform no_services) supply [] quiet_world fresh_run containment (some 3)
      containment_known refl (omega arith)

abbrev no_alert : Context Details
no_alert = record {
  tenant_id = 1;
  actor_id = some 3;
  alert = none;
  incident = none;
  params = [];
  state = [];
  moment = record { now = 1; year = 2026; fresh_id = 7 };
}

abbrev unknown_reputation : Details
unknown_reputation = reputation 0 (codes "unknown")

registry-confined_example :
    (quiet_world.users ≡ quiet_world.users)
    × (quiet_world.tables.assets ≡ quiet_world.tables.assets)
unfolding registry get text_eq action_of calculate_reputation matches_in is_critical
    reputation_score verdict_of finished report any decimal decimal_from
registry-confined_example =
    registry-confined no_services (codes "calculate_reputation")
      (action_of no_services of_calculate_reputation) quiet_world quiet_world no_alert
      (record no_alert { state = (codes "calculate_reputation", unknown_reputation) ∷ [] })
      (record { summary = codes "Reputation: unknown (0/100)"; details = unknown_reputation }) refl
      refl refl

abbrev shipped : List (PlaybookDraft × ℕ)
shipped = (draft, 10) ∷ []

abbrev installed : PlaybookDb ℕ Unit
installed = (install_default_playbooks counter (empty_db 0) 1 (some 3) shipped).1

install_default_playbooks_twice_example :
    install_default_playbooks counter installed 1 (some 4) shipped ≡ (ok [], installed)
unfolding install_default_playbooks install_all create_playbook any unknown_actions keep
    playbook_row text_eq
install_default_playbooks_twice_example =
    install_default_playbooks_twice counter (empty_db 0) installed 1 (some 3) (some 4)
      (codes "PB-1" ∷ []) shipped refl
