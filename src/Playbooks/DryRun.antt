-- ===== src/Playbooks/DryRun.antt =====
-- Dry runs: backend/app/playbooks/engine.py and `start_run` of backend/app/services/playbooks.py.
use lunatic92i.Common.{
  ℕ, ◌≡◌, ◌⊎◌, inl, inr, refl, Bool, true, false, Option, none, some, List, [], true_false,
  Bool-cases, All, All-append,
}
use lunatic92i.Playbooks.Model.{
  preview, Step, Playbook, StepOutcome, OutcomeKind, PlaybookRun, Approval, Platform, PlaybookDb,
}
use lunatic92i.Playbooks.Engine.{complete, run_playbook}
use lunatic92i.Playbooks.Progress.{Supply, Progress, outcome_of, add_result}
use lunatic92i.Playbooks.Service.{
  run_row, insert_run, alert_is_there, finish, write_back, start_run,
}
use lunatic92i.Playbooks.Turns.{Turn, prepared, Held, run_steps-Held}

unfoldable pub is_preview : OutcomeKind → Bool
is_preview preview = true
is_preview _ = false

module _ {W D : Type 0} (platform : Platform W D) (supply : Supply) (approvals : List (Approval D))
    (world : W) where
  -- Nothing but the run and the outcomes has changed, and the run holds previews.
  pub record Untouched (p : Progress W D) : Type 0 where
    pub is_dry : p.run.dry_run ≡ true
    pub same_approvals : p.approvals ≡ approvals
    pub same_world : p.world ≡ world
    pub same_step : p.run.current_step ≡ 0
    pub previews : All (λ (o : StepOutcome D). is_preview o.kind ≡ true) p.run.results

  goes_on :
      (index : ℕ) (step : Step) (p q : Progress W D)
      → Untouched p
      → Turn platform supply index step (prepared platform supply index step p) true q
      → Untouched q
  unfolding add_result outcome_of
  goes_on index step p _ h (Turn.previewed report dry) = record {
    is_dry = h.is_dry;
    same_approvals = h.same_approvals;
    same_world = h.same_world;
    same_step = h.same_step;
    previews =
        All-append (λ (o : StepOutcome D). is_preview o.kind ≡ true) p.run.results _ h.previews
          (unfold is_preview in refl, tt);
  }
  goes_on index step p _ h (Turn.ran action report context after e wet safe) =
      true_false h.is_dry wet
  goes_on index step p _ h (Turn.ran_approved grant a report context after wet found e) =
      true_false h.is_dry wet

  stops :
      (index : ℕ) (step : Step) (p q : Progress W D)
      → Untouched p
      → Turn platform supply index step (prepared platform supply index step p) false q
      → Untouched q
  stops index step p _ h (Turn.requested report requester wet) = true_false h.is_dry wet
  stops index step p _ h (Turn.failed message wet) = true_false h.is_dry wet

  ends : (index : ℕ) (p : Progress W D) → Untouched p → Untouched (complete p)
  unfolding complete
  ends index p h = record {
    is_dry = h.is_dry;
    same_approvals = h.same_approvals;
    same_world = h.same_world;
    same_step = h.same_step;
    previews = h.previews;
  }

  run_playbook-Untouched :
      (run : PlaybookRun D) (playbook : Playbook) (actor : Option ℕ)
      → run.dry_run ≡ true
      → run.current_step ≡ 0
      → run.results ≡ []
      → Held platform supply Untouched
          (run_playbook platform supply approvals world run playbook actor)
  unfolding run_playbook
  run_playbook-Untouched run playbook actor dry at_start no_results =
      run_steps-Held platform supply (λ _. Untouched) Untouched goes_on stops ends _ _ _
        (record {
          is_dry = dry;
          same_approvals = refl;
          same_world = refl;
          same_step = at_start;
          previews = rw no_results tt;
        })

-- The result of a dry run.
finish-dry :
    {W D : Type 0} (platform : Platform W D) (supply : Supply) (before db : PlaybookDb W D)
    (progress : Option (Progress W D))
    → before.approvals ≡ db.approvals
    → Held platform supply (Untouched platform supply db.approvals db.world) progress
    → ((finish before db progress).1.approvals ≡ db.approvals)
      × (((finish before db progress).1.world ≡ before.world)
          ⊎ ((finish before db progress).1.world ≡ db.world))
unfolding finish write_back
finish-dry platform supply before db none same h = (same, inl refl)
finish-dry platform supply before db (some p) same h = (h.same_approvals, inr h.same_world)

-- Starting a dry run leaves the approvals as they are and changes nothing else than the run table but for
-- the entry of its start in the audit log: no action is executed and no approval is requested, whatever the
-- steps are.
pub start_run-dry :
    {W D : Type 0} (platform : Platform W D) (db : PlaybookDb W D) (supply : Supply) (tenant : ℕ)
    (playbook : Playbook) (actor alert : Option ℕ) (fresh_id : ℕ)
    → ((start_run platform db supply tenant playbook actor true alert fresh_id).1.approvals
        ≡ db.approvals)
      × (((start_run platform db supply tenant playbook actor true alert fresh_id).1.world
            ≡ db.world)
          ⊎ ((start_run platform db supply tenant playbook actor true alert fresh_id).1.world
              ≡ (insert_run platform db
                  (run_row tenant playbook actor true alert fresh_id)
                  playbook).world))
unfolding start_run insert_run
start_run-dry platform db supply tenant playbook actor alert fresh_id =
    elim (Bool-cases (alert_is_there platform db.world tenant alert)) [
      | inr t ↦ rw (t, start_run) (refl, inl refl)
      | inl t ↦
          let run = run_row tenant playbook actor true alert fresh_id in
          let after = insert_run platform db run playbook in
          rw (t, start_run)
            (finish-dry platform supply db after _ refl (
              run_playbook-Untouched platform supply after.approvals after.world run playbook actor
                (unfold run_row in refl) (unfold run_row in refl) (unfold run_row in refl)))
    ]
