-- ===== src/Playbooks/Turns.antt =====
-- What one pass of the loop of backend/app/playbooks/engine.py does, and induction over its passes.
use lunatic92i.Common.{
  ℕ, suc, ◌≡◌, ◌⊎◌, refl, inl, inr, Bool, true, false, Option, none, some, List, [], ◌∷◌, Text,
  find, Bool-cases, Option-cases,
}
use lunatic92i.Playbooks.Model.{
  Step, preview, Approval, Context, Report, Attempt, done, missing, raised, Action, Platform,
}
use lunatic92i.Playbooks.Gate.{is_grant, verify_grant, unapproved_text, unverified_text}
use lunatic92i.Playbooks.Engine.{
  preview_step, execute_step, request_step, destructive_step, live_step, any_step, take_step,
  complete, run_steps,
}
use lunatic92i.Playbooks.Progress.{
  Supply, Progress, outcome_of, add_result, fail, request, advance, mark_executed,
}

pub Attempt-cases :
    {A : Type 0} (t : Attempt A)
    → ((a : A) × (t ≡ done a)) ⊎ ((m : Text) × (t ≡ missing m)) ⊎ (t ≡ raised)
Attempt-cases (done a) = inl (a, refl)
Attempt-cases (missing m) = inr (inl (m, refl))
Attempt-cases raised = inr (inr refl)

module _ {W D : Type 0} (platform : Platform W D) (supply : Supply) where
  -- The progress with the parameters of the step.
  abbrev pub prepared : ℕ → Step → Progress W D → Progress W D
  prepared index step p = record p {
    context = record p.context { params = step.params; moment = supply.moments index };
  }

  -- A pass over a step, which goes on or ends the call.
  pub data Turn (index : ℕ) (step : Step) (p : Progress W D) : Bool → Progress W D → Type 0 where
    previewed :
        (report : Report D)
        → p.run.dry_run ≡ true
        → Turn index step p true (add_result (outcome_of index step preview report) p)
    ran :
        (action : Action W D) (report : Report D) (context : Context D) (world : W)
        → platform.registry step.action ≡ some action
        → p.run.dry_run ≡ false
        → action.is_destructive ≡ false
        → Turn index step p true (advance index step report context world p)
    ran_approved :
        (grant a : Approval D) (report : Report D) (context : Context D) (world : W)
        → p.run.dry_run ≡ false
        → find (is_grant p.context.tenant_id p.run.id index step.action) p.approvals ≡ some grant
        → verify_grant p.context.tenant_id step.action grant.id p.approvals ≡ some a
        → Turn index step p true (advance index step report context world (mark_executed a p))
    requested :
        (report : Report D) (requester : ℕ)
        → p.run.dry_run ≡ false
        → Turn index step p false (request platform supply index step report requester p)
    failed :
        (message : Text)
        → p.run.dry_run ≡ false
        → Turn index step p false (fail platform index step message p)

  abbrev pub Turned : ℕ → Step → Progress W D → Option (Bool × Progress W D) → Type 0
  Turned index step p none = Unit
  Turned index step p (some (goes_on, q)) = Turn index step p goes_on q

  module _ (action : Action W D) (index : ℕ) (step : Step) (p : Progress W D) where
    preview-Turned : p.run.dry_run ≡ true → Turned index step p (preview_step action index step p)
    unfolding preview_step
    preview-Turned dry = elim (Attempt-cases (action.dry_run p.world p.context)) [
      | inl (report, e) ↦ rw (e, preview_step) (previewed report dry)
      | inr (inl (m, e)) ↦ rw (e, preview_step) tt
      | inr (inr e) ↦ rw (e, preview_step) tt
    ]

    execute-Turned :
        (marked : Progress W D)
        → p.run.dry_run ≡ false
        → ((report : Report D) (context : Context D) (world : W)
            → Turn index step p true (advance index step report context world marked))
        → Turned index step p (execute_step platform action index step p marked)
    unfolding execute_step
    execute-Turned marked dry goes = elim (Attempt-cases (action.execute p.world p.context)) [
      | inl ((report, context, world), e) ↦ rw (e, execute_step) (goes report context world)
      | inr (inl (m, e)) ↦ rw (e, execute_step) (failed m dry)
      | inr (inr e) ↦ rw (e, execute_step) tt
    ]

    request-Turned :
        (actor : Option ℕ)
        → p.run.dry_run ≡ false
        → Turned index step p (request_step platform supply action index step p actor)
    unfolding request_step
    request-Turned none dry = failed (unapproved_text index step.action) dry
    request-Turned (some requester) dry = elim (Attempt-cases (action.dry_run p.world p.context)) [
      | inl (report, t) ↦ rw (t, request_step) (requested report requester dry)
      | inr (inl (m, t)) ↦ rw (t, request_step) (failed m dry)
      | inr (inr t) ↦ rw (t, request_step) tt
    ]

    destructive-Turned :
        p.run.dry_run ≡ false
        → Turned index step p (destructive_step platform supply action index step p)
    unfolding destructive_step
    destructive-Turned dry =
        elim (Option-cases
          (find (is_grant p.context.tenant_id p.run.id index step.action) p.approvals)) [
            | inl e ↦ rw (e, destructive_step) (request-Turned p.context.actor_id dry)
            | inr (grant, e) ↦
                rw (e, destructive_step)
                  (elim (Option-cases
                    (verify_grant p.context.tenant_id step.action grant.id p.approvals)) [
                      | inl v ↦ rw (v, destructive_step) (failed (unverified_text step.action) dry)
                      | inr (a, v) ↦
                          rw (v, destructive_step)
                            (execute-Turned (mark_executed a p) dry (λ report context world.
                              ran_approved grant a report context world dry e v))
                    ])
          ]

    any-Turned :
        (dry destructive : Bool)
        → platform.registry step.action ≡ some action
        → p.run.dry_run ≡ dry
        → action.is_destructive ≡ destructive
        → Turned index step p (any_step dry platform supply action index step p)
    unfolding any_step live_step
    any-Turned true destructive e dry d = preview-Turned dry
    any-Turned false true e wet d = rw (d, live_step) (destructive-Turned wet)
    any-Turned false false e wet d =
        rw (d, live_step)
          (execute-Turned p wet (λ report context world. ran action report context world e wet d))

  pub take_step-Turned :
      (index : ℕ) (step : Step) (before : Progress W D)
      → Turned index step (prepared index step before) (take_step platform supply index step before)
  unfolding take_step
  take_step-Turned index step before = elim (Option-cases (platform.registry step.action)) [
    | inl e ↦ rw (e, take_step) tt
    | inr (action, e) ↦
        rw (e, take_step)
          (any-Turned action index step (prepared index step before) before.run.dry_run
            action.is_destructive e refl refl)
  ]

  -- A property of what a call comes to, unless it raises.
  abbrev pub Held : (Progress W D → Type 0) → Option (Progress W D) → Type 0
  Held Q none = Unit
  Held Q (some q) = Q q

  -- What every pass keeps holds at the end of the call.
  pub run_steps-Held :
      (P : ℕ → Progress W D → Type 0) (Q : Progress W D → Type 0)
      → ((index : ℕ) (step : Step) (p q : Progress W D)
          → P index p
          → Turn index step (prepared index step p) true q
          → P (suc index) q)
      → ((index : ℕ) (step : Step) (p q : Progress W D)
          → P index p
          → Turn index step (prepared index step p) false q
          → Q q)
      → ((index : ℕ) (p : Progress W D) → P index p → Q (complete p))
      → (steps : List Step) (index : ℕ) (p : Progress W D) → P index p
      → Held Q (run_steps platform supply steps index p)
  unfolding run_steps
  run_steps-Held P Q goes stops ends [] index p h = ends index p h
  run_steps-Held P Q goes stops ends (step ∷ more) index p h =
      let turn = take_step-Turned index step p in
      elim (Option-cases (take_step platform supply index step p)) [
        | inl e ↦ rw (e, run_steps) tt
        | inr ((goes_on, q), e) ↦
            let turned : Turn index step (prepared index step p) goes_on q = rw e at turn in
            elim (Bool-cases goes_on) [
              | inl on ↦
                  rw (e, run_steps)
                    (rw (on, run_steps)
                      (run_steps-Held P Q goes stops ends more (suc index) q
                        (goes index step p q h (rw on at turned))))
              | inr off ↦
                  rw (e, run_steps)
                    (rw (off, run_steps) (stops index step p q h (rw off at turned)))
            ]
      ]
