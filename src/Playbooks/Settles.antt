-- ===== src/Playbooks/Settles.antt =====
-- How a live call of `run_playbook` of backend/app/playbooks/engine.py ends.
use lunatic92i.Common.{
  ℕ, suc, ◌+◌, ◌≤◌, ◌≡◌, ◌⊎◌, Memᴰ, inl, inr, refl, ◌∙◌, ap, Bool, true, false, Option, none, some,
  List, [], ◌∷◌, arith, true_false, Bool-cases, Option-cases, find, All, length, drop, length-drop,
  is_some,
}
use lunatic92i.Playbooks.Model.{
  RunStatus, awaiting_approval, completed, failed, Step, Playbook, PlaybookRun, Approval, Context,
  Attempt, raised, Action, Platform,
}
use lunatic92i.Playbooks.Gate.{is_grant, verify_grant}
use lunatic92i.Playbooks.Engine.{
  execute_step, request_step, destructive_step, live_step, any_step, take_step, complete, run_steps,
  run_playbook,
}
use lunatic92i.Playbooks.Progress.{
  Supply, Progress, add_result, fail, request, advance, mark_executed,
}
use lunatic92i.Playbooks.Turns.{Turn, prepared, take_step-Turned, Attempt-cases}

-- The status of a run that no call is working on.
unfoldable pub is_settled : RunStatus → Bool
is_settled awaiting_approval = true
is_settled completed = true
is_settled failed = true
is_settled _ = false

unfoldable pub is_raised : {A : Type 0} → Attempt A → Bool
is_raised raised = true
is_raised _ = false

module _ {W D : Type 0} where
  -- The action raises somewhere what the engine does not catch.
  abbrev pub IsLoud : Action W D → Type 0
  IsLoud action =
      (world : W) × (context : Context D) × ((is_raised (action.dry_run world context) ≡ true)
        ⊎ (is_raised (action.execute world context) ≡ true))

  -- There is a result, unless the action is loud.
  Answered : {A : Type 0} → Action W D → Option A → Type 0
  Answered {A = A} action o = ((a : A) × (o ≡ some a)) ⊎ ((o ≡ none) × IsLoud action)

module _ {W D : Type 0} (platform : Platform W D) (supply : Supply) where
  module _ (action : Action W D) (index : ℕ) (step : Step) (p : Progress W D) where
    execute_step-Answered :
        (marked : Progress W D) → Answered action (execute_step platform action index step p marked)
    unfolding execute_step Answered is_raised
    execute_step-Answered marked = elim (Attempt-cases (action.execute p.world p.context)) [
      | inl ((report, context, world), e) ↦ rw (e, execute_step) (inl (_, refl))
      | inr (inl (m, e)) ↦ rw (e, execute_step) (inl (_, refl))
      | inr (inr e) ↦ rw (e, execute_step) (inr (refl, (p.world, p.context, inr (rw e refl))))
    ]

    request_step-Answered :
        (actor : Option ℕ)
        → Answered action (request_step platform supply action index step p actor)
    unfolding request_step Answered is_raised
    request_step-Answered none = inl (_, refl)
    request_step-Answered (some requester) =
        elim (Attempt-cases (action.dry_run p.world p.context)) [
          | inl (report, e) ↦ rw (e, request_step) (inl (_, refl))
          | inr (inl (m, e)) ↦ rw (e, request_step) (inl (_, refl))
          | inr (inr e) ↦ rw (e, request_step) (inr (refl, (p.world, p.context, inl (rw e refl))))
        ]

    destructive_step-Answered :
        Answered action (destructive_step platform supply action index step p)
    unfolding destructive_step Answered
    destructive_step-Answered =
        elim (Option-cases
          (find (is_grant p.context.tenant_id p.run.id index step.action) p.approvals)) [
            | inl e ↦ rw (e, destructive_step) (request_step-Answered p.context.actor_id)
            | inr (grant, e) ↦
                rw (e, destructive_step)
                  (elim (Option-cases
                    (verify_grant p.context.tenant_id step.action grant.id p.approvals)) [
                      | inl v ↦ rw (v, destructive_step) (inl (_, refl))
                      | inr (a, v) ↦
                          rw (v, destructive_step) (execute_step-Answered (mark_executed a p))
                    ])
          ]

    live-Answered :
        (destructive : Bool)
        → Answered action (live_step destructive platform supply action index step p)
    unfolding live_step
    live-Answered true = destructive_step-Answered
    live-Answered false = execute_step-Answered p

  -- A pass over a registered step in a live run has a result, whose run shows where it stands.
  abbrev pub IsAfter : ℕ → Bool → Progress W D → Type 0
  IsAfter index true q = (q.run.dry_run ≡ false) × (q.run.current_step ≡ suc index)
  IsAfter index false q = (is_settled q.run.status ≡ true) × (q.run.current_step ≡ index)

  Turn-IsAfter :
      (index : ℕ) (step : Step) (p : Progress W D) (on : Bool) (q : Progress W D)
      → p.run.dry_run ≡ false
      → Turn platform supply index step p on q
      → IsAfter index on q
  unfolding advance add_result fail request is_settled mark_executed
  Turn-IsAfter index step p _ _ wet (Turn.previewed report dry) = true_false dry wet
  Turn-IsAfter index step p _ _ wet (Turn.ran action report context world e _ safe) = (wet, refl)
  Turn-IsAfter index step p _ _ wet (Turn.ran_approved grant a report context world _ found e) =
      (wet, refl)
  Turn-IsAfter index step p _ _ wet (Turn.requested report requester _) = (refl, refl)
  Turn-IsAfter index step p _ _ wet (Turn.failed message _) = (refl, refl)

  take_step-IsAfter :
      (index : ℕ) (step : Step) (p : Progress W D) (action : Action W D)
      → p.run.dry_run ≡ false
      → platform.registry step.action ≡ some action
      → ((on : Bool) × (q : Progress W D) × (take_step platform supply index step p ≡ some (on, q))
          × IsAfter index on q)
        ⊎ ((take_step platform supply index step p ≡ none) × IsLoud action)
  unfolding take_step any_step Answered
  take_step-IsAfter index step p action wet e =
      let here = prepared platform supply index step p in
      let same : take_step platform supply index step p
          ≡ live_step action.is_destructive platform supply action index step here =
        rw (e, take_step) (ap (λ dry. any_step dry platform supply action index step here) wet) in
      elim (live-Answered action index step here action.is_destructive) [
        | inr (nothing, loud) ↦ inr (same ∙ nothing, loud)
        | inl ((on, q), found) ↦
            let turned = take_step-Turned platform supply index step p in
            inl (
              on,
              q,
              same ∙ found,
              Turn-IsAfter index step here on q wet (rw (same ∙ found) at turned),
            )
      ]

  -- A step whose action raises somewhere what the engine does not catch.
  abbrev pub HasLoudStep : List Step → Type 0
  HasLoudStep steps =
      (step : Step) × (action : Action W D) × Memᴰ step steps
      × (platform.registry step.action ≡ some action)
      × IsLoud action

  -- A call that ends with a settled run not beyond a bound, or with an exception of one of the steps.
  abbrev pub IsOutcome : Option (Progress W D) → ℕ → List Step → Type 0
  IsOutcome out bound steps =
      ((q : Progress W D) × (out ≡ some q)
        × (is_settled q.run.status ≡ true)
        × (q.run.current_step ≤ bound))
      ⊎ ((out ≡ none) × HasLoudStep steps)

  IsOutcome-le :
      (out : Option (Progress W D)) (low high : ℕ) (steps : List Step)
      → low ≤ high
      → IsOutcome out low steps
      → IsOutcome out high steps
  IsOutcome-le out low high steps le (inl (q, e, settled, bound)) =
      inl (q, e, settled, omega (arith, bound, le))
  IsOutcome-le out low high steps le (inr loud) = inr loud

  run_steps-settles :
      (steps : List Step) (index : ℕ) (p : Progress W D)
      → All (λ s. is_some (platform.registry s.action) ≡ true) steps
      → p.run.dry_run ≡ false
      → p.run.current_step ≡ index
      → IsOutcome (run_steps platform supply steps index p) (index + length steps) steps
  unfolding run_steps
  run_steps-settles [] index p known wet here =
      inl (
        complete p,
        refl,
        unfold complete is_settled in refl,
        unfold complete in omega (arith, here),
      )
  run_steps-settles (step ∷ more) index p known wet here =
      elim (Option-cases (platform.registry step.action)) [
        | inl e ↦ absurd (ground (arith, known.0))
        | inr (action, e) ↦ elim (take_step-IsAfter index step p action wet e) [
          | inr (nothing, loud) ↦
              rw (nothing, run_steps) (inr (refl, (step, action, Memᴰ.head refl, e, loud)))
          | inl (on, q, same, after) ↦ elim (Bool-cases on) [
            | inr off ↦
                let k : IsAfter index false q = rw off at after in
                rw (same, run_steps) (rw (off, run_steps) (inl (q, refl, k.0, omega (arith, k.1))))
            | inl go ↦
                let k : IsAfter index true q = rw go at after in
                rw (same, run_steps)
                  (rw (go, run_steps)
                    (elim (run_steps-settles more (suc index) q known.1 k.0 k.1) [
                      | inl (r, e', settled, bound) ↦ inl (r, e', settled, omega (arith, bound))
                      | inr (e', (s, a, m, found, loud)) ↦
                          inr (e', (s, a, Memᴰ.tail m, found, loud))
                    ]))
          ]
        ]
      ]

-- A live call on a run that stands within its playbook and whose remaining steps are registered returns,
-- and the run then waits for an approval, has failed or is completed, and does not stand beyond the
-- steps; or the call ends with an exception, and then one of the remaining steps has an action that
-- raises somewhere what the engine does not catch.
pub run_playbook-settles :
    {W D : Type 0} (platform : Platform W D) (supply : Supply) (approvals : List (Approval D))
    (world : W) (run : PlaybookRun D) (playbook : Playbook) (actor : Option ℕ)
    → All (λ s. is_some (platform.registry s.action) ≡ true) (drop run.current_step playbook.steps)
    → run.dry_run ≡ false
    → run.current_step ≤ length playbook.steps
    → IsOutcome platform supply
        (run_playbook platform supply approvals world run playbook actor)
        (length playbook.steps)
        (drop run.current_step playbook.steps)
unfolding run_playbook
run_playbook-settles platform supply approvals world run playbook actor known wet within =
    let left = drop run.current_step playbook.steps in
    IsOutcome-le platform supply (run_playbook platform supply approvals world run playbook actor)
      (run.current_step + length left) (length playbook.steps) left
      (omega (arith, within, length-drop run.current_step playbook.steps))
      (run_steps-settles platform supply left run.current_step _ known wet refl)
