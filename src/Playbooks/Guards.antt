-- ===== src/Playbooks/Guards.antt =====
-- What the playbook tables promise: two people for a destructive step, its approval before its result, and
-- the results of a run in the order of its steps (backend/app/playbooks/engine.py and
-- backend/app/models/playbooks.py).
use lunatic92i.Common.{
  ℕ, zero, suc, ◌≡◌, refl, inl, inr, Bool, true, false, not, ◌&&◌, none, some, List, [], ◌∷◌, ◌++◌,
  arith, Text, text_eq, ◌==◌, any, All, All-append, All-imp, if◌then◌else◌, Bool-cases,
}
use lunatic92i.Playbooks.Model.{
  ApprovalStatus, executed, OutcomeKind, result, StepOutcome, PlaybookRun, Approval, Platform,
}
use lunatic92i.Playbooks.Approvals.{is_pending}

unfoldable pub is_executed : ApprovalStatus → Bool
is_executed executed = true
is_executed _ = false

unfoldable pub is_result : OutcomeKind → Bool
is_result result = true
is_result _ = false

-- The numbers below a bound, in order.
unfoldable pub upto : ℕ → List ℕ
upto zero = []
upto (suc n) = upto n ++ n ∷ []

module _ {D : Type 0} where
  -- Nobody has decided a pending row, and someone else than the requester has decided another.
  unfoldable pub is_controlled : Approval D → Bool
  unfolding is_pending
  is_controlled a = elim a.decided_by [
    | none ↦ is_pending a.status
    | some who ↦ not (is_pending a.status) && not (who == a.requested_by)
  ]

  unfoldable pub is_executed_for : ℕ → ℕ → Text → Approval D → Bool
  unfolding is_executed
  is_executed_for run_id index name a =
      (a.playbook_run_id == run_id)
      && (a.step_index == index)
      && text_eq a.action_name name
      && is_executed a.status

  -- The indices of the steps that have a result.
  unfoldable pub result_steps : List (StepOutcome D) → List ℕ
  unfolding is_result
  result_steps [] = []
  result_steps (o ∷ more) =
      let rest = result_steps more in if is_result o.kind then o.step_index ∷ rest else rest

  pub result_steps-snoc :
      (outcomes : List (StepOutcome D)) (o : StepOutcome D)
      → result_steps (outcomes ++ o ∷ []) ≡ (
          if is_result o.kind
          then result_steps outcomes ++ o.step_index ∷ []
          else result_steps outcomes)
  unfolding result_steps
  result_steps-snoc [] o = refl
  result_steps-snoc (x ∷ outcomes) o = ground (arith, result_steps-snoc outcomes o)

  abbrev pub key : Approval D → ℕ
  key a = a.id

module _ {W D : Type 0} (platform : Platform W D) where
  unfoldable pub is_destructive_name : Text → Bool
  is_destructive_name name = elim (platform.registry name) [
    | none ↦ false
    | some action ↦ action.is_destructive
  ]

  -- A result of a destructive action has an approval of the run, the step and the action that was used.
  unfoldable pub is_gated : List (Approval D) → ℕ → StepOutcome D → Bool
  unfolding is_result is_destructive_name any is_executed_for
  is_gated approvals run_id o =
      if is_result o.kind && is_destructive_name o.action
      then any (is_executed_for run_id o.step_index o.action) approvals
      else true

  -- What a run shows: its results are those of the steps before the current one, each once and in order.
  pub record Guards (approvals : List (Approval D)) (run : PlaybookRun D) : Type 0 where
    pub gated : All (λ o. is_gated approvals run.id o ≡ true) run.results
    pub in_order : result_steps run.results ≡ upto run.current_step

  -- No used approval gets lost.
  abbrev pub Grows : List (Approval D) → List (Approval D) → Type 0
  Grows before after =
      (run_id index : ℕ) (name : Text)
      → any (is_executed_for run_id index name) before ≡ true
      → any (is_executed_for run_id index name) after ≡ true

  is_gated-Grows :
      (before after : List (Approval D)) (run_id : ℕ) (o : StepOutcome D)
      → Grows before after
      → is_gated before run_id o ≡ true
      → is_gated after run_id o ≡ true
  unfolding is_gated
  is_gated-Grows before after run_id o grows h =
      elim (Bool-cases (is_result o.kind && is_destructive_name o.action)) [
        | inl t ↦ rw t (grows run_id o.step_index o.action (rw t at h))
        | inr t ↦ rw t refl
      ]

  pub Guards-Grows :
      (before after : List (Approval D)) (run : PlaybookRun D)
      → Grows before after
      → Guards before run
      → Guards after run
  Guards-Grows before after run grows g = record {
    gated = All-imp _ _ run.results (λ o. is_gated-Grows before after run.id o grows) g.gated;
    in_order = g.in_order;
  }

  -- One more outcome that is no result.
  pub Guards-other :
      (approvals : List (Approval D)) (run after : PlaybookRun D) (o : StepOutcome D)
      → after.id ≡ run.id
      → after.results ≡ run.results ++ o ∷ []
      → after.current_step ≡ run.current_step
      → is_result o.kind ≡ false
      → Guards approvals run
      → Guards approvals after
  Guards-other approvals run after o same_id results same_step no_result g = record {
    gated =
        rw (same_id, results)
          (All-append (λ x. is_gated approvals run.id x ≡ true) run.results (o ∷ []) g.gated
            (unfold is_gated in rw no_result refl, tt));
    in_order = rw (results, same_step, result_steps-snoc run.results o, no_result) g.in_order;
  }

  -- The result of the current step.
  pub Guards-result :
      (approvals : List (Approval D)) (run after : PlaybookRun D) (o : StepOutcome D)
      → after.id ≡ run.id
      → after.results ≡ run.results ++ o ∷ []
      → o.step_index ≡ run.current_step
      → after.current_step ≡ suc run.current_step
      → is_result o.kind ≡ true
      → is_gated approvals run.id o ≡ true
      → Guards approvals run
      → Guards approvals after
  unfolding upto
  Guards-result approvals run after o same_id results here next_step is_one gated g = record {
    gated =
        rw (same_id, results)
          (All-append (λ x. is_gated approvals run.id x ≡ true) run.results (o ∷ []) g.gated
            (gated, tt));
    in_order =
        rw (results, next_step, result_steps-snoc run.results o, is_one)
          (rw (g.in_order, here) refl);
  }
