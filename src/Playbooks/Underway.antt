-- ===== src/Playbooks/Underway.antt =====
-- The promises of the playbook tables through one pass of the loop of backend/app/playbooks/engine.py.
use lunatic92i.Common.{
  ℕ, suc, ◌≡◌, refl, sym, ◌∙◌, ap, inl, inr, Bool, true, false, ◌&&◌, some, List, [], ◌∷◌, ◌++◌,
  arith, Text, text_eq, ◌==◌, ==_iff, any, any-append, All, All-append, Bool-cases, update,
  update-All, find, find-All, some_inj, true_false,
}
use lunatic92i.Common.Keys.{Distinct, find-has_key, update-Distinct, snoc-Distinct}
use lunatic92i.Playbooks.Model.{
  executed, Step, preview, result, Approval, Context, Report, Platform,
}
use lunatic92i.Playbooks.Gate.{is_approved, approval_has_id, is_grant, verify_grant, pending_row}
use lunatic92i.Playbooks.Progress.{Supply, Progress, outcome_of, add_result, fail, request, advance}
use lunatic92i.Playbooks.Approvals.{is_pending}
use lunatic92i.Playbooks.Turns.{prepared}
use lunatic92i.Playbooks.Guards.{
  is_controlled, is_executed_for, is_result, is_gated, key, Guards, Grows, Guards-Grows,
  Guards-other, Guards-result,
}

module _ {D : Type 0} where
  -- The approvals have ids of their own and are controlled.
  pub record Controlled (approvals : List (Approval D)) : Type 0 where
    pub keys : Distinct key approvals
    pub controlled : All (λ a. is_controlled a ≡ true) approvals

  -- The row that `verify_grant` reads is the one of the grant.
  pub verified :
      (approvals : List (Approval D)) (grant a : Approval D) (tenant run_id index : ℕ) (name : Text)
      → Distinct key approvals
      → find (is_grant tenant run_id index name) approvals ≡ some grant
      → verify_grant tenant name grant.id approvals ≡ some a
      → a ≡ grant
  unfolding verify_grant
  verified approvals grant a tenant run_id index name keys found e =
      let here = find-has_key key (is_grant tenant run_id index name) approvals grant keys found in
      let e' = rw (here, verify_grant) at e in
      elim (Bool-cases (
        (grant.tenant_id == tenant)
        && text_eq grant.action_name name
        && is_approved grant.status)) [
          | inl t ↦ sym (some_inj (rw (t, verify_grant) at e'))
          | inr t ↦ absurd (ground arith)
        ]

  abbrev pub used : Approval D → Approval D
  used a = record a { status = executed }

  used-is_controlled :
      (a : Approval D)
      → is_approved a.status ≡ true
      → is_controlled a ≡ true
      → is_controlled (used a) ≡ true
  unfolding is_controlled is_approved is_pending
  used-is_controlled a yes_approved h = ground arith

  -- Writing a controlled row back under its id.
  pub written-Controlled :
      (approvals : List (Approval D)) (a b : Approval D)
      → b.id ≡ a.id
      → is_controlled b ≡ true
      → Controlled approvals
      → Controlled (update (approval_has_id a.id) (λ _. b) approvals)
  written-Controlled approvals a b same is_so h = record {
    keys =
        update-Distinct key (approval_has_id a.id) (λ _. b) approvals
          (λ x k. same ∙ sym ((==_iff x.id a.id).0 k)) h.keys;
    controlled =
        update-All (λ x. is_controlled x ≡ true) (approval_has_id a.id) (λ _. b) approvals
          (λ x _ _. is_so) h.controlled;
  }

  pub used-Controlled :
      (approvals : List (Approval D)) (a : Approval D) (p : Approval D → Bool)
      → find p approvals ≡ some a
      → is_approved a.status ≡ true
      → Controlled approvals
      → Controlled (update (approval_has_id a.id) (λ _. used a) approvals)
  used-Controlled approvals a p found yes_approved h =
      written-Controlled approvals a (used a) refl
        (used-is_controlled a yes_approved
          (find-All (λ x. is_controlled x ≡ true) p approvals a h.controlled found))
        h

module _ {W D : Type 0} (platform : Platform W D) (before : List (Approval D)) (run_id : ℕ) where
  -- What holds during a call and after it.
  pub record Kept (p : Progress W D) : Type 0 where
    pub same_id : p.run.id ≡ run_id
    pub rows : Controlled p.approvals
    pub guards : Guards platform p.approvals p.run
    pub grows : Grows platform before p.approvals

  -- What holds before the pass over a step.
  pub record Underway (supply : Supply) (index : ℕ) (p : Progress W D) : Type 0 where
    pub kept : Kept p
    pub here : p.run.dry_run ≡ false → p.run.current_step ≡ index
    pub room : any (approval_has_id supply.approval_id) p.approvals ≡ false

  module _ (supply : Supply) (index : ℕ) (step : Step) (p : Progress W D)
      (h : Underway supply index p) where
    pub previewed-Underway :
        (report : Report D)
        → p.run.dry_run ≡ true
        → Underway supply (suc index) (
            add_result
              (outcome_of index step preview report)
              (prepared platform supply index step p))
    unfolding add_result outcome_of
    previewed-Underway report dry = record {
      kept = record {
        same_id = h.kept.same_id;
        rows = h.kept.rows;
        guards =
            Guards-other platform p.approvals p.run _ _ refl refl refl (unfold is_result in refl)
              h.kept.guards;
        grows = h.kept.grows;
      };
      here = λ wet. true_false dry wet;
      room = h.room;
    }

    -- A result, over approvals in which nothing that was used is lost.
    pub result-Underway :
        (report : Report D) (context : Context D) (world : W) (approvals : List (Approval D))
        → p.run.dry_run ≡ false
        → Controlled approvals
        → Grows platform p.approvals approvals
        → is_gated platform approvals p.run.id (outcome_of index step result report) ≡ true
        → any (approval_has_id supply.approval_id) approvals ≡ false
        → Underway supply (suc index) (
            advance index step report context world
              (record (prepared platform supply index step p) { approvals = approvals }))
    unfolding advance add_result outcome_of
    result-Underway report context world approvals wet rows grows gated room = record {
      kept = record {
        same_id = h.kept.same_id;
        rows = rows;
        guards =
            Guards-result platform approvals p.run _ _ refl refl (sym (h.here wet))
              (ap suc (sym (h.here wet))) (unfold is_result in refl) gated
              (Guards-Grows platform p.approvals approvals p.run grows h.kept.guards);
        grows = λ r s n e. grows r s n (h.kept.grows r s n e);
      };
      here = λ _. refl;
      room = room;
    }

    pub failed-Kept :
        (message : Text)
        → p.run.dry_run ≡ false
        → Kept (fail platform index step message (prepared platform supply index step p))
    unfolding fail add_result outcome_of
    failed-Kept message wet = record {
      same_id = h.kept.same_id;
      rows = h.kept.rows;
      guards =
          Guards-other platform p.approvals p.run _ _ refl refl (sym (h.here wet))
            (unfold is_result in refl) h.kept.guards;
      grows = h.kept.grows;
    }

    pub requested-Kept :
        (report : Report D) (requester : ℕ)
        → p.run.dry_run ≡ false
        → Kept (
            request platform supply index step report requester
              (prepared platform supply index step p))
    unfolding request pending_row
    requested-Kept report requester wet = record {
      same_id = h.kept.same_id;
      rows = record {
        keys = snoc-Distinct key p.approvals _ h.room h.kept.rows.keys;
        controlled =
            All-append (λ a. is_controlled a ≡ true) p.approvals _ h.kept.rows.controlled
              (unfold is_controlled is_pending in refl, tt);
      };
      guards =
          let g = Guards-Grows platform p.approvals _ p.run more h.kept.guards in
          record { gated = g.gated; in_order = rw (sym (h.here wet)) g.in_order };
      grows = λ r s n e. more r s n (h.kept.grows r s n e);
    }
      where
        row : Approval D
        row = pending_row p.run index step.action report.details requester supply.approval_id

        more : Grows platform p.approvals (p.approvals ++ row ∷ [])
        more r s n e = any-append (is_executed_for r s n) p.approvals (row ∷ []) ∙ rw e
