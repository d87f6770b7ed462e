-- ===== src/Playbooks/Guarded.antt =====
-- The promises of the playbook tables through the calls of backend/app/services/playbooks.py.
use lunatic92i.Common.{
  ℕ, ◌≡◌, refl, ◌∙◌, inl, inr, Bool, true, false, Option, none, some, arith, Text, ◌==◌, any, All,
  All-append, All-imp, Bool-cases, Option-cases, true_false, update, update-All, find, find-All,
}
use lunatic92i.Common.Keys.{find-has_key, any-update_row, any-update_grows}
use lunatic92i.Playbooks.Model.{
  approved, rejected, Playbook, PlaybookRun, Approval, Platform, PlaybookDb, ApprovalStatus,
}
use lunatic92i.Playbooks.Gate.{approval_has_id}
use lunatic92i.Playbooks.Progress.{Supply, Progress}
use lunatic92i.Playbooks.Service.{
  run_has_id, has_playbook_id, is_run, run_row, insert_run, alert_is_there, write_back, finish,
  start_run,
}
use lunatic92i.Playbooks.Approvals.{
  Decision, is_pending, is_approval, decide, grant, resume, approve_action, refuse, reject_action,
}
use lunatic92i.Playbooks.Turns.{Held}
use lunatic92i.Playbooks.Guards.{
  is_controlled, is_executed, is_executed_for, key, Guards, Guards-Grows, upto, result_steps,
}
use lunatic92i.Playbooks.Underway.{Controlled, written-Controlled, Kept}
use lunatic92i.Playbooks.Kept.{run_playbook-Kept}

module _ {D : Type 0} where
  -- A decision by someone else is controlled, and a row that waits for it has not been used.
  decide-is_controlled :
      (status : ApprovalStatus) (d : Decision) (reason : Option Text) (a : Approval D)
      → is_pending status ≡ false
      → (d.approver_id == a.requested_by) ≡ false
      → is_controlled (decide status d reason a) ≡ true
  unfolding is_controlled decide
  decide-is_controlled status d reason a decided other = rw (decided, other) refl

  waiting-not_used :
      (a : Approval D) (run_id index : ℕ) (name : Text)
      → is_pending a.status ≡ true
      → is_executed_for run_id index name a ≡ false
  unfolding is_pending is_executed_for is_executed
  waiting-not_used a run_id index name h = ground arith

module _ {W D : Type 0} (platform : Platform W D) where
  pub record IsGuarded (db : PlaybookDb W D) : Type 0 where
    pub rows : Controlled db.approvals
    pub guarded : All (Guards platform db.approvals) db.runs

  finish-IsGuarded :
      (supply : Supply) (before db : PlaybookDb W D) (run_id : ℕ) (progress : Option (Progress W D))
      → IsGuarded before
      → IsGuarded db
      → Held platform supply (Kept platform db.approvals run_id) progress
      → IsGuarded (finish before db progress).1
  unfolding finish write_back
  finish-IsGuarded supply before db run_id none h g k = h
  finish-IsGuarded supply before db run_id (some p) h g k = record {
    rows = k.rows;
    guarded =
        update-All (Guards platform p.approvals) (run_has_id p.run.id) (λ _. p.run) db.runs
          (λ r _ _. k.guards)
          (All-imp _ _ db.runs (λ r. Guards-Grows platform db.approvals p.approvals r k.grows)
            g.guarded);
  }

  resume-IsGuarded :
      (db before : PlaybookDb W D) (supply : Supply) (tenant run_id : ℕ)
      → IsGuarded db
      → IsGuarded before
      → any (approval_has_id supply.approval_id) db.approvals ≡ false
      → IsGuarded (resume platform before db supply tenant run_id).1
  unfolding resume
  resume-IsGuarded db before supply tenant run_id h g room =
      elim (Option-cases (find (is_run tenant run_id) db.runs)) [
        | inl e ↦ rw (e, resume) g
        | inr (run, e) ↦
            rw (e, resume)
              (elim (Option-cases (find (has_playbook_id run.playbook_id) db.playbooks)) [
                | inl f ↦ rw (f, resume) g
                | inr (playbook, f) ↦
                    rw (f, resume)
                      (finish-IsGuarded supply before db run.id _ g h (
                        run_playbook-Kept platform supply db.approvals db.world run playbook
                          run.triggered_by h.rows room
                          (find-All (Guards platform db.approvals) (is_run tenant run_id) db.runs
                            run h.guarded e)))
              ])
      ]

  module _ (db : PlaybookDb W D) (h : IsGuarded db) where
    pub start_run-IsGuarded :
        (supply : Supply) (tenant : ℕ) (playbook : Playbook) (actor : Option ℕ) (dry : Bool)
        (alert : Option ℕ) (fresh_id : ℕ)
        → any (approval_has_id supply.approval_id) db.approvals ≡ false
        → IsGuarded (start_run platform db supply tenant playbook actor dry alert fresh_id).1
    unfolding start_run insert_run
    start_run-IsGuarded supply tenant playbook actor dry alert fresh_id room =
        let run : PlaybookRun D = run_row tenant playbook actor dry alert fresh_id in
        let new : Guards platform db.approvals run =
          unfold run_row in record { gated = tt; in_order = unfold result_steps upto in refl } in
        let after = insert_run platform db run playbook in
        elim (Bool-cases (alert_is_there platform db.world tenant alert)) [
          | inr t ↦ rw (t, start_run) h
          | inl t ↦
              rw (t, start_run)
                (finish-IsGuarded supply db after run.id _ h
                  (record {
                    rows = h.rows;
                    guarded =
                        All-append (Guards platform db.approvals) db.runs _ h.guarded (new, tt);
                  })
                  (run_playbook-Kept platform supply after.approvals after.world run playbook actor
                    h.rows room new))
        ]

    -- A decision on a waiting row by someone else than the requester.
    decision-IsGuarded :
        (a : Approval D) (d : Decision) (status : ApprovalStatus) (reason : Option Text) (world : W)
        → find (is_approval d.tenant_id d.approval_id) db.approvals ≡ some a
        → is_pending a.status ≡ true
        → (d.approver_id == a.requested_by) ≡ false
        → is_pending status ≡ false
        → IsGuarded (record db {
          approvals = update (approval_has_id a.id) (λ _. decide status d reason a) db.approvals;
          world = world;
        })
    decision-IsGuarded a d status reason world found waits other decided = record {
      rows =
          written-Controlled db.approvals a (decide status d reason a) (unfold decide in refl)
            (decide-is_controlled status d reason a decided other) h.rows;
      guarded =
          All-imp _ _ db.runs
            (λ r. Guards-Grows platform db.approvals _ r (λ run_id index name k.
              any-update_grows key (is_executed_for run_id index name) db.approvals a
                (decide status d reason a) h.rows.keys
                (find-has_key key _ db.approvals a h.rows.keys found)
                (λ t. true_false t (waiting-not_used a run_id index name waits)) k))
            h.guarded;
    }

    pub approve-IsGuarded :
        (supply : Supply) (d : Decision)
        → any (approval_has_id supply.approval_id) db.approvals ≡ false
        → IsGuarded (approve_action platform db supply d).1
    unfolding approve_action grant
    approve-IsGuarded supply d room =
        elim (Option-cases (find (is_approval d.tenant_id d.approval_id) db.approvals)) [
          | inl e ↦ rw (e, approve_action) h
          | inr (a, e) ↦
              rw (e, approve_action)
                (elim (Bool-cases (is_pending a.status)) [
                  | inr past ↦ rw (past, approve_action) h
                  | inl waits ↦
                      rw (waits, approve_action)
                        (elim (Bool-cases (d.approver_id == a.requested_by)) [
                          | inl self ↦ rw (self, approve_action) h
                          | inr other ↦
                              rw (other, approve_action)
                                (resume-IsGuarded (grant platform db d a) db supply d.tenant_id
                                  a.playbook_run_id
                                  (decision-IsGuarded a d approved a.reason _ e waits other
                                    (unfold is_pending in refl))
                                  h
                                  (any-update_row key (approval_has_id supply.approval_id)
                                      db.approvals a _ h.rows.keys
                                      (find-has_key key _ db.approvals a h.rows.keys e)
                                      (unfold decide in refl)
                                    ∙ room))
                        ])
                ])
        ]

    pub reject-IsGuarded :
        (d : Decision) (reason : Text) → IsGuarded (reject_action platform db d reason).1
    unfolding reject_action refuse
    reject-IsGuarded d reason =
        elim (Option-cases (find (is_approval d.tenant_id d.approval_id) db.approvals)) [
          | inl e ↦ rw (e, reject_action) h
          | inr (a, e) ↦
              rw (e, reject_action)
                (elim (Bool-cases (is_pending a.status)) [
                  | inr past ↦ rw (past, reject_action) h
                  | inl waits ↦
                      rw (waits, reject_action)
                        (elim (Bool-cases (d.approver_id == a.requested_by)) [
                          | inl self ↦ rw (self, reject_action) h
                          | inr other ↦
                              rw (other, reject_action)
                                (elim (Option-cases
                                  (find (is_run d.tenant_id a.playbook_run_id) db.runs)) [
                                    | inl f ↦ rw (f, reject_action) h
                                    | inr (run, f) ↦
                                        rw (f, reject_action)
                                          (refuse-IsGuarded a d reason run e waits other f)
                                  ])
                        ])
                ])
        ]
      where
        refuse-IsGuarded :
            (a : Approval D) (d : Decision) (reason : Text) (run : PlaybookRun D)
            → find (is_approval d.tenant_id d.approval_id) db.approvals ≡ some a
            → is_pending a.status ≡ true
            → (d.approver_id == a.requested_by) ≡ false
            → find (is_run d.tenant_id a.playbook_run_id) db.runs ≡ some run
            → IsGuarded (refuse platform db d a run reason)
        refuse-IsGuarded a d reason run e waits other f =
            let k =
              decision-IsGuarded a d rejected (some reason) db.world e waits other
                (unfold is_pending in refl) in
            record {
              rows = k.rows;
              guarded =
                  update-All (Guards platform _) (run_has_id run.id) (λ _. _) db.runs
                    (λ r _ _.
                      let g =
                        find-All (Guards platform _) (is_run d.tenant_id a.playbook_run_id) db.runs
                          run k.guarded f in
                      record { gated = g.gated; in_order = g.in_order })
                    k.guarded;
            }
