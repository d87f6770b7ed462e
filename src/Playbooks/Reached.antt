-- ===== src/Playbooks/Reached.antt =====
-- The playbook tables that calls of backend/app/services/playbooks.py reach: dual control, approvals and the
-- order of results.
use lunatic92i.Common.{
  none, ◌++◌, ℕ, ◌≡◌, refl, inl, inr, Bool, true, false, Option, some, List, [], ◌∷◌, arith, Text,
  ◌==◌, any, All-Mem, Memᴰ, Bool-cases, Option-cases,
}
use lunatic92i.Playbooks.Model.{StepOutcome, PlaybookRun, Approval, Platform, PlaybookDb}
use lunatic92i.Playbooks.Progress.{Supply}
use lunatic92i.Playbooks.Service.{
  Answer-cases, List-cases, PlaybookDraft, has_playbook_key, unknown_actions, get_playbook,
  create_playbook,
}
use lunatic92i.Playbooks.Approvals.{is_pending}
use lunatic92i.Playbooks.Install.{install_all, install_default_playbooks}
use lunatic92i.Playbooks.Run.{
  install, make, begin, approve, reject, IsFresh, begin_run, apply, Reach, start, step,
}
use lunatic92i.Playbooks.Guards.{
  is_controlled, is_result, is_executed, is_executed_for, is_destructive_name, is_gated, Guards,
  upto, result_steps,
}
use lunatic92i.Playbooks.Guarded.{
  IsGuarded, start_run-IsGuarded, approve-IsGuarded, reject-IsGuarded,
}

any-Mem :
    {A : Type 0} (p : A → Bool) (xs : List A) → any p xs ≡ true → (a : A) × Memᴰ a xs × (p a ≡ true)
unfolding any
any-Mem p [] h = absurd (ground arith)
any-Mem p (x ∷ xs) h = elim (Bool-cases (p x)) [
  | inl t ↦ (x, Memᴰ.head refl, t)
  | inr t ↦ let (a, there, t') = any-Mem p xs (rw t at h) in (a, Memᴰ.tail there, t')
]

-- A used approval was decided by someone else than the requester.
executed_decision :
    {D : Type 0} (run_id index : ℕ) (name : Text) (a : Approval D)
    → is_controlled a ≡ true
    → is_executed_for run_id index name a ≡ true
    → (who : ℕ) × (a.decided_by ≡ some who) × ((who == a.requested_by) ≡ false)
unfolding is_controlled is_executed_for is_executed is_pending
executed_decision run_id index name a h e = elim (Option-cases a.decided_by) [
  | inl n ↦ absurd (ground arith)
  | inr (who, n) ↦ (who, n, ground arith)
]

module _ {W D : Type 0} (platform : Platform W D) where
  create_playbook-IsGuarded :
      (db : PlaybookDb W D) (tenant : ℕ) (draft : PlaybookDraft) (actor : Option ℕ)
      (ip : Option Text) (fresh_id : ℕ)
      → IsGuarded platform db
      → IsGuarded platform (create_playbook platform db tenant draft actor ip fresh_id).1
  unfolding create_playbook
  create_playbook-IsGuarded db tenant draft actor ip fresh_id h =
      elim (Bool-cases (any (has_playbook_key tenant draft.key) db.playbooks)) [
        | inl t ↦ rw (t, create_playbook) h
        | inr t ↦
            rw (t, create_playbook)
              (elim (List-cases (unknown_actions platform draft.steps)) [
                | inl e ↦ rw (e, create_playbook) (record { rows = h.rows; guarded = h.guarded })
                | inr (name, more, e) ↦ rw (e, create_playbook) h
              ])
      ]

  install_all-IsGuarded :
      (before db : PlaybookDb W D) (tenant : ℕ) (actor : Option ℕ) (installed : List Text)
      (drafts : List (PlaybookDraft × ℕ))
      → IsGuarded platform before
      → IsGuarded platform db
      → IsGuarded platform (install_all platform before db tenant actor installed drafts).1
  unfolding install_all
  install_all-IsGuarded before db tenant actor installed [] g h = h
  install_all-IsGuarded before db tenant actor installed ((draft, fresh_id) ∷ more) g h =
      elim (Bool-cases (any (has_playbook_key tenant draft.key) db.playbooks)) [
        | inl t ↦
            rw (t, install_all) (install_all-IsGuarded before db tenant actor installed more g h)
        | inr t ↦
            let (made, mid) = create_playbook platform db tenant draft actor none fresh_id in
            rw (t, install_all)
              (elim (Answer-cases made) [
                | inl (x, e) ↦ rw (e, install_all) g
                | inr (row, e) ↦
                    rw (e, install_all)
                      (install_all-IsGuarded before mid tenant actor (installed ++ draft.key ∷ [])
                        more g (create_playbook-IsGuarded db tenant draft actor none fresh_id h))
              ])
      ]

  begin_run-IsGuarded :
      (db : PlaybookDb W D) (supply : Supply) (tenant : ℕ) (key : Text) (actor : Option ℕ)
      (dry : Bool) (alert : Option ℕ) (fresh_id : ℕ)
      → IsGuarded platform db
      → IsFresh db (begin supply tenant key actor dry alert fresh_id)
      → IsGuarded platform (begin_run platform db supply tenant key actor dry alert fresh_id).1
  unfolding begin_run
  begin_run-IsGuarded db supply tenant key actor dry alert fresh_id h fresh =
      elim (Answer-cases (get_playbook db tenant key)) [
        | inl (e, t) ↦ rw (t, begin_run) h
        | inr (playbook, t) ↦
            rw (t, begin_run)
              (start_run-IsGuarded platform db h supply tenant playbook actor dry alert fresh_id
                fresh.1)
      ]

  Reach-IsGuarded :
      {world : W} {db : PlaybookDb W D} → Reach platform world db → IsGuarded platform db
  unfolding apply
  Reach-IsGuarded start = record { rows = record { keys = tt; controlled = tt }; guarded = tt }
  Reach-IsGuarded (step {db = db} reached (make tenant draft actor ip fresh_id) fresh) =
      create_playbook-IsGuarded db tenant draft actor ip fresh_id (Reach-IsGuarded reached)
  Reach-IsGuarded
        (step {db = db} reached (begin supply tenant key actor dry alert fresh_id) fresh) =
      begin_run-IsGuarded db supply tenant key actor dry alert fresh_id (Reach-IsGuarded reached)
        fresh
  Reach-IsGuarded (step {db = db} reached (install tenant actor drafts) fresh) =
      unfold install_default_playbooks in
      install_all-IsGuarded db db tenant actor [] drafts (Reach-IsGuarded reached)
        (Reach-IsGuarded reached)
  Reach-IsGuarded (step {db = db} reached (approve supply d) fresh) =
      approve-IsGuarded platform db (Reach-IsGuarded reached) supply d fresh
  Reach-IsGuarded (step {db = db} reached (reject d reason) fresh) =
      reject-IsGuarded platform db (Reach-IsGuarded reached) d reason

  module _ {world : W} {db : PlaybookDb W D} (reached : Reach platform world db) where
    -- In every state that the calls reach, nobody has decided a pending approval, and a decided one was
    -- decided by someone else than the person who requested it.
    pub Reach-is_controlled : (a : Approval D) → Memᴰ a db.approvals → is_controlled a ≡ true
    Reach-is_controlled a there =
        All-Mem (λ x. is_controlled x ≡ true) db.approvals a
          (Reach-IsGuarded reached).rows.controlled there

    -- In every state that the calls reach, a result of a destructive action in a run comes with an approval
    -- of that run, step and action that is marked as used and that someone else than its requester decided.
    pub Reach-approved :
        (run : PlaybookRun D) (o : StepOutcome D)
        → Memᴰ run db.runs
        → Memᴰ o run.results
        → is_result o.kind ≡ true
        → is_destructive_name platform o.action ≡ true
        → (a : Approval D) × Memᴰ a db.approvals
          × (is_executed_for run.id o.step_index o.action a ≡ true)
          × (who : ℕ) × (a.decided_by ≡ some who)
          × ((who == a.requested_by) ≡ false)
    unfolding is_gated
    Reach-approved run o there in_run is_one destructive =
        let g =
          All-Mem (Guards platform db.approvals) db.runs run (Reach-IsGuarded reached).guarded
            there in
        let gated =
          All-Mem (λ x. is_gated platform db.approvals run.id x ≡ true) run.results o g.gated
            in_run in
        let (a, at_a, used) =
          any-Mem (is_executed_for run.id o.step_index o.action) db.approvals
            (rw (is_one, destructive) at gated) in
        let (who, by, other) =
          executed_decision run.id o.step_index o.action a (Reach-is_controlled a at_a) used in
        (a, at_a, used, who, by, other)

    -- In every state that the calls reach, the results of a run are those of the steps before its current
    -- one, each exactly once and in the order of the steps, however often the run was halted and resumed.
    pub Reach-in_order :
        (run : PlaybookRun D) → Memᴰ run db.runs → result_steps run.results ≡ upto run.current_step
    Reach-in_order run there =
        (All-Mem (Guards platform db.approvals) db.runs run (Reach-IsGuarded reached).guarded
          there).in_order
