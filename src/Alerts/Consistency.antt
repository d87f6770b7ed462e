-- ===== src/Alerts/Consistency.antt =====
-- What the alert tables keep through every call of backend/app/services/alerts.py.
use lunatic92i.Common.{
  ℕ, ◌≡◌, refl, sym, ◌∙◌, ap, true, false, Option, none, some, List, [], ◌∷◌, ◌++◌, arith, Text,
  ◌==◌, is_some, any, All, update, find-All, update-All_cases, All-append, All-imp, All-both,
  any-false_All, any-update, any-snoc_false, ==_iff, ==_refl, ==_comm,
}
use lunatic92i.Audit.{AuditEvent}
use lunatic92i.Sequences.{Sequence}
use lunatic92i.Alerts.Model.{
  Status, new, Alert, AlertInput, AlertTransition, is_closing, is_allowed,
}
use lunatic92i.Alerts.Dedup.{
  AlertDb, Moment, empty_db, has_id, fold_into, new_alert, created_row, insert_alert,
}
use lunatic92i.Alerts.Lifecycle.{
  Request, move, move_row, apply_move, apply_assign, get_alert, is_alert,
}
use lunatic92i.Alerts.History.{is_legal, read_row, replay, replay-snoc, status_eq_refl}
use lunatic92i.Alerts.Run.{Op, IsFresh, apply, Reach, start, step}
use lunatic92i.Alerts.Effect.{
  Effect, refused, not_assigned, not_noted, folded, inserted, moved, assigned, noted, apply-Effect,
}

-- A row says that it is closed exactly if its status does, and its history ends in its status.
abbrev pub IsSound : List AlertTransition → Alert → Type 0
IsSound ts a =
    (is_some a.closed_at ≡ is_closing a.status) × (replay a.id ts none ≡ some (some a.status))

pub record IsConsistent (db : AlertDb) : Type 0 where
  pub sound : All (IsSound db.transitions) db.alerts
  pub unborn : (i : ℕ) → any (has_id i) db.alerts ≡ false → replay i db.transitions none ≡ some none

pub empty-IsConsistent : IsConsistent empty_db
unfolding replay
empty-IsConsistent = record { sound = tt; unborn = λ i h. refl }

-- A history row of another alert changes nothing.
skip_row :
    (i : ℕ) (ts : List AlertTransition) (row : AlertTransition) (end : Option Status)
    → (row.alert_id == i) ≡ false
    → replay i ts none ≡ some end
    → replay i (ts ++ row ∷ []) none ≡ some end
skip_row i ts row end other h = replay-snoc i ts row none end h ∙ unfold read_row in rw other

-- Folding a repeat in leaves the columns of the lifecycle alone.
pub fold_into_keeps :
    (payload : AlertInput) (now : ℕ) (a : Alert)
    → ((fold_into payload now a).id ≡ a.id)
      × ((fold_into payload now a).status ≡ a.status)
      × ((fold_into payload now a).closed_at ≡ a.closed_at)
unfolding fold_into
fold_into_keeps payload now a = ground arith

fold_into-IsSound :
    (ts : List AlertTransition) (payload : AlertInput) (now : ℕ) (a : Alert)
    → IsSound ts a
    → IsSound ts (fold_into payload now a)
fold_into-IsSound ts payload now a h =
    let (same_id, same_status, same_closed) = fold_into_keeps payload now a in
    rw (same_id, same_status, same_closed) h

-- An accepted move: the id stays, the status is the target and `closed_at` agrees with it.
pub move_keeps :
    (target : Status) (actor : Option ℕ) (remark : Option Text) (now : ℕ) (a : Alert)
    → ((move target actor remark now a).id ≡ a.id)
      × ((move target actor remark now a).status ≡ target)
      × (is_some (move target actor remark now a).closed_at ≡ is_closing target)
unfolding move
move_keeps target actor remark now a = ground arith

-- The history of a new alert ends in `new`.
born :
    (ts : List AlertTransition) (payload : AlertInput) (m : Moment)
    → replay m.fresh_id ts none ≡ some none
    → replay m.fresh_id (ts ++ created_row payload m ∷ []) none ≡ some (some new)
unfolding created_row read_row is_legal
born ts payload m h =
    replay-snoc m.fresh_id ts (created_row payload m) none none h ∙ rw (==_refl m.fresh_id)

-- A legal move leads the history of its alert to the target.
walk_on :
    (ts : List AlertTransition) (r : Request) (a : Alert) (target : Status) (remark : Option Text)
    → is_allowed a.status target ≡ true
    → replay a.id ts none ≡ some (some a.status)
    → replay a.id (ts ++ move_row r a target remark ∷ []) none ≡ some (some target)
walk_on ts r a target remark allowed h =
    replay-snoc a.id ts (move_row r a target remark) none (some a.status) h
    ∙ unfold move_row read_row is_legal in rw (==_refl a.id, status_eq_refl a.status) (rw allowed)

module _ (db : AlertDb) (h : IsConsistent db) where
  insert_alert-IsConsistent :
      (payload : AlertInput) (m : Moment) (display_id : Text) (sequences : List Sequence)
      → any (has_id m.fresh_id) db.alerts ≡ false
      → IsConsistent (insert_alert db payload m display_id sequences)
  unfolding insert_alert created_row
  insert_alert-IsConsistent payload m display_id sequences fresh = record {
    sound =
        All-append (IsSound (db.transitions ++ created_row payload m ∷ [])) db.alerts _
          (All-imp _ _ db.alerts
            (λ x k. (
              k.0.0,
              skip_row x.id db.transitions (created_row payload m) (some x.status)
                  (==_comm m.fresh_id x.id ∙ k.1) k.0.1,
            ))
            (All-both _ _ db.alerts h.sound (any-false_All (has_id m.fresh_id) db.alerts fresh)))
          (
            (
              unfold is_closing new_alert in refl,
              unfold new_alert in born db.transitions payload m (h.unborn m.fresh_id fresh),
            ),
            tt,
          );
    unborn = λ i away.
        let (old, other) = any-snoc_false (has_id i) db.alerts _ away in
        skip_row i db.transitions (created_row payload m) none (unfold new_alert in other)
          (h.unborn i old);
  }

  apply_move-IsConsistent :
      (r : Request) (alert : Alert) (target : Status) (remark : Option Text) (now : ℕ)
      → get_alert db r.tenant_id r.alert_id ≡ some alert
      → is_allowed alert.status target ≡ true
      → IsConsistent (apply_move db r alert target remark now)
  unfolding apply_move get_alert move_row
  apply_move-IsConsistent r alert target remark now found allowed = record {
    sound =
        update-All_cases (IsSound db.transitions) (IsSound (db.transitions ++ row ∷ []))
          (has_id alert.id) (λ _. after) db.alerts (λ x same k. after-IsSound)
          (λ x other k. (
            k.0,
            skip_row x.id db.transitions row (some x.status) (==_comm alert.id x.id ∙ other) k.1,
          ))
          h.sound;
    unborn = λ i away.
        let old =
          any-update (has_id i) (has_id alert.id) (λ _. after) db.alerts
            (λ x same. ap (λ n. n == i) (keeps.0 ∙ sym ((==_iff x.id alert.id).0 same))) in
        let there = sym old ∙ away in
        skip_row i db.transitions row none
          (find-All (λ x. has_id i x ≡ false) (is_alert r.tenant_id r.alert_id) db.alerts alert
            (any-false_All (has_id i) db.alerts there) found)
          (h.unborn i there);
  }
    where
      after : Alert
      after = move target r.actor_id remark now alert

      row : AlertTransition
      row = move_row r alert target remark

      keeps :
          (after.id ≡ alert.id)
          × (after.status ≡ target)
          × (is_some after.closed_at ≡ is_closing target)
      keeps = move_keeps target r.actor_id remark now alert

      before-IsSound : IsSound db.transitions alert
      before-IsSound =
          find-All (IsSound db.transitions) (is_alert r.tenant_id r.alert_id) db.alerts alert
            h.sound found

      after-IsSound : IsSound (db.transitions ++ row ∷ []) after
      after-IsSound = (
        keeps.2 ∙ ap is_closing (sym keeps.1),
        rw (keeps.0, keeps.1)
            (walk_on db.transitions r alert target remark allowed before-IsSound.1),
      )

  fold-IsConsistent :
      (payload : AlertInput) (now i : ℕ)
      → IsConsistent (record db { alerts = update (has_id i) (fold_into payload now) db.alerts })
  fold-IsConsistent payload now i = record {
    sound =
        update-All_cases (IsSound db.transitions) (IsSound db.transitions) (has_id i)
          (fold_into payload now) db.alerts
          (λ x _ k. fold_into-IsSound db.transitions payload now x k) (λ x _ k. k) h.sound;
    unborn = λ j away. h.unborn j (
        sym (
          any-update (has_id j) (has_id i) (fold_into payload now) db.alerts
            (λ x _. ap (λ n. n == j) (fold_into_keeps payload now x).0))
        ∙ away);
  }

  -- Writing a found row back with its lifecycle columns as they were.
  rewrite-IsConsistent :
      (tenant i : ℕ) (alert alert' : Alert) (log : List AuditEvent)
      → get_alert db tenant i ≡ some alert
      → alert'.id ≡ alert.id
      → alert'.status ≡ alert.status
      → alert'.closed_at ≡ alert.closed_at
      → IsConsistent
          (record db { alerts = update (has_id alert.id) (λ _. alert') db.alerts; audit = log })
  unfolding get_alert
  rewrite-IsConsistent tenant i alert alert' log found same_id same_status same_closed = record {
    sound =
        update-All_cases (IsSound db.transitions) (IsSound db.transitions) (has_id alert.id)
          (λ _. alert') db.alerts
          (λ x _ k.
            rw (same_id, same_status, same_closed)
              (find-All (IsSound db.transitions) (is_alert tenant i) db.alerts alert h.sound found))
          (λ x _ k. k) h.sound;
    unborn = λ j away. h.unborn j (
        sym (
          any-update (has_id j) (has_id alert.id) (λ _. alert') db.alerts
            (λ x same. ap (λ n. n == j) (same_id ∙ sym ((==_iff x.id alert.id).0 same))))
        ∙ away);
  }

Effect-IsConsistent :
    (db db' : AlertDb) (op : Op)
    → Effect db op db'
    → IsConsistent db
    → IsFresh db op
    → IsConsistent db'
Effect-IsConsistent db _ _ (refused _ _ _ _) h fresh = h
Effect-IsConsistent db _ _ (not_assigned _ _) h fresh = h
Effect-IsConsistent db _ _ (not_noted _ _) h fresh = h
Effect-IsConsistent db _ _ (folded payload window m existing e) h fresh =
    fold-IsConsistent db h payload m.now existing.id
Effect-IsConsistent db _ _ (inserted payload window m e) h fresh =
    insert_alert-IsConsistent db h payload m _ _ fresh
Effect-IsConsistent db _ _ (moved r target remark now alert t e allowed) h fresh =
    apply_move-IsConsistent db h r alert t remark now e allowed
Effect-IsConsistent db _ _ (assigned r analyst alert e) h fresh =
    unfold apply_assign in
    rewrite-IsConsistent db h r.tenant_id r.alert_id alert (record alert { analyst_id = analyst }) _
      e refl refl refl
Effect-IsConsistent db _ _ (noted r body) h fresh = record { sound = h.sound; unborn = h.unborn }

-- In every state that the calls reach from empty tables, an alert has a closing time exactly if its
-- status is a closing one, and its transition rows are a walk of allowed moves, each from the status
-- that the one before it left, which starts with the creation and ends in the alert's status.
pub Reach-IsConsistent : {db : AlertDb} → Reach db → IsConsistent db
Reach-IsConsistent start = empty-IsConsistent
Reach-IsConsistent (step {db = db} reached op fresh) =
    Effect-IsConsistent db (apply db op) op (apply-Effect db op) (Reach-IsConsistent reached) fresh
