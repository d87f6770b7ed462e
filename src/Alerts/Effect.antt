-- ===== src/Alerts/Effect.antt =====
-- What a call may do to the tables, one constructor for each way: backend/app/services/alerts.py.
-- The invariants are proved by cases on it.
use lunatic92i.Common.{
  ℕ, ◌+◌, ◌≡◌, inl, inr, true, Option, none, some, [], ◌∷◌, ◌++◌, Text, Bool-cases, Option-cases,
  update,
}
use lunatic92i.Sequences.Laws.{issued, next_number_lem}
use lunatic92i.Alerts.Model.{Status, Alert, AlertInput, is_allowed, status_eq, status_of}
use lunatic92i.Alerts.Dedup.{
  AlertDb, Moment, has_id, fold_into, insert_alert, create_or_update, find_duplicate,
  next_display_id, display_text,
}
use lunatic92i.Alerts.Lifecycle.{
  Request, apply_move, apply_assign, note_row, transition, assign, add_note, get_alert,
}
use lunatic92i.Alerts.Run.{Op, create, transit, hand_over, annotate, apply}

-- The number that a new alert gets.
abbrev pub number_for : AlertDb → AlertInput → Moment → ℕ
number_for db payload m = issued payload.tenant_id m.year db.sequences + 1

pub data Effect (db : AlertDb) : Op → AlertDb → Type 0 where
  refused :
      (r : Request) (target : Text) (remark : Option Text) (now : ℕ)
      → Effect db (transit r target remark now) db
  not_assigned : (r : Request) (analyst : Option ℕ) → Effect db (hand_over r analyst) db
  not_noted : (r : Request) (body : Text) → Effect db (annotate r body) db
  folded :
      (payload : AlertInput) (window : ℕ) (m : Moment) (existing : Alert)
      → find_duplicate db payload.tenant_id payload.dedup_key window m.now ≡ some existing
      → Effect db
          (create payload window m)
          (record db { alerts = update (has_id existing.id) (fold_into payload m.now) db.alerts })
  inserted :
      (payload : AlertInput) (window : ℕ) (m : Moment)
      → find_duplicate db payload.tenant_id payload.dedup_key window m.now ≡ none
      → Effect db (create payload window m) (
          insert_alert db payload m
            (display_text m.year (number_for db payload m))
            (next_number_lem payload.tenant_id m.year db.sequences).0)
  moved :
      (r : Request) (target : Text) (remark : Option Text) (now : ℕ) (alert : Alert) (t : Status)
      → get_alert db r.tenant_id r.alert_id ≡ some alert
      → is_allowed alert.status t ≡ true
      → Effect db (transit r target remark now) (apply_move db r alert t remark now)
  assigned :
      (r : Request) (analyst : Option ℕ) (alert : Alert)
      → get_alert db r.tenant_id r.alert_id ≡ some alert
      → Effect db (hand_over r analyst) (apply_assign db r alert analyst)
  noted :
      (r : Request) (body : Text)
      → Effect db (annotate r body) (record db { notes = db.notes ++ note_row r body ∷ [] })

create-Effect :
    (db : AlertDb) (payload : AlertInput) (window : ℕ) (m : Moment)
    → Effect db (create payload window m) (apply db (create payload window m))
unfolding apply create_or_update next_display_id
create-Effect db payload window m =
    elim (Option-cases (find_duplicate db payload.tenant_id payload.dedup_key window m.now)) [
      | inr (existing, e) ↦ rw (e, apply, create_or_update) (folded payload window m existing e)
      | inl e ↦
          rw (e, apply, create_or_update)
            (rw ((next_number_lem payload.tenant_id m.year db.sequences).1, next_display_id)
              (inserted payload window m e))
    ]

transit-Effect :
    (db : AlertDb) (r : Request) (target : Text) (remark : Option Text) (now : ℕ)
    → Effect db (transit r target remark now) (transition db r target remark now).1
unfolding transition
transit-Effect db r target remark now = elim (Option-cases (get_alert db r.tenant_id r.alert_id)) [
  | inl e ↦ rw (e, transition) (refused r target remark now)
  | inr (alert, e) ↦
      rw (e, transition)
        (elim (Option-cases (status_of target)) [
          | inl e' ↦ rw (e', transition) (refused r target remark now)
          | inr (t, e') ↦
              rw (e', transition)
                (elim (Bool-cases (status_eq t alert.status)) [
                  | inl same ↦ rw same (refused r target remark now)
                  | inr other ↦ rw other (elim (Bool-cases (is_allowed alert.status t)) [
                    | inl allowed ↦ rw allowed (moved r target remark now alert t e allowed)
                    | inr barred ↦ rw barred (refused r target remark now)
                  ])
                ])
        ])
]

-- Every call has one of these effects; in particular a creation always folds or inserts.
pub apply-Effect : (db : AlertDb) (op : Op) → Effect db op (apply db op)
unfolding apply assign add_note
apply-Effect db (create payload window m) = create-Effect db payload window m
apply-Effect db (transit r target remark now) = transit-Effect db r target remark now
apply-Effect db (hand_over r analyst) = elim (Option-cases (get_alert db r.tenant_id r.alert_id)) [
  | inl e ↦ rw (e, apply, assign) (not_assigned r analyst)
  | inr (alert, e) ↦ rw (e, apply, assign) (assigned r analyst alert e)
]
apply-Effect db (annotate r body) = elim (Option-cases (get_alert db r.tenant_id r.alert_id)) [
  | inl e ↦ rw (e, apply, add_note) (not_noted r body)
  | inr (alert, e) ↦ rw (e, apply, add_note) (noted r body)
]
