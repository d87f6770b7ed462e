-- ===== src/Alerts/Counting.antt =====
-- Deduplication counts every firing once: backend/app/services/alerts.py, `create_or_update`.
use lunatic92i.Common.{
  ℕ, ◌+◌, ◌≡◌, refl, sym, ◌∙◌, ap, some, List, [], ◌∷◌, ◌++◌, Text, arith, ==_iff, update,
}
use lunatic92i.Common.Keys.{
  Distinct, find-has_key, update-Distinct, snoc-Distinct, Mem-find_key, total, total-append,
  total-update,
}
use lunatic92i.Alerts.Model.{Alert, AlertInput}
use lunatic92i.Alerts.Dedup.{
  AlertDb, has_id, fold_into, new_alert, insert_alert, find_duplicate, is_duplicate, display_text,
}
use lunatic92i.Alerts.Lifecycle.{move, apply_move, apply_assign, get_alert, is_alert}
use lunatic92i.Alerts.Consistency.{move_keeps, fold_into_keeps}
use lunatic92i.Alerts.Identity.{alert_key, latest_lem}
use lunatic92i.Alerts.Run.{Op, create, apply, IsFresh, Reach, start, step}
use lunatic92i.Alerts.Effect.{
  Effect, refused, not_assigned, not_noted, folded, inserted, moved, assigned, noted, apply-Effect,
  number_for,
}

abbrev pub occurrences : AlertDb → ℕ
occurrences db = total alert_key (λ a. a.occurrence_count) db.alerts

-- The firings that a call hands in.
abbrev pub firings_of : Op → ℕ
firings_of (create payload window m) = 1
firings_of _ = 0

-- A found row written back with its count leaves the sum.
write-counts :
    (db : AlertDb) (tenant i : ℕ) (alert alert' : Alert)
    → Distinct alert_key db.alerts
    → get_alert db tenant i ≡ some alert
    → alert'.occurrence_count ≡ alert.occurrence_count
    → total alert_key (λ a. a.occurrence_count) (update (has_id alert.id) (λ _. alert') db.alerts)
      ≡ occurrences db + 0
unfolding get_alert
write-counts db tenant i alert alert' d found same = omega (
  arith,
  same,
  total-update alert_key (λ a. a.occurrence_count) alert.id (λ _. alert') db.alerts alert d
      (find-has_key alert_key (is_alert tenant i) db.alerts alert d found),
)

insert-counts :
    (rows : List Alert) (payload : AlertInput) (i now : ℕ) (display_id : Text)
    → total alert_key (λ a. a.occurrence_count) (rows ++ new_alert payload i display_id now ∷ [])
      ≡ total alert_key (λ a. a.occurrence_count) rows + 1
unfolding total new_alert
insert-counts rows payload i now display_id = omega (
  arith,
  total-append alert_key (λ a. a.occurrence_count) rows (new_alert payload i display_id now ∷ []),
)

Effect-counts :
    (db db' : AlertDb) (op : Op)
    → Effect db op db'
    → Distinct alert_key db.alerts
    → occurrences db' ≡ occurrences db + firings_of op
Effect-counts db _ _ (refused _ _ _ _) d = omega arith
Effect-counts db _ _ (not_assigned _ _) d = omega arith
Effect-counts db _ _ (not_noted _ _) d = omega arith
Effect-counts db _ _ (folded payload window m existing e) d =
    let (passes, there) =
      latest_lem (is_duplicate payload.tenant_id payload.dedup_key window m.now) db.alerts existing
        (unfold find_duplicate in e) in
    omega (
      arith,
      total-update alert_key (λ a. a.occurrence_count) existing.id (fold_into payload m.now)
          db.alerts existing d (Mem-find_key alert_key db.alerts existing d there),
      one_more,
    )
  where
    one_more : (fold_into payload m.now existing).occurrence_count ≡ existing.occurrence_count + 1
    one_more = unfold fold_into in ground arith
Effect-counts db _ _ (inserted payload window m e) d =
    unfold insert_alert in
    insert-counts db.alerts payload m.fresh_id m.now (display_text m.year (number_for db payload m))
Effect-counts db _ _ (moved r target remark now alert t e allowed) d =
    unfold apply_move in
    write-counts db r.tenant_id r.alert_id alert (move t r.actor_id remark now alert) d e
      (unfold move in ground arith)
Effect-counts db _ _ (assigned r analyst alert e) d =
    unfold apply_assign in
    write-counts db r.tenant_id r.alert_id alert (record alert { analyst_id = analyst }) d e refl
Effect-counts db _ _ (noted r body) d = omega arith

Effect-Distinct :
    (db db' : AlertDb) (op : Op)
    → Effect db op db'
    → IsFresh db op
    → Distinct alert_key db.alerts
    → Distinct alert_key db'.alerts
Effect-Distinct db _ _ (refused _ _ _ _) fresh d = d
Effect-Distinct db _ _ (not_assigned _ _) fresh d = d
Effect-Distinct db _ _ (not_noted _ _) fresh d = d
Effect-Distinct db _ _ (folded payload window m existing e) fresh d =
    update-Distinct alert_key (has_id existing.id) (fold_into payload m.now) db.alerts
      (λ x _. (fold_into_keeps payload m.now x).0) d
Effect-Distinct db _ _ (inserted payload window m e) fresh d =
    unfold insert_alert new_alert in snoc-Distinct alert_key db.alerts _ fresh d
Effect-Distinct db _ _ (moved r target remark now alert t e allowed) fresh d =
    unfold apply_move in
    update-Distinct alert_key (has_id alert.id) (λ _. move t r.actor_id remark now alert) db.alerts
      (λ x same. (move_keeps t r.actor_id remark now alert).0 ∙ sym ((==_iff x.id alert.id).0 same))
      d
Effect-Distinct db _ _ (assigned r analyst alert e) fresh d =
    unfold apply_assign in
    update-Distinct alert_key (has_id alert.id) (λ _. record alert { analyst_id = analyst })
      db.alerts (λ x same. sym ((==_iff x.id alert.id).0 same)) d
Effect-Distinct db _ _ (noted r body) fresh d = d

-- Ids stay distinct.
pub Reach-Distinct : {db : AlertDb} → Reach db → Distinct alert_key db.alerts
Reach-Distinct start = tt
Reach-Distinct (step {db = db} reached op fresh) =
    Effect-Distinct db (apply db op) op (apply-Effect db op) fresh (Reach-Distinct reached)

-- The firings that a run handed in.
abbrev pub firings : {db : AlertDb} → Reach db → ℕ
firings start = 0
firings (step reached op fresh) = firings reached + firings_of op

-- No firing is lost and none counts twice: in every reachable state the occurrence counts of all
-- alerts add up to the number of firings that were handed in, whatever else was done between them.
pub occurrences-Reach : {db : AlertDb} (reached : Reach db) → occurrences db ≡ firings reached
occurrences-Reach start = unfold total in refl
occurrences-Reach (step {db = db} reached op fresh) =
    Effect-counts db (apply db op) op (apply-Effect db op) (Reach-Distinct reached)
    ∙ ap (λ n. n + firings_of op) (occurrences-Reach reached)
