-- ===== src/Alerts/Identity.antt =====
-- What one call may do to the row of an alert: backend/app/services/alerts.py.
use lunatic92i.Common.{
  ℕ, ◌≤◌, ◌≡◌, ◌⊎◌, refl, sym, subst, ◌∙◌, ap, inl, inr, Bool, true, Option, some, List, [], ◌∷◌,
  arith, Text, ◌==◌, Bool-cases, Option-cases, find, update, ==_iff, find-passes, Memᴰ, ltb,
  some_inj,
}
use lunatic92i.Common.Keys.{Distinct, find-has_key, find-update, find-append, Mem-find_key}
use lunatic92i.Alerts.Model.{Status, Alert, AlertInput}
use lunatic92i.Alerts.Dedup.{
  AlertDb, has_id, fold_into, insert_alert, is_duplicate, find_duplicate, latest, severity_rank,
}
use lunatic92i.Alerts.Lifecycle.{move, apply_move, apply_assign, get_alert, is_alert}
use lunatic92i.Alerts.Consistency.{move_keeps}
use lunatic92i.Alerts.Effect.{
  Effect, refused, not_assigned, not_noted, folded, inserted, moved, assigned, noted, apply-Effect,
}
use lunatic92i.Alerts.Run.{Op, create, transit, hand_over, annotate, apply}

abbrev pub alert_key : Alert → ℕ
alert_key a = a.id

abbrev pub row_of : ℕ → AlertDb → Option Alert
row_of j db = find (has_id j) db.alerts

-- The tenant on whose behalf a call runs.
abbrev pub tenant_of : Op → ℕ
tenant_of (create payload window m) = payload.tenant_id
tenant_of (transit r target _ now) = r.tenant_id
tenant_of (hand_over r analyst) = r.tenant_id
tenant_of (annotate r body) = r.tenant_id

-- What an alert keeps for good, and what only grows.
pub record Evolves (a b : Alert) : Type 0 where
  pub same_tenant : b.tenant_id ≡ a.tenant_id
  pub same_display_id : b.display_id ≡ a.display_id
  pub same_dedup_key : b.dedup_key ≡ a.dedup_key
  pub same_first_seen : b.first_seen_at ≡ a.first_seen_at
  pub acknowledged_once : (t : ℕ) → a.acknowledged_at ≡ some t → b.acknowledged_at ≡ some t
  pub counted : a.occurrence_count ≤ b.occurrence_count
  pub scored : a.risk_score ≤ b.risk_score
  pub ranked : severity_rank a.severity ≤ severity_rank b.severity

Evolves-refl : (a : Alert) → Evolves a a
Evolves-refl a = record {
  same_tenant = refl;
  same_display_id = refl;
  same_dedup_key = refl;
  same_first_seen = refl;
  acknowledged_once = λ t h. h;
  counted = omega arith;
  scored = omega arith;
  ranked = omega arith;
}

fold_into-Evolves :
    (payload : AlertInput) (now : ℕ) (a : Alert) → Evolves a (fold_into payload now a)
unfolding fold_into
fold_into-Evolves payload now a = record {
  same_tenant = ground arith;
  same_display_id = ground arith;
  same_dedup_key = ground arith;
  same_first_seen = ground arith;
  acknowledged_once = λ t h. ground arith;
  counted = ground arith;
  scored = ground arith;
  ranked = ground arith;
}

move-Evolves :
    (target : Status) (actor : Option ℕ) (remark : Option Text) (now : ℕ) (a : Alert)
    → Evolves a (move target actor remark now a)
unfolding move
move-Evolves target actor remark now a = record {
  same_tenant = ground arith;
  same_display_id = ground arith;
  same_dedup_key = ground arith;
  same_first_seen = ground arith;
  acknowledged_once = λ t h. ground arith;
  counted = ground arith;
  scored = ground arith;
  ranked = ground arith;
}

-- The row that `latest` picks passes the test and stands in the table.
pub latest_lem :
    (p : Alert → Bool) (xs : List Alert) (a : Alert)
    → latest p xs ≡ some a
    → (p a ≡ true) × Memᴰ a xs
unfolding latest
latest_lem p [] a e = absurd (ground arith)
latest_lem p (x ∷ xs) a e = elim (Bool-cases (p x)) [
  | inr t ↦ let (passes, there) = latest_lem p xs a (rw t at e) in (passes, Memᴰ.tail there)
  | inl t ↦ elim (Option-cases (latest p xs)) [
    | inl q ↦
        let at_x : x ≡ a = some_inj (rw (t, q, latest) at e) in
        (sym (ap p at_x) ∙ t, Memᴰ.head (sym at_x))
    | inr (y, q) ↦
        let (passes, there) = latest_lem p xs y q in
        let picked = rw (t, q, latest) at e in
        elim (Bool-cases (ltb x.last_seen_at y.last_seen_at)) [
          | inl later ↦
              let at_y : y ≡ a = some_inj (rw later at picked) in
              (sym (ap p at_y) ∙ passes, Memᴰ.tail (subst (λ z. Memᴰ z xs) at_y there))
          | inr earlier ↦
              let at_x : x ≡ a = some_inj (rw earlier at picked) in
              (sym (ap p at_x) ∙ t, Memᴰ.head (sym at_x))
        ]
  ]
]

-- The row after a call: there, evolved, and the same unless the call runs for its tenant.
abbrev pub Frame : ℕ → Alert → Option Alert → Type 0
Frame tenant a after =
    (b : Alert) × (after ≡ some b) × Evolves a b × ((b ≡ a) ⊎ (a.tenant_id ≡ tenant))

-- A write of one row keeps the frame, if it does for that row.
update-Frame :
    (tenant j i : ℕ) (f : Alert → Alert) (rows : List Alert) (a : Alert)
    → ((x : Alert) → has_id i x ≡ true → (f x).id ≡ x.id)
    → ((j == i) ≡ true → Evolves a (f a) × (a.tenant_id ≡ tenant))
    → find (has_id j) rows ≡ some a
    → Frame tenant a (find (has_id j) (update (has_id i) f rows))
update-Frame tenant j i f rows a same hit e =
    let found = find-update alert_key j i f rows a same e in
    elim (Bool-cases (j == i)) [
      | inl t ↦ (f a, rw t at found, (hit t).0, inr (hit t).1)
      | inr t ↦ (a, rw t at found, Evolves-refl a, inl refl)
    ]

one_row :
    (rows : List Alert) (j : ℕ) (a b : Alert)
    → find (has_id b.id) rows ≡ some b
    → (j == b.id) ≡ true
    → find (has_id j) rows ≡ some a
    → b ≡ a
one_row rows j a b hb same ha =
    some_inj (sym hb ∙ ap (λ n. find (has_id n) rows) (sym ((==_iff j b.id).0 same)) ∙ ha)

module _ (db : AlertDb) (d : Distinct alert_key db.alerts) (j : ℕ) (a : Alert)
    (e : row_of j db ≡ some a) where
  fold-Frame :
      (payload : AlertInput) (window now : ℕ) (existing : Alert)
      → find_duplicate db payload.tenant_id payload.dedup_key window now ≡ some existing
      → Frame payload.tenant_id a
          (find (has_id j) (update (has_id existing.id) (fold_into payload now) db.alerts))
  unfolding find_duplicate
  fold-Frame payload window now existing found =
      let (passes, there) = latest_lem _ db.alerts existing found in
      update-Frame payload.tenant_id j existing.id (fold_into payload now) db.alerts a
        (λ x _. unfold fold_into in ground arith)
        (λ t.
          let same =
            one_row db.alerts j a existing (Mem-find_key alert_key db.alerts existing d there) t
              e in
          (
            fold_into-Evolves payload now a,
            sym (ap (λ (x : Alert). x.tenant_id) same) ∙ unfold is_duplicate in ground arith,
          ))
        e

  -- A found row is written back by a call that runs for the tenant of the row.
  write-Frame :
      (tenant i : ℕ) (alert alert' : Alert)
      → get_alert db tenant i ≡ some alert
      → alert'.id ≡ alert.id
      → Evolves alert alert'
      → Frame tenant a (find (has_id j) (update (has_id alert.id) (λ _. alert') db.alerts))
  unfolding get_alert
  write-Frame tenant i alert alert' found same_id evolves =
      update-Frame tenant j alert.id (λ _. alert') db.alerts a
        (λ x t. same_id ∙ sym ((==_iff x.id alert.id).0 t))
        (λ t.
          let same =
            one_row db.alerts j a alert
              (find-has_key alert_key (is_alert tenant i) db.alerts alert d found) t e in
          let passes = find-passes (is_alert tenant i) db.alerts alert found in
          (
            subst (λ x. Evolves x alert') same evolves,
            sym (ap (λ (x : Alert). x.tenant_id) same) ∙ unfold is_alert in ground arith,
          ))
        e

Effect-Frame :
    (db db' : AlertDb) (op : Op) (j : ℕ) (a : Alert)
    → Effect db op db'
    → Distinct alert_key db.alerts
    → row_of j db ≡ some a
    → Frame (tenant_of op) a (row_of j db')
Effect-Frame db _ _ j a (refused _ _ _ _) d e = (a, e, Evolves-refl a, inl refl)
Effect-Frame db _ _ j a (not_assigned _ _) d e = (a, e, Evolves-refl a, inl refl)
Effect-Frame db _ _ j a (not_noted _ _) d e = (a, e, Evolves-refl a, inl refl)
Effect-Frame db _ _ j a (folded payload window m existing e') d e =
    fold-Frame db d j a e payload window m.now existing e'
Effect-Frame db _ _ j a (inserted payload window m e') d e = (
  a,
  unfold insert_alert in find-append alert_key (has_id j) db.alerts _ a e,
  Evolves-refl a,
  inl refl,
)
Effect-Frame db _ _ j a (moved r target remark now alert t e' allowed) d e =
    unfold apply_move in
    write-Frame db d j a e r.tenant_id r.alert_id alert (move t r.actor_id remark now alert) e'
      (move_keeps t r.actor_id remark now alert).0 (move-Evolves t r.actor_id remark now alert)
Effect-Frame db _ _ j a (assigned r analyst alert e') d e =
    unfold apply_assign in
    write-Frame db d j a e r.tenant_id r.alert_id alert (record alert { analyst_id = analyst }) e'
      refl (ground arith)
Effect-Frame db _ _ j a (noted r body) d e = (a, e, Evolves-refl a, inl refl)

-- Where ids are distinct, a call leaves the row of every alert in place and lets it evolve: tenant,
-- display id, deduplication key and first sighting stay, an acknowledgement time once set stays,
-- and occurrences, risk score and severity never fall. A row of another tenant does not change.
pub apply_frame :
    (db : AlertDb) (op : Op) (j : ℕ) (a : Alert)
    → Distinct alert_key db.alerts
    → row_of j db ≡ some a
    → (b : Alert) × (row_of j (apply db op) ≡ some b)
      × Evolves a b
      × ((b ≡ a) ⊎ (a.tenant_id ≡ tenant_of op))
apply_frame db op j a d e = Effect-Frame db (apply db op) op j a (apply-Effect db op) d e
