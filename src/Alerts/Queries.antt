-- ===== src/Alerts/Queries.antt =====
-- The queries over alerts: backend/app/services/alerts.py, `list_alerts`, `count_by_status`,
-- `notes_for` and `transitions_for`. Among rows that an `ORDER BY` leaves tied, the first inserted is
-- first; notes and transitions stand in the order in which they were added, which is that of their times.
use lunatic92i.Common.{
  ℕ, ◌+◌, ◌≡◌, refl, sym, ◌∙◌, ap, inl, inr, arith, Bool, true, false, ◌&&◌, ◌||◌, Option, none,
  some, List, [], ◌∷◌, Text, text_eq, ◌==◌, ltb, if◌then◌else◌, Bool-cases, true_false, keep, take,
  drop, length,
}
use lunatic92i.Alerts.Model.{Status, Alert, AlertNote, AlertTransition, status_eq, status_text}
use lunatic92i.Alerts.History.{status_eq_refl, status_eq-eq}
use lunatic92i.Alerts.Dedup.{AlertDb}
use lunatic92i.Alerts.Lifecycle.{Outcome, ok, err, not_found, get_alert}

-- The filters of `list_alerts`; an empty text filters nothing.
pub record Filter : Type 0 where
  pub status : Option Text
  pub severity : Option Text
  pub assigned_to : Option ℕ

unfoldable pub text_passes : Option Text → Text → Bool
text_passes none t = true
text_passes (some []) t = true
text_passes (some (c ∷ cs)) t = text_eq t (c ∷ cs)

unfoldable pub analyst_passes : Option ℕ → Option ℕ → Bool
analyst_passes none analyst = true
analyst_passes (some i) none = false
analyst_passes (some i) (some j) = j == i

unfoldable pub is_listed : ℕ → Filter → Alert → Bool
unfolding text_passes analyst_passes
is_listed tenant filter alert =
    (alert.tenant_id == tenant)
    && text_passes filter.status (status_text alert.status)
    && text_passes filter.severity alert.severity
    && analyst_passes filter.assigned_to alert.analyst_id

-- The greater risk score first, then the later sighting.
unfoldable pub goes_before : Alert → Alert → Bool
goes_before a b =
    ltb b.risk_score a.risk_score
    || ((a.risk_score == b.risk_score) && ltb b.last_seen_at a.last_seen_at)

unfoldable pub insert_row : Alert → List Alert → List Alert
unfolding goes_before
insert_row a [] = a ∷ []
insert_row a (b ∷ rest) = if goes_before b a then b ∷ insert_row a rest else a ∷ b ∷ rest

unfoldable pub sort_rows : List Alert → List Alert
unfolding insert_row
sort_rows [] = []
sort_rows (a ∷ rest) = insert_row a (sort_rows rest)

unfoldable pub list_alerts : AlertDb → ℕ → Filter → ℕ → ℕ → List Alert
unfolding is_listed sort_rows keep
list_alerts db tenant filter limit offset =
    take limit (drop offset (sort_rows (keep (is_listed tenant filter) db.alerts)))

unfoldable pub notes_for : AlertDb → ℕ → ℕ → Outcome (List AlertNote)
unfolding get_alert keep
notes_for db tenant i = elim (get_alert db tenant i) [
  | none ↦ err (not_found i)
  | some alert ↦
      ok (keep (λ (row : AlertNote). (row.alert_id == i) && (row.tenant_id == tenant)) db.notes)
]

unfoldable pub transitions_for : AlertDb → ℕ → ℕ → Outcome (List AlertTransition)
unfolding get_alert keep
transitions_for db tenant i = elim (get_alert db tenant i) [
  | none ↦ err (not_found i)
  | some alert ↦ ok (
      keep (λ (row : AlertTransition). (row.alert_id == i) && (row.tenant_id == tenant))
        db.transitions)
]

-- One more row of a group.
unfoldable pub tally : Status → List (Status × ℕ) → List (Status × ℕ)
unfolding status_eq
tally s [] = (s, 1) ∷ []
tally s ((t, n) ∷ rest) = if status_eq t s then (t, n + 1) ∷ rest else (t, n) ∷ tally s rest

unfoldable pub group_by_status : ℕ → List Alert → List (Status × ℕ)
unfolding tally
group_by_status tenant [] = []
group_by_status tenant (a ∷ rest) =
    if a.tenant_id == tenant
    then tally a.status (group_by_status tenant rest)
    else group_by_status tenant rest

unfoldable pub count_by_status : AlertDb → ℕ → List (Status × ℕ)
unfolding group_by_status
count_by_status db tenant = group_by_status tenant db.alerts

-- `counts.get(status, 0)`
unfoldable pub count_of : Status → List (Status × ℕ) → ℕ
unfolding status_eq
count_of s [] = 0
count_of s ((t, n) ∷ rest) = if status_eq t s then n else count_of s rest

status_eq-away :
    (u t s : Status) → status_eq u t ≡ false → status_eq u s ≡ true → status_eq t s ≡ false
status_eq-away u t s away same = elim (Bool-cases (status_eq t s)) [
  | inr apart ↦ apart
  | inl together ↦
      let joined : u ≡ t = status_eq-eq u s same ∙ sym (status_eq-eq t s together) in
      true_false (status_eq_refl u) (ap (status_eq u) joined ∙ away)
]

count_of-tally :
    (s t : Status) (counts : List (Status × ℕ))
    → count_of s (tally t counts)
      ≡ (if status_eq t s then count_of s counts + 1 else count_of s counts)
unfolding count_of tally
count_of-tally s t [] = elim (Bool-cases (status_eq t s)) [
  | inl b ↦ rw b (omega arith)
  | inr b ↦ rw b refl
]
count_of-tally s t ((u, n) ∷ rest) = elim (Bool-cases (status_eq u t)) [
  | inl b ↦
      let same = status_eq-eq u t b in
      rw (b, count_of)
        (elim (Bool-cases (status_eq u s)) [
          | inl c ↦ let t_s = sym (ap (λ x. status_eq x s) same) ∙ c in rw (c, t_s) refl
          | inr c ↦ let t_s = sym (ap (λ x. status_eq x s) same) ∙ c in rw (c, t_s) refl
        ])
  | inr b ↦
      rw (b, count_of)
        (elim (Bool-cases (status_eq u s)) [
          | inl c ↦ let t_s = status_eq-away u t s b c in rw (c, t_s) refl
          | inr c ↦ rw c (count_of-tally s t rest)
        ])
]

-- The alerts of a tenant in a status.
abbrev pub in_status : ℕ → Status → Alert → Bool
in_status tenant s a = (a.tenant_id == tenant) && status_eq a.status s

count_of-group :
    (s : Status) (tenant : ℕ) (alerts : List Alert)
    → count_of s (group_by_status tenant alerts) ≡ length (keep (in_status tenant s) alerts)
unfolding group_by_status keep count_of
count_of-group s tenant [] = refl
count_of-group s tenant (a ∷ rest) =
    let ih = count_of-group s tenant rest in
    elim (Bool-cases (a.tenant_id == tenant)) [
      | inr b ↦ rw b ih
      | inl b ↦ rw b (
          count_of-tally s a.status (group_by_status tenant rest)
          ∙ (elim (Bool-cases (status_eq a.status s)) [
            | inl c ↦ rw c (omega (arith, ih))
            | inr c ↦ rw c ih
          ]))
    ]

-- The counts of a tenant are those of its alerts: for every status, the count that is reported, or 0
-- if none is, is the number of the tenant's alerts in that status.
pub count_by_status_lem :
    (db : AlertDb) (tenant : ℕ) (s : Status)
    → count_of s (count_by_status db tenant) ≡ length (keep (in_status tenant s) db.alerts)
unfolding count_by_status
count_by_status_lem db tenant s = count_of-group s tenant db.alerts
