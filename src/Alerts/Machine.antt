-- ===== src/Alerts/Machine.antt =====
-- The lifecycle as a state machine: backend/app/services/alerts.py, `TRANSITIONS` and `transition`.
use lunatic92i.Common.{
  ℕ, ◌≡◌, ◌⊎◌, ◌↔◌, refl, sym, ap, ◌∙◌, some_inj, inl, inr, true, false, Option, some, arith, Text,
  text_eq, Bool-cases, Option-cases, true_false,
}
use lunatic92i.Alerts.Model.{
  Status, new, in_progress, escalated, false_positive, resolved, closed, Alert, is_allowed,
  status_eq, status_of, status_text,
}
use lunatic92i.Alerts.Dedup.{AlertDb}
use lunatic92i.Alerts.Lifecycle.{ok, Request, transition, get_alert, move}
use lunatic92i.Alerts.History.{status_eq_refl, status_eq-eq}

-- A status is read back from its text.
pub status_of-status_text : (s : Status) → status_of (status_text s) ≡ some s
unfolding status_of text_eq
status_of-status_text new = refl
status_of-status_text in_progress = refl
status_of-status_text escalated = refl
status_of-status_text false_positive = refl
status_of-status_text resolved = refl
status_of-status_text closed = refl

-- What a call is asked for and may do: stay, or take an allowed move.
abbrev pub MayBecome : Status → Text → Type 0
MayBecome current target =
    (t : Status) × (status_of target ≡ some t) × ((t ≡ current) ⊎ (is_allowed current t ≡ true))

neither :
    (current : Status) (target : Text) (t : Status)
    → status_eq t current ≡ false
    → is_allowed current t ≡ false
    → (may : MayBecome current target) → t ≡ may.0
    → ⊥
neither current target t other barred (u, s, inl e) same =
    true_false (status_eq_refl current) (ap (λ x. status_eq x current) (sym (same ∙ e)) ∙ other)
neither current target t other barred (u, s, inr a) same =
    true_false a (ap (is_allowed current) (sym same) ∙ barred)

-- A transition of an alert that is there succeeds exactly if its target names the current status or
-- one that `TRANSITIONS` lets follow it.
pub transition-ok_iff :
    (db : AlertDb) (r : Request) (target : Text) (remark : Option Text) (now : ℕ) (alert : Alert)
    → get_alert db r.tenant_id r.alert_id ≡ some alert
    → ((b : Alert) × ((transition db r target remark now).0 ≡ ok b)) ↔ MayBecome alert.status target
unfolding transition
transition-ok_iff db r target remark now alert e = elim (Option-cases (status_of target)) [
  | inl n ↦ (λ ok_b. absurd (ground (arith, ok_b.1)), λ may. absurd (ground (arith, may.1)))
  | inr (t, s) ↦ elim (Bool-cases (status_eq t alert.status)) [
    | inl same ↦ (λ _. (t, s, inl (status_eq-eq t alert.status same)), λ _. (alert, ground arith))
    | inr other ↦ elim (Bool-cases (is_allowed alert.status t)) [
      | inl allowed ↦
          (λ _. (t, s, inr allowed), λ _. (move t r.actor_id remark now alert, ground arith))
      | inr barred ↦ (
        λ ok_b. absurd (ground (arith, ok_b.1)),
        λ may. absurd (neither alert.status target t other barred may (some_inj (sym s ∙ may.1))),
      )
    ]
  ]
]

pub data Walk : Status → Status → Type 0 where
  here : {s : Status} → Walk s s
  go_on : {s t u : Status} → is_allowed s t ≡ true → Walk t u → Walk s u

to_in_progress : (s t : Status) → Walk in_progress t → Walk s t
unfolding is_allowed
to_in_progress in_progress t w = w
to_in_progress new t w = go_on refl w
to_in_progress escalated t w = go_on refl w
to_in_progress false_positive t w = go_on refl w
to_in_progress resolved t w = go_on refl w
to_in_progress closed t w = go_on refl w

from_in_progress : (t : Status) → Walk in_progress t
unfolding is_allowed
from_in_progress in_progress = here
from_in_progress new = go_on refl here
from_in_progress escalated = go_on refl here
from_in_progress false_positive = go_on refl here
from_in_progress resolved = go_on refl here
from_in_progress closed = go_on refl here

-- No status is a dead end: from every status allowed moves lead to every status.
pub Walk-everywhere : (s t : Status) → Walk s t
Walk-everywhere s t = to_in_progress s t (from_in_progress t)
