-- ===== src/Alerts/History.antt =====
-- The transition rows of an alert explain its status: they are a walk along `TRANSITIONS` that starts
-- with the creation (backend/app/services/alerts.py and the table `alert_transitions`).
use lunatic92i.Common.{
  ℕ, ◌≡◌, inl, inr, Bool, true, false, ◌&&◌, Option, none, some, List, [], ◌∷◌, ◌++◌, arith, ◌==◌,
  if◌then◌else◌, Option-cases,
}
use lunatic92i.Alerts.Model.{Status, new, AlertTransition, status_eq, is_allowed}

-- A row may follow the status that the rows before it left.
unfoldable pub is_legal : Option Status → AlertTransition → Bool
unfolding status_eq is_allowed
is_legal none row = elim row.from_status [ none ↦ status_eq row.to_status new | some s ↦ false ]
is_legal (some current) row = elim row.from_status [
  | none ↦ false
  | some s ↦ status_eq s current && is_allowed current row.to_status
]

unfoldable pub read_row : ℕ → AlertTransition → Option Status → Option (Option Status)
read_row i row current =
    if row.alert_id == i
    then (if is_legal current row then some (some row.to_status) else none)
    else some current

-- The status that the history of an alert ends in; `none` at a row that may not stand there.
unfoldable pub replay : ℕ → List AlertTransition → Option Status → Option (Option Status)
replay i [] current = some current
replay i (row ∷ rows) current = elim (read_row i row current) [
  | none ↦ none
  | some after ↦ replay i rows after
]

pub replay-snoc :
    (i : ℕ) (rows : List AlertTransition) (row : AlertTransition) (start end : Option Status)
    → replay i rows start ≡ some end
    → replay i (rows ++ row ∷ []) start ≡ read_row i row end
unfolding replay
replay-snoc i [] row start end h = ground (arith)
replay-snoc i (r ∷ rows) row start end h = elim (Option-cases (read_row i r start)) [
  | inl e ↦ ground arith
  | inr (c, e) ↦ ground (arith, replay-snoc i rows row c end)
]

pub status_eq_refl : (s : Status) → status_eq s s ≡ true
unfolding status_eq
status_eq_refl s = ground arith

pub status_eq-eq : (s t : Status) → status_eq s t ≡ true → s ≡ t
unfolding status_eq
status_eq-eq s t h = ground arith
