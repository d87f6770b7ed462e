-- ===== src/Incidents/History.antt =====
-- The status that the timeline of an incident tells: backend/app/services/incidents.py, the entries that
-- `create_incident` and `transition` write.
use lunatic92i.Common.{
  ℕ, ◌≡◌, true, false, ◌&&◌, Option, none, some, List, [], ◌∷◌, ◌++◌, arith, ◌==◌, if◌then◌else◌,
  read_all, read_all-snoc, ◌∙◌,
}
use lunatic92i.Incidents.Model.{
  Status, new, Detail, opened, moved, IncidentTimeline, status_eq, is_allowed,
}

-- An incident is opened once, and moves from the status that the entries before left, as allowed.
unfoldable pub read_detail : Detail → Option Status → Option (Option Status)
read_detail (opened severity priority) none = some (some new)
read_detail (opened severity priority) (some s) = none
read_detail (moved before after remark) none = none
read_detail (moved before after remark) (some s) =
    if status_eq before s && is_allowed s after then some (some after) else none
read_detail _ current = some current

unfoldable pub read_entry : ℕ → IncidentTimeline → Option Status → Option (Option Status)
unfolding read_detail
read_entry i entry current =
    if entry.incident_id == i then read_detail entry.detail current else some current

-- The status that the timeline of an incident ends in.
unfoldable pub replay : ℕ → List IncidentTimeline → Option (Option Status)
unfolding read_all read_entry
replay i timeline = read_all (read_entry i) timeline none

-- An entry that says nothing about a status.
abbrev pub IsNeutral : Detail → Type 0
IsNeutral detail = (s : Option Status) → read_detail detail s ≡ some s

pub replay-snoc :
    (i : ℕ) (timeline : List IncidentTimeline) (entry : IncidentTimeline) (s : Option Status)
    → replay i timeline ≡ some s
    → replay i (timeline ++ entry ∷ []) ≡ read_entry i entry s
unfolding replay
replay-snoc i timeline entry s h = read_all-snoc (read_entry i) timeline entry none s h

-- An entry of another incident, or one that says nothing about a status, changes nothing.
pub replay-other :
    (i : ℕ) (timeline : List IncidentTimeline) (entry : IncidentTimeline) (s : Option Status)
    → (entry.incident_id == i) ≡ false
    → replay i timeline ≡ some s
    → replay i (timeline ++ entry ∷ []) ≡ some s
replay-other i timeline entry s other h =
    replay-snoc i timeline entry s h ∙ unfold read_entry in rw other

pub replay-neutral :
    (i : ℕ) (timeline : List IncidentTimeline) (entry : IncidentTimeline) (s : Option Status)
    → IsNeutral entry.detail
    → replay i timeline ≡ some s
    → replay i (timeline ++ entry ∷ []) ≡ some s
replay-neutral i timeline entry s neutral h =
    replay-snoc i timeline entry s h ∙ unfold read_entry in ground (arith, neutral s)

pub status_eq_refl : (s : Status) → status_eq s s ≡ true
unfolding status_eq
status_eq_refl s = ground arith
