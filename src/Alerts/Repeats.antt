-- ===== src/Alerts/Repeats.antt =====
-- A repeat inside the window is folded: backend/app/services/alerts.py, `create_or_update`.
use lunatic92i.Common.{
  ◌&&◌, ◌==◌, leb, text_eq, ℕ, ◌+◌, ◌≤◌, ◌≡◌, Bool, ◌++◌, arith, Text, length, max, length-last_n,
}
use lunatic92i.Alerts.Model.{Alert, AlertInput, is_open}
use lunatic92i.Alerts.Dedup.{AlertDb, fold_into, severity_rank, max_event_ids}
use lunatic92i.Alerts.Run.{Op, create, transit, hand_over, annotate, apply, IsFresh}
use lunatic92i.Alerts.Effect.{Effect}

-- Open for the key, and seen at `first` or later.
unfoldable is_live : ℕ → Text → ℕ → Alert → Bool
is_live tenant key first a =
    (a.tenant_id == tenant)
    && text_eq a.dedup_key key
    && is_open a.status
    && leb first a.last_seen_at

-- A call that moves no alert, and is no creation at a time before `first`.
abbrev pub IsQuiet : ℕ → Op → Type 0
IsQuiet first (create payload window m) = first ≤ m.now
IsQuiet first (transit r target remark now) = ⊥
IsQuiet first (hand_over r analyst) = Unit
IsQuiet first (annotate r body) = Unit

-- Tables that such calls lead to.
pub data Later (first : ℕ) (db : AlertDb) : AlertDb → Type 0 where
  at_once : Later first db db
  after :
      {db' : AlertDb}
      → Later first db db'
      → (op : Op) → IsFresh db' op
      → IsQuiet first op
      → Later first db (apply db' op)

-- Folding a firing in counts one more, moves the last sighting, keeps the greater risk score and the
-- graver severity, and never carries more than `MAX_EVENT_IDS` event or detection ids.
pub fold_into_lem :
    (payload : AlertInput) (now : ℕ) (a : Alert)
    → let b = fold_into payload now a in
      (b.occurrence_count ≡ a.occurrence_count + 1)
      × (b.last_seen_at ≡ now)
      × (b.risk_score ≡ max a.risk_score payload.risk_score)
      × (severity_rank b.severity ≡ max (severity_rank a.severity) (severity_rank payload.severity))
      × (length b.event_ids ≤ max_event_ids)
      × (length b.detection_ids ≤ max_event_ids)
unfolding fold_into
fold_into_lem payload now a =
    (ground arith, ground arith, ground arith, ground arith, events, detections)
  where
    events : length (fold_into payload now a).event_ids ≤ max_event_ids
    events = length-last_n max_event_ids (a.event_ids ++ payload.event_ids)

    detections : length (fold_into payload now a).detection_ids ≤ max_event_ids
    detections = length-last_n max_event_ids (a.detection_ids ++ payload.detection_ids)
