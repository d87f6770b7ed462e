-- ===== src/Alerts/Dedup.antt =====
-- Creation with deduplication: backend/app/services/alerts.py, `next_display_id` to `_severity_rank`.
-- The current time, the year that it lies in and the id of a new row are arguments.
use lunatic92i.Common.{
  ℕ, ◌+◌, ◌*◌, Bool, true, false, ◌&&◌, Option, none, some, List, [], ◌∷◌, ◌++◌, Text, codes,
  text_eq, ◌==◌, ltb, leb, if◌then◌else◌, update, take, last_n,
}
use lunatic92i.Sequences.{Sequence, next_number, numbered}
use lunatic92i.Alerts.Model.{Alert, AlertInput, AlertTransition, AlertNote, new, is_open}
use lunatic92i.Audit.{AuditEvent}

-- The tables that the alert service reads and writes.
pub record AlertDb : Type 0 where
  pub alerts : List Alert
  pub transitions : List AlertTransition
  pub sequences : List Sequence
  pub notes : List AlertNote
  pub audit : List AuditEvent

abbrev pub empty_db : AlertDb
empty_db = record { alerts = []; transitions = []; sequences = []; notes = []; audit = [] }

-- `DEFAULT_DEDUP_WINDOW_MINUTES`
abbrev pub default_dedup_window_minutes : ℕ
default_dedup_window_minutes = 60

-- `MAX_EVENT_IDS`
abbrev pub max_event_ids : ℕ
max_event_ids = 200

abbrev pub microseconds_per_minute : ℕ
microseconds_per_minute = 60_000_000

-- f"ALT-{year}-{row.last_number:06d}"
unfoldable pub display_text : ℕ → ℕ → Text
display_text year number = numbered (codes "ALT-") year number

-- The new counters and the id; `none` is the exception of `scalar_one` on no row.
unfoldable pub next_display_id : ℕ → ℕ → List Sequence → Option (Text × List Sequence)
next_display_id tenant year rows = elim (next_number tenant year rows) [
  | none ↦ none
  | some (number, after) ↦ some (display_text year number, after)
]

-- The `WHERE` of `find_duplicate`; `last_seen_at >= now - window` without a negative cutoff.
unfoldable pub is_duplicate : ℕ → Text → ℕ → ℕ → Alert → Bool
is_duplicate tenant dedup_key window_minutes now alert =
    (alert.tenant_id == tenant)
    && text_eq alert.dedup_key dedup_key
    && is_open alert.status
    && leb now (alert.last_seen_at + window_minutes * microseconds_per_minute)

-- `ORDER BY last_seen_at DESC LIMIT 1` over the rows that pass.
unfoldable pub latest : (Alert → Bool) → List Alert → Option Alert
latest p [] = none
latest p (x ∷ xs) =
    let rest = latest p xs in
    if p x
    then elim rest [
      | none ↦ some x
      | some y ↦ if ltb x.last_seen_at y.last_seen_at then some y else some x
    ]
    else rest

unfoldable pub find_duplicate : AlertDb → ℕ → Text → ℕ → ℕ → Option Alert
find_duplicate db tenant dedup_key window_minutes now =
    latest (is_duplicate tenant dedup_key window_minutes now) db.alerts

-- `_severity_rank`
unfoldable pub severity_rank : Text → ℕ
severity_rank s =
    if text_eq s (codes "low")
    then 1
    else if text_eq s (codes "medium")
    then 2
    else if text_eq s (codes "high")
    then 3
    else if text_eq s (codes "critical")
    then 4
    else 0

-- The columns that keep the worst of an episode.
unfoldable pub keep_worst_score : AlertInput → Alert → Alert
keep_worst_score payload row =
    if ltb row.risk_score payload.risk_score
    then record row {
      risk_score = payload.risk_score;
      risk_bucket = payload.risk_bucket;
      risk_explanation = payload.risk_explanation;
    }
    else row

unfoldable pub keep_worst_severity : AlertInput → Alert → Alert
keep_worst_severity payload row =
    if ltb (severity_rank row.severity) (severity_rank payload.severity)
    then record row { severity = payload.severity }
    else row

-- A repeat, folded into the open alert that it duplicates.
unfoldable pub fold_into : AlertInput → ℕ → Alert → Alert
unfolding keep_worst_score keep_worst_severity
fold_into payload now existing =
    let counted = record existing {
      occurrence_count = existing.occurrence_count + 1;
      last_seen_at = now;
    } in
    let worst = keep_worst_severity payload (keep_worst_score payload counted) in
    record worst {
      event_ids = last_n max_event_ids (existing.event_ids ++ payload.event_ids);
      detection_ids = last_n max_event_ids (existing.detection_ids ++ payload.detection_ids);
    }

unfoldable pub new_alert : AlertInput → ℕ → Text → ℕ → Alert
new_alert payload id display_id now = record {
  id = id;
  tenant_id = payload.tenant_id;
  display_id = display_id;
  rule_key = payload.rule_key;
  correlation_id = payload.correlation_id;
  source = payload.source;
  title = take 300 payload.title;
  description = payload.description;
  severity = payload.severity;
  confidence = payload.confidence;
  risk_score = payload.risk_score;
  risk_bucket = payload.risk_bucket;
  risk_explanation = payload.risk_explanation;
  event_ids = last_n max_event_ids payload.event_ids;
  detection_ids = last_n max_event_ids payload.detection_ids;
  evidence = payload.evidence;
  affected_user = payload.affected_user;
  affected_host = payload.affected_host;
  source_ip = payload.source_ip;
  destination_ip = payload.destination_ip;
  mitre_techniques = payload.mitre_techniques;
  status = new;
  analyst_id = none;
  resolution_note = none;
  dedup_key = payload.dedup_key;
  occurrence_count = 1;
  first_seen_at = now;
  last_seen_at = now;
  acknowledged_at = none;
  closed_at = none;
}

abbrev pub has_id : ℕ → Alert → Bool
has_id i alert = alert.id == i

-- The moment of a call: the clock, the year that it shows and the id that a new row would get.
pub record Moment : Type 0 where
  pub now : ℕ
  pub year : ℕ
  pub fresh_id : ℕ

-- The history row of a creation.
unfoldable pub created_row : AlertInput → Moment → AlertTransition
created_row payload m = record {
  alert_id = m.fresh_id;
  tenant_id = payload.tenant_id;
  from_status = none;
  to_status = new;
  actor_id = none;
  note = some (codes "alert created");
}

unfoldable pub insert_alert : AlertDb → AlertInput → Moment → Text → List Sequence → AlertDb
insert_alert db payload m display_id sequences = record db {
  alerts = db.alerts ++ new_alert payload m.fresh_id display_id m.now ∷ [];
  sequences = sequences;
  transitions = db.transitions ++ created_row payload m ∷ [];
}

-- The tables, the alert and whether it is new; `none` is an exception in `next_display_id`.
unfoldable pub create_or_update :
    AlertDb → AlertInput → ℕ → Moment → Option (AlertDb × Alert × Bool)
create_or_update db payload window_minutes m =
    elim (find_duplicate db payload.tenant_id payload.dedup_key window_minutes m.now) [
      | some existing ↦ some (
        record db { alerts = update (has_id existing.id) (fold_into payload m.now) db.alerts },
        fold_into payload m.now existing,
        false,
      )
      | none ↦ elim (next_display_id payload.tenant_id m.year db.sequences) [
        | none ↦ none
        | some (display_id, sequences) ↦ some (
          insert_alert db payload m display_id sequences,
          new_alert payload m.fresh_id display_id m.now,
          true,
        )
      ]
    ]
