-- ===== src/Alerts/Examples.antt =====
-- Runs of backend/app/services/alerts.py and backend/app/models/alerts.py at concrete inputs.
use lunatic92i.Common.{
  ℕ, ◌+◌, ◌≤◌, ◌==◌, ◌&&◌, ◌≡◌, ◌⊎◌, ◌↔◌, refl, false, none, some, List, [], ◌∷◌, codes, length,
  max, any, find, update, text_eq,
}
use lunatic92i.Sequences.{Sequence, next_number, ensure_sequence, is_sequence, bump}
use lunatic92i.Sequences.Laws.{issued, next_number_lem, numbered-injective}
use lunatic92i.Alerts.Model.{
  new, resolved, Alert, AlertInput, is_closing, status_in, status_of, status_text, status_eq,
  is_allowed, transitions_from, closing,
}
use lunatic92i.Alerts.Dedup.{
  AlertDb, Moment, empty_db, has_id, fold_into, create_or_update, new_alert, display_text,
  severity_rank, find_duplicate, latest, next_display_id, insert_alert, max_event_ids,
}
use lunatic92i.Alerts.Lifecycle.{
  Request, ok, err, invalid_transition, get_alert, transition, is_alert, apply_move, move,
  acknowledge, stamp_closed, take_ownership,
}
use lunatic92i.Alerts.Run.{hand_over, annotate, Op, create, transit, apply, Reach, start, step}
use lunatic92i.Alerts.Consistency.{IsConsistent, Reach-IsConsistent}
use lunatic92i.Alerts.Identity.{row_of, tenant_of, Evolves, apply_frame}
use lunatic92i.Alerts.Counting.{occurrences, occurrences-Reach, Reach-Distinct}
use lunatic92i.Alerts.Numbering.{IsNumberedDb, Reach-IsNumberedDb}
use lunatic92i.Alerts.Machine.{MayBecome, transition-ok_iff, Walk, Walk-everywhere}
use lunatic92i.Alerts.Repeats.{Later, at_once, after, fold_into_lem}
use lunatic92i.Alerts.Queries.{count_of, count_by_status, in_status, count_by_status_lem}
use lunatic92i.Common.{keep}

abbrev firing : AlertInput
firing = record {
  tenant_id = 1;
  source = codes "detection";
  title = codes "Brute force";
  description = codes "many failures";
  severity = codes "high";
  confidence = 80;
  risk_score = 60;
  risk_bucket = none;
  risk_explanation = codes "{}";
  dedup_key = codes "k";
  event_ids = codes "e1" ∷ codes "e2" ∷ [];
  detection_ids = codes "d1" ∷ [];
  evidence = codes "{}";
  mitre_techniques = codes "T1110" ∷ [];
  rule_key = some (codes "r1");
  correlation_id = none;
  affected_user = none;
  affected_host = none;
  source_ip = none;
  destination_ip = none;
}

abbrev at_first : Moment
at_first = record { now = 1_000; year = 2026; fresh_id = 7 }

abbrev request : Request
request = record { tenant_id = 1; alert_id = 7; actor_id = some 3; actor_ip = none }

abbrev opening : Op
opening = create firing 60 at_first

abbrev resolving : Op
resolving = transit request (codes "RESOLVED") (some (codes "patched")) 2_000

abbrev repeating : Op
repeating = create firing 60 (record { now = 3_000; year = 2026; fresh_id = 8 })

abbrev opened : AlertDb
opened = apply empty_db opening

abbrev row : Alert
row = new_alert firing 7 (display_text 2026 1) 1_000

-- The row of the first alert.
opened-row : row_of 7 opened ≡ some row
unfolding apply create_or_update find_duplicate latest next_display_id next_number ensure_sequence
    is_sequence bump find update any insert_alert new_alert
opened-row = refl

opened_get : get_alert opened 1 7 ≡ some row
unfolding apply create_or_update find_duplicate latest next_display_id next_number ensure_sequence
    is_sequence bump find update any insert_alert new_alert get_alert is_alert
opened_get = refl

abbrev run : Reach opened
unfolding any
run = step start opening refl

closed_fresh : any (has_id 8) (apply opened resolving).alerts ≡ false
unfolding apply create_or_update find_duplicate latest next_display_id next_number ensure_sequence
    is_sequence bump find update any insert_alert new_alert transition get_alert is_alert apply_move
    status_of status_text status_eq is_allowed status_in transitions_from text_eq move acknowledge
    stamp_closed take_ownership is_closing closing
closed_fresh = refl

abbrev long_run : Reach (apply (apply opened resolving) repeating)
long_run = step (step run resolving tt) repeating closed_fresh

Reach-IsConsistent_example : IsConsistent (apply (apply opened resolving) repeating)
Reach-IsConsistent_example = Reach-IsConsistent long_run

apply_frame_example :
    (b : Alert) × (row_of 7 (apply opened resolving) ≡ some b)
    × Evolves row b
    × ((b ≡ row) ⊎ (row.tenant_id ≡ tenant_of resolving))
apply_frame_example = apply_frame opened resolving 7 row (Reach-Distinct run) opened-row

occurrences-Reach_example : occurrences (apply (apply opened resolving) repeating) ≡ 2
unfolding run
occurrences-Reach_example = occurrences-Reach long_run

Reach-IsNumberedDb_example : IsNumberedDb (apply (apply opened resolving) repeating)
Reach-IsNumberedDb_example = Reach-IsNumberedDb long_run

transition-ok_iff_example :
    ((b : Alert) × ((transition opened request (codes "RESOLVED") none 5_000).0 ≡ ok b))
    ↔ MayBecome row.status (codes "RESOLVED")
transition-ok_iff_example =
    transition-ok_iff opened request (codes "RESOLVED") none 5_000 row opened_get

bad_target :
    (transition opened request (codes "DONE") none 5_000).0
    ≡ err (invalid_transition new (codes "DONE"))
unfolding transition status_of status_text new_alert text_eq
bad_target = rw (opened_get, transition) refl

Walk-everywhere_example : Walk resolved new
Walk-everywhere_example = Walk-everywhere resolved new

abbrev worked_on : AlertDb
worked_on = apply (apply opened (hand_over request (some 4))) (annotate request (codes "seen"))

-- A second analyst and a note, while the alert is open.
abbrev meanwhile : Later 1_000 opened worked_on
meanwhile =
    after (after at_once (hand_over request (some 4)) tt tt) (annotate request (codes "seen")) tt tt

fold_into_lem_example :
    let b = fold_into firing 9_000 row in
    (b.occurrence_count ≡ row.occurrence_count + 1)
    × (b.last_seen_at ≡ 9_000)
    × (b.risk_score ≡ max row.risk_score firing.risk_score)
    × (severity_rank b.severity ≡ max (severity_rank row.severity) (severity_rank firing.severity))
    × (length b.event_ids ≤ max_event_ids)
    × (length b.detection_ids ≤ max_event_ids)
fold_into_lem_example = fold_into_lem firing 9_000 row

abbrev counters : List Sequence
counters = record { tenant_id = 1; year = 2026; last_number = 41 } ∷ []

next_number_lem_example :
    (after : List Sequence) × (next_number 1 2026 counters
      ≡ some (issued 1 2026 counters + 1, after))
    × (issued 1 2026 after ≡ issued 1 2026 counters + 1)
    × ((t' y' : ℕ)
        → ((t' == 1) && (y' == 2026)) ≡ false
        → issued t' y' after ≡ issued t' y' counters)
next_number_lem_example = next_number_lem 1 2026 counters

numbered-injective_example : (◌≡◌ {A = ℕ} 2026 2026) × (◌≡◌ {A = ℕ} 42 42)
numbered-injective_example = numbered-injective (codes "ALT-") 2026 42 2026 42 refl

count_by_status_lem_example :
    count_of new (count_by_status opened 1) ≡ length (keep (in_status 1 new) opened.alerts)
count_by_status_lem_example = count_by_status_lem opened 1 new
