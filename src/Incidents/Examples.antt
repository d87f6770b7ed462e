-- ===== src/Incidents/Examples.antt =====
-- Runs of backend/app/services/incidents.py at concrete inputs.
use lunatic92i.Common.{
  ◌≤◌, ◌==◌, ◌&&◌, ◌≡◌, refl, false, none, some, [], ◌∷◌, codes, length, any, keep, text_eq,
}
use lunatic92i.Alerts.Model.{Alert, escalated}
use lunatic92i.Incidents.Model.{Asset, IncidentDb, IncidentDraft}
use lunatic92i.Incidents.Links.{Case}
use lunatic92i.Incidents.Run.{
  Op, create, transit, attach_asset, apply, start_db, Reach, start, step,
}
use lunatic92i.Incidents.Consistency.{IsCoherent}
use lunatic92i.Incidents.Reached.{Reach-IsCoherent}
use lunatic92i.Incidents.Effect.{case_of}
use lunatic92i.Incidents.Timeline.{Recorded, apply-Recorded}
use lunatic92i.Incidents.Ownership.{OwnsAll}
use lunatic92i.Incidents.Owned.{Reach-OwnsAll}
use lunatic92i.Incidents.Queries.{is_of_case, evidence_event_ids}
use lunatic92i.Incidents.Evidence.{holds, cites, evidence_event_ids_lem}

abbrev breach : Alert
breach = record {
  id = 7;
  tenant_id = 1;
  display_id = codes "ALT-2026-000001";
  rule_key = none;
  correlation_id = none;
  source = codes "detection";
  title = codes "Mass encryption";
  description = codes "many renames";
  severity = codes "critical";
  confidence = 90;
  risk_score = 88;
  risk_bucket = none;
  risk_explanation = codes "{}";
  event_ids = codes "e1" ∷ codes "e2" ∷ codes "e1" ∷ [];
  detection_ids = [];
  evidence = codes "{}";
  affected_user = none;
  affected_host = some (codes "db1");
  source_ip = none;
  destination_ip = none;
  mitre_techniques = [];
  status = escalated;
  analyst_id = none;
  resolution_note = none;
  dedup_key = codes "k";
  occurrence_count = 1;
  first_seen_at = 900;
  last_seen_at = 900;
  acknowledged_at = none;
  closed_at = none;
}

abbrev server : Asset
server = record {
  id = 40;
  tenant_id = 1;
  hostname = some (codes "db1");
  ip_address = none;
  criticality = codes "HIGH";
  is_isolated = false;
  isolated_at = none;
}

abbrev draft : IncidentDraft
draft = record {
  title = codes "Ransomware";
  description = none;
  severity = codes "critical";
  priority = none;
  alert_ids = 7 ∷ [];
}

abbrev the_case : Case
the_case = record { tenant_id = 1; incident_id = 9; actor_id = some 3 }

abbrev opening : Op
opening = create 1 draft (some 3) none (record { now = 1_000; year = 2026; fresh_id = 9 })

abbrev closing : Op
closing = transit the_case none (codes "CLOSED") (some (codes "contained")) 2_000

abbrev before : IncidentDb
before = start_db (breach ∷ []) (server ∷ []) []

abbrev opened : IncidentDb
opened = apply before opening

abbrev linked : IncidentDb
linked = apply opened (attach_asset the_case 40)

linked-Reach : Reach (breach ∷ []) (server ∷ []) [] (apply linked closing)
unfolding any
linked-Reach = step (step (step start opening refl) (attach_asset the_case 40) tt) closing tt

Reach-IsCoherent_example : IsCoherent (apply linked closing)
Reach-IsCoherent_example = Reach-IsCoherent linked-Reach

Reach-OwnsAll_example : OwnsAll (apply linked closing)
Reach-OwnsAll_example = Reach-OwnsAll linked-Reach

apply-Recorded_example : Recorded (case_of opening) before (apply before opening)
unfolding any
apply-Recorded_example = apply-Recorded before opening refl refl

evidence_event_ids_lem_example :
    (holds (codes "e1") (evidence_event_ids opened 1 9)
      ≡ any
          (λ link.
            is_of_case 1 9 link
            && any (λ (a : Alert). (a.id == link.target_id) && cites (codes "e1") a) opened.alerts)
          opened.alert_links)
    × (length (keep (text_eq (codes "e1")) (evidence_event_ids opened 1 9)) ≤ 1)
evidence_event_ids_lem_example = evidence_event_ids_lem opened 1 9 (codes "e1")
