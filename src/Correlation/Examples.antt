-- ===== src/Correlation/Examples.antt =====
-- Runs of backend/app/correlation at concrete inputs.
use lunatic92i.Common.{
  ℕ, ◌*◌, ◌≤◌, ◌≡◌, ◌↔◌, refl, inl, inr, Bool-cases, true, none, some, List, [], ◌∷◌, Text, codes,
  arith, length, last_n, text_eq, keep,
}
use lunatic92i.Common.Int.{pos, negsuc, abs, ◌-ℤ◌}
use lunatic92i.Detection.Value
use lunatic92i.Common.Decimal.{decimal_from}
use lunatic92i.Detection.Schema
use lunatic92i.Detection.Schema.{duration_seconds}
use lunatic92i.Detection.Suppression.{Held}
use lunatic92i.Detection.Conditions.{evaluate_node, evaluate_condition}
use lunatic92i.Correlation.Schema.{
  CorrelationStage, CorrelationRule, StageHit, event_time, ingestion_time, of_event, any_kind,
}
use lunatic92i.Correlation.Time.{effective_time, effective_time_bounds}
use lunatic92i.Correlation.State.{
  StoreCall, append, append_call, clear_call, call_all, read, appended, read_lem,
}
use lunatic92i.Correlation.Completion.{hits_of, complete, incomplete, ordered_completion, in_window}
use lunatic92i.Correlation.Chain.{HasChain, ordered_completion_iff}
use lunatic92i.Correlation.Selection.{From, Sorted}
use lunatic92i.Common.{Memᴰ, All}
use lunatic92i.Common.Int.{◌≤ℤ◌}
use lunatic92i.Detection.Value.{Fields, get, split, segments}
use lunatic92i.Detection.Paths.{resolve_path, walk, step_all, step_node, one_step, flatten_lists}
use lunatic92i.Detection.Engine.{is_disabled}
use lunatic92i.Detection.Examples.{runtime, show}
use lunatic92i.Correlation.Schema.{CorrelationInput}
use lunatic92i.Correlation.Completion.{newest_of}
use lunatic92i.Correlation.Selection.{Until}
use lunatic92i.Correlation.Membership.{in_window_iff}
use lunatic92i.Correlation.Process.{
  entity_of, entity_from_paths, is_given, active, accepts_kind, stages_hit, state_key, record_hits,
  process_rule, process_rules, process,
}
use lunatic92i.Correlation.Frames.{Elsewhere, process_frame}
use lunatic92i.Correlation.Inputs.{graft}
use lunatic92i.Correlation.Grafts.{under, resolve_path-graft}

abbrev hit : Text → ℕ → StageHit ℕ
hit stage t = record {
  stage = stage;
  occurred_at_ms = pos t;
  claimed_at_ms = pos t;
  ingested_at_ms = pos t;
  time_source = event_time;
  kind = of_event;
  event_id = codes "e";
  summary = Value.end;
}

abbrev stage : Text → ℕ → CorrelationStage ℕ
stage name count = record {
  name = name;
  matches = any_kind;
  conditions = Schema.condition (record {
    field_path = codes "user.id";
    operator = Schema.exists;
    value = Value.bool true;
    case_sensitive = true;
  });
  min_count = count;
  required = true;
}

abbrev rule : CorrelationRule ℕ
rule = record {
  correlation_id = codes "C-1";
  name = codes "brute force, then login";
  severity = Schema.high;
  confidence = 90;
  risk_score = 80;
  status = Schema.enabled;
  version = 1;
  window = codes "5m";
  correlate_by = codes "user.name" ∷ [];
  ordered = true;
  stages = stage (codes "a") 2 ∷ stage (codes "b") 1 ∷ [];
  suppression = none;
  mitre_attack = [];
}

abbrev groups : List (Text × List (StageHit ℕ))
groups =
    (codes "a", hit (codes "a") 1 ∷ hit (codes "a") 2 ∷ [])
    ∷ (codes "b", hit (codes "b") 3 ∷ [])
    ∷ []

groups-Sorted : (name : Text) → Sorted (hits_of name groups)
unfolding hits_of
groups-Sorted name = elim (Bool-cases (text_eq (codes "a") name)) [
  | inl a ↦ rw a ((omega arith, tt), (tt, tt))
  | inr a ↦ elim (Bool-cases (text_eq (codes "b") name)) [
    | inl b ↦ rw (a, b) (tt, tt)
    | inr b ↦ rw (a, b) tt
  ]
]

groups-since : (name : Text) → All (From (pos 0)) (hits_of name groups)
unfolding hits_of
groups-since name = elim (Bool-cases (text_eq (codes "a") name)) [
  | inl a ↦ rw a (omega arith, (omega arith, tt))
  | inr a ↦ elim (Bool-cases (text_eq (codes "b") name)) [
    | inl b ↦ rw (a, b) (omega arith, tt)
    | inr b ↦ rw (a, b) tt
  ]
]

ordered_completion_iff_example :
    ((found : List (StageHit ℕ)) × (ordered_completion rule.stages groups ≡ complete found))
    ↔ HasChain groups rule.stages
ordered_completion_iff_example =
    ordered_completion_iff groups groups-Sorted rule.stages groups-since
      (omega arith, (omega arith, tt))

-- Two hits before the epoch, in order, which the search does not see.
abbrev early : List (Text × List (StageHit ℕ))
early =
    (codes "a", record (hit (codes "a") 0) { occurred_at_ms = negsuc 4 } ∷ [])
    ∷ (codes "b", record (hit (codes "b") 0) { occurred_at_ms = negsuc 3 } ∷ [])
    ∷ []

early_is_missed :
    ordered_completion (stage (codes "a") 1 ∷ stage (codes "b") 1 ∷ []) early ≡ incomplete
unfolding ordered_completion hits_of text_eq
early_is_missed = refl

abbrev newest_first : List (StageHit ℕ)
newest_first = hit (codes "a") 2 ∷ hit (codes "a") 1 ∷ []

-- Another key is held.
abbrev others : Held
others = (codes "correlation:j", 100_000_000_000) ∷ []

abbrev calls : List (StoreCall ℕ)
calls =
    append_call (codes "k") (hit (codes "a") 1)
    ∷ append_call (codes "j") (hit (codes "a") 2)
    ∷ clear_call (codes "j")
    ∷ append_call (codes "k") (hit (codes "b") 3)
    ∷ []

read_lem_example :
    (read (codes "k") (call_all 1 calls []) ≡ last_n 1 (appended (codes "k") [] calls))
    × (length (read (codes "k") (call_all 1 calls [])) ≤ 1)
read_lem_example = read_lem 1 calls (codes "k")

effective_time_bounds_example :
    let t = (effective_time (pos 5_000_000) (pos 10) 900).0 in
    (abs (t -ℤ pos 10) ≤ 900 * 1000)
    × (abs (pos 5_000_000 -ℤ pos 10) ≤ 900 * 1000 → t ≡ pos 5_000_000)
    × ((effective_time (pos 5_000_000) (pos 10) 900).1 ≡ ingestion_time → t ≡ pos 10)
effective_time_bounds_example = effective_time_bounds (pos 5_000_000) (pos 10) 900

in_window_iff_example :
    ((x : StageHit ℕ)
      → Memᴰ x (in_window 300 (hit (codes "b") 3) newest_first) ↔ (
          Memᴰ x (hit (codes "b") 3 ∷ newest_first)
          × ((newest_of (hit (codes "b") 3) newest_first -ℤ pos (300 * 1000)) ≤ℤ x.occurred_at_ms)))
    × Sorted (in_window 300 (hit (codes "b") 3) newest_first)
    × All (Until (newest_of (hit (codes "b") 3) newest_first)) (hit (codes "b") 3 ∷ newest_first)
in_window_iff_example = in_window_iff 300 (hit (codes "b") 3) newest_first

abbrev login : Fields ℕ
login =
    Value.field (codes "user") (Value.obj (Value.field (codes "id") (Value.number 7) Value.end))
      Value.end

root_given : is_given {N = ℕ} (Value.str (codes "root")) ≡ true
unfolding is_given
root_given = refl

resolve_path-graft_example :
    resolve_path
      (Value.obj (graft (codes "user.name") (Value.str (codes "root")) login))
      (codes "user.name")
    ≡ flatten_lists (
        elim (under (codes "user") (codes "name" ∷ []) login) [
          | none ↦ Value.str (codes "root")
          | some v ↦ v
        ]
        ∷ [])
unfolding split
resolve_path-graft_example =
    resolve_path-graft (codes "user.name") (Value.str (codes "root")) login root_given

abbrev input : CorrelationInput ℕ
input = record {
  kind = of_event;
  tenant_id = codes "t";
  event_id = codes "e";
  document = login;
  claimed_at_ms = pos 1;
  ingested_at_ms = pos 1;
  occurred_at_ms = pos 1;
  time_source = event_time;
}

-- The rule for chains of one user id, which the input has and which all stages ask for.
abbrev by_id : CorrelationRule ℕ
by_id = record rule { correlate_by = codes "user.id" ∷ [] }

-- The input is recorded under the key of its entity, once for each stage.
recorded :
    length (
      hits_of
        (codes "t:C-1:v1:user.id=v")
        (process runtime show (by_id ∷ []) input 0 groups none).0)
    ≡ 2
unfolding process process_rules process_rule active keep is_disabled stages_hit accepts_kind
    evaluate_node evaluate_condition resolve_path walk step_all one_step step_node flatten_lists
    segments split get is_given text_eq entity_of entity_from_paths duration_seconds state_key
    record_hits append hits_of decimal_from
recorded = refl

no_chain : All (Elsewhere runtime show (codes "k") input) (active (by_id ∷ []))
unfolding active keep is_disabled state_key text_eq
no_chain = ((λ entity e. refl), tt)

process_frame_example :
    hits_of (codes "k") (process runtime show (by_id ∷ []) input 0 groups none).0
    ≡ hits_of (codes "k") groups
process_frame_example =
    process_frame runtime show (codes "k") (by_id ∷ []) input 0 groups none no_chain
