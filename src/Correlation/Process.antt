-- ===== src/Correlation/Process.antt =====
-- An input through the rules: backend/app/correlation/engine.py, `_entity_of`, `_stage_accepts`,
-- `state_key`, `_summarize`, `_process_rule`, `process` and `replace_rules`.
use lunatic92i.Common.{
  ℕ, Bool, true, false, not, Option, none, some, List, [], ◌∷◌, ◌++◌, map, Text, codes,
  if◌then◌else◌, keep,
}
use lunatic92i.Common.Decimal.{decimal}
use lunatic92i.Detection.Value.{Value, Fields, get, put}
use lunatic92i.Detection.Value
use lunatic92i.Detection.Operators.{Runtime}
use lunatic92i.Detection.Conditions.{evaluate_node, truth}
use lunatic92i.Detection.Paths.{resolve_path}
use lunatic92i.Detection.Schema.{duration_seconds}
use lunatic92i.Detection.Engine.{keys, sort_texts, join_bar, is_disabled}
use lunatic92i.Detection.Suppression.{Held}
use lunatic92i.Correlation.Schema.{
  InputKind, Kind, CorrelationStage, CorrelationRule, StageHit, CorrelationInput, event, detection,
  any_kind, of_event, of_detection,
}
use lunatic92i.Correlation.State.{HitStore, append, default_max_hits}
use lunatic92i.Correlation.Evaluation.{
  CorrelationMatch, EvaluationResult, failed, no_match, matched, evaluate,
}

-- `_stage_accepts`
unfoldable pub accepts_kind : InputKind → Kind → Bool
accepts_kind any_kind kind = true
accepts_kind event of_event = true
accepts_kind detection of_detection = true
accepts_kind _ _ = false

-- `_SUMMARY_FIELDS`
abbrev pub summary_fields : List Text
summary_fields =
    codes "class"
    ∷ codes "event_code"
    ∷ codes "hostname"
    ∷ codes "source_ip"
    ∷ codes "destination_ip"
    ∷ codes "user"
    ∷ codes "process"
    ∷ codes "authentication"
    ∷ codes "severity"
    ∷ []

module _ {N : Type 0} where
  -- `value not in (None, "")`
  unfoldable pub is_given : Value N → Bool
  is_given Value.null = false
  is_given (Value.str []) = false
  is_given _ = true

  -- `_entity_of`: `none` if the document lacks a field of the entity.
  unfoldable pub entity_from_paths : Value N → List Text → Fields N → Option (Fields N)
  unfolding keep is_given resolve_path put
  entity_from_paths document [] entity = some entity
  entity_from_paths document (path ∷ paths) entity =
      elim (keep is_given (resolve_path document path)) [
        | [] ↦ none
        | v ∷ vs ↦ entity_from_paths document paths (put path v entity)
      ]

  unfoldable pub entity_of : CorrelationRule N → Value N → Option (Fields N)
  unfolding entity_from_paths
  entity_of rule document = entity_from_paths document rule.correlate_by Value.end

  unfoldable pub copy_fields : List Text → Fields N → Fields N → Fields N
  unfolding get put
  copy_fields [] document summary = summary
  copy_fields (key ∷ more) document summary =
      copy_fields more document
        (elim (get key document) [ none ↦ summary | some v ↦ put key v summary ])

  -- `replace_rules`: the rules that the engine runs.
  unfoldable pub active : List (CorrelationRule N) → List (CorrelationRule N)
  unfolding keep is_disabled
  active rules = keep (λ rule. not (is_disabled rule.status)) rules

  -- The match of a rule, before those of the rules after it.
  unfoldable pub collect :
      EvaluationResult N → List (CorrelationMatch N) → List (CorrelationMatch N)
  collect failed found = found
  collect no_match found = found
  collect (matched m) found = m ∷ found

module _ {N : Type 0} (rt : Runtime N) (repr : Value N → Text) where
  unfoldable pub state_key : CorrelationRule N → Text → Fields N → Text
  unfolding keys sort_texts join_bar decimal get
  state_key rule tenant_id entity =
      tenant_id
      ++ codes ":"
      ++ rule.correlation_id
      ++ codes ":v"
      ++ decimal rule.version
      ++ codes ":"
      ++ join_bar (
          map
            (λ path.
              path ++ codes "=" ++ repr (elim (get path entity) [ none ↦ Value.null | some v ↦ v ]))
            (sort_texts (keys entity)))

  -- The rule that a detection comes from.
  unfoldable pub rule_of : Fields N → Option (Value N)
  unfolding get truth
  rule_of document = elim (get (codes "detection") document) [
    | none ↦ none
    | some (Value.obj fields) ↦ elim (get (codes "rule_id") fields) [
      | none ↦ none
      | some v ↦ if truth rt v then some v else none
    ]
    | some _ ↦ none
  ]

  unfoldable pub summarize : Fields N → Fields N
  unfolding copy_fields rule_of put
  summarize document =
      let summary = copy_fields summary_fields document Value.end in
      elim (rule_of document) [ none ↦ summary | some v ↦ put (codes "detection_rule") v summary ]

  -- The stages that an input satisfies; `none` is an exception raised by an evaluation.
  unfoldable pub stages_hit :
      List (CorrelationStage N) → CorrelationInput N → Option (List (CorrelationStage N))
  unfolding accepts_kind evaluate_node
  stages_hit [] input = some []
  stages_hit (stage ∷ rest) input =
      let later = stages_hit rest input in
      elim (accepts_kind stage.matches input.kind) [
        | false ↦ later
        | true ↦ elim (evaluate_node rt stage.conditions (Value.obj input.document)) [
          | none ↦ none
          | some false ↦ later
          | some true ↦ elim later [ none ↦ none | some stages ↦ some (stage ∷ stages) ]
        ]
      ]

  unfoldable pub hit_of : CorrelationStage N → CorrelationInput N → StageHit N
  unfolding summarize
  hit_of stage input = record {
    stage = stage.name;
    occurred_at_ms = input.occurred_at_ms;
    claimed_at_ms = input.claimed_at_ms;
    ingested_at_ms = input.ingested_at_ms;
    time_source = input.time_source;
    kind = input.kind;
    event_id = input.event_id;
    summary = summarize input.document;
  }

  -- The loop that records a hit for each stage: the store, and what the last append returned.
  unfoldable pub record_hits :
      Text
      → List (CorrelationStage N)
      → CorrelationInput N
      → HitStore N
      → List (StageHit N)
      → HitStore N × List (StageHit N)
  unfolding append hit_of
  record_hits key [] input store held = (store, held)
  record_hits key (stage ∷ rest) input store held =
      let (after, now_held) = append default_max_hits key (hit_of stage input) store in
      record_hits key rest input after now_held

  -- `_process_rule`: both stores, and the result. `now` is the reading of the suppression store's clock.
  -- A window that is no duration raises before a hit is recorded.
  unfoldable pub process_rule :
      CorrelationRule N
      → CorrelationInput N
      → ℕ
      → HitStore N
      → Option Held
      → HitStore N × Option Held × EvaluationResult N
  unfolding stages_hit entity_of state_key record_hits evaluate duration_seconds
  process_rule rule input now store suppression = elim (stages_hit rule.stages input) [
    | none ↦ (store, suppression, failed)
    | some [] ↦ (store, suppression, no_match)
    | some (stage ∷ stages) ↦ elim (entity_of rule (Value.obj input.document)) [
      | none ↦ (store, suppression, no_match)
      | some entity ↦ elim (duration_seconds rt.digit_of rule.window) [
        | none ↦ (store, suppression, failed)
        | some ttl_seconds ↦
            let key = state_key rule input.tenant_id entity in
            let (after, held) = record_hits key (stage ∷ stages) input store [] in
            let (claimed, result) =
              evaluate rt.digit_of rule input.tenant_id key now held suppression in
            (after, claimed, result)
      ]
    ]
  ]

  -- The loop of `process`: a rule that raises keeps the hits that it recorded.
  unfoldable pub process_rules :
      List (CorrelationRule N)
      → CorrelationInput N
      → ℕ
      → HitStore N
      → Option Held
      → HitStore N × Option Held × List (CorrelationMatch N)
  unfolding process_rule collect
  process_rules [] input now store suppression = (store, suppression, [])
  process_rules (rule ∷ rules) input now store suppression =
      let (store', suppression', result) = process_rule rule input now store suppression in
      let (store'', suppression'', found) = process_rules rules input now store' suppression' in
      (store'', suppression'', collect result found)

  unfoldable pub process :
      List (CorrelationRule N)
      → CorrelationInput N
      → ℕ
      → HitStore N
      → Option Held
      → HitStore N × Option Held × List (CorrelationMatch N)
  unfolding active process_rules
  process rules input now store suppression =
      process_rules (active rules) input now store suppression
