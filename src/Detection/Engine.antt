-- ===== src/Detection/Engine.antt =====
-- The streaming engine: backend/app/detection/engine.py, `StreamingEngine` and its helpers. Python's
-- `repr` and `datetime.fromisoformat` are parameters, and so are the readings of the clocks.
use lunatic92i.Common.{
  ℕ, ◌==◌, ltb, ◌&&◌, ◌||◌, not, Bool, true, false, Option, none, some, List, [], ◌∷◌, ◌++◌, map,
  Text, codes, if◌then◌else◌, keep,
}
use lunatic92i.Common.Int.{ℤ, ltb_ℤ}
use lunatic92i.Common.Decimal.{decimal}
use lunatic92i.Detection.Value.{Value, Fields, get, put}
use lunatic92i.Detection.Value
use lunatic92i.Detection.Schema.{
  DetectionRule, RuleException, RuleStatus, Severity, is_windowed, suppression_fields,
  suppression_seconds,
}
use lunatic92i.Detection.Schema
use lunatic92i.Detection.Operators.{Runtime}
use lunatic92i.Detection.Conditions.{evaluate_node, truth}
use lunatic92i.Detection.Paths.{resolve_path}
use lunatic92i.Detection.Suppression.{Held, claim}

-- `RuleMatch`, less its random id, the time, and the evidence's copy of fields of the document.
pub record RuleMatch (N : Type 0) : Type 0 where
  pub tenant_id : Text
  pub rule_id : Text
  pub rule_name : Text
  pub severity : Severity
  pub confidence : ℕ
  pub risk_score : ℕ
  pub mitre_attack : List Text
  pub event_ids : List Text
  pub entity : Fields N
  pub dry_run : Bool

-- The readings of `datetime.now` and `time.monotonic` while a rule is evaluated.
pub record Instant : Type 0 where
  pub wall : ℤ
  pub monotonic : ℕ

-- What one rule does with a document: it raises, reports nothing, or fires.
pub data RuleResult (N : Type 0) : Type 0 where
  broken : RuleResult N
  quiet : RuleResult N
  fired : RuleMatch N → RuleResult N

-- `a <= b` of strings, by code points.
unfoldable pub text_leb : Text → Text → Bool
text_leb [] t = true
text_leb (c ∷ cs) [] = false
text_leb (c ∷ cs) (d ∷ ds) = ltb c d || ((c == d) && text_leb cs ds)

unfoldable pub insert_text : Text → List Text → List Text
unfolding text_leb
insert_text t [] = t ∷ []
insert_text t (u ∷ us) = if text_leb t u then t ∷ u ∷ us else u ∷ insert_text t us

unfoldable pub sort_texts : List Text → List Text
unfolding insert_text
sort_texts [] = []
sort_texts (t ∷ ts) = insert_text t (sort_texts ts)

-- `"|".join(parts)`
unfoldable pub join_bar : List Text → Text
join_bar [] = []
join_bar (t ∷ []) = t
join_bar (t ∷ u ∷ us) = t ++ codes "|" ++ join_bar (u ∷ us)

unfoldable pub is_testing : RuleStatus → Bool
is_testing Schema.testing = true
is_testing _ = false

unfoldable pub is_disabled : RuleStatus → Bool
is_disabled Schema.disabled = true
is_disabled _ = false

module _ {N : Type 0} where
  unfoldable pub keys : Fields N → List Text
  keys Value.end = []
  keys (Value.field k v rest) = k ∷ keys rest

  unfoldable pub first_or_null : List (Value N) → Value N
  first_or_null [] = Value.null
  first_or_null (v ∷ vs) = v

  unfoldable pub entity_from : Value N → List Text → Fields N → Fields N
  unfolding resolve_path first_or_null put
  entity_from document [] entity = entity
  entity_from document (path ∷ paths) entity =
      entity_from document paths (put path (first_or_null (resolve_path document path)) entity)

  unfoldable pub entity_key : DetectionRule N → Value N → Fields N
  unfolding entity_from suppression_fields
  entity_key rule document = entity_from document (suppression_fields rule) Value.end

  -- The match of a rule, before those of the rules after it.
  unfoldable pub collect : RuleResult N → List (RuleMatch N) → List (RuleMatch N)
  collect broken found = found
  collect quiet found = found
  collect (fired m) found = m ∷ found

  -- `replace_rules`: the rules that the engine runs.
  unfoldable pub loaded : List (DetectionRule N) → List (DetectionRule N)
  unfolding keep is_windowed is_disabled
  loaded rules = keep (λ rule. not (is_windowed rule) && not (is_disabled rule.status)) rules

module _ {N : Type 0} (rt : Runtime N) where
  -- `str(document.get(name) or "")`
  unfoldable pub text_of : Text → Fields N → Text
  unfolding get truth
  text_of name document = elim (get name document) [
    | none ↦ []
    | some v ↦ if truth rt v then rt.value_text v else []
  ]

module _ {N : Type 0} (rt : Runtime N) (repr : Value N → Text) (parse_time : Text → Option ℤ) where
  unfoldable pub suppression_key : DetectionRule N → Text → Fields N → Text
  unfolding keys sort_texts join_bar decimal get
  suppression_key rule tenant_id entity =
      tenant_id
      ++ codes ":"
      ++ rule.rule_id
      ++ codes ":v"
      ++ decimal rule.version
      ++ codes ":"
      ++ join_bar (
          map
            (λ path.
              path ++ codes "=" ++ repr (elim (get path entity) [ none ↦ Value.null | some v ↦ v ]))
            (sort_texts (keys entity)))

  -- `exception_is_active`: a text that is no date never is.
  unfoldable pub exception_is_active : RuleException N → ℤ → Bool
  exception_is_active exception wall = elim exception.expires_at [
    | none ↦ true
    | some text ↦ elim (parse_time text) [ none ↦ false | some expires ↦ ltb_ℤ wall expires ]
  ]

  -- `matching_exception`: the outer `none` is an exception raised by an evaluation.
  unfoldable pub matching_exception :
      List (RuleException N) → Value N → ℤ → Option (Option (RuleException N))
  unfolding exception_is_active evaluate_node
  matching_exception [] document wall = some none
  matching_exception (exception ∷ rest) document wall =
      let later = matching_exception rest document wall in
      elim (exception_is_active exception wall) [
        | false ↦ later
        | true ↦ elim (evaluate_node rt exception.conditions document) [
          | none ↦ none
          | some true ↦ some (some exception)
          | some false ↦ later
        ]
      ]

  unfoldable pub build_match : DetectionRule N → Text → List Text → Fields N → RuleMatch N
  unfolding is_testing
  build_match rule tenant_id event_ids entity = record {
    tenant_id = tenant_id;
    rule_id = rule.rule_id;
    rule_name = rule.name;
    severity = rule.severity;
    confidence = rule.confidence;
    risk_score = rule.risk_score;
    mitre_attack = rule.mitre_attack;
    event_ids = event_ids;
    entity = entity;
    dry_run = is_testing rule.status;
  }

  -- The match of a rule whose conditions hold and that no exception covers, if the suppression lets it.
  unfoldable pub claim_and_build :
      ℕ → DetectionRule N → Value N → Text → Text → Instant → Held → Held × RuleResult N
  unfolding entity_key suppression_key claim build_match
  claim_and_build seconds rule document tenant_id event_id instant held =
      let entity = entity_key rule document in
      let found =
        fired (
          build_match rule tenant_id (elim event_id [ [] ↦ [] | c ∷ cs ↦ (c ∷ cs) ∷ [] ]) entity) in
      if ltb 0 seconds
      then (let (after, granted) =
            claim
              (record {
                key = suppression_key rule tenant_id entity;
                ttl = seconds;
                now = instant.monotonic;
              })
              held in
          (after, if granted then found else quiet))
      else (held, found)

  unfoldable pub evaluate_one :
      DetectionRule N → Value N → Text → Text → Instant → Held → Held × RuleResult N
  unfolding matching_exception claim_and_build evaluate_node suppression_seconds
  evaluate_one rule document tenant_id event_id instant held =
      elim (evaluate_node rt rule.conditions document) [
        | none ↦ (held, broken)
        | some false ↦ (held, quiet)
        | some true ↦ elim (matching_exception rule.exceptions document instant.wall) [
          | none ↦ (held, broken)
          | some (some exception) ↦ (held, quiet)
          | some none ↦ elim (suppression_seconds rt.digit_of rule) [
            | none ↦ (held, broken)
            | some seconds ↦ claim_and_build seconds rule document tenant_id event_id instant held
          ]
        ]
      ]

  -- The loop of `evaluate`: the store after it, and the matches in the order of the rules.
  unfoldable pub evaluate_rules :
      List (DetectionRule N)
      → Value N
      → Text
      → Text
      → (DetectionRule N → Instant)
      → Held
      → Held × List (RuleMatch N)
  unfolding evaluate_one collect
  evaluate_rules [] document tenant_id event_id clock held = (held, [])
  evaluate_rules (rule ∷ rules) document tenant_id event_id clock held =
      let (after, result) = evaluate_one rule document tenant_id event_id (clock rule) held in
      let (last, found) = evaluate_rules rules document tenant_id event_id clock after in
      (last, collect result found)

  unfoldable pub evaluate :
      List (DetectionRule N)
      → Fields N
      → (DetectionRule N → Instant)
      → Held
      → Held × List (RuleMatch N)
  unfolding loaded text_of evaluate_rules
  evaluate rules document clock held =
      evaluate_rules (loaded rules) (Value.obj document) (text_of rt (codes "tenant_id") document)
        (text_of rt (codes "event_id") document) clock held
