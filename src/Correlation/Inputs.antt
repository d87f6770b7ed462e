-- ===== src/Correlation/Inputs.antt =====
-- Inputs made of events and of detections: backend/app/correlation/engine.py, `_parse_time`,
-- `event_input`, `detection_input` and `_graft_entity`. The clock is an argument; the arithmetic of
-- Python's numbers and `datetime.fromisoformat` are a record of parameters.
use lunatic92i.Common.{
  ℕ, zero, Bool, true, false, ◌==◌, ◌||◌, Option, none, some, List, [], ◌∷◌, ◌++◌, Text, codes,
  if◌then◌else◌,
}
use lunatic92i.Common.Int.{ℤ, pos}
use lunatic92i.Detection.Value.{Value, Fields, Items, get, put, segments, split}
use lunatic92i.Detection.Value
use lunatic92i.Detection.Operators.{Runtime}
use lunatic92i.Detection.Conditions.{truth}
use lunatic92i.Detection.Engine.{text_of}
use lunatic92i.Correlation.Schema.{CorrelationInput, of_event, of_detection}
use lunatic92i.Correlation.Time.{effective_time}
use lunatic92i.Correlation.Process.{is_given}

-- `value > 1e11`, `int(value)`, `int(value * 1000)`, and the milliseconds of a text that
-- `datetime.fromisoformat` reads, in UTC if it names no zone.
pub record Clock (N : Type 0) : Type 0 where
  pub beyond_seconds : N → Bool
  pub to_int : N → ℤ
  pub to_int_thousand : N → ℤ
  pub from_iso : Text → Option ℤ

-- `none` without an exception, an input, or an exception.
pub data InputResult (N : Type 0) : Type 0 where
  raises : InputResult N
  no_input : InputResult N
  an_input : CorrelationInput N → InputResult N

-- `value.replace("Z", "+00:00")`
unfoldable pub replace_z : Text → Text
replace_z [] = []
replace_z (c ∷ cs) = if c == b'Z' then codes "+00:00" ++ replace_z cs else c ∷ replace_z cs

-- `if not text`
unfoldable pub is_blank : Text → Bool
is_blank [] = true
is_blank (c ∷ cs) = false

-- `value or default` on a time.
unfoldable pub nonzero_or : Option ℤ → ℤ → ℤ
nonzero_or none default = default
nonzero_or (some (pos zero)) default = default
nonzero_or (some t) default = t

unfoldable pub or_else : Option ℤ → ℤ → ℤ
or_else none default = default
or_else (some t) default = t

module _ {N : Type 0} where
  unfoldable pub value_or_null : Option (Value N) → Value N
  value_or_null none = Value.null
  value_or_null (some v) = v

  -- `target.get(part)` if that is a dictionary, or a new one.
  unfoldable pub child_of : Option (Value N) → Fields N
  child_of (some (Value.obj fields)) = fields
  child_of _ = Value.end

  -- One path of `_graft_entity`, by its first segment and the others.
  unfoldable pub graft_path : Text → List Text → Value N → Fields N → Fields N
  unfolding get put child_of
  graft_path leaf [] value target = elim (get leaf target) [
    | none ↦ put leaf value target
    | some v ↦ target
  ]
  graft_path part (next ∷ more) value target =
      put part (Value.obj (graft_path next more value (child_of (get part target)))) target

  unfoldable pub graft : Text → Value N → Fields N → Fields N
  unfolding split graft_path is_given
  graft path value document =
      let (first, more) = split b'.' path in
      if is_given value then graft_path first more value document else document

  unfoldable pub graft_entity : Fields N → Fields N → Fields N
  unfolding graft
  graft_entity Value.end document = document
  graft_entity (Value.field path value rest) document =
      graft_entity rest (graft path value document)

module _ {N : Type 0} (rt : Runtime N) (clock : Clock N) where
  -- `_parse_time`; a Boolean is an `int`.
  unfoldable pub parse_time : Value N → Option ℤ
  unfolding replace_z
  parse_time (Value.number n) =
      some (if clock.beyond_seconds n then clock.to_int n else clock.to_int_thousand n)
  parse_time (Value.bool b) = some (pos (if b then 1_000 else 0))
  parse_time (Value.str []) = none
  parse_time (Value.str (c ∷ cs)) = clock.from_iso (replace_z (c ∷ cs))
  parse_time _ = none

  -- `_parse_time(document.get(name))`
  unfoldable pub time_of : Text → Fields N → Option ℤ
  unfolding parse_time get value_or_null
  time_of name document = parse_time (value_or_null (get name document))

  unfoldable pub event_input : Fields N → ℤ → ℕ → Option (CorrelationInput N)
  unfolding text_of is_blank time_of or_else effective_time
  event_input document now max_skew_seconds =
      let tenant_id = text_of rt (codes "tenant_id") document in
      let event_id = text_of rt (codes "event_id") document in
      let ingested =
        or_else (time_of (codes "ingestion_timestamp") document)
          (or_else (time_of (codes "timestamp") document) now) in
      let claimed = or_else (time_of (codes "timestamp") document) ingested in
      let (occurred, source) = effective_time claimed ingested max_skew_seconds in
      if is_blank tenant_id || is_blank event_id
      then none
      else some (record {
        kind = of_event;
        tenant_id = tenant_id;
        event_id = event_id;
        document = document;
        claimed_at_ms = claimed;
        ingested_at_ms = ingested;
        occurred_at_ms = occurred;
        time_source = source;
      })

  -- The `detection` dictionary of the document; a missing field is `None`.
  unfoldable pub detection_fields : Fields N → Fields N
  unfolding value_or_null get truth
  detection_fields detection =
      let copy = λ (name : Text). value_or_null (get name detection) in
      let techniques = copy (codes "mitre_attack") in
      Value.field (codes "rule_id") (copy (codes "rule_id")) (
        Value.field (codes "rule_name") (copy (codes "rule_name")) (
          Value.field (codes "severity") (copy (codes "severity")) (
            Value.field (codes "confidence") (copy (codes "confidence")) (
              Value.field (codes "risk_score") (copy (codes "risk_score")) (
                Value.field (codes "mitre_attack")
                  (if truth rt techniques then techniques else Value.arr Value.nil) Value.end)))))

  unfoldable pub base_document : Text → Fields N → Fields N
  unfolding child_of put detection_fields get
  base_document tenant_id detection =
      put (codes "detection") (Value.obj (detection_fields detection)) (
        put (codes "tenant_id") (Value.str tenant_id) (child_of (get (codes "evidence") detection)))

  -- `detection.get("entity") or {}`; a value with no `items` raises.
  unfoldable pub entity_fields : Fields N → Option (Fields N)
  unfolding get truth
  entity_fields detection = elim (get (codes "entity") detection) [
    | none ↦ some Value.end
    | some (Value.obj fields) ↦ some fields
    | some v ↦ if truth rt v then none else some Value.end
  ]

  -- `str(event_ids[0]) if event_ids else detection_id`; what has no element 0 raises.
  unfoldable pub first_event_id : Option (Value N) → Text → Option Text
  unfolding truth
  first_event_id none detection_id = some detection_id
  first_event_id (some (Value.arr (Value.cons v rest))) detection_id = some (rt.value_text v)
  first_event_id (some (Value.str (c ∷ cs))) detection_id = some (c ∷ [])
  first_event_id (some v) detection_id = if truth rt v then none else some detection_id

  unfoldable pub input_of_detection : Text → Text → Fields N → Fields N → ℤ → ℕ → InputResult N
  unfolding nonzero_or time_of effective_time first_event_id get
  input_of_detection tenant_id detection_id detection document now max_skew_seconds =
      let matched_at = nonzero_or (time_of (codes "matched_at") detection) now in
      let claimed = nonzero_or (time_of (codes "timestamp") document) matched_at in
      let (occurred, source) = effective_time claimed matched_at max_skew_seconds in
      elim (first_event_id (get (codes "event_ids") detection) detection_id) [
        | none ↦ raises
        | some event_id ↦ an_input (record {
          kind = of_detection;
          tenant_id = tenant_id;
          event_id = event_id;
          document = document;
          claimed_at_ms = claimed;
          ingested_at_ms = matched_at;
          occurred_at_ms = occurred;
          time_source = source;
        })
      ]

  unfoldable pub detection_input : Fields N → ℤ → ℕ → InputResult N
  unfolding text_of is_blank truth value_or_null base_document entity_fields graft_entity
      input_of_detection get
  detection_input detection now max_skew_seconds =
      let tenant_id = text_of rt (codes "tenant_id") detection in
      let detection_id = text_of rt (codes "detection_id") detection in
      if is_blank tenant_id
        || is_blank detection_id
        || truth rt (value_or_null (get (codes "dry_run") detection))
      then no_input
      else elim (entity_fields detection) [
        | none ↦ raises
        | some entity ↦
            input_of_detection tenant_id detection_id detection
              (graft_entity entity (base_document tenant_id detection)) now max_skew_seconds
      ]
