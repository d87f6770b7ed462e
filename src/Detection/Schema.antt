-- ===== src/Detection/Schema.antt =====
-- The rule DSL: backend/app/detection/schema.py. A rule is data over documents with numbers `N`.
use lunatic92i.Common.{
  ℕ, ◌+◌, ◌*◌, Bool, true, false, ◌&&◌, Option, none, some, List, [], ◌∷◌, Text, ltb, leb, ◌==◌,
  if◌then◌else◌, length, is_some,
}
use lunatic92i.Detection.Value.{Value, null, bool, str, arr}

pub data Severity : Type 0 where
  informational low medium high critical : Severity

pub data RuleStatus : Type 0 where
  enabled disabled testing : RuleStatus

pub data Operator : Type 0 where
  equals not_equals contains not_contains starts_with ends_with matches : Operator
  is_in not_in gt gte lt lte exists cidr : Operator

pub record Condition (N : Type 0) : Type 0 where
  pub field_path : Text
  pub operator : Operator
  pub value : Value N
  pub case_sensitive : Bool

-- `Condition | ConditionGroup`; a group has three optional branches, as the schema declares them.
mutual
  pub data ConditionNode (N : Type 0) : Type 0 where
    condition : Condition N → ConditionNode N
    group : NodeList N → NodeList N → OneNode N → ConditionNode N

  pub data NodeList (N : Type 0) : Type 0 where
    no_list : NodeList N
    nodes : Nodes N → NodeList N

  pub data OneNode (N : Type 0) : Type 0 where
    no_node : OneNode N
    node : ConditionNode N → OneNode N

  pub data Nodes (N : Type 0) : Type 0 where
    nil : Nodes N
    cons : ConditionNode N → Nodes N → Nodes N

-- `_exactly_one` accepts the group.
unfoldable pub exactly_one : {N : Type 0} → NodeList N → NodeList N → OneNode N → Bool
exactly_one (nodes (cons x xs)) no_list no_node = true
exactly_one no_list (nodes (cons x xs)) no_node = true
exactly_one no_list no_list (node x) = true
exactly_one _ _ _ = false

pub data SchemaError : Type 0 where
  exists_needs_bool needs_value needs_list needs_string too_long bad_regex : SchemaError

-- `MAX_PATTERN_LENGTH`
abbrev pub max_pattern_length : ℕ
max_pattern_length = 512

-- `_validate_regex`, with the pattern compiler as a parameter.
unfoldable pub validate_regex : {N : Type 0} → (Text → Bool) → Value N → Option SchemaError
validate_regex compiles (str pattern) =
    if ltb max_pattern_length (length pattern)
    then some too_long
    else if compiles pattern
    then none
    else some bad_regex
validate_regex compiles _ = some needs_string

unfoldable pub validate_list : {N : Type 0} → Value N → Option SchemaError
validate_list (arr xs) = none
validate_list _ = some needs_list

unfoldable pub validate_bool : {N : Type 0} → Value N → Option SchemaError
validate_bool (bool b) = none
validate_bool _ = some exists_needs_bool

unfoldable pub is_null : {N : Type 0} → Value N → Bool
is_null null = true
is_null _ = false

unfoldable pub validate_by : {N : Type 0} → (Text → Bool) → Operator → Value N → Option SchemaError
unfolding validate_regex validate_list
validate_by compiles is_in v = validate_list v
validate_by compiles not_in v = validate_list v
validate_by compiles matches v = validate_regex compiles v
validate_by compiles _ v = none

unfoldable pub check_operator :
    {N : Type 0} → (Text → Bool) → Operator → Value N → Option SchemaError
unfolding validate_by validate_bool is_null
check_operator compiles exists v = validate_bool v
check_operator compiles op v = if is_null v then some needs_value else validate_by compiles op v

-- `_check_value_present`: the error that refuses the condition, if one does.
unfoldable pub check_value_present : {N : Type 0} → (Text → Bool) → Condition N → Option SchemaError
unfolding check_operator
check_value_present compiles c = check_operator compiles c.operator c.value

-- `_DURATION_SECONDS`
unfoldable pub unit_seconds : ℕ → Option ℕ
unit_seconds c =
    if c == b's'
    then some 1
    else if c == b'm'
    then some 60
    else if c == b'h'
    then some 3600
    else if c == b'd'
    then some 86400
    else none

-- The last character, and what stands before it.
unfoldable pub unsnoc : Text → Option (Text × ℕ)
unsnoc [] = none
unsnoc (c ∷ cs) = elim (unsnoc cs) [
  | none ↦ some ([], c)
  | some (front, last) ↦ some (c ∷ front, last)
]

-- `$` also stands before a line feed at the end.
unfoldable pub before_newline : Text → Text
unfolding unsnoc
before_newline text = elim (unsnoc text) [
  | none ↦ []
  | some (front, last) ↦ if last == 10 then front else text
]

-- Digits as `int` reads them, from the values that Unicode gives to characters.
unfoldable pub number_of : (ℕ → Option ℕ) → ℕ → Text → Option ℕ
number_of digit_of n [] = some n
number_of digit_of n (c ∷ cs) = elim (digit_of c) [
  | none ↦ none
  | some d ↦ number_of digit_of (n * 10 + d) cs
]

-- Python's limit for `int` of a text.
abbrev pub max_int_digits : ℕ
max_int_digits = 4300

-- A text that `_DURATION` matches, in seconds; `none` is a `ValueError`.
unfoldable pub duration_seconds : (ℕ → Option ℕ) → Text → Option ℕ
unfolding before_newline number_of unit_seconds unsnoc
duration_seconds digit_of text = elim (unsnoc (before_newline text)) [
  | none ↦ none
  | some (digits, unit) ↦
      if ltb 0 (length digits) && leb (length digits) max_int_digits
      then elim (number_of digit_of 0 digits) [
        | none ↦ none
        | some n ↦ elim (unit_seconds unit) [ none ↦ none | some s ↦ some (n * s) ]
      ]
      else none
]

pub record WindowSpec : Type 0 where
  pub duration : Text
  pub threshold : ℕ
  pub group_by : List Text
  pub distinct_field : Option Text

pub record RuleException (N : Type 0) : Type 0 where
  pub reason : Text
  pub conditions : ConditionNode N
  pub expires_at : Option Text

pub record DetectionRule (N : Type 0) : Type 0 where
  pub rule_id : Text
  pub name : Text
  pub severity : Severity
  pub confidence : ℕ
  pub risk_score : ℕ
  pub status : RuleStatus
  pub version : ℕ
  pub conditions : ConditionNode N
  pub window : Option WindowSpec
  pub exceptions : List (RuleException N)
  pub suppression : Option Text
  pub suppress_by : List Text
  pub mitre_attack : List Text

module _ {N : Type 0} where
  -- `rule_type == "windowed"`
  unfoldable pub is_windowed : DetectionRule N → Bool
  is_windowed rule = is_some rule.window

  unfoldable pub suppression_fields : DetectionRule N → List Text
  suppression_fields rule = elim rule.suppress_by [
    | [] ↦ elim rule.window [ none ↦ [] | some w ↦ w.group_by ]
    | x ∷ xs ↦ x ∷ xs
  ]

  -- `none` is the `ValueError` of a suppression that is no duration.
  unfoldable pub suppression_seconds : (ℕ → Option ℕ) → DetectionRule N → Option ℕ
  unfolding duration_seconds
  suppression_seconds digit_of rule = elim rule.suppression [
    | none ↦ some 0
    | some s ↦ duration_seconds digit_of s
  ]
