-- ===== src/Detection/Operators.antt =====
-- The operators of a condition: backend/app/detection/conditions.py, up to `_matches_value`. `none` stands
-- for an exception: the `OverflowError` of `float` on a large integer, and the error of `regex` on a
-- pattern it does not take.
use lunatic92i.Common.{
  ℕ, Bool, true, false, not, ◌&&◌, ◌||◌, Option, none, some, List, [], ◌∷◌, Text, text_eq, codes,
  ◌==◌, if◌then◌else◌, any, take,
}
use lunatic92i.Detection.Value.{Value, bool, number, str, arr, items}
use lunatic92i.Detection.Schema

-- `MAX_MATCH_LENGTH`
abbrev pub max_match_length : ℕ
max_match_length = 8192

pub data Search : Type 0 where
  found not_found timed_out refused : Search

-- What evaluation takes from Python, from `ipaddress` and from `regex`: numbers and their text, the
-- folding of case, equality of other values, addresses and networks, and the search of a pattern. A
-- number too large for a float has no `to_float`; each number has a text, since Python refuses to read
-- the integers that it refuses to print. `digit_of` is the value of a character that Unicode calls a
-- decimal digit.
pub record Runtime (N : Type 0) : Type 1 where
  pub Float : Type 0
  pub to_float : N → Option Float
  pub parse_float : Text → Option Float
  pub number_text : N → Text
  pub number_true : N → Bool
  pub float_eq : Float → Float → Bool
  pub float_lt : Float → Float → Bool
  pub float_le : Float → Float → Bool
  pub strip : Text → Text
  pub casefold : Text → Text
  pub value_eq : Value N → Value N → Bool
  pub value_text : Value N → Text
  pub digit_of : ℕ → Option ℕ
  pub Address : Type 0
  pub Network : Type 0
  pub parse_address : Text → Option Address
  pub parse_network : Text → Option Network
  pub address_version : Address → ℕ
  pub network_version : Network → ℕ
  pub contains_address : Network → Address → Bool
  pub search : Text → Bool → Text → Search

-- `s.startswith(prefix)`
unfoldable pub starts_with : Text → Text → Bool
starts_with [] s = true
starts_with (c ∷ cs) [] = false
starts_with (c ∷ cs) (d ∷ ds) = (c == d) && starts_with cs ds

-- `part in s`
unfoldable pub contains : Text → Text → Bool
unfolding starts_with
contains part [] = starts_with part []
contains part (d ∷ ds) = starts_with part (d ∷ ds) || contains part ds

-- `s.endswith(suffix)`
unfoldable pub ends_with : Text → Text → Bool
ends_with suffix [] = text_eq suffix []
ends_with suffix (d ∷ ds) = text_eq suffix (d ∷ ds) || ends_with suffix ds

unfoldable pub negate : Option Bool → Option Bool
negate none = none
negate (some b) = some (not b)

-- `any(test(x) for x in xs)`: the first test that holds or raises ends it.
unfoldable pub any_or_raise : {A : Type 0} → (A → Option Bool) → List A → Option Bool
any_or_raise test [] = some false
any_or_raise test (x ∷ xs) = elim (test x) [
  | none ↦ none
  | some true ↦ some true
  | some false ↦ any_or_raise test xs
]

module _ {N : Type 0} (rt : Runtime N) where
  unfoldable pub as_text : Value N → Option Text
  as_text (str s) = some s
  as_text (bool b) = some (if b then codes "true" else codes "false")
  as_text (number n) = some (rt.number_text n)
  as_text _ = none

  -- The outer `none` is the exception, the inner one a value that is no number.
  unfoldable pub as_number : Value N → Option (Option rt.Float)
  as_number (number n) = elim (rt.to_float n) [ none ↦ none | some x ↦ some (some x) ]
  as_number (str s) = some (rt.parse_float (rt.strip s))
  as_number _ = some none

  -- Both texts, folded unless case matters.
  unfoldable pub text_pair : Value N → Value N → Bool → Option (Text × Text)
  unfolding as_text
  text_pair left right case_sensitive = elim (as_text left) [
    | none ↦ none
    | some l ↦ elim (as_text right) [
      | none ↦ none
      | some r ↦ some (if case_sensitive then (l, r) else (rt.casefold l, rt.casefold r))
    ]
  ]

  -- `_equal` after the attempt to compare numbers.
  unfoldable pub equal_as_text : Value N → Value N → Bool → Bool
  unfolding text_pair
  equal_as_text left right case_sensitive = elim (text_pair left right case_sensitive) [
    | none ↦ rt.value_eq left right
    | some (l, r) ↦ text_eq l r
  ]

  -- Both values as numbers, if both are; the left one is converted first.
  unfoldable pub both_numbers : Value N → Value N → Option (Option (rt.Float × rt.Float))
  unfolding as_number
  both_numbers left right = elim (as_number left) [
    | none ↦ none
    | some l ↦ elim (as_number right) [
      | none ↦ none
      | some r ↦ elim l [
        | none ↦ some none
        | some x ↦ elim r [ none ↦ some none | some y ↦ some (some (x, y)) ]
      ]
    ]
  ]

  unfoldable pub equal : Value N → Value N → Bool → Option Bool
  unfolding both_numbers equal_as_text
  equal left right case_sensitive = elim (both_numbers left right) [
    | none ↦ none
    | some none ↦ some (equal_as_text left right case_sensitive)
    | some (some (l, r)) ↦ some (rt.float_eq l r)
  ]

  unfoldable pub compare_by : Schema.Operator → rt.Float → rt.Float → Bool
  compare_by Schema.gt l r = rt.float_lt r l
  compare_by Schema.gte l r = rt.float_le r l
  compare_by Schema.lt l r = rt.float_lt l r
  compare_by _ l r = rt.float_le l r

  unfoldable pub compare_values : Value N → Value N → Schema.Operator → Option Bool
  unfolding both_numbers compare_by
  compare_values left right operator = elim (both_numbers left right) [
    | none ↦ none
    | some none ↦ some false
    | some (some (l, r)) ↦ some (compare_by operator l r)
  ]

  -- The networks to try: the elements of a list, or the one value.
  unfoldable pub candidates : Value N → List (Value N)
  unfolding items
  candidates (arr xs) = items xs
  candidates v = v ∷ []

  unfoldable pub in_network : rt.Address → Value N → Bool
  unfolding as_text
  in_network address candidate = elim (as_text candidate) [
    | none ↦ false
    | some text ↦ elim (rt.parse_network (rt.strip text)) [
      | none ↦ false
      | some network ↦
          (rt.address_version address == rt.network_version network)
          && rt.contains_address network address
    ]
  ]

  unfoldable pub cidr_match : Value N → Value N → Bool
  unfolding as_text in_network candidates any
  cidr_match value networks = elim (as_text value) [
    | none ↦ false
    | some text ↦ elim (rt.parse_address (rt.strip text)) [
      | none ↦ false
      | some address ↦ any (in_network address) (candidates networks)
    ]
  ]

  -- A search that times out is a non-match; a pattern that `regex` refuses raises.
  unfoldable pub regex_match : Value N → Text → Bool → Option Bool
  unfolding as_text
  regex_match value pattern case_sensitive = elim (as_text value) [
    | none ↦ some false
    | some text ↦ elim (rt.search pattern case_sensitive (take max_match_length text)) [
      | found ↦ some true
      | not_found ↦ some false
      | timed_out ↦ some false
      | refused ↦ none
    ]
  ]

  unfoldable pub pair_test : (Text → Text → Bool) → Value N → Value N → Bool → Bool
  unfolding text_pair
  pair_test test value expected case_sensitive = elim (text_pair value expected case_sensitive) [
    | none ↦ false
    | some (v, e) ↦ test e v
  ]

  unfoldable pub in_list : Value N → Value N → Bool → Option Bool
  unfolding equal candidates any_or_raise
  in_list value expected case_sensitive =
      any_or_raise (λ candidate. equal value candidate case_sensitive) (candidates expected)

  unfoldable pub matches_by : Schema.Operator → Value N → Value N → Bool → Option Bool
  unfolding equal pair_test contains starts_with ends_with regex_match in_list compare_values
      cidr_match negate
  matches_by Schema.equals v e c = equal v e c
  matches_by Schema.not_equals v e c = negate (equal v e c)
  matches_by Schema.contains v e c = some (pair_test contains v e c)
  matches_by Schema.not_contains v e c = some (not (pair_test contains v e c))
  matches_by Schema.starts_with v e c = some (pair_test starts_with v e c)
  matches_by Schema.ends_with v e c = some (pair_test ends_with v e c)
  matches_by Schema.matches v e c = regex_match v (rt.value_text e) c
  matches_by Schema.is_in v e c = in_list v e c
  matches_by Schema.not_in v e c = negate (in_list v e c)
  matches_by Schema.gt v e c = compare_values v e Schema.gt
  matches_by Schema.gte v e c = compare_values v e Schema.gte
  matches_by Schema.lt v e c = compare_values v e Schema.lt
  matches_by Schema.lte v e c = compare_values v e Schema.lte
  matches_by Schema.cidr v e c = some (cidr_match v e)
  matches_by Schema.exists v e c = some false

  unfoldable pub matches_value : Schema.Condition N → Value N → Option Bool
  unfolding matches_by
  matches_value condition value =
      matches_by condition.operator value condition.value condition.case_sensitive
