-- ===== src/Detection/Conditions.antt =====
-- Condition evaluation: backend/app/detection/conditions.py, `evaluate_condition` and `evaluate_node`, with
-- `none` for an exception.
use lunatic92i.Common.{
  Bool, true, false, not, Option, none, some, [], ◌∷◌, if◌then◌else◌, any, keep,
}
use lunatic92i.Detection.Value.{Value, null, bool, number, str, arr, obj, Items, Fields}
use lunatic92i.Detection.Schema
use lunatic92i.Detection.Paths.{resolve_path}
use lunatic92i.Detection.Operators.{Runtime, negate, any_or_raise, matches_value}

module _ {N : Type 0} (rt : Runtime N) where
  unfoldable pub is_present : Value N → Bool
  is_present null = false
  is_present _ = true

  -- `bool(value)`
  unfoldable pub truth : Value N → Bool
  truth null = false
  truth (bool b) = b
  truth (number n) = rt.number_true n
  truth (str []) = false
  truth (str (c ∷ cs)) = true
  truth (arr Items.nil) = false
  truth (arr (Items.cons v vs)) = true
  truth (obj Fields.end) = false
  truth (obj (Fields.field k v rest)) = true

  unfoldable pub same_truth : Bool → Bool → Bool
  same_truth true b = b
  same_truth false b = not b

  unfoldable pub is_exists : Schema.Operator → Bool
  is_exists Schema.exists = true
  is_exists _ = false

  unfoldable pub evaluate_condition : Schema.Condition N → Value N → Option Bool
  unfolding matches_value is_present truth same_truth is_exists any any_or_raise keep
  evaluate_condition condition document =
      let values = resolve_path document condition.field_path in
      if is_exists condition.operator
      then some (same_truth (any is_present values) (truth condition.value))
      else any_or_raise (matches_value rt condition) (keep is_present values)

  -- `all(...)` and `any(...)` stop at the first child that decides or raises. A group with no branch
  -- raises too.
  unfoldable mutual
    unfolding negate

    pub evaluate_node : Schema.ConditionNode N → Value N → Option Bool
    evaluate_node (Schema.condition c) document = evaluate_condition c document
    evaluate_node (Schema.group (Schema.nodes xs) any_of not_of) document = evaluate_all xs document
    evaluate_node (Schema.group Schema.no_list (Schema.nodes xs) not_of) document =
        evaluate_any xs document
    evaluate_node (Schema.group Schema.no_list Schema.no_list (Schema.node x)) document =
        negate (evaluate_node x document)
    evaluate_node (Schema.group Schema.no_list Schema.no_list Schema.no_node) document = none

    pub evaluate_all : Schema.Nodes N → Value N → Option Bool
    evaluate_all Schema.nil document = some true
    evaluate_all (Schema.cons x xs) document = elim (evaluate_node x document) [
      | none ↦ none
      | some true ↦ evaluate_all xs document
      | some false ↦ some false
    ]

    pub evaluate_any : Schema.Nodes N → Value N → Option Bool
    evaluate_any Schema.nil document = some false
    evaluate_any (Schema.cons x xs) document = elim (evaluate_node x document) [
      | none ↦ none
      | some true ↦ some true
      | some false ↦ evaluate_any xs document
    ]
