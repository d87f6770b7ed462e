-- ===== src/Detection/Paths.antt =====
-- The values that a dotted path reaches: backend/app/detection/conditions.py, `resolve_path`.
use lunatic92i.Common.{Option, none, some, List, [], ◌∷◌, ◌++◌, Text}
use lunatic92i.Detection.Value.{Value, arr, obj, Items, get, items, segments}

module _ {N : Type 0} where
  unfoldable pub one_step : Option (Value N) → List (Value N)
  one_step none = []
  one_step (some v) = v ∷ []

  -- What `item.get(segment)` adds for the elements of a list: only dictionaries are entered.
  unfoldable pub step_items : Text → Items N → List (Value N)
  unfolding one_step get
  step_items segment Items.nil = []
  step_items segment (Items.cons (obj fs) rest) =
      one_step (get segment fs) ++ step_items segment rest
  step_items segment (Items.cons _ rest) = step_items segment rest

  unfoldable pub step_node : Text → Value N → List (Value N)
  unfolding step_items
  step_node segment (obj fs) = one_step (get segment fs)
  step_node segment (arr xs) = step_items segment xs
  step_node segment _ = []

  -- `following`, over the nodes of `current`.
  unfoldable pub step_all : Text → List (Value N) → List (Value N)
  unfolding step_node
  step_all segment [] = []
  step_all segment (v ∷ vs) = step_node segment v ++ step_all segment vs

  -- The loop over the segments, with its early return.
  unfoldable pub walk : List Text → List (Value N) → List (Value N)
  unfolding step_all
  walk [] current = current
  walk (segment ∷ rest) current = elim (step_all segment current) [
    | [] ↦ []
    | v ∷ vs ↦ walk rest (v ∷ vs)
  ]

  unfoldable pub flatten_lists : List (Value N) → List (Value N)
  unfolding items
  flatten_lists [] = []
  flatten_lists (arr xs ∷ vs) = items xs ++ flatten_lists vs
  flatten_lists (v ∷ vs) = v ∷ flatten_lists vs

  unfoldable pub resolve_path : Value N → Text → List (Value N)
  unfolding walk flatten_lists segments
  resolve_path document path = flatten_lists (walk (segments path) (document ∷ []))
