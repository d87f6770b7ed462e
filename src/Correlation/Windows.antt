-- ===== src/Correlation/Windows.antt =====
-- What the evaluation of a rule reports, against the hits in its window: backend/app/correlation/engine.py,
-- `_evaluate`.
use lunatic92i.Common.{◌≤◌, true, false, List, [], length, All}
use lunatic92i.Correlation.Schema.{CorrelationRule, CorrelationStage, StageHit, required_stages}
use lunatic92i.Correlation.Completion.{Completion, group_from}
use lunatic92i.Correlation.Chain.{Chain, HasChain}
use lunatic92i.Correlation.Order.{of_stage}

module _ {N : Type 0} where
  -- Every stage has as many of the hits as it asks for.
  abbrev pub Enough : List (CorrelationStage N) → List (StageHit N) → Type 0
  Enough stages hits = All (λ stage. stage.min_count ≤ length (of_stage stage.name hits)) stages

  -- The hits complete the rule: by a chain, or in any order.
  abbrev pub Completes : CorrelationRule N → List (StageHit N) → Type 0
  Completes rule hits = elim rule.ordered [
    | true ↦ HasChain (group_from [] hits) (required_stages rule)
    | false ↦ Enough (required_stages rule) hits
  ]
