-- ===== src/Correlation/Evaluation.antt =====
-- The evaluation of a rule on the hits held for an entity: backend/app/correlation/engine.py,
-- `_evaluate` and `CorrelationMatch`. The suppression store and the reading of its clock are arguments.
use lunatic92i.Common.{
  ℕ, ◌+◌, ◌/◌, ◌%◌, Bool, true, Option, none, some, List, [], ◌∷◌, ◌++◌, map, Text, text_eq, codes,
  if◌then◌else◌, any, ltb, ◌==◌,
}
use lunatic92i.Common.Int.{ℤ, abs, ◌-ℤ◌}
use lunatic92i.Correlation.Schema.{CorrelationRule, StageHit, required_stages, suppression_seconds}
use lunatic92i.Correlation.Completion.{
  Completion, raised, incomplete, complete, group_from, last_hit, ordered_completion,
  unordered_completion, in_window,
}
use lunatic92i.Detection.Schema.{duration_seconds}
use lunatic92i.Detection.Suppression.{Held, claim}

-- The fields of `CorrelationMatch` that the hits decide. The times are those that `_iso` renders, and
-- the timeline is the hits that `build_timeline` renders.
pub record CorrelationMatch (N : Type 0) : Type 0 where
  pub tenant_id : Text
  pub correlation_id : Text
  pub stages_matched : List Text
  pub event_ids : List Text
  pub first_seen : ℤ
  pub last_seen : ℤ
  pub span_seconds : ℕ
  pub timeline : List (StageHit N)

-- `none` or a match, or an exception.
pub data EvaluationResult (N : Type 0) : Type 0 where
  failed : EvaluationResult N
  no_match : EvaluationResult N
  matched : CorrelationMatch N → EvaluationResult N

-- `round(milliseconds / 1000)`: a half goes to the even number.
unfoldable pub round_thousandth : ℕ → ℕ
round_thousandth n =
    let whole = n / 1000 in
    let rest = n % 1000 in
    if ltb rest 500 then whole else if rest == 500 then whole + whole % 2 else whole + 1

-- `list(dict.fromkeys(texts))`: every text once, where it first stands.
unfoldable pub distinct_from : List Text → List Text → List Text
unfolding any
distinct_from seen [] = []
distinct_from seen (t ∷ ts) =
    if any (text_eq t) seen then distinct_from seen ts else t ∷ distinct_from (t ∷ seen) ts

-- The claim before a match is reported, for a time to live in seconds. A rule without suppression,
-- and an engine without a store, report it at once.
unfoldable pub claim_match : ℕ → Text → ℕ → Option Held → Option Held × Bool
unfolding claim
claim_match seconds key now none = (none, true)
claim_match seconds key now (some held) =
    if ltb 0 seconds
    then (let (after, granted) =
          claim (record { key = codes "correlation:" ++ key; ttl = seconds; now = now }) held in
        (some after, granted))
    else (some held, true)

module _ {N : Type 0} where
  unfoldable pub completion : CorrelationRule N → List (StageHit N) → Completion N
  unfolding ordered_completion unordered_completion group_from required_stages
  completion rule hits =
      let groups = group_from [] hits in
      if rule.ordered
      then ordered_completion (required_stages rule) groups
      else unordered_completion (required_stages rule) groups

  unfoldable pub match_of :
      CorrelationRule N
      → Text
      → StageHit N
      → List (StageHit N)
      → List (StageHit N)
      → CorrelationMatch N
  unfolding distinct_from round_thousandth last_hit abs ◌-ℤ◌
  match_of rule tenant_id first hits selected =
      let last : ℤ = elim (last_hit hits) [
        | none ↦ first.occurred_at_ms
        | some h ↦ h.occurred_at_ms
      ] in
      record {
        tenant_id = tenant_id;
        correlation_id = rule.correlation_id;
        stages_matched = map (λ (h : StageHit N). h.stage) selected;
        event_ids = distinct_from [] (map (λ (h : StageHit N). h.event_id) hits);
        first_seen = first.occurred_at_ms;
        last_seen = last;
        span_seconds = round_thousandth (abs (last -ℤ first.occurred_at_ms));
        timeline = hits;
      }

  -- The match of a chain that has hits; `in_window[0]` raises on none.
  unfoldable pub matched_on :
      CorrelationRule N → Text → List (StageHit N) → List (StageHit N) → EvaluationResult N
  unfolding match_of
  matched_on rule tenant_id [] selected = failed
  matched_on rule tenant_id (first ∷ rest) selected =
      matched (match_of rule tenant_id first (first ∷ rest) selected)

  unfoldable pub evaluate :
      (ℕ → Option ℕ)
      → CorrelationRule N
      → Text
      → Text
      → ℕ
      → List (StageHit N)
      → Option Held
      → Option Held × EvaluationResult N
  unfolding completion claim_match matched_on in_window suppression_seconds
  evaluate digit_of rule tenant_id key now [] store = (store, no_match)
  evaluate digit_of rule tenant_id key now (h ∷ hs) store =
      elim (duration_seconds digit_of rule.window) [
        | none ↦ (store, failed)
        | some seconds ↦
            let hits = in_window seconds h hs in
            elim (completion rule hits) [
              | raised ↦ (store, failed)
              | incomplete ↦ (store, no_match)
              | complete selected ↦ elim (suppression_seconds digit_of rule) [
                | none ↦ (store, failed)
                | some quiet ↦
                    let (after, granted) = claim_match quiet key now store in
                    (after, if granted then matched_on rule tenant_id hits selected else no_match)
              ]
            ]
      ]
