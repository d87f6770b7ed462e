-- ===== src/Correlation/Completion.antt =====
-- The completion of a chain from the hits in its window: backend/app/correlation/engine.py,
-- `_ordered_completion`, `_unordered_completion` and the first half of `_evaluate`.
use lunatic92i.Common.{
  ℕ, ◌*◌, true, false, Option, none, some, List, [], ◌∷◌, ◌++◌, Text, text_eq, keep, take, length,
  ltb, if◌then◌else◌,
}
use lunatic92i.Common.Int.{ℤ, pos, negsuc, ◌-ℤ◌, leb_ℤ, max_ℤ}
use lunatic92i.Correlation.Schema.{CorrelationStage, StageHit}

-- The result of a completion; `raised` is the `IndexError` of `taken[-1]` on no hits.
pub data Completion (N : Type 0) : Type 0 where
  raised : Completion N
  incomplete : Completion N
  complete : List (StageHit N) → Completion N

module _ {N : Type 0} where
  -- `sorted(hits, key=occurred_at_ms)`: stable, by insertion.
  unfoldable pub insert_hit : StageHit N → List (StageHit N) → List (StageHit N)
  insert_hit h [] = h ∷ []
  insert_hit h (x ∷ xs) =
      if leb_ℤ h.occurred_at_ms x.occurred_at_ms then h ∷ x ∷ xs else x ∷ insert_hit h xs

  unfoldable pub sort_hits : List (StageHit N) → List (StageHit N)
  unfolding insert_hit
  sort_hits [] = []
  sort_hits (h ∷ hs) = insert_hit h (sort_hits hs)

  -- `hits_by_stage.setdefault(hit.stage, []).append(hit)`
  unfoldable pub add_to_stage :
      StageHit N → List (Text × List (StageHit N)) → List (Text × List (StageHit N))
  add_to_stage h [] = (h.stage, h ∷ []) ∷ []
  add_to_stage h ((name, hits) ∷ rest) =
      if text_eq name h.stage
      then (name, hits ++ h ∷ []) ∷ rest
      else (name, hits) ∷ add_to_stage h rest

  unfoldable pub group_from :
      List (Text × List (StageHit N)) → List (StageHit N) → List (Text × List (StageHit N))
  unfolding add_to_stage
  group_from groups [] = groups
  group_from groups (h ∷ hs) = group_from (add_to_stage h groups) hs

  -- `hits_by_stage.get(name, [])`
  unfoldable pub hits_of : Text → List (Text × List (StageHit N)) → List (StageHit N)
  hits_of name [] = []
  hits_of name ((key, hits) ∷ rest) = if text_eq key name then hits else hits_of name rest

  -- `taken[-1]`
  unfoldable pub last_hit : List (StageHit N) → Option (StageHit N)
  last_hit [] = none
  last_hit (h ∷ []) = some h
  last_hit (h ∷ x ∷ xs) = last_hit (x ∷ xs)

  unfoldable pub at_or_after : ℤ → List (StageHit N) → List (StageHit N)
  unfolding keep
  at_or_after cursor hits = keep (λ h. leb_ℤ cursor h.occurred_at_ms) hits

  -- The loop of `_ordered_completion` over the stages left.
  unfoldable pub ordered_from :
      List (CorrelationStage N)
      → List (Text × List (StageHit N))
      → ℤ
      → List (StageHit N)
      → Completion N
  unfolding hits_of last_hit at_or_after
  ordered_from [] groups cursor selected = complete selected
  ordered_from (stage ∷ rest) groups cursor selected =
      let candidates = at_or_after cursor (hits_of stage.name groups) in
      let taken = take stage.min_count candidates in
      elim (ltb (length candidates) stage.min_count) [
        | true ↦ incomplete
        | false ↦ elim (last_hit taken) [
          | none ↦ raised
          | some h ↦ ordered_from rest groups h.occurred_at_ms (selected ++ taken)
        ]
      ]

  unfoldable pub ordered_completion :
      List (CorrelationStage N) → List (Text × List (StageHit N)) → Completion N
  unfolding ordered_from
  ordered_completion stages groups = ordered_from stages groups (negsuc 0) []

  unfoldable pub unordered_from :
      List (CorrelationStage N) → List (Text × List (StageHit N)) → List (StageHit N) → Completion N
  unfolding hits_of
  unordered_from [] groups selected = complete selected
  unordered_from (stage ∷ rest) groups selected =
      let hits = hits_of stage.name groups in
      elim (ltb (length hits) stage.min_count) [
        | true ↦ incomplete
        | false ↦ unordered_from rest groups (selected ++ take stage.min_count hits)
      ]

  unfoldable pub unordered_completion :
      List (CorrelationStage N) → List (Text × List (StageHit N)) → Completion N
  unfolding unordered_from
  unordered_completion stages groups = unordered_from stages groups []

  -- `max(hit.occurred_at_ms for hit in held)`
  unfoldable pub newest_of : StageHit N → List (StageHit N) → ℤ
  unfolding max_ℤ
  newest_of h [] = h.occurred_at_ms
  newest_of h (x ∷ xs) = max_ℤ h.occurred_at_ms (newest_of x xs)

  unfoldable pub in_window : ℕ → StageHit N → List (StageHit N) → List (StageHit N)
  unfolding sort_hits newest_of keep
  in_window window_seconds h hs =
      let window_start = newest_of h hs -ℤ pos (window_seconds * 1000) in
      sort_hits (keep (λ x. leb_ℤ window_start x.occurred_at_ms) (h ∷ hs))
