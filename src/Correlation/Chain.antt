-- ===== src/Correlation/Chain.antt =====
-- A chain, described without the search for it, and the search finds one exactly if there is one:
-- backend/app/correlation/engine.py, `_ordered_completion`.
use lunatic92i.Common.{
  ◌≤◌, ◌≡◌, ◌↔◌, refl, ◌∙◌, inl, inr, List, [], ◌∷◌, ◌++◌, append_assoc, append-nil, arith, Text,
  Bool-cases, Option-cases, ltb, take, length, All, All-imp, le→ltb_false, length-take,
}
use lunatic92i.Common.Int.{ℤ, pos, negsuc, ◌≤ℤ◌, ≤ℤ_trans}
use lunatic92i.Correlation.Schema.{CorrelationStage, StageHit}
use lunatic92i.Correlation.Completion.{
  complete, hits_of, last_hit, at_or_after, ordered_from, ordered_completion,
}
use lunatic92i.Correlation.Selection.{
  Chosen, Chosen-keep, Chosen-length, Chosen-All, keep-Sorted, last-take, last-some, Chosen-take,
  keep-Chosen, Chosen-trans, keep-From, Chosen-Sorted, Until-last, From, Until, Sorted,
}

module _ {N : Type 0} where
  -- A chain for the stages from a time on: for each stage in order as many of its hits as it asks for,
  -- none before the latest hit of the stage before it.
  pub data Chain (groups : List (Text × List (StageHit N)))
      : ℤ → List (CorrelationStage N) → List (StageHit N) → Type 0 where
    finished : {t : ℤ} → Chain groups t [] []
    link :
        {t next : ℤ} {stage : CorrelationStage N} {rest : List (CorrelationStage N)}
        {seg more : List (StageHit N)}
        → Chosen seg (hits_of stage.name groups)
        → length seg ≡ stage.min_count
        → All (From t) seg
        → All (Until next) seg
        → Chain groups next rest more
        → Chain groups t (stage ∷ rest) (seg ++ more)

  -- A chain from some time on.
  abbrev pub HasChain : List (Text × List (StageHit N)) → List (CorrelationStage N) → Type 0
  HasChain groups stages = (start : ℤ) × (hits : List (StageHit N)) × Chain groups start stages hits

  -- Lists that every stage asks for at least one hit of.
  abbrev pub Asking : List (CorrelationStage N) → Type 0
  Asking stages = All (λ stage. 1 ≤ stage.min_count) stages

module _ {N : Type 0} (groups : List (Text × List (StageHit N)))
    (sorted : (name : Text) → Sorted (hits_of name groups)) where
  -- Greedy search misses nothing: from a cursor no later than the start of some chain it completes.
  Chain-complete :
      (stages : List (CorrelationStage N)) (cursor t : ℤ) (selected hits : List (StageHit N))
      → Asking stages
      → cursor ≤ℤ t
      → Chain groups t stages hits
      → (found : List (StageHit N)) × (ordered_from stages groups cursor selected ≡ complete found)
  unfolding ordered_from
  Chain-complete [] cursor t selected hits asking le chain = (selected, refl)
  Chain-complete (stage ∷ rest) cursor t selected _ asking le
        (link {next = next} {seg = seg} c len from until more) =
      let candidates = at_or_after cursor (hits_of stage.name groups) in
      let c' : Chosen seg candidates =
        Chosen-keep cursor c
          (All-imp (From t) (From cursor) seg (λ x. ≤ℤ_trans cursor t x.occurred_at_ms le) from) in
      let enough : stage.min_count ≤ length candidates = omega (arith, Chosen-length c') in
      let (h, e) = last-some stage.min_count candidates asking.0 enough in
      let bound =
        last-take stage.min_count next h c'
          (keep-Sorted cursor (hits_of stage.name groups) (sorted stage.name)) until (omega arith)
          e in
      let (found, done) =
        Chain-complete rest h.occurred_at_ms next (selected ++ take stage.min_count candidates) _
          asking.1 bound more in
      (
        found,
        rw (le→ltb_false stage.min_count (length candidates) enough, ordered_from)
            (rw (e, ordered_from) done),
      )

module _ {N : Type 0} (groups : List (Text × List (StageHit N)))
    (sorted : (name : Text) → Sorted (hits_of name groups)) where
  -- What the search selects is a chain.
  Chain-sound :
      (stages : List (CorrelationStage N)) (cursor : ℤ) (selected found : List (StageHit N))
      → ordered_from stages groups cursor selected ≡ complete found
      → (hits : List (StageHit N)) × Chain groups cursor stages hits × (found ≡ selected ++ hits)
  unfolding ordered_from
  Chain-sound [] cursor selected found e = ([], finished, ground (arith, append-nil selected))
  Chain-sound (stage ∷ rest) cursor selected found e =
      elim (Bool-cases (ltb (length candidates) stage.min_count)) [
        | inl few ↦ absurd (ground arith)
        | inr enough ↦ elim (Option-cases (last_hit taken)) [
          | inl l ↦ absurd (ground arith)
          | inr (h, l) ↦
              let (hits, chain, same) =
                Chain-sound rest h.occurred_at_ms (selected ++ taken) found
                  (rw (enough, l, ordered_from) at e) in
              (
                taken ++ hits,
                link
                    (Chosen-trans (keep-Chosen cursor (hits_of stage.name groups)) taken
                      (Chosen-take stage.min_count candidates))
                    (length-take stage.min_count candidates ∙ ground arith)
                    (Chosen-All (From cursor) (Chosen-take stage.min_count candidates)
                      (keep-From cursor (hits_of stage.name groups)))
                    (Until-last taken h
                      (Chosen-Sorted (Chosen-take stage.min_count candidates)
                        (keep-Sorted cursor (hits_of stage.name groups) (sorted stage.name)))
                      l)
                    chain,
                same ∙ append_assoc selected taken hits,
              )
        ]
      ]
    where
      candidates : List (StageHit N)
      candidates = at_or_after cursor (hits_of stage.name groups)

      taken : List (StageHit N)
      taken = take stage.min_count candidates

  -- A chain may be said to start at any time that is no later than its hits.
  Chain-from :
      {t u : ℤ} {stages : List (CorrelationStage N)} {hits : List (StageHit N)}
      → ((name : Text) → All (From u) (hits_of name groups))
      → Chain groups t stages hits
      → Chain groups u stages hits
  Chain-from late finished = finished
  Chain-from {u = u} late (link {stage = stage} c enough from until more) =
      link c enough (Chosen-All (From u) c (late stage.name)) until more

  -- If no hit is earlier than the epoch, the ordered search completes exactly if the hits have a chain:
  -- for every required stage as many hits as it asks for, in order of time. If the search fails, no
  -- choice of hits in order of time exists; and what it selects is such a choice.
  pub ordered_completion_iff :
      (stages : List (CorrelationStage N))
      → ((name : Text) → All (From (pos 0)) (hits_of name groups))
      → Asking stages
      → ((found : List (StageHit N)) × (ordered_completion stages groups ≡ complete found))
        ↔ HasChain groups stages
  unfolding ordered_completion
  ordered_completion_iff stages since asking = (
    λ (found, e).
        let (hits, chain, same) = Chain-sound stages (negsuc 0) [] found e in
        (negsuc 0, hits, chain),
    λ (start, hits, chain).
        Chain-complete groups sorted stages (negsuc 0) (pos 0) [] hits asking (omega arith)
          (Chain-from since chain),
  )
