-- ===== src/Correlation/Frames.antt =====
-- Which chains an input may touch: backend/app/correlation/engine.py, `process`.
use lunatic92i.Common.{
  ℕ, ◌≡◌, refl, ◌∙◌, false, Option, some, List, [], ◌∷◌, Text, text_eq, Option-cases, inl, inr, All,
}
use lunatic92i.Detection.Value.{Value, Fields}
use lunatic92i.Detection.Operators.{Runtime}
use lunatic92i.Detection.Schema.{duration_seconds}
use lunatic92i.Detection.Suppression.{Held}
use lunatic92i.Correlation.Schema.{CorrelationRule, CorrelationStage, CorrelationInput, StageHit}
use lunatic92i.Correlation.State.{HitStore, append, default_max_hits, hits_of-put_other}
use lunatic92i.Correlation.Completion.{hits_of}
use lunatic92i.Correlation.Process.{
  entity_of, state_key, stages_hit, hit_of, record_hits, process_rule, process_rules, active,
  process,
}

module _ {N : Type 0} (rt : Runtime N) (repr : Value N → Text) (key : Text) where
  -- The input belongs to no chain of the rule under this key.
  abbrev pub Elsewhere : CorrelationInput N → CorrelationRule N → Type 0
  Elsewhere input rule =
      (entity : Fields N)
      → entity_of rule (Value.obj input.document) ≡ some entity
      → text_eq (state_key rt repr rule input.tenant_id entity) key ≡ false

  record_hits-other :
      (other : Text) (stages : List (CorrelationStage N)) (input : CorrelationInput N)
      (store : HitStore N) (held : List (StageHit N))
      → text_eq other key ≡ false
      → hits_of key (record_hits rt repr other stages input store held).0 ≡ hits_of key store
  unfolding record_hits append
  record_hits-other other [] input store held away = refl
  record_hits-other other (stage ∷ rest) input store held away =
      let (after, now_held) = append default_max_hits other (hit_of rt repr stage input) store in
      record_hits-other other rest input after now_held away
      ∙ hits_of-put_other key other now_held store away

  process_rule-other :
      (rule : CorrelationRule N) (input : CorrelationInput N) (now : ℕ) (store : HitStore N)
      (suppression : Option Held)
      → Elsewhere input rule
      → hits_of key (process_rule rt repr rule input now store suppression).0 ≡ hits_of key store
  unfolding process_rule
  process_rule-other rule input now store suppression away =
      elim (Option-cases (stages_hit rt repr rule.stages input)) [
        | inl e ↦ rw (e, process_rule) refl
        | inr ([], e) ↦ rw (e, process_rule) refl
        | inr (stage ∷ stages, e) ↦
            rw (e, process_rule)
              (elim (Option-cases (entity_of rule (Value.obj input.document))) [
                | inl missing ↦ rw (missing, process_rule) refl
                | inr (entity, given) ↦
                    rw (given, process_rule)
                      (elim (Option-cases (duration_seconds rt.digit_of rule.window)) [
                        | inl invalid ↦ rw (invalid, process_rule) refl
                        | inr (ttl_seconds, valid) ↦
                            rw (valid, process_rule)
                              (record_hits-other (state_key rt repr rule input.tenant_id entity)
                                (stage ∷ stages) input store [] (away entity given))
                      ])
              ])
      ]

  process_rules-other :
      (rules : List (CorrelationRule N)) (input : CorrelationInput N) (now : ℕ) (store : HitStore N)
      (suppression : Option Held)
      → All (Elsewhere input) rules
      → hits_of key (process_rules rt repr rules input now store suppression).0 ≡ hits_of key store
  unfolding process_rules
  process_rules-other [] input now store suppression away = refl
  process_rules-other (rule ∷ rules) input now store suppression away =
      let (store', suppression', result) = process_rule rt repr rule input now store suppression in
      process_rules-other rules input now store' suppression' away.1
      ∙ process_rule-other rule input now store suppression away.0

  -- Processing an input leaves the hits under a key as they were, unless the key is that of the input's
  -- entity for some rule that is not disabled; an input that lacks a field of a rule's entity belongs to
  -- no chain of that rule.
  pub process_frame :
      (rules : List (CorrelationRule N)) (input : CorrelationInput N) (now : ℕ) (store : HitStore N)
      (suppression : Option Held)
      → All (Elsewhere input) (active rules)
      → hits_of key (process rt repr rules input now store suppression).0 ≡ hits_of key store
  unfolding process
  process_frame rules input now store suppression away =
      process_rules-other (active rules) input now store suppression away
