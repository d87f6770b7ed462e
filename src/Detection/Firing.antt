-- ===== src/Detection/Firing.antt =====
-- When a rule fires: backend/app/detection/engine.py, `StreamingEngine._evaluate_one` and `evaluate`.
use lunatic92i.Common.{
  ℕ, ◌≡◌, ◌⊎◌, ◌↔◌, refl, ap, Bool, inl, inr, true, false, Option, none, some, List, [], ◌∷◌, ◌++◌,
  arith, Text, ltb, Option-cases, Bool-cases, true_false, All,
}
use lunatic92i.Common.Int.{ℤ}
use lunatic92i.Detection.Value.{Value}
use lunatic92i.Detection.Schema.{ConditionNode, DetectionRule, RuleException, suppression_seconds}
use lunatic92i.Detection.Operators.{Runtime}
use lunatic92i.Detection.Conditions.{evaluate_node}
use lunatic92i.Detection.Evaluation.{IsWellFormed, Holds, Raises, evaluate_node-Holds}
use lunatic92i.Detection.Suppression.{Held, Claim, claim, is_held}
use lunatic92i.Detection.Engine.{
  RuleMatch, RuleResult, Instant, broken, fired, entity_key, suppression_key, exception_is_active,
  matching_exception, claim_and_build, collect, evaluate_one, evaluate_rules,
}

module _ {N : Type 0} (rt : Runtime N) (repr : Value N → Text) (parse_time : Text → Option ℤ) where
  -- An exception that is in force and whose conditions hold.
  abbrev pub Covers : Value N → ℤ → RuleException N → Type 0
  Covers document wall exception =
      (exception_is_active rt repr parse_time exception wall ≡ true)
      × Holds rt exception.conditions document

  abbrev pub claim_of : DetectionRule N → Value N → Text → Instant → ℕ → Claim
  claim_of rule document tenant_id instant seconds = record {
    key = suppression_key rt repr parse_time rule tenant_id (entity_key rule document);
    ttl = seconds;
    now = instant.monotonic;
  }

  -- No exception in force has conditions that raise.
  abbrev pub IsCalm : Value N → ℤ → RuleException N → Type 0
  IsCalm document wall exception =
      exception_is_active rt repr parse_time exception wall ≡ true
      → ¬ (Raises rt exception.conditions document)

  -- A tree that the schema accepts and that does not raise has a Boolean.
  settled :
      (x : ConditionNode N) (document : Value N)
      → IsWellFormed x
      → ¬ (Raises rt x document)
      → (b : Bool) × (evaluate_node rt x document ≡ some b) × ((b ≡ true) ↔ Holds rt x document)
  settled x document formed calm = elim (evaluate_node-Holds rt x document formed) [
    | inl h ↦ h
    | inr (e, raises) ↦ absurd (calm raises)
  ]

  -- If no exception in force raises, none covers the document exactly if the search for one ends with
  -- none.
  matching_exception-none :
      (exceptions : List (RuleException N)) (document : Value N) (wall : ℤ)
      → All (λ ex. IsWellFormed ex.conditions) exceptions
      → All (IsCalm document wall) exceptions
      → (matching_exception rt repr parse_time exceptions document wall ≡ some none)
        ↔ All (λ ex. ¬ (Covers document wall ex)) exceptions
  unfolding matching_exception
  matching_exception-none [] document wall formed calm = (λ _. tt, λ _. refl)
  matching_exception-none (ex ∷ rest) document wall formed calm =
      let (forth, back) = matching_exception-none rest document wall formed.1 calm.1 in
      elim (Bool-cases (exception_is_active rt repr parse_time ex wall)) [
        | inr off ↦
            rw (off, matching_exception) (λ t. (λ c. true_false c.0 refl, forth t), λ h. back h.1)
        | inl on ↦
            let (b, e, iff) = settled ex.conditions document formed.0 (calm.0 on) in
            rw (on, matching_exception)
              (rw (e, matching_exception)
                (elim (Bool-cases b) [
                  | inl yes_b ↦
                      rw yes_b (λ t. absurd (ground arith), λ h. absurd (h.0 (refl, iff.0 yes_b)))
                  | inr no_b ↦
                      rw no_b (λ t. (λ c. true_false (iff.1 c.1) no_b, forth t), λ h. back h.1)
                ]))
      ]

  claim_and_build_iff :
      (seconds : ℕ) (rule : DetectionRule N) (document : Value N) (tenant_id event_id : Text)
      (instant : Instant) (held : Held)
      → ((found : RuleMatch N) × ((claim_and_build rt repr parse_time seconds rule document
              tenant_id event_id instant held).1
            ≡ fired found))
        ↔ ((seconds ≡ 0)
            ⊎ (is_held (claim_of rule document tenant_id instant seconds) held ≡ false))
  unfolding claim_and_build claim
  claim_and_build_iff seconds rule document tenant_id event_id instant held =
      let c = claim_of rule document tenant_id instant seconds in
      elim (Bool-cases (ltb 0 seconds)) [
        | inr never ↦ rw (never, claim_and_build) (λ _. inl (ground arith), λ _. (_, refl))
        | inl always ↦ elim (Bool-cases (is_held c held)) [
          | inl on ↦
              rw (always, claim_and_build)
                (rw (on, claim_and_build)
                  (
                    λ (m, t). absurd (ground arith),
                    λ h. elim h [ inl z ↦ absurd (ground arith) | inr t ↦ absurd (ground arith) ],
                  ))
          | inr off ↦
              rw (always, claim_and_build)
                (rw (off, claim_and_build) (λ _. inr refl, λ _. (_, refl)))
        ]
      ]

  -- A rule whose conditions and exceptions the schema accepts, and whose suppression is valid, fires on
  -- a document on which neither its conditions nor those of its exceptions in force raise exactly if its
  -- conditions hold, no exception in force covers the document, and its suppression is off or nothing
  -- holds its key for the entity at that time.
  pub evaluate_one_iff :
      (rule : DetectionRule N) (document : Value N) (tenant_id event_id : Text) (instant : Instant)
      (held : Held) (seconds : ℕ)
      → IsWellFormed rule.conditions
      → All (λ ex. IsWellFormed ex.conditions) rule.exceptions
      → suppression_seconds rt.digit_of rule ≡ some seconds
      → ¬ (Raises rt rule.conditions document)
      → All (IsCalm document instant.wall) rule.exceptions
      → ((found : RuleMatch N) × ((evaluate_one rt repr parse_time rule document tenant_id event_id
              instant held).1
            ≡ fired found))
        ↔ (Holds rt rule.conditions document
            × All (λ ex. ¬ (Covers document instant.wall ex)) rule.exceptions
            × ((seconds ≡ 0)
                ⊎ (is_held (claim_of rule document tenant_id instant seconds) held ≡ false)))
  unfolding evaluate_one claim_and_build claim
  evaluate_one_iff rule document tenant_id event_id instant held seconds formed formed_ex valid calm
        calm_ex =
      let (b, e, iff) = settled rule.conditions document formed calm in
      let none_iff =
        matching_exception-none rule.exceptions document instant.wall formed_ex calm_ex in
      let at_claim = claim_and_build_iff seconds rule document tenant_id event_id instant held in
      let found = matching_exception rt repr parse_time rule.exceptions document instant.wall in
      rw (e, evaluate_one)
        (elim (Bool-cases b) [
          | inr no_b ↦
              rw no_b (λ (m, t). absurd (ground arith), λ h. absurd (true_false (iff.1 h.0) no_b))
          | inl yes_b ↦ rw yes_b (elim (Option-cases found) [
            | inl raises ↦
                rw (raises, evaluate_one)
                  (λ (m, t). absurd (ground arith), λ h. absurd (ground (arith, none_iff.1 h.1)))
            | inr (some ex, covered) ↦
                rw (covered, evaluate_one)
                  (λ (m, t). absurd (ground arith), λ h. absurd (ground (arith, none_iff.1 h.1)))
            | inr (none, clear) ↦
                rw (clear, evaluate_one)
                  (rw (valid, evaluate_one)
                    (λ t. (iff.0 yes_b, none_iff.0 clear, at_claim.0 t), λ h. at_claim.1 h.2))
          ])
        ])

  claim_and_build-works :
      (seconds : ℕ) (rule : DetectionRule N) (document : Value N) (tenant_id event_id : Text)
      (instant : Instant) (held : Held)
      → ¬ (
          (claim_and_build rt repr parse_time seconds rule document tenant_id event_id instant
            held).1
          ≡ broken)
  unfolding claim_and_build
  claim_and_build-works seconds rule document tenant_id event_id instant held e =
      absurd (ground arith)

  -- A rule that raises does so before it claims anything.
  evaluate_one-broken :
      (rule : DetectionRule N) (document : Value N) (tenant_id event_id : Text) (instant : Instant)
      (some_held held : Held)
      → (evaluate_one rt repr parse_time rule document tenant_id event_id instant some_held).1
        ≡ broken
      → evaluate_one rt repr parse_time rule document tenant_id event_id instant held
        ≡ (held, broken)
  unfolding evaluate_one
  evaluate_one-broken rule document tenant_id event_id instant some_held held raises =
      elim (Option-cases (evaluate_node rt rule.conditions document)) [
        | inl e ↦ rw (e, evaluate_one) refl
        | inr (false, e) ↦ let h = rw (e, evaluate_one) at raises in absurd (ground arith)
        | inr (true, e) ↦
            let h = rw (e, evaluate_one) at raises in
            let covering =
              matching_exception rt repr parse_time rule.exceptions document instant.wall in
            elim (Option-cases covering) [
              | inl c ↦ rw (e, evaluate_one) (rw (c, evaluate_one) refl)
              | inr (some ex, c) ↦ let k = rw (c, evaluate_one) at h in absurd (ground arith)
              | inr (none, c) ↦
                  let k = rw (c, evaluate_one) at h in
                  elim (Option-cases (suppression_seconds rt.digit_of rule)) [
                    | inl z ↦
                        rw (e, evaluate_one) (rw (c, evaluate_one) (rw (z, evaluate_one) refl))
                    | inr (seconds, z) ↦ absurd (
                        claim_and_build-works seconds rule document tenant_id event_id instant
                          some_held (rw (z, evaluate_one) at k))
                  ]
            ]
      ]

  -- A rule that raises on the document at some contents of the suppression store changes nothing at any
  -- other: the other rules find the same matches, in the same order, and leave the same keys held, as
  -- they do without it.
  pub evaluate_rules-broken :
      (before after : List (DetectionRule N)) (rule : DetectionRule N) (document : Value N)
      (tenant_id event_id : Text) (clock : DetectionRule N → Instant) (some_held held : Held)
      → (evaluate_one rt repr parse_time rule document tenant_id event_id (clock rule) some_held).1
        ≡ broken
      → evaluate_rules rt repr parse_time
          (before ++ rule ∷ after)
          document
          tenant_id
          event_id
          clock
          held
        ≡ evaluate_rules rt repr parse_time (before ++ after) document tenant_id event_id clock held
  unfolding evaluate_rules collect
  evaluate_rules-broken [] after rule document tenant_id event_id clock some_held held raises =
      ap
        (λ (step : Held × RuleResult N).
          let (last, found) =
            evaluate_rules rt repr parse_time after document tenant_id event_id clock step.0 in
          (last, collect step.1 found))
        (evaluate_one-broken rule document tenant_id event_id (clock rule) some_held held raises)
  evaluate_rules-broken (first ∷ before) after rule document tenant_id event_id clock some_held held
        raises =
      let (next, result) =
        evaluate_one rt repr parse_time first document tenant_id event_id (clock first) held in
      ap (λ (tail : Held × List (RuleMatch N)). (tail.0, collect result tail.1))
        (evaluate_rules-broken before after rule document tenant_id event_id clock some_held next
          raises)
