-- ===== src/Correlation/Claims.antt =====
-- When a chain that is complete may be reported: backend/app/correlation/engine.py, the claim on the
-- suppression store in `_evaluate`.
use lunatic92i.Common.{
  ℕ, ◌⊎◌, ◌≡◌, ◌↔◌, refl, inl, inr, true, false, Option, none, some, ◌++◌, arith, Text, codes,
  Bool-cases, ltb,
}
use lunatic92i.Detection.Suppression.{Held, Claim, claim, is_held}
use lunatic92i.Correlation.Evaluation.{claim_match}

-- The claim that the match of a chain makes.
abbrev pub chain_claim : ℕ → Text → ℕ → Claim
chain_claim quiet key now = record { key = codes "correlation:" ++ key; ttl = quiet; now = now }

-- There is no store, the rule has no suppression, or nothing holds the key.
abbrev pub MayReport : ℕ → Text → ℕ → Option Held → Type 0
MayReport quiet key now none = Unit
MayReport quiet key now (some held) =
    (quiet ≡ 0) ⊎ (is_held (chain_claim quiet key now) held ≡ false)

pub claim_match_iff :
    (quiet : ℕ) (key : Text) (now : ℕ) (store : Option Held)
    → ((claim_match quiet key now store).1 ≡ true) ↔ MayReport quiet key now store
unfolding claim_match claim
claim_match_iff quiet key now none = (λ _. tt, λ _. refl)
claim_match_iff quiet key now (some held) = elim (Bool-cases (ltb 0 quiet)) [
  | inr never ↦ rw (never, claim_match) (λ _. inl (ground arith), λ _. refl)
  | inl always ↦ elim (Bool-cases (is_held (chain_claim quiet key now) held)) [
    | inl on ↦
        rw (always, claim_match)
          (rw (on, claim_match)
            (
              λ t. absurd (ground arith),
              λ h. elim h [ inl z ↦ absurd (ground arith) | inr t ↦ absurd (ground arith) ],
            ))
    | inr off ↦ rw (always, claim_match) (rw (off, claim_match) (λ _. inr refl, λ _. refl))
  ]
]
