-- ===== src/Detection/Suppression.antt =====
-- Suppression of repeated detections: backend/app/detection/engine.py, `InMemorySuppressionStore`. The
-- reading of the monotonic clock is an argument of a claim.
use lunatic92i.Common.{
  ℕ, ◌+◌, ◌*◌, ◌≤◌, ◌<◌, ◌≡◌, refl, ◌∙◌, ap, Bool, true, false, Option, none, some, List, [], ◌∷◌,
  arith, Text, text_eq, text_eq_refl, text_eq-eq, Bool-cases, inl, inr, if◌then◌else◌, keep, length,
  ltb, All, All-imp, some_inj,
}

abbrev pub nanoseconds_per_second : ℕ
nanoseconds_per_second = 1_000_000_000

-- A call of `claim`: the key, the time to live in seconds, and the clock in nanoseconds.
pub record Claim : Type 0 where
  pub key : Text
  pub ttl : ℕ
  pub now : ℕ

-- `_until`: the time that a key is held until.
abbrev pub Held : Type 0
Held = List (Text × ℕ)

unfoldable pub expiry_of : Text → Held → Option ℕ
expiry_of key [] = none
expiry_of key ((other, expiry) ∷ rest) =
    if text_eq other key then some expiry else expiry_of key rest

unfoldable pub hold : Text → ℕ → Held → Held
hold key expiry [] = (key, expiry) ∷ []
hold key expiry ((other, held) ∷ rest) =
    if text_eq other key then (other, expiry) ∷ rest else (other, held) ∷ hold key expiry rest

-- The opportunistic cleanup.
unfoldable pub clean : ℕ → Held → Held
unfolding keep
clean now held =
    if ltb 10_000 (length held) then keep (λ (entry : Text × ℕ). ltb now entry.1) held else held

unfoldable pub is_held : Claim → Held → Bool
unfolding expiry_of
is_held c held = elim (expiry_of c.key held) [ none ↦ false | some expiry ↦ ltb c.now expiry ]

-- `claim`: the store after it, and whether the caller may fire.
unfoldable pub claim : Claim → Held → Held × Bool
unfolding is_held hold clean
claim c held =
    if is_held c held
    then (held, false)
    else (clean c.now (hold c.key (c.now + c.ttl * nanoseconds_per_second) held), true)

unfoldable pub claim_all : List Claim → Held → Held
unfolding claim
claim_all [] held = held
claim_all (c ∷ more) held = claim_all more (claim c held).0

expiry_of-hold : (key : Text) (t : ℕ) (held : Held) → expiry_of key (hold key t held) ≡ some t
unfolding expiry_of hold
expiry_of-hold key t [] = rw (text_eq_refl key) refl
expiry_of-hold key t ((other, u) ∷ rest) = elim (Bool-cases (text_eq other key)) [
  | inl b ↦ rw (b, expiry_of) (rw b refl)
  | inr b ↦ rw (b, expiry_of) (rw b (expiry_of-hold key t rest))
]

expiry_of-hold_other :
    (key other : Text) (t : ℕ) (held : Held)
    → text_eq other key ≡ false
    → expiry_of key (hold other t held) ≡ expiry_of key held
unfolding expiry_of hold
expiry_of-hold_other key other t [] away = rw away refl
expiry_of-hold_other key other t ((third, u) ∷ rest) away =
    elim (Bool-cases (text_eq third other)) [
      | inl b ↦
          let third_away : text_eq third key ≡ false =
            ap (λ x. text_eq x key) (text_eq-eq third other b) ∙ away in
          rw (b, expiry_of) (rw third_away refl)
      | inr b ↦ elim (Bool-cases (text_eq third key)) [
        | inl c ↦ rw (b, expiry_of) (rw c refl)
        | inr c ↦ rw (b, expiry_of) (rw c (expiry_of-hold_other key other t rest away))
      ]
    ]

expiry_of-keep :
    (key : Text) (t now : ℕ) (held : Held)
    → expiry_of key held ≡ some t
    → now < t
    → expiry_of key (keep (λ (entry : Text × ℕ). ltb now entry.1) held) ≡ some t
unfolding expiry_of keep
expiry_of-keep key t now [] e later = absurd (ground arith)
expiry_of-keep key t now ((other, u) ∷ rest) e later = elim (Bool-cases (text_eq other key)) [
  | inl b ↦
      let u_t : u ≡ t = some_inj (rw b at e) in
      let kept : ltb now u ≡ true = ground arith in rw (kept, expiry_of) (rw b (ap some u_t))
  | inr b ↦ elim (Bool-cases (ltb now u)) [
    | inl k ↦ rw (k, expiry_of) (rw b (expiry_of-keep key t now rest (rw b at e) later))
    | inr k ↦ rw k (expiry_of-keep key t now rest (rw b at e) later)
  ]
]

-- A key that is held stays held under the cleanup.
expiry_of-clean :
    (key : Text) (t now : ℕ) (held : Held)
    → expiry_of key held ≡ some t
    → now < t
    → expiry_of key (clean now held) ≡ some t
unfolding clean
expiry_of-clean key t now held e later = elim (Bool-cases (ltb 10_000 (length held))) [
  | inl b ↦ rw b (expiry_of-keep key t now held e later)
  | inr b ↦ rw b e
]

is_held-expiry :
    (c : Claim) (held : Held) (t : ℕ)
    → expiry_of c.key held ≡ some t
    → c.now < t
    → is_held c held ≡ true
unfolding is_held
is_held-expiry c held t e later = rw (e, is_held) (ground arith)

expiry_of-claim :
    (key : Text) (t : ℕ) (c : Claim) (held : Held)
    → expiry_of key held ≡ some t
    → c.now < t
    → expiry_of key (claim c held).0 ≡ some t
unfolding claim
expiry_of-claim key t c held e later = elim (Bool-cases (is_held c held)) [
  | inl b ↦ rw b e
  | inr b ↦ elim (Bool-cases (text_eq c.key key)) [
    | inl same ↦
        let blocked =
          is_held-expiry c held t (ap (λ k. expiry_of k held) (text_eq-eq c.key key same) ∙ e)
            later in
        absurd (ground arith)
    | inr away ↦ rw b (
        expiry_of-clean key t c.now (hold c.key (c.now + c.ttl * nanoseconds_per_second) held)
          (expiry_of-hold_other key c.key (c.now + c.ttl * nanoseconds_per_second) held away ∙ e)
          later)
  ]
]

expiry_of-claim_all :
    (key : Text) (t : ℕ) (between : List Claim) (held : Held)
    → expiry_of key held ≡ some t
    → All (λ c. c.now < t) between
    → expiry_of key (claim_all between held) ≡ some t
unfolding claim_all
expiry_of-claim_all key t [] held e later = e
expiry_of-claim_all key t (c ∷ more) held e later =
    expiry_of-claim_all key t more (claim c held).0 (expiry_of-claim key t c held e later.0) later.1

-- Once a claim of a key is granted, any later claim of that key before the granted time has passed is
-- refused, whatever claims of any keys are made between, none of them after the refused one, and
-- whatever the cleanup drops. The clock does not run backwards.
pub claim_spaced :
    (held : Held) (first second : Claim) (between : List Claim)
    → (claim first held).1 ≡ true
    → second.key ≡ first.key
    → first.now ≤ second.now
    → second.now < first.now + first.ttl * nanoseconds_per_second
    → All (λ c. c.now ≤ second.now) between
    → (claim second (claim_all between (claim first held).0)).1 ≡ false
unfolding claim
claim_spaced held first second between granted same le lt ordered =
    elim (Bool-cases (is_held first held)) [
      | inl b ↦ absurd (ground arith)
      | inr b ↦
          let t = first.now + first.ttl * nanoseconds_per_second in
          let start : expiry_of first.key (clean first.now (hold first.key t held)) ≡ some t =
            expiry_of-clean first.key t first.now (hold first.key t held)
              (expiry_of-hold first.key t held) (omega arith) in
          let at_end =
            expiry_of-claim_all first.key t between (clean first.now (hold first.key t held)) start
              (All-imp (λ c. c.now ≤ second.now) (λ c. c.now < t) between (λ c h. omega arith)
                ordered) in
          rw b (
            rw
              (is_held-expiry second (claim_all between (clean first.now (hold first.key t held))) t
                (ap (λ k. expiry_of k (claim_all between (clean first.now (hold first.key t held))))
                    same
                  ∙ at_end)
                lt)
              refl)
    ]
