-- ===== src/Correlation/Selection.antt =====
-- Hits chosen from a list in order of time, and what `take` chooses:
-- backend/app/correlation/engine.py, `_ordered_completion`.
use lunatic92i.Common.{
  ℕ, zero, suc, ◌≤◌, ◌≡◌, refl, sym, ◌∙◌, subst, inl, inr, some, List, [], ◌∷◌, arith, Bool-cases,
  keep, take, length, All, some_inj,
}
use lunatic92i.Common.Int.{ℤ, ◌≤ℤ◌, leb_ℤ, leb_ℤ→≤ℤ, ≤ℤ→leb_ℤ, ≤ℤ_trans, ≤ℤ_refl}
use lunatic92i.Correlation.Schema.{StageHit}
use lunatic92i.Correlation.Completion.{last_hit, at_or_after}

module _ {N : Type 0} where
  -- `seg` is chosen from the hits: some of them, in their order.
  pub data Chosen : List (StageHit N) → List (StageHit N) → Type 0 where
    none_left : Chosen [] []
    chosen : {x : StageHit N} {s l : List (StageHit N)} → Chosen s l → Chosen (x ∷ s) (x ∷ l)
    passed : {x : StageHit N} {s l : List (StageHit N)} → Chosen s l → Chosen s (x ∷ l)

  abbrev pub From : ℤ → StageHit N → Type 0
  From t h = t ≤ℤ h.occurred_at_ms

  abbrev pub Until : ℤ → StageHit N → Type 0
  Until t h = h.occurred_at_ms ≤ℤ t

  abbrev pub Sorted : List (StageHit N) → Type 0
  Sorted [] = Unit
  Sorted (h ∷ hs) = All (From h.occurred_at_ms) hs × Sorted hs

  pub Chosen-keep :
      (t : ℤ) {s l : List (StageHit N)} → Chosen s l → All (From t) s → Chosen s (at_or_after t l)
  unfolding at_or_after keep
  Chosen-keep t none_left h = none_left
  Chosen-keep t (chosen {x = x} c) h =
      rw (≤ℤ→leb_ℤ t x.occurred_at_ms h.0) (chosen (Chosen-keep t c h.1))
  Chosen-keep t (passed {x = x} c) h = elim (Bool-cases (leb_ℤ t x.occurred_at_ms)) [
    | inl b ↦ rw b (passed (Chosen-keep t c h))
    | inr b ↦ rw b (Chosen-keep t c h)
  ]

  pub Chosen-length : {s l : List (StageHit N)} → Chosen s l → length s ≤ length l
  Chosen-length none_left = omega arith
  Chosen-length (chosen c) = omega (arith, Chosen-length c)
  Chosen-length (passed c) = omega (arith, Chosen-length c)

  pub Chosen-All {κ} :
      (P : StageHit N → Type κ) {s l : List (StageHit N)} → Chosen s l → All P l → All P s
  Chosen-All P none_left h = tt
  Chosen-All P (chosen c) h = (h.0, Chosen-All P c h.1)
  Chosen-All P (passed c) h = Chosen-All P c h.1

  pub keep-All {κ} :
      (P : StageHit N → Type κ) (t : ℤ) (l : List (StageHit N)) → All P l → All P (at_or_after t l)
  unfolding at_or_after keep
  keep-All P t [] h = tt
  keep-All P t (x ∷ l) h = elim (Bool-cases (leb_ℤ t x.occurred_at_ms)) [
    | inl b ↦ rw b (h.0, keep-All P t l h.1)
    | inr b ↦ rw b (keep-All P t l h.1)
  ]

  pub keep-Sorted : (t : ℤ) (l : List (StageHit N)) → Sorted l → Sorted (at_or_after t l)
  unfolding at_or_after keep
  keep-Sorted t [] h = tt
  keep-Sorted t (x ∷ l) h = elim (Bool-cases (leb_ℤ t x.occurred_at_ms)) [
    | inl b ↦ rw b (keep-All (From x.occurred_at_ms) t l h.0, keep-Sorted t l h.1)
    | inr b ↦ rw b (keep-Sorted t l h.1)
  ]

  pub last-cons :
      (x : StageHit N) (k : ℕ) (l : List (StageHit N))
      → 1 ≤ length l
      → last_hit (x ∷ take (suc k) l) ≡ last_hit (take (suc k) l)
  unfolding last_hit
  last-cons x k [] h = absurd (omega arith)
  last-cons x k (y ∷ l) h = refl

  pub first_until :
      (t next : ℤ) (s : List (StageHit N))
      → All (From t) s
      → All (Until next) s
      → 1 ≤ length s
      → t ≤ℤ next
  first_until t next [] f u h = absurd (omega arith)
  first_until t next (x ∷ s) f u h = ≤ℤ_trans t x.occurred_at_ms next f.0 u.0

  -- The last of the first `k` hits is no later than the last of any `k` hits.
  pub last-take :
      (k : ℕ) (next : ℤ) (h : StageHit N) {s l : List (StageHit N)}
      → Chosen s l
      → Sorted l
      → All (Until next) s
      → k ≤ length s
      → last_hit (take k l) ≡ some h
      → h.occurred_at_ms ≤ℤ next
  unfolding last_hit
  last-take zero next h c sorted until le e = absurd (ground arith)
  last-take (suc k) next h none_left sorted until le e = absurd (omega arith)
  last-take (suc zero) next h (chosen {x = x} c) sorted until le e =
      let same : x ≡ h = some_inj e in subst (Until next) same until.0
  last-take (suc zero) next h (passed {x = x} {s = s} c) sorted until le e =
      let same : x ≡ h = some_inj e in
      subst (Until next) same (
        first_until x.occurred_at_ms next s (Chosen-All (From x.occurred_at_ms) c sorted.0) until
          le)
  last-take (suc (suc k)) next h (chosen {x = x} {l = l} c) sorted until le e =
      last-take (suc k) next h c sorted.1 until.1 (omega arith)
        (sym (last-cons x k l (omega (arith, Chosen-length c))) ∙ e)
  last-take (suc (suc k)) next h (passed {x = x} {l = l} c) sorted until le e =
      last-take (suc k) next h c sorted.1 until (omega arith)
        (sym (last-cons x k l (omega (arith, Chosen-length c))) ∙ e)

  pub last-some :
      (k : ℕ) (l : List (StageHit N))
      → 1 ≤ k
      → k ≤ length l
      → (h : StageHit N) × (last_hit (take k l) ≡ some h)
  unfolding last_hit
  last-some zero l p q = absurd (omega arith)
  last-some (suc k) [] p q = absurd (omega arith)
  last-some (suc zero) (x ∷ l) p q = (x, refl)
  last-some (suc (suc k)) (x ∷ l) p q =
      let (h, e) = last-some (suc k) l (omega arith) (omega arith) in
      (h, last-cons x k l (omega arith) ∙ e)

  pub Chosen-take : (k : ℕ) (l : List (StageHit N)) → Chosen (take k l) l
  Chosen-take zero [] = none_left
  Chosen-take zero (x ∷ l) = passed (Chosen-take zero l)
  Chosen-take (suc k) [] = none_left
  Chosen-take (suc k) (x ∷ l) = chosen (Chosen-take k l)

  pub keep-Chosen : (t : ℤ) (l : List (StageHit N)) → Chosen (at_or_after t l) l
  unfolding at_or_after keep
  keep-Chosen t [] = none_left
  keep-Chosen t (x ∷ l) = elim (Bool-cases (leb_ℤ t x.occurred_at_ms)) [
    | inl b ↦ rw b (chosen (keep-Chosen t l))
    | inr b ↦ rw b (passed (keep-Chosen t l))
  ]

  pub Chosen-trans :
      {b c : List (StageHit N)} → Chosen b c → (a : List (StageHit N)) → Chosen a b → Chosen a c
  Chosen-trans none_left a d = d
  Chosen-trans (chosen e) _ (chosen {s = s} d) = chosen (Chosen-trans e s d)
  Chosen-trans (chosen e) a (passed d) = passed (Chosen-trans e a d)
  Chosen-trans (passed e) a d = passed (Chosen-trans e a d)

  pub keep-From : (t : ℤ) (l : List (StageHit N)) → All (From t) (at_or_after t l)
  unfolding at_or_after keep
  keep-From t [] = tt
  keep-From t (x ∷ l) = elim (Bool-cases (leb_ℤ t x.occurred_at_ms)) [
    | inl b ↦ rw b (leb_ℤ→≤ℤ t x.occurred_at_ms b, keep-From t l)
    | inr b ↦ rw b (keep-From t l)
  ]

  pub Chosen-Sorted : {s l : List (StageHit N)} → Chosen s l → Sorted l → Sorted s
  Chosen-Sorted none_left h = tt
  Chosen-Sorted (chosen {x = x} c) h =
      (Chosen-All (From x.occurred_at_ms) c h.0, Chosen-Sorted c h.1)
  Chosen-Sorted (passed c) h = Chosen-Sorted c h.1

  -- The last of a sorted list is the latest.
  pub Until-last :
      (l : List (StageHit N)) (h : StageHit N)
      → Sorted l
      → last_hit l ≡ some h
      → All (Until h.occurred_at_ms) l
  unfolding last_hit
  Until-last [] h sorted e = tt
  Until-last (x ∷ []) h sorted e =
      let same : x ≡ h = some_inj e in
      (subst (λ y. x.occurred_at_ms ≤ℤ y.occurred_at_ms) same (≤ℤ_refl x.occurred_at_ms), tt)
  Until-last (x ∷ y ∷ l) h sorted e =
      let rest = Until-last (y ∷ l) h sorted.1 e in
      (≤ℤ_trans x.occurred_at_ms y.occurred_at_ms h.occurred_at_ms sorted.0.0 rest.0, rest)
