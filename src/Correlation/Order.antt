-- ===== src/Correlation/Order.antt =====
-- The hits of a window, in order and by stage: backend/app/correlation/engine.py,
-- the first half of `_evaluate`.
use lunatic92i.Common.{
  ℕ, ◌*◌, ◌≡◌, refl, sym, ◌∙◌, ap, subst, inl, inr, Bool, true, false, List, [], ◌∷◌, ◌++◌,
  append_assoc, append-nil, arith, Text, text_eq, text_eq_refl, text_eq-eq, Bool-cases, keep, All,
  All-imp,
}
use lunatic92i.Common.Int.{ℤ, pos, ◌-ℤ◌, leb_ℤ, leb_ℤ→≤ℤ, leb_ℤ-false, ≤ℤ_trans}
use lunatic92i.Correlation.Schema.{StageHit}
use lunatic92i.Correlation.Completion.{
  insert_hit, sort_hits, add_to_stage, group_from, hits_of, newest_of, in_window,
}
use lunatic92i.Correlation.Selection.{
  Chosen, none_left, chosen, passed, From, Sorted, Chosen-Sorted,
}

text_eq-away : (a b c : Text) → text_eq a b ≡ false → text_eq a c ≡ true → text_eq b c ≡ false
text_eq-away a b c away same = elim (Bool-cases (text_eq b c)) [
  | inr apart ↦ apart
  | inl together ↦
      let joined : text_eq a b ≡ text_eq a a =
        ap (λ t. text_eq a t) (text_eq-eq b c together ∙ sym (text_eq-eq a c same)) in
      absurd (ground (arith, text_eq_refl a))
]

module _ {N : Type 0} where
  -- The hits of a stage, in order.
  abbrev pub of_stage : Text → List (StageHit N) → List (StageHit N)
  of_stage name hits = keep (λ h. text_eq h.stage name) hits

  of_stage-cons :
      (name : Text) (h : StageHit N) (hits : List (StageHit N))
      → of_stage name (h ∷ []) ++ of_stage name hits ≡ of_stage name (h ∷ hits)
  unfolding keep
  of_stage-cons name h hits = elim (Bool-cases (text_eq h.stage name)) [
    | inl b ↦ rw b refl
    | inr b ↦ rw b refl
  ]

  hits_of-add :
      (name : Text) (h : StageHit N) (groups : List (Text × List (StageHit N)))
      → hits_of name (add_to_stage h groups) ≡ hits_of name groups ++ of_stage name (h ∷ [])
  unfolding hits_of add_to_stage keep
  hits_of-add name h [] = elim (Bool-cases (text_eq h.stage name)) [
    | inl b ↦ rw b refl
    | inr b ↦ rw b refl
  ]
  hits_of-add name h ((key, hits) ∷ rest) = elim (Bool-cases (text_eq key h.stage)) [
    | inl b ↦ elim (Bool-cases (text_eq key name)) [
      | inl c ↦
          let same : text_eq h.stage name ≡ true =
            ap (λ t. text_eq t name) (sym (text_eq-eq key h.stage b)) ∙ c in
          rw (b, hits_of) (rw (c, same) refl)
      | inr c ↦
          let away : text_eq h.stage name ≡ false =
            ap (λ t. text_eq t name) (sym (text_eq-eq key h.stage b)) ∙ c in
          rw (b, hits_of) (rw (c, away) (sym (append-nil (hits_of name rest))))
    ]
    | inr b ↦ elim (Bool-cases (text_eq key name)) [
      | inl c ↦
          let away : text_eq h.stage name ≡ false = text_eq-away key h.stage name b c in
          rw (b, hits_of) (rw (c, away) (sym (append-nil hits)))
      | inr c ↦ rw (b, hits_of) (rw c (hits_of-add name h rest))
    ]
  ]

  pub hits_of-group :
      (name : Text) (groups : List (Text × List (StageHit N))) (hits : List (StageHit N))
      → hits_of name (group_from groups hits) ≡ hits_of name groups ++ of_stage name hits
  unfolding group_from keep
  hits_of-group name groups [] = sym (append-nil (hits_of name groups))
  hits_of-group name groups (h ∷ hits) =
      hits_of-group name (add_to_stage h groups) hits
      ∙ ap (λ l. l ++ of_stage name hits) (hits_of-add name h groups)
      ∙ append_assoc (hits_of name groups) (of_stage name (h ∷ [])) (of_stage name hits)
      ∙ ap (λ l. hits_of name groups ++ l) (of_stage-cons name h hits)

  keep-Chosen : (p : StageHit N → Bool) (l : List (StageHit N)) → Chosen (keep p l) l
  unfolding keep
  keep-Chosen p [] = none_left
  keep-Chosen p (x ∷ l) = elim (Bool-cases (p x)) [
    | inl b ↦ rw b (chosen (keep-Chosen p l))
    | inr b ↦ rw b (passed (keep-Chosen p l))
  ]

  pub stage-Chosen : (name : Text) (hits : List (StageHit N)) → Chosen (of_stage name hits) hits
  stage-Chosen name hits = keep-Chosen (λ h. text_eq h.stage name) hits

  insert-From :
      (t : ℤ) (h : StageHit N) (l : List (StageHit N))
      → From t h
      → All (From t) l
      → All (From t) (insert_hit h l)
  unfolding insert_hit
  insert-From t h [] at_h at_l = (at_h, tt)
  insert-From t h (x ∷ l) at_h at_l = elim (Bool-cases (leb_ℤ h.occurred_at_ms x.occurred_at_ms)) [
    | inl b ↦ rw b (at_h, at_l)
    | inr b ↦ rw b (at_l.0, insert-From t h l at_h at_l.1)
  ]

  insert-Sorted : (h : StageHit N) (l : List (StageHit N)) → Sorted l → Sorted (insert_hit h l)
  unfolding insert_hit
  insert-Sorted h [] sorted = (tt, tt)
  insert-Sorted h (x ∷ l) sorted = elim (Bool-cases (leb_ℤ h.occurred_at_ms x.occurred_at_ms)) [
    | inl b ↦
        let le = leb_ℤ→≤ℤ h.occurred_at_ms x.occurred_at_ms b in
        rw b (
          (
            le,
            All-imp (From x.occurred_at_ms) (From h.occurred_at_ms) l
                (λ y. ≤ℤ_trans h.occurred_at_ms x.occurred_at_ms y.occurred_at_ms le) sorted.0,
          ),
          sorted,
        )
    | inr b ↦ rw b (
      insert-From x.occurred_at_ms h l (leb_ℤ-false h.occurred_at_ms x.occurred_at_ms b) sorted.0,
      insert-Sorted h l sorted.1,
    )
  ]

  sort-Sorted : (hits : List (StageHit N)) → Sorted (sort_hits hits)
  unfolding sort_hits
  sort-Sorted [] = tt
  sort-Sorted (h ∷ hs) = insert-Sorted h (sort_hits hs) (sort-Sorted hs)

  pub group-Sorted :
      (hits : List (StageHit N))
      → Sorted hits
      → (name : Text) → Sorted (hits_of name (group_from [] hits))
  unfolding hits_of
  group-Sorted hits sorted name =
      subst Sorted (sym (hits_of-group name [] hits))
        (Chosen-Sorted (keep-Chosen (λ h. text_eq h.stage name) hits) sorted)

  pub in_window-Sorted :
      (seconds : ℕ) (h : StageHit N) (hs : List (StageHit N)) → Sorted (in_window seconds h hs)
  unfolding in_window
  in_window-Sorted seconds h hs =
      sort-Sorted
        (keep (λ x. leb_ℤ (newest_of h hs -ℤ pos (seconds * 1000)) x.occurred_at_ms) (h ∷ hs))
