-- ===== src/Sequences/Laws.antt =====
-- The counters give each number once, without gaps, and a display id tells its year and number.
use lunatic92i.Common.{
  ℕ, ◌+◌, ◌≡◌, refl, sym, ◌∙◌, ap, inl, inr, true, false, ◌&&◌, some, List, [], ◌∷◌, ◌++◌, arith,
  Text, ◌==◌, ==_refl, if◌then◌else◌, Bool-cases, any, find, update, any-append,
}
use lunatic92i.Common.Decimal.{
  decimal, padded, value, value-decimal, value-padded, decimal-IsDigit, digits_end,
}
use lunatic92i.Sequences.{Sequence, is_sequence, ensure_sequence, bump, next_number, numbered}

-- The last number that a counter gave; 0 for a counter that is not there yet.
unfoldable pub issued : ℕ → ℕ → List Sequence → ℕ
issued tenant year [] = 0
issued tenant year (row ∷ rows) =
    if is_sequence tenant year row then row.last_number else issued tenant year rows

-- A fresh counter stands at 0, as an absent one does.
issued-snoc_zero :
    (t y t' y' : ℕ) (rows : List Sequence)
    → issued t' y' (rows ++ record { tenant_id = t; year = y; last_number = 0 } ∷ [])
      ≡ issued t' y' rows
unfolding issued
issued-snoc_zero t y t' y' [] = ground arith
issued-snoc_zero t y t' y' (row ∷ rows) = ground (arith, issued-snoc_zero t y t' y' rows)

issued-ensure :
    (t y t' y' : ℕ) (rows : List Sequence)
    → issued t' y' (ensure_sequence t y rows) ≡ issued t' y' rows
unfolding ensure_sequence
issued-ensure t y t' y' rows = ground (arith, issued-snoc_zero t y t' y' rows)

ensured : (t y : ℕ) (rows : List Sequence) → any (is_sequence t y) (ensure_sequence t y rows) ≡ true
unfolding ensure_sequence is_sequence
ensured t y rows = elim (Bool-cases (any (is_sequence t y) rows)) [
  | inl here ↦ rw here here
  | inr absent ↦
      rw absent
        (any-append (is_sequence t y) rows _ ∙ rw absent (unfold any in rw (==_refl t, ==_refl y)))
]

find-issued :
    (t y : ℕ) (rows : List Sequence)
    → any (is_sequence t y) rows ≡ true
    → (row : Sequence) × (find (is_sequence t y) rows ≡ some row)
      × (row.last_number ≡ issued t y rows)
unfolding any find issued
find-issued t y [] h = absurd (ground arith)
find-issued t y (x ∷ rows) h = elim (Bool-cases (is_sequence t y x)) [
  | inl here ↦ (x, rw here, rw here)
  | inr there ↦
      let (row, e, n) = find-issued t y rows (rw there at h) in (row, rw there e, rw there n)
]

issued-bump_self :
    (t y : ℕ) (rows : List Sequence)
    → any (is_sequence t y) rows ≡ true
    → issued t y (update (is_sequence t y) bump rows) ≡ issued t y rows + 1
unfolding any update issued bump is_sequence
issued-bump_self t y [] h = absurd (ground arith)
issued-bump_self t y (x ∷ rows) h = ground (arith, issued-bump_self t y rows)

issued-bump_other :
    (t y t' y' : ℕ) (rows : List Sequence)
    → ((t' == t) && (y' == y)) ≡ false
    → issued t' y' (update (is_sequence t y) bump rows) ≡ issued t' y' rows
unfolding update issued bump is_sequence
issued-bump_other t y t' y' [] h = refl
issued-bump_other t y t' y' (x ∷ rows) h = ground (arith, issued-bump_other t y t' y' rows h)

-- A call always gives the number after the last one of its tenant and year, and moves no other
-- counter.
pub next_number_lem :
    (t y : ℕ) (rows : List Sequence)
    → (after : List Sequence) × (next_number t y rows ≡ some (issued t y rows + 1, after))
      × (issued t y after ≡ issued t y rows + 1)
      × ((t' y' : ℕ) → ((t' == t) && (y' == y)) ≡ false → issued t' y' after ≡ issued t' y' rows)
unfolding next_number
next_number_lem t y rows =
    let (row, e, n) = find-issued t y (ensure_sequence t y rows) (ensured t y rows) in
    (
      update (is_sequence t y) bump (ensure_sequence t y rows),
      rw (e, next_number)
          (ap (λ k. some (k + 1, update (is_sequence t y) bump (ensure_sequence t y rows)))
            (n ∙ issued-ensure t y t y rows)),
      issued-bump_self t y (ensure_sequence t y rows) (ensured t y rows)
          ∙ ap (λ k. k + 1) (issued-ensure t y t y rows),
      λ t' y' other.
          issued-bump_other t y t' y' (ensure_sequence t y rows) other
          ∙ issued-ensure t y t' y' rows,
    )

pub append_cancel {ℓ} : {A : Type ℓ} (p xs ys : List A) → p ++ xs ≡ p ++ ys → xs ≡ ys
append_cancel [] xs ys e = e
append_cancel (x ∷ p) xs ys e = append_cancel p xs ys (cc)

-- Two display ids with one prefix are equal only if their years and their numbers are.
pub numbered-injective :
    (prefix : Text) (y n y' n' : ℕ)
    → numbered prefix y n ≡ numbered prefix y' n'
    → (y ≡ y') × (n ≡ n')
unfolding numbered
numbered-injective prefix y n y' n' e =
    let (years, numbers) =
      digits_end 45 (decimal y) (decimal y') (padded 6 n) (padded 6 n') (omega arith)
        (decimal-IsDigit y) (decimal-IsDigit y') (append_cancel prefix _ _ e) in
    (
      sym (value-decimal y) ∙ ap (value 0) years ∙ value-decimal y',
      sym (value-padded 6 n) ∙ ap (value 0) numbers ∙ value-padded 6 n',
    )
