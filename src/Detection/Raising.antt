-- ===== src/Detection/Raising.antt =====
-- When a condition raises: backend/app/detection/conditions.py, `evaluate_condition` and the operators
-- it selects.
use lunatic92i.Common.{
  ◌≡◌, ◌⊎◌, refl, inl, inr, Bool, true, false, Option, none, some, List, [], ◌∷◌, arith, Text, keep,
  Memᴰ, Option-cases, Bool-cases, take,
}
use lunatic92i.Detection.Value.{Value, number, str}
use lunatic92i.Detection.Schema
use lunatic92i.Detection.Schema.{Condition, Operator}
use lunatic92i.Detection.Operators
use lunatic92i.Detection.Operators.{
  Runtime, Search, refused, negate, any_or_raise, as_text, as_number, both_numbers, equal,
  candidates, compare_values, regex_match, in_list, matches_by, matches_value, max_match_length,
}
use lunatic92i.Detection.Conditions.{is_present, is_exists, evaluate_condition}
use lunatic92i.Detection.Paths.{resolve_path}

negate-none : (out : Option Bool) → negate out ≡ none → out ≡ none
unfolding negate
negate-none none e = refl
negate-none (some b) e = absurd (ground arith)

-- The value at which a search through a list raises.
any_or_raise-none :
    {A : Type 0} (test : A → Option Bool) (xs : List A)
    → any_or_raise test xs ≡ none
    → (x : A) × Memᴰ x xs × (test x ≡ none)
unfolding any_or_raise
any_or_raise-none test [] e = absurd (ground arith)
any_or_raise-none test (x ∷ xs) e = elim (Option-cases (test x)) [
  | inl n ↦ (x, Memᴰ.head refl, n)
  | inr (true, y) ↦ let h = rw (y, any_or_raise) at e in absurd (ground arith)
  | inr (false, y) ↦
      let (v, m, n) = any_or_raise-none test xs (rw (y, any_or_raise) at e) in (v, Memᴰ.tail m, n)
]

keep-Memᴰ : {A : Type 0} (p : A → Bool) (xs : List A) (x : A) → Memᴰ x (keep p xs) → Memᴰ x xs
unfolding keep
keep-Memᴰ p [] x m = m
keep-Memᴰ p (y ∷ ys) x m = elim (Bool-cases (p y)) [
  | inr off ↦ Memᴰ.tail (keep-Memᴰ p ys x (rw (off, keep) at m))
  | inl on ↦ elim (rw (on, keep) at m) [
    | Memᴰ.head e ↦ Memᴰ.head e
    | Memᴰ.tail k ↦ Memᴰ.tail (keep-Memᴰ p ys x k)
  ]
]

module _ {N : Type 0} (rt : Runtime N) where
  -- A number that no float holds.
  abbrev pub IsHuge : Value N → Type 0
  IsHuge v = (n : N) × (v ≡ number n) × (rt.to_float n ≡ none)

  -- The expected value, or for `in` one of its elements.
  abbrev pub Expected : Value N → Value N → Type 0
  Expected e expected = (e ≡ expected) ⊎ Memᴰ e (candidates rt expected)

  -- A text whose search `regex` refuses.
  abbrev pub IsRefused : Condition N → Value N → Type 0
  IsRefused c v =
      (c.operator ≡ Schema.matches)
      × (text : Text) × (as_text rt v ≡ some text)
      × (rt.search (rt.value_text c.value) c.case_sensitive (take max_match_length text) ≡ refused)

  as_number-none : (v : Value N) → as_number rt v ≡ none → IsHuge v
  unfolding as_number
  as_number-none (number n) e = elim (Option-cases (rt.to_float n)) [
    | inl h ↦ (n, refl, h)
    | inr (x, h) ↦ let k = rw (h, as_number) at e in absurd (ground arith)
  ]
  as_number-none (str s) e = absurd (ground arith)
  as_number-none Value.null e = absurd (ground arith)
  as_number-none (Value.bool b) e = absurd (ground arith)
  as_number-none (Value.arr xs) e = absurd (ground arith)
  as_number-none (Value.obj fs) e = absurd (ground arith)

  both_numbers-none : (l r : Value N) → both_numbers rt l r ≡ none → IsHuge l ⊎ IsHuge r
  unfolding both_numbers
  both_numbers-none l r e = elim (Option-cases (as_number rt l)) [
    | inl h ↦ inl (as_number-none l h)
    | inr (x, h) ↦ elim (Option-cases (as_number rt r)) [
      | inl k ↦ inr (as_number-none r k)
      | inr (y, k) ↦ absurd (both x y (rw (k, both_numbers) at (rw (h, both_numbers) at e)))
    ]
  ]
    where
      both :
          (x y : Option rt.Float)
          → ¬ (
              ◌≡◌ {A = Option (Option (rt.Float × rt.Float))}
                (elim x [
                  | none ↦ some none
                  | some a ↦ elim y [ none ↦ some none | some b ↦ some (some (a, b)) ]
                ])
                none)
      both none y t = absurd (ground arith)
      both (some a) none t = absurd (ground arith)
      both (some a) (some b) t = absurd (ground arith)

  equal-none : (l r : Value N) (c : Bool) → equal rt l r c ≡ none → IsHuge l ⊎ IsHuge r
  unfolding equal
  equal-none l r c e = elim (Option-cases (both_numbers rt l r)) [
    | inl h ↦ both_numbers-none l r h
    | inr (none, h) ↦ let k = rw (h, equal) at e in absurd (ground arith)
    | inr (some xy, h) ↦ let k = rw (h, equal) at e in absurd (ground arith)
  ]

  compare_values-none :
      (l r : Value N) (op : Operator) → compare_values rt l r op ≡ none → IsHuge l ⊎ IsHuge r
  unfolding compare_values
  compare_values-none l r op e = elim (Option-cases (both_numbers rt l r)) [
    | inl h ↦ both_numbers-none l r h
    | inr (none, h) ↦ let k = rw (h, compare_values) at e in absurd (ground arith)
    | inr (some xy, h) ↦ let k = rw (h, compare_values) at e in absurd (ground arith)
  ]

  regex_match-none :
      (v : Value N) (pattern : Text) (c : Bool)
      → regex_match rt v pattern c ≡ none
      → (text : Text) × (as_text rt v ≡ some text)
        × (rt.search pattern c (take max_match_length text) ≡ refused)
  unfolding regex_match
  regex_match-none v pattern c e = elim (Option-cases (as_text rt v)) [
    | inl h ↦ let k = rw (h, regex_match) at e in absurd (ground arith)
    | inr (text, h) ↦ (
      text,
      h,
      by_search (rt.search pattern c (take max_match_length text)) (rw (h, regex_match) at e),
    )
  ]
    where
      by_search :
          (s : Search)
          → ◌≡◌ {A = Option Bool}
              (elim s [
                | Operators.found ↦ some true
                | Operators.not_found ↦ some false
                | Operators.timed_out ↦ some false
                | Operators.refused ↦ none
              ])
              none
          → s ≡ refused
      by_search Operators.found t = absurd (ground arith)
      by_search Operators.not_found t = absurd (ground arith)
      by_search Operators.timed_out t = absurd (ground arith)
      by_search Operators.refused t = refl

  abbrev pub IsCause : Condition N → Value N → Type 0
  IsCause c v = IsHuge v ⊎ ((e : Value N) × Expected e c.value × IsHuge e) ⊎ IsRefused c v

  by_comparison : (c : Condition N) (v : Value N) → IsHuge v ⊎ IsHuge c.value → IsCause c v
  by_comparison c v (inl h) = inl h
  by_comparison c v (inr h) = inr (inl (c.value, inl refl, h))

  in_list-none :
      (c : Condition N) (v : Value N) → in_list rt v c.value c.case_sensitive ≡ none → IsCause c v
  unfolding in_list
  in_list-none c v e =
      let (x, m, n) =
        any_or_raise-none (λ x. equal rt v x c.case_sensitive) (candidates rt c.value) e in
      elim (equal-none v x c.case_sensitive n) [ inl h ↦ inl h | inr h ↦ inr (inl (x, inr m, h)) ]

  matches_by-none :
      (op : Operator) (c : Condition N) (v : Value N)
      → c.operator ≡ op
      → matches_by rt op v c.value c.case_sensitive ≡ none
      → IsCause c v
  unfolding matches_by
  matches_by-none Schema.equals c v o e =
      by_comparison c v (equal-none v c.value c.case_sensitive e)
  matches_by-none Schema.not_equals c v o e =
      by_comparison c v (
        equal-none v c.value c.case_sensitive (negate-none (equal rt v c.value c.case_sensitive) e))
  matches_by-none Schema.matches c v o e =
      let (text, h, k) = regex_match-none v (rt.value_text c.value) c.case_sensitive e in
      inr (inr (o, text, h, k))
  matches_by-none Schema.is_in c v o e = in_list-none c v e
  matches_by-none Schema.not_in c v o e =
      in_list-none c v (negate-none (in_list rt v c.value c.case_sensitive) e)
  matches_by-none Schema.gt c v o e = by_comparison c v (compare_values-none v c.value Schema.gt e)
  matches_by-none Schema.gte c v o e =
      by_comparison c v (compare_values-none v c.value Schema.gte e)
  matches_by-none Schema.lt c v o e = by_comparison c v (compare_values-none v c.value Schema.lt e)
  matches_by-none Schema.lte c v o e =
      by_comparison c v (compare_values-none v c.value Schema.lte e)
  matches_by-none Schema.contains c v o e = absurd (ground arith)
  matches_by-none Schema.not_contains c v o e = absurd (ground arith)
  matches_by-none Schema.starts_with c v o e = absurd (ground arith)
  matches_by-none Schema.ends_with c v o e = absurd (ground arith)
  matches_by-none Schema.cidr c v o e = absurd (ground arith)
  matches_by-none Schema.exists c v o e = absurd (ground arith)

  -- A condition raises only at a value that its path reaches, and only if that value or a value it is
  -- compared with is a number that no float holds, or if the condition asks for a pattern that `regex`
  -- refuses.
  pub evaluate_condition-raises :
      (c : Condition N) (d : Value N)
      → evaluate_condition rt c d ≡ none
      → (v : Value N) × Memᴰ v (resolve_path d c.field_path) × IsCause c v
  unfolding evaluate_condition matches_value
  evaluate_condition-raises c d e = elim (Bool-cases (is_exists rt c.operator)) [
    | inl x ↦ let h = rw (x, evaluate_condition) at e in absurd (ground arith)
    | inr x ↦
        let h = rw (x, evaluate_condition) at e in
        let values = resolve_path d c.field_path in
        let (v, m, n) = any_or_raise-none (matches_value rt c) (keep (is_present rt) values) h in
        (v, keep-Memᴰ (is_present rt) values v m, matches_by-none c.operator c v refl n)
  ]
