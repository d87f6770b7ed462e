-- ===== src/Common/Decimal.antt =====
-- Decimal text, as `f"{n}"` and `f"{n:06d}"` print it.
use lunatic92i.Common.{
  ℕ, zero, suc, ◌+◌, ◌-◌, ◌*◌, ◌/◌, ◌%◌, ◌≤◌, ◌<◌, ◌≡◌, refl, ap, ◌∙◌, inl, inr, [], ◌∷◌, ◌++◌,
  arith, Text, ltb, if◌then◌else◌, Bool-cases, length, All, All-append,
}

-- One digit for each unit of fuel; a number below the fuel needs no more.
unfoldable pub decimal_from : ℕ → ℕ → Text
decimal_from zero n = []
decimal_from (suc f) n =
    let front = decimal_from f (n / 10) in
    if ltb n 10 then (48 + n) ∷ [] else front ++ (48 + n % 10) ∷ []

-- `str(n)`
unfoldable pub decimal : ℕ → Text
decimal n = decimal_from (suc n) n

unfoldable pub zeros : ℕ → Text
zeros zero = []
zeros (suc k) = 48 ∷ zeros k

-- `f"{n:0wd}"`
unfoldable pub padded : ℕ → ℕ → Text
padded w n = zeros (w - length (decimal n)) ++ decimal n

-- The number that a text of digits writes, after those read so far.
unfoldable pub value : ℕ → Text → ℕ
value acc [] = acc
value acc (c ∷ cs) = value (acc * 10 + (c - 48)) cs

value-append : (acc : ℕ) (xs ys : Text) → value acc (xs ++ ys) ≡ value (value acc xs) ys
unfolding value
value-append acc [] ys = refl
value-append acc (c ∷ xs) ys = value-append (acc * 10 + (c - 48)) xs ys

value-zeros : (k : ℕ) → value 0 (zeros k) ≡ 0
unfolding value zeros
value-zeros zero = refl
value-zeros (suc k) = value-zeros k

value-decimal_from : (f n : ℕ) → n < f → value 0 (decimal_from f n) ≡ n
unfolding decimal_from value
value-decimal_from zero n h = absurd (omega arith)
value-decimal_from (suc f) n h = elim (Bool-cases (ltb n 10)) [
  | inl t ↦ rw t (omega arith)
  | inr t ↦ rw t (
      value-append 0 (decimal_from f (n / 10)) ((48 + n % 10) ∷ [])
      ∙ ground (arith, value-decimal_from f (n / 10)))
]

-- Reading back a printed number gives the number.
pub value-decimal : (n : ℕ) → value 0 (decimal n) ≡ n
unfolding decimal
value-decimal n = value-decimal_from (suc n) n (omega arith)

pub value-padded : (w n : ℕ) → value 0 (padded w n) ≡ n
unfolding padded
value-padded w n =
    value-append 0 (zeros (w - length (decimal n))) (decimal n)
    ∙ ap (λ v. value v (decimal n)) (value-zeros (w - length (decimal n)))
    ∙ value-decimal n

abbrev pub IsDigit : ℕ → Type 0
IsDigit c = (48 ≤ c) × (c ≤ 57)

decimal_from-IsDigit : (f n : ℕ) → All IsDigit (decimal_from f n)
unfolding decimal_from
decimal_from-IsDigit zero n = tt
decimal_from-IsDigit (suc f) n = elim (Bool-cases (ltb n 10)) [
  | inl t ↦ rw t ((omega arith, ground arith), tt)
  | inr t ↦ rw t (
      All-append IsDigit (decimal_from f (n / 10)) _ (decimal_from-IsDigit f (n / 10))
        ((omega arith, omega arith), tt))
]

pub decimal-IsDigit : (n : ℕ) → All IsDigit (decimal n)
unfolding decimal
decimal-IsDigit n = decimal_from-IsDigit (suc n) n

-- Two texts of digits, each ended by the same other character, are equal if the wholes are.
pub digits_end :
    (c : ℕ) (xs ys r s : Text)
    → c < 48
    → All IsDigit xs
    → All IsDigit ys
    → xs ++ c ∷ r ≡ ys ++ c ∷ s
    → (xs ≡ ys) × (r ≡ s)
digits_end c [] [] r s h dx dy e = (refl, cc)
digits_end c [] (y ∷ ys) r s h dx dy e = absurd (ground arith)
digits_end c (x ∷ xs) [] r s h dx dy e = absurd (ground arith)
digits_end c (x ∷ xs) (y ∷ ys) r s h dx dy e =
    let (p, q) = digits_end c xs ys r s h dx.1 dy.1 (cc) in (cc, q)
