-- ===== src/Common/Rows.antt =====
-- Tables: a table is the list of its rows, in the order of insertion.
use mathlib.Core.Path.{◌≡◌, refl, sym, subst}
use mathlib.Core.Logic.{inl, inr}
use mathlib.Core.Bool.{Bool, true, false}
use mathlib.Core.Option.{Option, none, some}
use mathlib.Core.List.{List, [], ◌∷◌, ◌++◌, Memᴰ}
use native.Mathlib.Omega.{arith}
use lunatic92i.Common.Tests.{if◌then◌else◌, Bool-cases, some_inj}
use lunatic92i.Common.Lists.{All, any}

module _ {ℓ} {A : Type ℓ} where
  -- `SELECT ... WHERE p` where at most one row is expected: the first row that passes.
  unfoldable pub find : (A → Bool) → List A → Option A
  find p [] = none
  find p (x ∷ xs) = if p x then some x else find p xs

  -- `UPDATE ... SET row = f row WHERE p`.
  unfoldable pub update : (A → Bool) → (A → A) → List A → List A
  update p f [] = []
  update p f (x ∷ xs) = (if p x then f x else x) ∷ update p f xs

  pub find-passes : (p : A → Bool) (xs : List A) (a : A) → find p xs ≡ some a → p a ≡ true
  unfolding find
  find-passes p [] a h = ground arith
  find-passes p (x ∷ xs) a h = ground (arith, find-passes p xs a)

  -- A found row has whatever all rows have.
  pub find-All {κ} :
      (P : A → Type κ) (p : A → Bool) (xs : List A) (a : A) → All P xs → find p xs ≡ some a → P a
  unfolding find
  find-All P p [] a h e = absurd (ground arith)
  find-All P p (x ∷ xs) a h e = elim (Bool-cases (p x)) [
    | inl t ↦ subst P (some_inj (rw t at e)) h.0
    | inr t ↦ find-All P p xs a h.1 (rw t at e)
  ]

  pub update-All {κ} :
      (P : A → Type κ) (p : A → Bool) (f : A → A) (xs : List A)
      → ((x : A) → p x ≡ true → P x → P (f x))
      → All P xs
      → All P (update p f xs)
  unfolding update
  update-All P p f [] keep h = tt
  update-All P p f (x ∷ xs) keep h = (head, update-All P p f xs keep h.1)
    where
      head : P (if p x then f x else x)
      head = elim (Bool-cases (p x)) [ inl t ↦ rw t (keep x t h.0) | inr t ↦ rw t h.0 ]

  pub All-append {κ} : (P : A → Type κ) (xs ys : List A) → All P xs → All P ys → All P (xs ++ ys)
  All-append P [] ys h k = k
  All-append P (x ∷ xs) ys h k = (h.0, All-append P xs ys h.1 k)

  pub All-imp {κ μ} :
      (P : A → Type κ) (Q : A → Type μ) (xs : List A) → ((x : A) → P x → Q x) → All P xs → All Q xs
  All-imp P Q [] f h = tt
  All-imp P Q (x ∷ xs) f h = (f x h.0, All-imp P Q xs f h.1)

  -- The rows that pass are replaced, and what is asked of them may change.
  pub update-All_cases {κ μ} :
      (P : A → Type κ) (Q : A → Type μ) (p : A → Bool) (f : A → A) (xs : List A)
      → ((x : A) → p x ≡ true → P x → Q (f x))
      → ((x : A) → p x ≡ false → P x → Q x)
      → All P xs
      → All Q (update p f xs)
  unfolding update
  update-All_cases P Q p f [] hit miss h = tt
  update-All_cases P Q p f (x ∷ xs) hit miss h = (head, update-All_cases P Q p f xs hit miss h.1)
    where
      head : Q (if p x then f x else x)
      head = elim (Bool-cases (p x)) [ inl t ↦ rw t (hit x t h.0) | inr t ↦ rw t (miss x t h.0) ]

  pub any-append :
      (p : A → Bool) (xs ys : List A) → any p (xs ++ ys) ≡ (if any p xs then true else any p ys)
  unfolding any
  any-append p [] ys = refl
  any-append p (x ∷ xs) ys = ground (arith, any-append p xs ys)

  -- No row passes: each row fails.
  pub any-false_All : (p : A → Bool) (xs : List A) → any p xs ≡ false → All (λ x. p x ≡ false) xs
  unfolding any
  any-false_All p [] h = tt
  any-false_All p (x ∷ xs) h = (ground arith, any-false_All p xs (ground arith))

  pub any-update :
      (q p : A → Bool) (f : A → A) (xs : List A)
      → ((x : A) → p x ≡ true → q (f x) ≡ q x)
      → any q (update p f xs) ≡ any q xs
  unfolding any update
  any-update q p f [] same = refl
  any-update q p f (x ∷ xs) same = elim (Bool-cases (p x)) [
    | inl t ↦ rw (t, same x t, any-update q p f xs same)
    | inr t ↦ rw (t, any-update q p f xs same)
  ]

  pub All-both {κ μ} :
      (P : A → Type κ) (Q : A → Type μ) (xs : List A)
      → All P xs
      → All Q xs
      → All (λ x. P x × Q x) xs
  All-both P Q [] h k = tt
  All-both P Q (x ∷ xs) h k = ((h.0, k.0), All-both P Q xs h.1 k.1)

  pub any-snoc_false :
      (p : A → Bool) (xs : List A) (y : A)
      → any p (xs ++ y ∷ []) ≡ false
      → (any p xs ≡ false) × (p y ≡ false)
  any-snoc_false p xs y h = unfold any in ground (arith, any-append p xs (y ∷ []))

  pub All-Mem {κ} : (P : A → Type κ) (xs : List A) (a : A) → All P xs → Memᴰ a xs → P a
  All-Mem P [] a h m = elim m [ ]
  All-Mem P (x ∷ xs) a h (Memᴰ.head e) = subst P (sym e) h.0
  All-Mem P (x ∷ xs) a h (Memᴰ.tail m) = All-Mem P xs a h.1 m

  -- An update makes a test pass where it makes an updated row pass.
  pub any-update_hit :
      (q p : A → Bool) (f : A → A) (xs : List A) (a : A)
      → Memᴰ a xs
      → p a ≡ true
      → q (f a) ≡ true
      → any q (update p f xs) ≡ true
  unfolding any update
  any-update_hit q p f [] a m h k = elim m [ ]
  any-update_hit q p f (x ∷ xs) a (Memᴰ.head e) h k =
      rw (subst (λ y. p y ≡ true) e h, subst (λ y. q (f y) ≡ true) e k)
  any-update_hit q p f (x ∷ xs) a (Memᴰ.tail m) h k =
      ground (arith, any-update_hit q p f xs a m h k)

  pub find-Mem : (p : A → Bool) (xs : List A) (a : A) → find p xs ≡ some a → Memᴰ a xs
  unfolding find
  find-Mem p [] a e = absurd (ground arith)
  find-Mem p (x ∷ xs) a e = elim (Bool-cases (p x)) [
    | inl t ↦ Memᴰ.head (sym (some_inj (rw t at e)))
    | inr t ↦ Memᴰ.tail (find-Mem p xs a (rw t at e))
  ]

  pub any-snoc_true :
      (p : A → Bool) (xs : List A) (y : A) → p y ≡ true → any p (xs ++ y ∷ []) ≡ true
  unfolding any
  any-snoc_true p [] y h = rw h
  any-snoc_true p (x ∷ xs) y h = ground (arith, any-snoc_true p xs y h)

  pub All_of_Mem {κ} : (P : A → Type κ) (xs : List A) → ((x : A) → Memᴰ x xs → P x) → All P xs
  All_of_Mem P [] h = tt
  All_of_Mem P (x ∷ xs) h =
      (h x (Memᴰ.head refl), All_of_Mem P xs (λ y there. h y (Memᴰ.tail there)))
