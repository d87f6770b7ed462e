-- ===== src/Common/Keys.antt =====
-- Tables with a primary key.
use lunatic92i.Common.{
  ℕ, ◌+◌, ◌≡◌, refl, sym, ◌∙◌, ap, inl, inr, Bool, true, false, some, List, [], ◌∷◌, ◌++◌, arith,
  ◌==◌, ==_refl, ==_comm, ==_iff, if◌then◌else◌, Bool-cases, some_inj, true_false, any, find,
  update, find-All, any-false_All, any-update, any-append, All-Mem, Memᴰ,
}

module _ {ℓ} {A : Type ℓ} (key : A → ℕ) where
  abbrev pub has_key : ℕ → A → Bool
  has_key k x = key x == k

  -- No two rows have one key.
  abbrev pub Distinct : List A → Type 0
  Distinct [] = Unit
  Distinct (x ∷ xs) = (any (has_key (key x)) xs ≡ false) × Distinct xs

  -- A row that a query found is the row of its key.
  pub find-has_key :
      (p : A → Bool) (xs : List A) (a : A)
      → Distinct xs
      → find p xs ≡ some a
      → find (has_key (key a)) xs ≡ some a
  unfolding find
  find-has_key p [] a d e = absurd (ground arith)
  find-has_key p (x ∷ xs) a d e = elim (Bool-cases (p x)) [
    | inl t ↦
        let same : x ≡ a = some_inj (rw t at e) in rw (ap key same, ==_refl (key a)) (ap some same)
    | inr t ↦
        let found : find p xs ≡ some a = rw t at e in
        let other =
          find-All (λ y. has_key (key x) y ≡ false) p xs a (any-false_All _ xs d.0) found in
        rw (==_comm (key x) (key a), other) (find-has_key p xs a d.1 found)
  ]

  pub update-Distinct :
      (p : A → Bool) (f : A → A) (xs : List A)
      → ((x : A) → p x ≡ true → key (f x) ≡ key x)
      → Distinct xs
      → Distinct (update p f xs)
  unfolding update
  update-Distinct p f [] same d = tt
  update-Distinct p f (x ∷ xs) same d = (head, update-Distinct p f xs same d.1)
    where
      kept : (i : ℕ) → any (has_key i) (update p f xs) ≡ any (has_key i) xs
      kept i = any-update (has_key i) p f xs (λ y t. ap (λ n. n == i) (same y t))

      head : any (has_key (key (if p x then f x else x))) (update p f xs) ≡ false
      head = elim (Bool-cases (p x)) [
        | inl t ↦ rw (t, same x t) (kept (key x) ∙ d.0)
        | inr t ↦ rw t (kept (key x) ∙ d.0)
      ]

  pub snoc-Distinct :
      (xs : List A) (y : A)
      → any (has_key (key y)) xs ≡ false
      → Distinct xs
      → Distinct (xs ++ y ∷ [])
  unfolding any
  snoc-Distinct [] y fresh d = (refl, tt)
  snoc-Distinct (x ∷ xs) y fresh d = elim (Bool-cases (key x == key y)) [
    | inl t ↦ true_false t (ground arith)
    | inr t ↦ (
      ground (arith, any-append (has_key (key x)) xs (y ∷ []), ==_comm (key x) (key y), d.0),
      snoc-Distinct xs y (ground arith) d.1,
    )
  ]

  -- The row of a key after an update of one key.
  pub find-update :
      (j i : ℕ) (f : A → A) (xs : List A) (b : A)
      → ((x : A) → has_key i x ≡ true → key (f x) ≡ key x)
      → find (has_key j) xs ≡ some b
      → find (has_key j) (update (has_key i) f xs) ≡ some (if j == i then f b else b)
  unfolding find update
  find-update j i f [] b same e = absurd (ground arith)
  find-update j i f (x ∷ xs) b same e = elim (Bool-cases (key x == j)) [
    | inl here ↦
        let at_x : x ≡ b = some_inj (rw here at e) in
        let at_j : key x ≡ j = (==_iff (key x) j).0 here in
        elim (Bool-cases (key x == i)) [
          | inl hit ↦
              let hit_j : (j == i) ≡ true = sym (ap (λ n. n == i) at_j) ∙ hit in
              rw (hit, same x hit, here, hit_j) (ap (λ y. some (f y)) at_x)
          | inr miss ↦
              let miss_j : (j == i) ≡ false = sym (ap (λ n. n == i) at_j) ∙ miss in
              rw (miss, here, miss_j) (ap some at_x)
        ]
    | inr there ↦
        let rest = find-update j i f xs b same (rw there at e) in
        elim (Bool-cases (key x == i)) [
          | inl hit ↦ rw (hit, same x hit, there) rest
          | inr miss ↦ rw (miss, there) rest
        ]
  ]

  pub find-append :
      (p : A → Bool) (xs ys : List A) (a : A) → find p xs ≡ some a → find p (xs ++ ys) ≡ some a
  unfolding find
  find-append p [] ys a e = absurd (ground arith)
  find-append p (x ∷ xs) ys a e = ground (arith, find-append p xs ys a)

  -- A found row is there.
  pub find-any :
      (p q : A → Bool) (xs : List A) (a : A) → find p xs ≡ some a → q a ≡ true → any q xs ≡ true
  unfolding find any
  find-any p q [] a e h = absurd (ground arith)
  find-any p q (x ∷ xs) a e h = elim (Bool-cases (p x)) [
    | inl t ↦ let at_x : x ≡ a = some_inj (rw t at e) in rw (ap q at_x, h)
    | inr t ↦ ground (arith, find-any p q xs a (rw t at e) h)
  ]

  -- The sum of a column.
  unfoldable pub total : (A → ℕ) → List A → ℕ
  total g [] = 0
  total g (x ∷ xs) = g x + total g xs

  pub total-append : (g : A → ℕ) (xs ys : List A) → total g (xs ++ ys) ≡ total g xs + total g ys
  unfolding total
  total-append g [] ys = omega arith
  total-append g (x ∷ xs) ys = omega (arith, total-append g xs ys)

  total-update_absent :
      (g : A → ℕ) (k : ℕ) (f : A → A) (xs : List A)
      → any (has_key k) xs ≡ false
      → total g (update (has_key k) f xs) ≡ total g xs
  unfolding total update any
  total-update_absent g k f [] away = refl
  total-update_absent g k f (x ∷ xs) away = ground (arith, total-update_absent g k f xs)

  -- An update of one row changes the sum by what it changes of that row.
  pub total-update :
      (g : A → ℕ) (k : ℕ) (f : A → A) (xs : List A) (a : A)
      → Distinct xs
      → find (has_key k) xs ≡ some a
      → total g (update (has_key k) f xs) + g a ≡ total g xs + g (f a)
  unfolding total update find
  total-update g k f [] a d e = absurd (ground arith)
  total-update g k f (x ∷ xs) a d e = elim (Bool-cases (key x == k)) [
    | inl t ↦
        let at_x : x ≡ a = some_inj (rw t at e) in
        let away : any (has_key k) xs ≡ false =
          ap (λ n. any (has_key n) xs) (sym ((==_iff (key x) k).0 t)) ∙ d.0 in
        rw t (omega (arith, ap g at_x, ap (λ y. g (f y)) at_x, total-update_absent g k f xs away))
    | inr t ↦ rw t (omega (arith, total-update g k f xs a d.1 (rw t at e)))
  ]

  pub Mem-find_key :
      (xs : List A) (a : A) → Distinct xs → Memᴰ a xs → find (has_key (key a)) xs ≡ some a
  unfolding find
  Mem-find_key [] a d m = elim m [ ]
  Mem-find_key (x ∷ xs) a d (Memᴰ.head e) = rw (ap key (sym e), ==_refl (key a)) (ap some (sym e))
  Mem-find_key (x ∷ xs) a d (Memᴰ.tail m) =
      let other = All-Mem (λ y. has_key (key x) y ≡ false) xs a (any-false_All _ xs d.0) m in
      rw (==_comm (key x) (key a), other) (Mem-find_key xs a d.1 m)

  update-absent : (p : A → Bool) (f : A → A) (xs : List A) → any p xs ≡ false → update p f xs ≡ xs
  unfolding any update
  update-absent p f [] h = refl
  update-absent p f (x ∷ xs) h = elim (Bool-cases (p x)) [
    | inl t ↦ absurd (ground arith)
    | inr t ↦ rw (t, update-absent p f xs (ground arith)) refl
  ]

  -- Writing the row of a key back keeps a test of the table that does not tell the two rows apart.
  pub any-update_row :
      (q : A → Bool) (xs : List A) (a b : A)
      → Distinct xs
      → find (has_key (key a)) xs ≡ some a
      → q b ≡ q a
      → any q (update (has_key (key a)) (λ _. b) xs) ≡ any q xs
  unfolding find update any
  any-update_row q [] a b d e same = absurd (ground arith)
  any-update_row q (x ∷ xs) a b d e same = elim (Bool-cases (key x == key a)) [
    | inl t ↦
        let at_x : x ≡ a = some_inj (rw t at e) in
        let away : any (has_key (key a)) xs ≡ false =
          ap (λ n. any (has_key n) xs) (sym ((==_iff (key x) (key a)).0 t)) ∙ d.0 in
        rw (t, same, update-absent (has_key (key a)) (λ _. b) xs away)
          (ap (λ y. if q y then true else any q xs) (sym at_x))
    | inr t ↦ rw (t, any-update_row q xs a b d.1 (rw t at e) same)
  ]

  -- A test that some row passes still has such a row if the row written back passes whenever the old one did.
  pub any-update_grows :
      (q : A → Bool) (xs : List A) (a b : A)
      → Distinct xs
      → find (has_key (key a)) xs ≡ some a
      → (q a ≡ true → q b ≡ true)
      → any q xs ≡ true
      → any q (update (has_key (key a)) (λ _. b) xs) ≡ true
  unfolding find update any
  any-update_grows q [] a b d e keep h = absurd (ground arith)
  any-update_grows q (x ∷ xs) a b d e keep h = elim (Bool-cases (key x == key a)) [
    | inl t ↦
        let at_x : x ≡ a = some_inj (rw t at e) in
        let away : any (has_key (key a)) xs ≡ false =
          ap (λ n. any (has_key n) xs) (sym ((==_iff (key x) (key a)).0 t)) ∙ d.0 in
        rw (t, update-absent (has_key (key a)) (λ _. b) xs away)
          (elim (Bool-cases (q x)) [
            | inl old ↦ rw (keep (ap q (sym at_x) ∙ old)) refl
            | inr new ↦ elim (Bool-cases (q b)) [ inl c ↦ rw c refl | inr c ↦ rw c (rw new at h) ]
          ])
    | inr t ↦ elim (Bool-cases (q x)) [
      | inl old ↦ rw (t, old) refl
      | inr new ↦ rw (t, new) (any-update_grows q xs a b d.1 (rw t at e) keep (rw new at h))
    ]
  ]

-- A test that some row passes still has such a row if the rows written pass whenever the old ones did.
pub any-update_keeps {ℓ} :
    {A : Type ℓ} (q p : A → Bool) (f : A → A) (xs : List A)
    → ((x : A) → q x ≡ true → q (f x) ≡ true)
    → any q xs ≡ true
    → any q (update p f xs) ≡ true
unfolding any update
any-update_keeps q p f [] keep h = absurd (ground arith)
any-update_keeps q p f (x ∷ xs) keep h = elim (Bool-cases (q x)) [
  | inl old ↦ elim (Bool-cases (p x)) [
    | inl t ↦ rw t (rw (keep x old) refl)
    | inr t ↦ rw t (rw old refl)
  ]
  | inr new ↦
      let rest = any-update_keeps q p f xs keep (rw new at h) in
      elim (Bool-cases (q (if p x then f x else x))) [ inl c ↦ rw c refl | inr c ↦ rw c rest ]
]

pub any-imp {ℓ} :
    {A : Type ℓ} (p q : A → Bool) (xs : List A)
    → ((x : A) → p x ≡ true → q x ≡ true)
    → any p xs ≡ true
    → any q xs ≡ true
unfolding any
any-imp p q [] imp h = absurd (ground arith)
any-imp p q (x ∷ xs) imp h = elim (Bool-cases (p x)) [
  | inl t ↦ rw (imp x t) refl
  | inr t ↦ elim (Bool-cases (q x)) [
    | inl u ↦ rw u refl
    | inr u ↦ rw u (any-imp p q xs imp (rw t at h))
  ]
]
