-- ===== src/Correlation/Membership.antt =====
-- Which hits a window has: backend/app/correlation/engine.py, the first half of `_evaluate`.
use lunatic92i.Common.{
  ℕ, ◌*◌, ◌≡◌, ◌↔◌, sym, ◌∙◌, ap, inl, inr, Bool, true, List, [], ◌∷◌, Memᴰ, Bool-cases, keep, All,
  All-imp,
}
use lunatic92i.Common.Int.{
  ℤ, pos, ◌-ℤ◌, ◌≤ℤ◌, leb_ℤ, max_ℤ, leb_ℤ→≤ℤ, ≤ℤ→leb_ℤ, leb_ℤ-false, ≤ℤ_refl, ≤ℤ_trans,
}
use lunatic92i.Correlation.Schema.{StageHit}
use lunatic92i.Correlation.Completion.{insert_hit, sort_hits, newest_of, in_window}
use lunatic92i.Correlation.Selection.{Sorted, Until}
use lunatic92i.Correlation.Order.{in_window-Sorted}

max_bounds : (a b : ℤ) → (a ≤ℤ max_ℤ a b) × (b ≤ℤ max_ℤ a b)
unfolding max_ℤ
max_bounds a b = elim (Bool-cases (leb_ℤ a b)) [
  | inl c ↦ rw c (leb_ℤ→≤ℤ a b c, ≤ℤ_refl b)
  | inr c ↦ rw c (≤ℤ_refl a, leb_ℤ-false a b c)
]

module _ {A : Type 0} where
  cons-Mem : {a b : List A} (x y : A) → Memᴰ x a ↔ Memᴰ x b → Memᴰ x (y ∷ a) ↔ Memᴰ x (y ∷ b)
  cons-Mem x y (f, g) = (along x y f, along x y g)
    where
      along : {a b : List A} (x y : A) → (Memᴰ x a → Memᴰ x b) → Memᴰ x (y ∷ a) → Memᴰ x (y ∷ b)
      along x y f (Memᴰ.head e) = Memᴰ.head e
      along x y f (Memᴰ.tail m) = Memᴰ.tail (f m)

  swap-Mem : (x y z : A) (l : List A) → Memᴰ x (y ∷ z ∷ l) → Memᴰ x (z ∷ y ∷ l)
  swap-Mem x y z l (Memᴰ.head e) = Memᴰ.tail (Memᴰ.head e)
  swap-Mem x y z l (Memᴰ.tail (Memᴰ.head e)) = Memᴰ.head e
  swap-Mem x y z l (Memᴰ.tail (Memᴰ.tail m)) = Memᴰ.tail (Memᴰ.tail m)

  keep-Mem_of : (p : A → Bool) (x : A) (l : List A) → Memᴰ x (keep p l) → Memᴰ x l × (p x ≡ true)
  unfolding keep
  keep-Mem_of p x [] m = elim m [ ]
  keep-Mem_of p x (y ∷ l) m = elim (Bool-cases (p y)) [
    | inl b ↦ taken b (keep-Mem_of p x l) (rw b at m)
    | inr b ↦ let (in_l, h) = keep-Mem_of p x l (rw b at m) in (Memᴰ.tail in_l, h)
  ]
    where
      taken :
          p y ≡ true
          → (Memᴰ x (keep p l) → Memᴰ x l × (p x ≡ true))
          → Memᴰ x (y ∷ keep p l)
          → Memᴰ x (y ∷ l) × (p x ≡ true)
      taken b rest (Memᴰ.head e) = (Memᴰ.head e, ap p e ∙ b)
      taken b rest (Memᴰ.tail n) = let (in_l, h) = rest n in (Memᴰ.tail in_l, h)

  Mem-keep : (p : A → Bool) (x : A) (l : List A) → Memᴰ x l → p x ≡ true → Memᴰ x (keep p l)
  unfolding keep
  Mem-keep p x [] m h = elim m [ ]
  Mem-keep p x (y ∷ l) (Memᴰ.head e) h = rw (sym (ap p e) ∙ h) (Memᴰ.head e)
  Mem-keep p x (y ∷ l) (Memᴰ.tail m) h = elim (Bool-cases (p y)) [
    | inl b ↦ rw b (Memᴰ.tail (Mem-keep p x l m h))
    | inr b ↦ rw b (Mem-keep p x l m h)
  ]

module _ {N : Type 0} where
  insert-Mem : (x h : StageHit N) (l : List (StageHit N)) → Memᴰ x (insert_hit h l) ↔ Memᴰ x (h ∷ l)
  unfolding insert_hit
  insert-Mem x h [] = (λ m. m, λ m. m)
  insert-Mem x h (y ∷ l) = elim (Bool-cases (leb_ℤ h.occurred_at_ms y.occurred_at_ms)) [
    | inl b ↦ rw b (λ m. m, λ m. m)
    | inr b ↦
        let (forth, back) = cons-Mem x y (insert-Mem x h l) in
        rw b (λ m. swap-Mem x y h l (forth m), λ m. back (swap-Mem x h y l m))
  ]

  sort-Mem : (x : StageHit N) (l : List (StageHit N)) → Memᴰ x (sort_hits l) ↔ Memᴰ x l
  unfolding sort_hits
  sort-Mem x [] = (λ m. m, λ m. m)
  sort-Mem x (h ∷ l) =
      let (forth, back) = cons-Mem x h (sort-Mem x l) in
      let (into, out) = insert-Mem x h (sort_hits l) in (λ m. forth (into m), λ m. out (back m))

  newest-Until : (h : StageHit N) (hs : List (StageHit N)) → All (Until (newest_of h hs)) (h ∷ hs)
  unfolding newest_of
  newest-Until h [] = (≤ℤ_refl h.occurred_at_ms, tt)
  newest-Until h (x ∷ xs) =
      let (left, right) = max_bounds h.occurred_at_ms (newest_of x xs) in
      (
        left,
        All-imp (Until (newest_of x xs)) (Until (max_ℤ h.occurred_at_ms (newest_of x xs))) (x ∷ xs)
            (λ y le.
              ≤ℤ_trans y.occurred_at_ms (newest_of x xs) (max_ℤ h.occurred_at_ms (newest_of x xs))
                le right)
            (newest-Until x xs),
      )

  -- The window has exactly those of the hits held that are no older than its length before the newest,
  -- in order of time; and no hit held is later than the newest.
  pub in_window_iff :
      (seconds : ℕ) (h : StageHit N) (hs : List (StageHit N))
      → ((x : StageHit N)
          → Memᴰ x (in_window seconds h hs)
            ↔ (Memᴰ x (h ∷ hs) × ((newest_of h hs -ℤ pos (seconds * 1000)) ≤ℤ x.occurred_at_ms)))
        × Sorted (in_window seconds h hs)
        × All (Until (newest_of h hs)) (h ∷ hs)
  unfolding in_window
  in_window_iff seconds h hs = (iff, in_window-Sorted seconds h hs, newest-Until h hs)
    where
      start : ℤ
      start = newest_of h hs -ℤ pos (seconds * 1000)

      recent : StageHit N → Bool
      recent y = leb_ℤ start y.occurred_at_ms

      iff :
          (x : StageHit N)
          → Memᴰ x (in_window seconds h hs) ↔ (Memᴰ x (h ∷ hs) × (start ≤ℤ x.occurred_at_ms))
      iff x =
          let sorted = sort-Mem x (keep recent (h ∷ hs)) in
          (
            λ m.
                let (in_l, b) = keep-Mem_of recent x (h ∷ hs) (sorted.0 m) in
                (in_l, leb_ℤ→≤ℤ start x.occurred_at_ms b),
            λ (in_l, le).
                sorted.1 (Mem-keep recent x (h ∷ hs) in_l (≤ℤ→leb_ℤ start x.occurred_at_ms le)),
          )
