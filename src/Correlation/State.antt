-- ===== src/Correlation/State.antt =====
-- The hits held for a chain: backend/app/correlation/state.py, `InMemoryCorrelationStateStore`.
use lunatic92i.Common.{
  ℕ, zero, suc, ◌+◌, ◌-◌, ◌≤◌, ◌≡◌, refl, sym, ◌∙◌, ap, subst, false, List, [], ◌∷◌, ◌++◌, arith,
  Text, text_eq, text_eq_refl, text_eq-eq, Bool-cases, inl, inr, if◌then◌else◌, length, drop,
  last_n, length-append, length-drop, length-last_n,
}
use lunatic92i.Correlation.Schema.{StageHit}
use lunatic92i.Correlation.Completion.{hits_of}

-- `DEFAULT_MAX_HITS`
abbrev pub default_max_hits : ℕ
default_max_hits = 500

-- `_hits`, in the order the keys were first used.
abbrev pub HitStore : Type 0 → Type 0
HitStore N = List (Text × List (StageHit N))

-- A call of the store: `append` or `clear`.
pub data StoreCall (N : Type 0) : Type 0 where
  append_call : Text → StageHit N → StoreCall N
  clear_call : Text → StoreCall N

module _ {N : Type 0} where
  unfoldable pub put : Text → List (StageHit N) → HitStore N → HitStore N
  put key hits [] = (key, hits) ∷ []
  put key hits ((other, held) ∷ rest) =
      if text_eq other key then (other, hits) ∷ rest else (other, held) ∷ put key hits rest

  unfoldable pub append : ℕ → Text → StageHit N → HitStore N → HitStore N × List (StageHit N)
  unfolding put hits_of
  append max_hits key h store =
      let held = last_n max_hits (hits_of key store ++ h ∷ []) in (put key held store, held)

  unfoldable pub read : Text → HitStore N → List (StageHit N)
  unfolding hits_of
  read key store = hits_of key store

  unfoldable pub clear : Text → HitStore N → HitStore N
  clear key [] = []
  clear key ((other, held) ∷ rest) =
      if text_eq other key then clear key rest else (other, held) ∷ clear key rest

  unfoldable pub call_store : ℕ → StoreCall N → HitStore N → HitStore N
  unfolding append clear
  call_store max_hits (append_call key h) store = (append max_hits key h store).0
  call_store max_hits (clear_call key) store = clear key store

  unfoldable pub call_all : ℕ → List (StoreCall N) → HitStore N → HitStore N
  unfolding call_store
  call_all max_hits [] store = store
  call_all max_hits (call ∷ more) store = call_all max_hits more (call_store max_hits call store)

  -- All that was appended to a key since it was last cleared, untrimmed.
  unfoldable pub appended : Text → List (StageHit N) → List (StoreCall N) → List (StageHit N)
  appended key past [] = past
  appended key past (append_call other h ∷ more) =
      appended key (if text_eq other key then past ++ h ∷ [] else past) more
  appended key past (clear_call other ∷ more) =
      appended key (if text_eq other key then [] else past) more

  hits_of-put :
      (key : Text) (hits : List (StageHit N)) (store : HitStore N)
      → hits_of key (put key hits store) ≡ hits
  unfolding hits_of put
  hits_of-put key hits [] = rw (text_eq_refl key) refl
  hits_of-put key hits ((other, held) ∷ rest) = elim (Bool-cases (text_eq other key)) [
    | inl b ↦ rw (b, hits_of) (rw b refl)
    | inr b ↦ rw (b, hits_of) (rw b (hits_of-put key hits rest))
  ]

  pub hits_of-put_other :
      (key other : Text) (hits : List (StageHit N)) (store : HitStore N)
      → text_eq other key ≡ false
      → hits_of key (put other hits store) ≡ hits_of key store
  unfolding hits_of put
  hits_of-put_other key other hits [] away = rw away refl
  hits_of-put_other key other hits ((third, held) ∷ rest) away =
      elim (Bool-cases (text_eq third other)) [
        | inl b ↦
            let third_away : text_eq third key ≡ false =
              ap (λ t. text_eq t key) (text_eq-eq third other b) ∙ away in
            rw (b, hits_of) (rw third_away refl)
        | inr b ↦ elim (Bool-cases (text_eq third key)) [
          | inl c ↦ rw (b, hits_of) (rw c refl)
          | inr c ↦ rw (b, hits_of) (rw c (hits_of-put_other key other hits rest away))
        ]
      ]

  drop_nil : (k : ℕ) → drop {A = StageHit N} k [] ≡ []
  drop_nil zero = refl
  drop_nil (suc k) = refl

  drop-drop : (a b : ℕ) (xs : List (StageHit N)) → drop a (drop b xs) ≡ drop (b + a) xs
  drop-drop a zero xs = let e : a ≡ 0 + a = omega arith in ap (λ k. drop k xs) e
  drop-drop a (suc b) [] = drop_nil a ∙ sym (drop_nil (suc b + a))
  drop-drop a (suc b) (x ∷ xs) =
      let e : suc (b + a) ≡ suc b + a = omega arith in
      drop-drop a b xs ∙ ap (λ k. drop k (x ∷ xs)) e

  drop-append :
      (b : ℕ) (xs ys : List (StageHit N)) → b ≤ length xs → drop b xs ++ ys ≡ drop b (xs ++ ys)
  drop-append zero xs ys le = refl
  drop-append (suc b) [] ys le = absurd (omega arith)
  drop-append (suc b) (x ∷ xs) ys le = drop-append b xs ys (omega arith)

  -- Trimming before an append changes nothing of what is left after it.
  last_n-append :
      (n : ℕ) (xs : List (StageHit N)) (h : StageHit N)
      → last_n n (last_n n xs ++ h ∷ []) ≡ last_n n (xs ++ h ∷ [])
  last_n-append n xs h =
      let kept = length xs - n in
      let joined : drop kept xs ++ h ∷ [] ≡ drop kept (xs ++ h ∷ []) =
        drop-append kept xs (h ∷ []) (omega arith) in
      let count : kept + (length (drop kept xs ++ h ∷ []) - n) ≡ length (xs ++ h ∷ []) - n = omega (
        arith,
        length-append (drop kept xs) (h ∷ []),
        length-append xs (h ∷ []),
        length-drop kept xs,
      ) in
      ap (λ l. drop (length (drop kept xs ++ h ∷ []) - n) l) joined
      ∙ drop-drop (length (drop kept xs ++ h ∷ []) - n) kept (xs ++ h ∷ [])
      ∙ ap (λ k. drop k (xs ++ h ∷ [])) count

  hits_of-clear : (key : Text) (store : HitStore N) → hits_of key (clear key store) ≡ []
  unfolding hits_of clear
  hits_of-clear key [] = refl
  hits_of-clear key ((other, held) ∷ rest) = elim (Bool-cases (text_eq other key)) [
    | inl b ↦ rw b (hits_of-clear key rest)
    | inr b ↦ rw (b, hits_of) (rw b (hits_of-clear key rest))
  ]

  hits_of-clear_other :
      (key other : Text) (store : HitStore N)
      → text_eq other key ≡ false
      → hits_of key (clear other store) ≡ hits_of key store
  unfolding hits_of clear
  hits_of-clear_other key other [] away = refl
  hits_of-clear_other key other ((third, held) ∷ rest) away =
      elim (Bool-cases (text_eq third other)) [
        | inl b ↦
            let third_away : text_eq third key ≡ false =
              ap (λ t. text_eq t key) (text_eq-eq third other b) ∙ away in
            rw (b, third_away) (hits_of-clear_other key other rest away)
        | inr b ↦ elim (Bool-cases (text_eq third key)) [
          | inl c ↦ rw (b, hits_of) (rw c refl)
          | inr c ↦ rw (b, hits_of) (rw c (hits_of-clear_other key other rest away))
        ]
      ]

  call_all-appended :
      (max_hits : ℕ) (key : Text) (past : List (StageHit N)) (calls : List (StoreCall N))
      (store : HitStore N)
      → hits_of key store ≡ last_n max_hits past
      → hits_of key (call_all max_hits calls store) ≡ last_n max_hits (appended key past calls)
  unfolding call_all call_store append clear appended
  call_all-appended n key past [] store held = held
  call_all-appended n key past (append_call other h ∷ more) store held =
      elim (Bool-cases (text_eq other key)) [
        | inl b ↦
            let same = text_eq-eq other key b in
            rw (b, same)
              (call_all-appended n key (past ++ h ∷ []) more (append n key h store).0 (
                hits_of-put key (last_n n (hits_of key store ++ h ∷ [])) store
                ∙ ap (λ l. last_n n (l ++ h ∷ [])) held
                ∙ last_n-append n past h))
        | inr b ↦ rw b (
            call_all-appended n key past more (append n other h store).0 (
              hits_of-put_other key other (last_n n (hits_of other store ++ h ∷ [])) store b
              ∙ held))
      ]
  call_all-appended n key past (clear_call other ∷ more) store held =
      elim (Bool-cases (text_eq other key)) [
        | inl b ↦
            let same = text_eq-eq other key b in
            rw (b, same)
              (call_all-appended n key [] more (clear key store)
                (hits_of-clear key store ∙ sym (drop_nil (0 - n))))
        | inr b ↦ rw b (
            call_all-appended n key past more (clear other store)
              (hits_of-clear_other key other store b ∙ held))
      ]

  -- After any calls of an empty store, with any keys mixed, a key holds exactly the newest `max_hits`
  -- of the hits that were appended to it since it was last cleared, oldest first, and never more.
  pub read_lem :
      (max_hits : ℕ) (calls : List (StoreCall N)) (key : Text)
      → (read key (call_all max_hits calls []) ≡ last_n max_hits (appended key [] calls))
        × (length (read key (call_all max_hits calls [])) ≤ max_hits)
  unfolding read hits_of
  read_lem n calls key =
      let same = call_all-appended n key [] calls [] (sym (drop_nil (0 - n))) in
      (same, subst (λ l. length l ≤ n) (sym same) (length-last_n n (appended key [] calls)))
