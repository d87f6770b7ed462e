-- ===== src/Alerts/Numbering.antt =====
-- Display ids are unique within a tenant: backend/app/services/alerts.py, `next_display_id`.
use lunatic92i.Common.{
  ℕ, ◌≤◌, ◌≡◌, ◌≢◌, refl, sym, ◌∙◌, ap, subst, inl, inr, true, ◌&&◌, some, List, [], ◌∷◌, ◌++◌,
  arith, codes, ◌==◌, ==_iff, if◌then◌else◌, Bool-cases, All, All-append, All-imp, update,
  All_of_Mem, some_inj, and_true, find,
}
use lunatic92i.Common.Keys.{Distinct, find-has_key, Mem-find_key}
use lunatic92i.Alerts.Identity.{alert_key}
use lunatic92i.Alerts.Counting.{Reach-Distinct}
use lunatic92i.Sequences.{Sequence}
use lunatic92i.Sequences.Laws.{issued, next_number_lem, numbered-injective}
use lunatic92i.Alerts.Model.{Alert, AlertInput}
use lunatic92i.Alerts.Dedup.{
  AlertDb, Moment, has_id, fold_into, new_alert, insert_alert, display_text,
}
use lunatic92i.Alerts.Lifecycle.{move, apply_move, apply_assign, get_alert, is_alert}
use lunatic92i.Alerts.Run.{Op, apply, Reach, start, step}
use lunatic92i.Alerts.Effect.{
  Effect, refused, not_assigned, not_noted, folded, inserted, moved, assigned, noted, apply-Effect,
  number_for,
}

-- The id was given by the counter of the alert's tenant.
abbrev pub IsNumbered : List Sequence → Alert → Type 0
IsNumbered rows a =
    (year : ℕ) × (number : ℕ) × (a.display_id ≡ display_text year number)
    × (number ≤ issued a.tenant_id year rows)

-- Two rows of one tenant have different display ids.
abbrev pub Differ : Alert → Alert → Type 0
Differ a b = a.tenant_id ≡ b.tenant_id → a.display_id ≢ b.display_id

abbrev pub UniqueIds : List Alert → Type 0
UniqueIds [] = Unit
UniqueIds (x ∷ xs) = All (Differ x) xs × UniqueIds xs

pub record IsNumberedDb (db : AlertDb) : Type 0 where
  pub numbered : All (IsNumbered db.sequences) db.alerts
  pub unique : UniqueIds db.alerts

abbrev Same : Alert → Alert → Type 0
Same a b = (b.tenant_id ≡ a.tenant_id) × (b.display_id ≡ a.display_id)

Differ-Same : (a a' b b' : Alert) → Same a a' → Same b b' → Differ a b → Differ a' b'
Differ-Same a a' b b' s t h e e' = h (sym s.0 ∙ e ∙ t.0) (sym s.1 ∙ e' ∙ t.1)

module _ (i : ℕ) (f : Alert → Alert) where
  -- The write of row `i` keeps tenant and display id.
  abbrev Kept : Alert → Type 0
  Kept x = has_id i x ≡ true → Same x (f x)

  abbrev written : Alert → Alert
  written x = if has_id i x then f x else x

  Kept-row : (x : Alert) → Kept x → Same x (written x)
  Kept-row x k = elim (Bool-cases (has_id i x)) [ inl t ↦ rw t (k t) | inr t ↦ rw t (refl, refl) ]

  update-Differ :
      (a a' : Alert) (xs : List Alert)
      → Same a a'
      → All Kept xs
      → All (Differ a) xs
      → All (Differ a') (update (has_id i) f xs)
  unfolding update
  update-Differ a a' [] s k h = tt
  update-Differ a a' (x ∷ xs) s k h =
      (Differ-Same a a' x (written x) s (Kept-row x k.0) h.0, update-Differ a a' xs s k.1 h.1)

  update-UniqueIds :
      (xs : List Alert) → All Kept xs → UniqueIds xs → UniqueIds (update (has_id i) f xs)
  unfolding update
  update-UniqueIds [] k u = tt
  update-UniqueIds (x ∷ xs) k u =
      (update-Differ x (written x) xs (Kept-row x k.0) k.1 u.0, update-UniqueIds xs k.1 u.1)

  update-IsNumbered :
      (rows : List Sequence) (xs : List Alert)
      → All Kept xs
      → All (IsNumbered rows) xs
      → All (IsNumbered rows) (update (has_id i) f xs)
  unfolding update
  update-IsNumbered rows [] k h = tt
  update-IsNumbered rows (x ∷ xs) k h =
      (head (written x) (Kept-row x k.0) h.0, update-IsNumbered rows xs k.1 h.1)
    where
      head : (y : Alert) → Same x y → IsNumbered rows x → IsNumbered rows y
      head y s (year, number, e, n) =
          (year, number, s.1 ∙ e, subst (λ t. number ≤ issued t year rows) (sym s.0) n)

snoc-UniqueIds :
    (xs : List Alert) (y : Alert)
    → All (λ x. Differ x y) xs
    → UniqueIds xs
    → UniqueIds (xs ++ y ∷ [])
snoc-UniqueIds [] y h u = (tt, tt)
snoc-UniqueIds (x ∷ xs) y h u =
    (All-append (Differ x) xs (y ∷ []) u.0 (h.0, tt), snoc-UniqueIds xs y h.1 u.1)

-- A row written over the found row with its tenant and display id keeps those of the row it replaces.
found-Kept :
    (db : AlertDb) (tenant i : ℕ) (alert alert' : Alert)
    → Distinct alert_key db.alerts
    → get_alert db tenant i ≡ some alert
    → Same alert alert'
    → All (Kept alert.id (λ _. alert')) db.alerts
unfolding get_alert
found-Kept db tenant i alert alert' d found s =
    All_of_Mem (Kept alert.id (λ _. alert')) db.alerts (λ x there t.
      subst (λ y. Same y alert')
        (some_inj (
          sym (find-has_key alert_key (is_alert tenant i) db.alerts alert d found)
          ∙ ap (λ n. find (has_id n) db.alerts) (sym ((==_iff x.id alert.id).0 t))
          ∙ Mem-find_key alert_key db.alerts x d there))
        s)

issued_grows :
    (t y t' y' : ℕ) (rows : List Sequence)
    → issued t' y' rows ≤ issued t' y' (next_number_lem t y rows).0
issued_grows t y t' y' rows =
    let (after, e, self, other) = next_number_lem t y rows in
    elim (Bool-cases ((t' == t) && (y' == y))) [
      | inr o ↦ omega (arith, other t' y' o)
      | inl s ↦
          let same_tenant = (==_iff t' t).0 (and_true (t' == t) (y' == y) s).0 in
          let same_year = (==_iff y' y).0 (and_true (t' == t) (y' == y) s).1 in
          rw (same_tenant, same_year) (omega (arith, self))
    ]

-- A numbered row of the tenant differs from the one that gets the next number.
Differ-next :
    (db : AlertDb) (payload : AlertInput) (m : Moment) (x y : Alert)
    → y.tenant_id ≡ payload.tenant_id
    → y.display_id ≡ display_text m.year (number_for db payload m)
    → IsNumbered db.sequences x
    → Differ x y
Differ-next db payload m x y t s (year, number, e, n) tenants ids =
    let (years, numbers) =
      numbered-injective (codes "ALT-") year number m.year (number_for db payload m)
        (unfold display_text in sym e ∙ ids ∙ s) in
    absurd (
      omega (
        arith,
        n,
        numbers,
        ap (λ k. issued k year db.sequences) (tenants ∙ t),
        ap (λ k. issued payload.tenant_id k db.sequences) years,
      ))

Effect-IsNumberedDb :
    (db db' : AlertDb) (op : Op)
    → Effect db op db'
    → Distinct alert_key db.alerts
    → IsNumberedDb db
    → IsNumberedDb db'
Effect-IsNumberedDb db _ _ (refused _ _ _ _) d h = h
Effect-IsNumberedDb db _ _ (not_assigned _ _) d h = h
Effect-IsNumberedDb db _ _ (not_noted _ _) d h = h
Effect-IsNumberedDb db _ _ (noted r body) d h = record { numbered = h.numbered; unique = h.unique }
Effect-IsNumberedDb db _ _ (folded payload window m existing e) d h = record {
  numbered =
      update-IsNumbered existing.id (fold_into payload m.now) db.sequences db.alerts all_kept
        h.numbered;
  unique = update-UniqueIds existing.id (fold_into payload m.now) db.alerts all_kept h.unique;
}
  where
    all_kept : All (Kept existing.id (fold_into payload m.now)) db.alerts
    all_kept =
        All_of_Mem (Kept existing.id (fold_into payload m.now)) db.alerts
          (λ x _ _. unfold fold_into in (ground arith, ground arith))
Effect-IsNumberedDb db _ _ (moved r target remark now alert t e allowed) d h =
    unfold apply_move in
    record {
      numbered = update-IsNumbered alert.id _ db.sequences db.alerts all_kept h.numbered;
      unique = update-UniqueIds alert.id _ db.alerts all_kept h.unique;
    }
  where
    all_kept : All (Kept alert.id (λ _. move t r.actor_id remark now alert)) db.alerts
    all_kept =
        found-Kept db r.tenant_id r.alert_id alert (move t r.actor_id remark now alert) d e
          (unfold move in (ground arith, ground arith))
Effect-IsNumberedDb db _ _ (assigned r analyst alert e) d h =
    unfold apply_assign in
    record {
      numbered = update-IsNumbered alert.id _ db.sequences db.alerts all_kept h.numbered;
      unique = update-UniqueIds alert.id _ db.alerts all_kept h.unique;
    }
  where
    all_kept : All (Kept alert.id (λ _. record alert { analyst_id = analyst })) db.alerts
    all_kept =
        found-Kept db r.tenant_id r.alert_id alert (record alert { analyst_id = analyst }) d e
          (refl, refl)
Effect-IsNumberedDb db _ _ (inserted payload window m e) d h =
    unfold insert_alert in
    record {
      numbered =
          All-append (IsNumbered after) db.alerts (row ∷ [])
            (All-imp (IsNumbered db.sequences) (IsNumbered after) db.alerts
              (λ x (year, number, i, n). (
                year,
                number,
                i,
                omega
                    (arith, n, issued_grows payload.tenant_id m.year x.tenant_id year db.sequences),
              ))
              h.numbered)
            (
              (
                m.year,
                number_for db payload m,
                unfold new_alert in refl,
                unfold new_alert in
                    omega (arith, (next_number_lem payload.tenant_id m.year db.sequences).2),
              ),
              tt,
            );
      unique =
          snoc-UniqueIds db.alerts row
            (All-imp (IsNumbered db.sequences) (λ x. Differ x row) db.alerts
              (λ x n.
                Differ-next db payload m x row (unfold new_alert in refl) (unfold new_alert in refl)
                  n)
              h.numbered)
            h.unique;
    }
  where
    after : List Sequence
    after = (next_number_lem payload.tenant_id m.year db.sequences).0

    row : Alert
    row = new_alert payload m.fresh_id (display_text m.year (number_for db payload m)) m.now

-- In every reachable state two alerts of one tenant have different display ids, whatever the years in
-- which they were made, and each display id is the tenant's counter's: its number has been given.
pub Reach-IsNumberedDb : {db : AlertDb} → Reach db → IsNumberedDb db
Reach-IsNumberedDb start = record { numbered = tt; unique = tt }
Reach-IsNumberedDb (step {db = db} reached op fresh) =
    Effect-IsNumberedDb db (apply db op) op (apply-Effect db op) (Reach-Distinct reached)
      (Reach-IsNumberedDb reached)
