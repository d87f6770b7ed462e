-- ===== src/Auth/Rotation.antt =====
-- What becomes of a refresh token: `rotate_refresh_token` of backend/app/services/auth.py.
use lunatic92i.Common.{
  ℕ, ◌≡◌, inl, inr, refl, sym, ◌∙◌, ap, Bool, true, false, none, some, List, [], ◌∷◌, ◌++◌, arith,
  Text, ==_iff, ==_refl, if◌then◌else◌, any, find, update, is_some, All, All-append, All_of_Mem,
  Memᴰ, Bool-cases, Option-cases, true_false, any-append, any-update, find-passes, find-Mem,
  update-All_cases, some_inj, subst,
}
use lunatic92i.Common.Keys.{Distinct, snoc-Distinct, update-Distinct, Mem-find_key, find-any}
use lunatic92i.Auth.Model.{
  Session, AuthDb, Settings, Primitives, Issue, Client, ok, invalid_credentials,
}
use lunatic92i.Auth.Login.{session_row}
use lunatic92i.Auth.Sessions.{
  session_has_id, is_usable, revoke_at, revoke_row, active_account, replace_session, rotate,
}
use lunatic92i.Auth.Run.{
  refresh, has_digest, IsFresh, Later, here, after, Touch, kept, opened, closed, replaced,
  apply-Touch,
}

abbrev pub digest : Session → ℕ
digest s = s.refresh_token_hash

-- A session of the digest is revoked.
abbrev pub is_spent_in : ℕ → Session → Bool
is_spent_in d s = if has_digest d s then is_some s.revoked_at else true

-- There is a session of the digest, and none is left to use.
pub record IsSpent (d : ℕ) (xs : List Session) : Type 0 where
  pub known : any (has_digest d) xs ≡ true
  pub spent : All (λ s. is_spent_in d s ≡ true) xs

closed-any :
    (d i now : ℕ) (xs : List Session)
    → any (has_digest d) (update (session_has_id i) (revoke_at now) xs) ≡ any (has_digest d) xs
closed-any d i now xs =
    any-update (has_digest d) (session_has_id i) (revoke_at now) xs
      (λ s e. unfold revoke_at in refl)

closed-Distinct :
    (i now : ℕ) (xs : List Session)
    → Distinct digest xs
    → Distinct digest (update (session_has_id i) (revoke_at now) xs)
closed-Distinct i now xs h =
    update-Distinct digest (session_has_id i) (revoke_at now) xs (λ s e. unfold revoke_at in refl) h

Touch-Distinct : (xs ys : List Session) → Touch xs ys → Distinct digest xs → Distinct digest ys
Touch-Distinct xs _ kept h = h
Touch-Distinct xs _ (opened s fresh) h = snoc-Distinct digest xs s fresh h
Touch-Distinct xs _ (closed i now) h = closed-Distinct i now xs h
Touch-Distinct xs _ (replaced i now s fresh) h =
    snoc-Distinct digest _ s (closed-any s.refresh_token_hash i now xs ∙ fresh)
      (closed-Distinct i now xs h)

closed-IsSpent :
    (d i now : ℕ) (xs : List Session)
    → IsSpent d xs
    → IsSpent d (update (session_has_id i) (revoke_at now) xs)
unfolding revoke_at
closed-IsSpent d i now xs h = record {
  known = closed-any d i now xs ∙ h.known;
  spent =
      update-All_cases (λ s. is_spent_in d s ≡ true) (λ s. is_spent_in d s ≡ true)
        (session_has_id i) (revoke_at now) xs (λ s e k. ground arith) (λ s e k. k) h.spent;
}

opened-IsSpent :
    (d : ℕ) (xs : List Session) (s : Session)
    → any (has_digest s.refresh_token_hash) xs ≡ false
    → IsSpent d xs
    → IsSpent d (xs ++ s ∷ [])
opened-IsSpent d xs s fresh h = record {
  known = any-append (has_digest d) xs (s ∷ []) ∙ rw h.known refl;
  spent =
      All-append (λ x. is_spent_in d x ≡ true) xs (s ∷ []) h.spent
        (elim (Bool-cases (has_digest d s)) [
          | inr away ↦ (rw away refl, tt)
          | inl same ↦ true_false h.known (
              ap (λ n. any (has_digest n) xs) (sym ((==_iff s.refresh_token_hash d).0 same))
              ∙ fresh)
        ]);
}

Touch-IsSpent : (d : ℕ) (xs ys : List Session) → Touch xs ys → IsSpent d xs → IsSpent d ys
Touch-IsSpent d xs _ kept h = h
Touch-IsSpent d xs _ (opened s fresh) h = opened-IsSpent d xs s fresh h
Touch-IsSpent d xs _ (closed i now) h = closed-IsSpent d i now xs h
Touch-IsSpent d xs _ (replaced i now s fresh) h =
    opened-IsSpent d _ s (closed-any s.refresh_token_hash i now xs ∙ fresh)
      (closed-IsSpent d i now xs h)

-- Revoking the session of a digest leaves none to use.
closing-IsSpent :
    (d now : ℕ) (xs : List Session) (s : Session)
    → Distinct digest xs
    → Memᴰ s xs
    → s.refresh_token_hash ≡ d
    → IsSpent d (update (session_has_id s.id) (revoke_at now) xs)
unfolding revoke_at
closing-IsSpent d now xs s unique there same = record {
  known =
      closed-any d s.id now xs
      ∙ find-any digest (has_digest s.refresh_token_hash) (has_digest d) xs s
          (Mem-find_key digest xs s unique there) (rw (same, ==_refl d) refl);
  spent =
      update-All_cases (λ x. has_digest d x ≡ true → x ≡ s) (λ x. is_spent_in d x ≡ true)
        (session_has_id s.id) (revoke_at now) xs (λ x e k. ground arith)
        (λ x e k. elim (Bool-cases (has_digest d x)) [
          | inr away ↦ rw away refl
          | inl yes_d ↦ true_false (ap (λ y. session_has_id s.id y) (k yes_d) ∙ ==_refl s.id) e
        ])
        (All_of_Mem (λ x. has_digest d x ≡ true → x ≡ s) xs
          (λ x in_xs yes_d.
            let at_x : find (has_digest d) xs ≡ some x =
              ap (λ n. find (has_digest n) xs) (sym ((==_iff x.refresh_token_hash d).0 yes_d))
              ∙ Mem-find_key digest xs x unique in_xs in
            let at_s : find (has_digest d) xs ≡ some s =
              ap (λ n. find (has_digest n) xs) (sym same) ∙ Mem-find_key digest xs s unique there in
            some_inj (sym at_x ∙ at_s)));
}

spent-unusable :
    (tenant d now : ℕ) (xs : List Session)
    → All (λ s. is_spent_in d s ≡ true) xs
    → find (is_usable tenant d now) xs ≡ none
unfolding find
spent-unusable tenant d now [] h = refl
spent-unusable tenant d now (s ∷ xs) h =
    let no_use : is_usable tenant d now s ≡ false = unfold is_usable in ground (arith, h.0) in
    rw no_use (spent-unusable tenant d now xs h.1)

module _ (p : Primitives) (settings : Settings) where
  Later-Distinct :
      {db after_db : AuthDb}
      → Later p settings db after_db
      → Distinct digest db.sessions
      → Distinct digest after_db.sessions
  Later-Distinct here h = h
  Later-Distinct (after {mid = mid} before op fresh) h =
      Touch-Distinct mid.sessions _ (apply-Touch p settings mid op fresh) (Later-Distinct before h)

  Later-IsSpent :
      (d : ℕ) {db after_db : AuthDb}
      → Later p settings db after_db
      → IsSpent d db.sessions
      → IsSpent d after_db.sessions
  Later-IsSpent d here h = h
  Later-IsSpent d (after {mid = mid} before op fresh) h =
      Touch-IsSpent d mid.sessions _ (apply-Touch p settings mid op fresh)
        (Later-IsSpent d before h)

  -- A rotation that succeeds spends its token.
  rotate-IsSpent :
      (db : AuthDb) (issue : Issue) (client : Client) (token : Text) (given : Text × Text)
      → Distinct digest db.sessions
      → any (has_digest (p.hash_token issue.refresh_token)) db.sessions ≡ false
      → (rotate p settings db issue client token).0 ≡ ok given
      → IsSpent (p.hash_token token) (rotate p settings db issue client token).1.sessions
  unfolding rotate replace_session revoke_row session_row
  rotate-IsSpent db issue client token given unique fresh h =
      elim (Option-cases (p.token_tenant token)) [
        | inl e ↦ absurd (ground (arith, rw (e, rotate) at h))
        | inr (tenant, e) ↦
            let h1 = rw (e, rotate) at h in
            rw (e, rotate)
              (elim (Option-cases
                (find (is_usable tenant (p.hash_token token) issue.now) db.sessions)) [
                  | inl f ↦ absurd (ground (arith, rw (f, rotate) at h1))
                  | inr (s, f) ↦
                      let h2 = rw (f, rotate) at h1 in
                      rw (f, rotate)
                        (elim (Option-cases (active_account db tenant s.user_id)) [
                          | inl g ↦ absurd (ground (arith, rw (g, rotate) at h2))
                          | inr (a, g) ↦
                              rw (g, rotate)
                                (opened-IsSpent (p.hash_token token) _
                                  (session_row p settings issue client a tenant)
                                  (unfold session_row in
                                    closed-any (p.hash_token issue.refresh_token) s.id issue.now
                                      db.sessions
                                    ∙ fresh)
                                  (closing-IsSpent (p.hash_token token) issue.now db.sessions s
                                    unique (find-Mem _ db.sessions s f)
                                    (usable_digest tenant issue.now s
                                      (find-passes _ db.sessions s f))))
                        ])
                ])
      ]
    where
      usable_digest :
          (tenant now : ℕ) (s : Session)
          → is_usable tenant (p.hash_token token) now s ≡ true
          → s.refresh_token_hash ≡ p.hash_token token
      usable_digest tenant now s passes =
          (==_iff s.refresh_token_hash (p.hash_token token)).0
            (unfold is_usable in ground (arith, passes))

  rotate-spent :
      (db : AuthDb) (issue : Issue) (client : Client) (token : Text)
      → IsSpent (p.hash_token token) db.sessions
      → rotate p settings db issue client token ≡ (invalid_credentials, db)
  unfolding rotate
  rotate-spent db issue client token h = elim (Option-cases (p.token_tenant token)) [
    | inl e ↦ rw (e, rotate) refl
    | inr (tenant, e) ↦
        rw (e, rotate)
          (rw (spent-unusable tenant (p.hash_token token) issue.now db.sessions h.spent, rotate)
            refl)
  ]

  -- A refresh token is good for one rotation: in any tables that calls reach from tables without sessions,
  -- once a rotation of the token has succeeded, whatever calls follow, every later rotation of it is refused
  -- as invalid and changes nothing. The digests of new tokens are new.
  pub rotate_once :
      (empty db later_db : AuthDb) (issue again : Issue) (client other : Client) (token : Text)
      (given : Text × Text)
      → empty.sessions ≡ []
      → Later p settings empty db
      → IsFresh p settings db (refresh issue client token)
      → (rotate p settings db issue client token).0 ≡ ok given
      → Later p settings (rotate p settings db issue client token).1 later_db
      → rotate p settings later_db again other token ≡ (invalid_credentials, later_db)
  rotate_once empty db later_db issue again client other token given none_yet reached fresh success
        later =
      rotate-spent later_db again other token (
        Later-IsSpent (p.hash_token token) later (
          rotate-IsSpent db issue client token given
            (Later-Distinct reached (subst (Distinct digest) (sym none_yet) tt)) fresh success))
