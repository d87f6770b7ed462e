-- ===== src/Auth/Run.antt =====
-- The calls of backend/app/services/auth.py as steps, and what they do to the sessions.
use lunatic92i.Common.{
  ℕ, ◌≡◌, inl, inr, Bool, false, ◌&&◌, Option, none, some, List, [], ◌∷◌, ◌++◌, Text, text_eq, ◌==◌,
  any, find, update, is_some, Bool-cases, Option-cases,
}
use lunatic92i.Auth.Model.{
  Organization, Account, Session, AuthDb, Settings, Primitives, Issue, Client,
}
use lunatic92i.Auth.Login.{
  write_account, log, is_locked, session_row, find_account, code_is_right, let_in, check_mfa,
  refuse, log_in, authenticate,
}
use lunatic92i.Auth.Sessions.{
  session_has_id, is_usable, revoke_at, revoke_row, active_account, replace_session, rotate,
  revoke_session, enroll_mfa, confirm_mfa,
}

pub data Op : Type 0 where
  enter : Issue → Client → Text → Text → Text → Option Text → Op
  refresh : Issue → Client → Text → Op
  leave : ℕ → Text → Op
  enroll : Account → Text → Op
  confirm : ℕ → Account → Text → Op

abbrev pub has_digest : ℕ → Session → Bool
has_digest d s = s.refresh_token_hash == d

module _ (p : Primitives) (settings : Settings) where
  unfoldable pub apply : AuthDb → Op → AuthDb
  unfolding authenticate rotate revoke_session enroll_mfa confirm_mfa
  apply db (enter issue client slug email password code) =
      (authenticate p settings db issue client slug email password code).1
  apply db (refresh issue client token) = (rotate p settings db issue client token).1
  apply db (leave now token) = revoke_session p db now token
  apply db (enroll a secret) = enroll_mfa p db a secret
  apply db (confirm now a code) = (confirm_mfa p db now a code).1

  -- A token that is given out has a digest that no session has.
  abbrev pub IsFresh : AuthDb → Op → Type 0
  IsFresh db (enter issue client slug email password code) =
      any (has_digest (p.hash_token issue.refresh_token)) db.sessions ≡ false
  IsFresh db (refresh issue client token) =
      any (has_digest (p.hash_token issue.refresh_token)) db.sessions ≡ false
  IsFresh db _ = Unit

  -- The tables that further calls reach.
  pub data Later (db : AuthDb) : AuthDb → Type 0 where
    here : Later db db
    after : {mid : AuthDb} → Later db mid → (op : Op) → IsFresh mid op → Later db (apply mid op)

-- What a call may do to the sessions.
pub data Touch (xs : List Session) : List Session → Type 0 where
  kept : Touch xs xs
  opened :
      (s : Session) → any (has_digest s.refresh_token_hash) xs ≡ false → Touch xs (xs ++ s ∷ [])
  closed : (i now : ℕ) → Touch xs (update (session_has_id i) (revoke_at now) xs)
  replaced :
      (i now : ℕ) (s : Session)
      → any (has_digest s.refresh_token_hash) xs ≡ false
      → Touch xs (update (session_has_id i) (revoke_at now) xs ++ s ∷ [])

module _ (p : Primitives) (settings : Settings) (db : AuthDb) where
  module _ (issue : Issue) (client : Client)
      (fresh : any (has_digest (p.hash_token issue.refresh_token)) db.sessions ≡ false) where
    let_in-Touch :
        (tenant : ℕ) (a : Account)
        → Touch db.sessions (let_in p settings db issue client tenant a).1.sessions
    unfolding let_in write_account log session_row
    let_in-Touch tenant a = opened _ fresh

    check_mfa-Touch :
        (tenant : ℕ) (a : Account) (code : Option Text)
        → Touch db.sessions (check_mfa p settings db issue client tenant a code).1.sessions
    unfolding check_mfa log
    check_mfa-Touch tenant a none = kept
    check_mfa-Touch tenant a (some code) = elim (Bool-cases (code_is_right p issue.now a code)) [
      | inl t ↦ rw (t, check_mfa) (let_in-Touch tenant a)
      | inr t ↦ rw (t, check_mfa) kept
    ]

    log_in-Touch :
        (tenant : ℕ) (a : Account) (password : Text) (code : Option Text)
        → Touch db.sessions (log_in p settings db issue client tenant a password code).1.sessions
    unfolding log_in refuse log write_account
    log_in-Touch tenant a password code = elim (Bool-cases (is_locked issue.now a)) [
      | inl t ↦ rw (t, log_in) kept
      | inr t ↦
          rw (t, log_in)
            (elim (Bool-cases (p.verify_password a.password_hash password)) [
              | inr v ↦ rw (v, log_in) kept
              | inl v ↦
                  rw (v, log_in)
                    (elim (Bool-cases a.mfa_enabled) [
                      | inl m ↦ rw (m, log_in) (check_mfa-Touch tenant a code)
                      | inr m ↦ rw (m, log_in) (let_in-Touch tenant a)
                    ])
            ])
    ]

    enter-Touch :
        (slug email password : Text) (code : Option Text)
        → Touch db.sessions
            (authenticate p settings db issue client slug email password code).1.sessions
    unfolding authenticate
    enter-Touch slug email password code =
        elim (Option-cases (find (λ (o : Organization). text_eq o.slug slug) db.organizations)) [
          | inl e ↦ rw (e, authenticate) kept
          | inr (org, e) ↦
              rw (e, authenticate)
                (elim (Option-cases (find_account p db org.id email)) [
                  | inl f ↦ rw (f, authenticate) kept
                  | inr (a, f) ↦ rw (f, authenticate) (log_in-Touch org.id a password code)
                ])
        ]

    refresh-Touch :
        (token : Text) → Touch db.sessions (rotate p settings db issue client token).1.sessions
    unfolding rotate replace_session revoke_row session_row
    refresh-Touch token = elim (Option-cases (p.token_tenant token)) [
      | inl e ↦ rw (e, rotate) kept
      | inr (tenant, e) ↦
          rw (e, rotate)
            (elim (Option-cases
              (find (is_usable tenant (p.hash_token token) issue.now) db.sessions)) [
                | inl f ↦ rw (f, rotate) kept
                | inr (s, f) ↦
                    rw (f, rotate)
                      (elim (Option-cases (active_account db tenant s.user_id)) [
                        | inl g ↦ rw (g, rotate) kept
                        | inr (a, g) ↦ rw (g, rotate) (replaced s.id issue.now _ fresh)
                      ])
              ])
    ]

  leave-Touch :
      (now : ℕ) (token : Text) → Touch db.sessions (revoke_session p db now token).sessions
  unfolding revoke_session revoke_row log
  leave-Touch now token = elim (Option-cases (p.token_tenant token)) [
    | inl e ↦ rw (e, revoke_session) kept
    | inr (tenant, e) ↦
        rw (e, revoke_session)
          (elim (Option-cases (
            find
              (λ (s : Session).
                (s.tenant_id == tenant) && (s.refresh_token_hash == p.hash_token token))
              db.sessions)) [
                | inl f ↦ rw (f, revoke_session) kept
                | inr (s, f) ↦
                    rw (f, revoke_session)
                      (elim (Bool-cases (is_some s.revoked_at)) [
                        | inl t ↦ rw (t, revoke_session) kept
                        | inr t ↦ rw (t, revoke_session) (closed s.id now)
                      ])
              ])
  ]

  confirm-Touch :
      (now : ℕ) (a : Account) (code : Text)
      → Touch db.sessions (confirm_mfa p db now a code).1.sessions
  unfolding confirm_mfa write_account
  confirm-Touch now a code = elim (Option-cases a.mfa_secret_enc) [
    | inl e ↦ rw (e, confirm_mfa) kept
    | inr (secret, e) ↦
        rw (e, confirm_mfa)
          (elim (Bool-cases (p.verify_totp now (p.decrypt_secret secret) code)) [
            | inl t ↦ rw (t, confirm_mfa) kept
            | inr t ↦ rw (t, confirm_mfa) kept
          ])
  ]

  pub apply-Touch :
      (op : Op) → IsFresh p settings db op → Touch db.sessions (apply p settings db op).sessions
  unfolding apply enroll_mfa write_account
  apply-Touch (enter issue client slug email password code) fresh =
      enter-Touch issue client fresh slug email password code
  apply-Touch (refresh issue client token) fresh = refresh-Touch issue client fresh token
  apply-Touch (leave now token) fresh = leave-Touch now token
  apply-Touch (enroll a secret) fresh = kept
  apply-Touch (confirm now a code) fresh = confirm-Touch now a code
