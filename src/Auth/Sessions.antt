-- ===== src/Auth/Sessions.antt =====
-- `rotate_refresh_token`, `revoke_session`, `enroll_mfa` and `confirm_mfa` of
-- backend/app/services/auth.py.
use lunatic92i.Common.{
  ℕ, Bool, true, false, ◌&&◌, not, Option, none, some, [], ◌∷◌, ◌++◌, Text, codes, ◌==◌, ltb,
  if◌then◌else◌, is_some, find, update,
}
use lunatic92i.Auth.Model.{
  Account, Session, AuthDb, Settings, Primitives, Issue, Client, AuthResult, ok,
  invalid_credentials, mfa_invalid,
}
use lunatic92i.Auth.Login.{auth_row, log, write_account, session_row}

abbrev pub session_has_id : ℕ → Session → Bool
session_has_id i s = s.id == i

-- The session of a digest that a rotation accepts.
unfoldable pub is_usable : ℕ → ℕ → ℕ → Session → Bool
is_usable tenant digest now s =
    (s.tenant_id == tenant)
    && (s.refresh_token_hash == digest)
    && not (is_some s.revoked_at)
    && ltb now s.expires_at

unfoldable pub revoke_at : ℕ → Session → Session
revoke_at now s = record s { revoked_at = some now }

unfoldable pub revoke_row : AuthDb → ℕ → ℕ → AuthDb
unfolding update revoke_at
revoke_row db i now = record db { sessions = update (session_has_id i) (revoke_at now) db.sessions }

-- The account of a session, if it may be used.
unfoldable pub active_account : AuthDb → ℕ → ℕ → Option Account
unfolding find
active_account db tenant i =
    elim (find (λ (a : Account). (a.tenant_id == tenant) && (a.id == i)) db.accounts) [
      | none ↦ none
      | some a ↦ if a.is_active then some a else none
    ]

module _ (p : Primitives) where
  unfoldable pub replace_session :
      Settings → AuthDb → Issue → Client → ℕ → Session → Account → AuthDb
  unfolding revoke_row session_row
  replace_session settings db issue client tenant s a =
      let revoked = revoke_row db s.id issue.now in
      record revoked {
        sessions = revoked.sessions ++ session_row p settings issue client a tenant ∷ [];
      }

  unfoldable pub rotate :
      Settings → AuthDb → Issue → Client → Text → AuthResult (Text × Text) × AuthDb
  unfolding find is_usable active_account replace_session
  rotate settings db issue client token = elim (p.token_tenant token) [
    | none ↦ (invalid_credentials, db)
    | some tenant ↦ elim (find (is_usable tenant (p.hash_token token) issue.now) db.sessions) [
      | none ↦ (invalid_credentials, db)
      | some s ↦ elim (active_account db tenant s.user_id) [
        | none ↦ (invalid_credentials, db)
        | some a ↦ (
          ok (issue.access_token, issue.refresh_token),
          replace_session settings db issue client tenant s a,
        )
      ]
    ]
  ]

  unfoldable pub revoke_session : AuthDb → ℕ → Text → AuthDb
  unfolding find revoke_row log auth_row
  revoke_session db now token = elim (p.token_tenant token) [
    | none ↦ db
    | some tenant ↦
        elim (find
          (λ (s : Session). (s.tenant_id == tenant) && (s.refresh_token_hash == p.hash_token token))
          db.sessions) [
            | none ↦ db
            | some s ↦
                if is_some s.revoked_at
                then db
                else log (revoke_row db s.id now)
                    (auth_row tenant s.user_id none (codes "LOGOUT") (codes "session") s.id true)
          ]
  ]

  -- The secret is given encrypted.
  unfoldable pub enroll_mfa : AuthDb → Account → Text → AuthDb
  unfolding write_account
  enroll_mfa db a secret_enc =
      write_account db a.id
        (λ x. record x { mfa_secret_enc = some secret_enc; mfa_enabled = false })

  unfoldable pub confirm_mfa : AuthDb → ℕ → Account → Text → AuthResult Unit × AuthDb
  unfolding write_account
  confirm_mfa db now a code = elim a.mfa_secret_enc [
    | none ↦ (mfa_invalid, db)
    | some secret ↦
        if p.verify_totp now (p.decrypt_secret secret) code
        then (ok tt, write_account db a.id (λ x. record x { mfa_enabled = true }))
        else (mfa_invalid, db)
  ]
