-- ===== src/Auth/Login.antt =====
-- `authenticate` of backend/app/services/auth.py. Row-level security lets a session of the database see the
-- rows of its tenant only. A call that raises before a commit leaves the tables as they were.
use lunatic92i.Common.{
  ℕ, suc, ◌+◌, ◌-◌, ◌/◌, Bool, true, false, ◌&&◌, not, Option, none, some, [], ◌∷◌, ◌++◌, Text,
  codes, text_eq, ◌==◌, ltb, leb, if◌then◌else◌, find, update,
}
use lunatic92i.Common.Decimal.{decimal}
use lunatic92i.Audit.{AuditEvent, record_audit_event}
use lunatic92i.Auth.Model.{
  Organization, Account, Session, AuthDb, Settings, Primitives, Issue, Client, AuthResult, ok,
  invalid_credentials, mfa_required, mfa_invalid, account_locked,
}

abbrev pub account_has_id : ℕ → Account → Bool
account_has_id i a = a.id == i

-- A row of the audit log that names only its object.
unfoldable pub auth_row : ℕ → ℕ → Option Text → Text → Text → ℕ → Bool → AuditEvent
auth_row tenant actor ip action object_type object_id success = record {
  tenant_id = tenant;
  actor_id = some actor;
  actor_ip = ip;
  action = action;
  object_type = object_type;
  object_id = some (decimal object_id);
  before_state = none;
  after_state = none;
  success = success;
}

unfoldable pub log : AuthDb → AuditEvent → AuthDb
unfolding record_audit_event
log db row = record db { audit = record_audit_event db.audit row }

unfoldable pub write_account : AuthDb → ℕ → (Account → Account) → AuthDb
unfolding update
write_account db i change = record db { accounts = update (account_has_id i) change db.accounts }

-- The count of a wrong password, which locks the account at the limit.
unfoldable pub count_failure : Settings → ℕ → Account → Account
count_failure settings now a =
    if leb settings.max_failed_login_attempts (suc a.failed_login_attempts)
    then record a {
      failed_login_attempts = 0;
      locked_until = some (now + settings.lockout_duration);
    }
    else record a { failed_login_attempts = suc a.failed_login_attempts }

unfoldable pub clear_failures : ℕ → Account → Account
clear_failures now a = record a {
  failed_login_attempts = 0;
  locked_until = none;
  last_login_at = some now;
}

unfoldable pub is_locked : ℕ → Account → Bool
is_locked now a = elim a.locked_until [ none ↦ false | some until ↦ ltb now until ]

-- `int((user.locked_until - now).total_seconds())`
unfoldable pub seconds_left : ℕ → Account → ℕ
seconds_left now a = elim a.locked_until [ none ↦ 0 | some until ↦ (until - now) / 1_000_000 ]

module _ (p : Primitives) where
  unfoldable pub session_row : Settings → Issue → Client → Account → ℕ → Session
  session_row settings issue client a tenant = record {
    id = issue.session_id;
    user_id = a.id;
    tenant_id = tenant;
    refresh_token_hash = p.hash_token issue.refresh_token;
    user_agent = client.user_agent;
    ip_address = client.ip;
    expires_at = issue.now + settings.refresh_token_ttl;
    revoked_at = none;
  }

  unfoldable pub find_account : AuthDb → ℕ → Text → Option Account
  unfolding find
  find_account db tenant email =
      find
        (λ (a : Account).
          (a.tenant_id == tenant) && text_eq (p.fold_case a.email) (p.fold_case email))
        db.accounts

  -- `secret is not None and verify_totp_code(...)`; an empty secret is none.
  unfoldable pub code_is_right : ℕ → Account → Text → Bool
  code_is_right now a code = elim a.mfa_secret_enc [
    | none ↦ false
    | some [] ↦ false
    | some (c ∷ cs) ↦ p.verify_totp now (p.decrypt_secret (c ∷ cs)) code
  ]

  unfoldable pub let_in :
      Settings → AuthDb → Issue → Client → ℕ → Account → AuthResult (Text × Text) × AuthDb
  unfolding write_account clear_failures session_row log auth_row
  let_in settings db issue client tenant a =
      let cleared = write_account db a.id (clear_failures issue.now) in
      (
        ok (issue.access_token, issue.refresh_token),
        log
            (record cleared {
              sessions = db.sessions ++ session_row settings issue client a tenant ∷ [];
            })
            (auth_row tenant a.id client.ip (codes "LOGIN") (codes "user") a.id true),
      )

  unfoldable pub check_mfa :
      Settings
      → AuthDb
      → Issue
      → Client
      → ℕ
      → Account
      → Option Text
      → AuthResult (Text × Text) × AuthDb
  unfolding let_in code_is_right log auth_row
  check_mfa settings db issue client tenant a none = (mfa_required, db)
  check_mfa settings db issue client tenant a (some code) =
      if code_is_right issue.now a code then let_in settings db issue client tenant a else (
        mfa_invalid,
        log db (auth_row tenant a.id client.ip (codes "FAILED_LOGIN") (codes "user") a.id false),
      )

  unfoldable pub refuse :
      Settings → AuthDb → Issue → Client → ℕ → Account → AuthResult (Text × Text) × AuthDb
  unfolding write_account count_failure log auth_row
  refuse settings db issue client tenant a = (
    invalid_credentials,
    log (write_account db a.id (count_failure settings issue.now))
        (auth_row tenant a.id client.ip (codes "FAILED_LOGIN") (codes "user") a.id false),
  )

  unfoldable pub log_in :
      Settings
      → AuthDb
      → Issue
      → Client
      → ℕ
      → Account
      → Text
      → Option Text
      → AuthResult (Text × Text) × AuthDb
  unfolding is_locked seconds_left refuse check_mfa let_in
  log_in settings db issue client tenant a password code =
      if is_locked issue.now a
      then (account_locked (seconds_left issue.now a), db)
      else if not (p.verify_password a.password_hash password)
      then refuse settings db issue client tenant a
      else if a.mfa_enabled
      then check_mfa settings db issue client tenant a code
      else let_in settings db issue client tenant a

  unfoldable pub authenticate :
      Settings
      → AuthDb
      → Issue
      → Client
      → Text
      → Text
      → Text
      → Option Text
      → AuthResult (Text × Text) × AuthDb
  unfolding find find_account log_in
  authenticate settings db issue client slug email password code =
      elim (find (λ (o : Organization). text_eq o.slug slug) db.organizations) [
        | none ↦ (invalid_credentials, db)
        | some org ↦ elim (find_account db org.id email) [
          | none ↦ (invalid_credentials, db)
          | some a ↦ log_in settings db issue client org.id a password code
        ]
      ]
