-- ===== src/Auth/Model.antt =====
-- backend/app/models/identity.py, the settings of backend/app/core/config.py that logging in reads, and the
-- primitives of backend/app/core/security.py as parameters. A digest of SHA-256 is a number, as it is in
-- hexadecimal; a time is in microseconds.
use lunatic92i.Common.{ℕ, Bool, Option, List, Text}
use lunatic92i.Audit.{AuditEvent}

pub record Organization : Type 0 where
  pub id : ℕ
  pub slug : Text

-- `User`
pub record Account : Type 0 where
  pub id : ℕ
  pub tenant_id : ℕ
  pub email : Text
  pub password_hash : Text
  pub is_active : Bool
  pub mfa_enabled : Bool
  pub mfa_secret_enc : Option Text
  pub failed_login_attempts : ℕ
  pub locked_until : Option ℕ
  pub last_login_at : Option ℕ

pub record Session : Type 0 where
  pub id : ℕ
  pub user_id : ℕ
  pub tenant_id : ℕ
  pub refresh_token_hash : ℕ
  pub user_agent : Option Text
  pub ip_address : Option Text
  pub expires_at : ℕ
  pub revoked_at : Option ℕ

pub record AuthDb : Type 0 where
  pub organizations : List Organization
  pub accounts : List Account
  pub sessions : List Session
  pub audit : List AuditEvent

pub record Settings : Type 0 where
  pub max_failed_login_attempts : ℕ
  pub lockout_duration : ℕ
  pub refresh_token_ttl : ℕ

-- Argon2, TOTP at a time, Fernet, SHA-256, the tenant that a refresh token begins with (`none` for the
-- `ValueError` of one without), and the folding of e-mail addresses in the database.
pub record Primitives : Type 0 where
  pub verify_password : Text → Text → Bool
  pub verify_totp : ℕ → Text → Text → Bool
  pub decrypt_secret : Text → Text
  pub hash_token : Text → ℕ
  pub token_tenant : Text → Option ℕ
  pub fold_case : Text → Text

-- The clock, the id of a new session row, and the tokens that would be given out.
pub record Issue : Type 0 where
  pub now : ℕ
  pub session_id : ℕ
  pub access_token : Text
  pub refresh_token : Text

-- `ip` and `user_agent`.
pub record Client : Type 0 where
  pub ip : Option Text
  pub user_agent : Option Text

-- The errors of the module, and `ok` with what the call returns.
pub data AuthResult (A : Type 0) : Type 0 where
  ok : A → AuthResult A
  invalid_credentials mfa_required mfa_invalid : AuthResult A
  account_locked : ℕ → AuthResult A
