-- ===== src/Auth/Examples.antt =====
-- Runs of backend/app/services/auth.py and backend/app/auth/permissions.py at concrete inputs.
use lunatic92i.Common.{
  ◌≡◌, refl, true, false, none, some, [], ◌∷◌, codes, length, text_eq, any, find, update,
}
use lunatic92i.Auth.Model.{AuthDb, Settings, Primitives, Issue, Client, ok, invalid_credentials}
use lunatic92i.Auth.Login.{
  write_account, clear_failures, log, is_locked, session_row, find_account, let_in, log_in,
  authenticate,
}
use lunatic92i.Auth.Sessions.{is_usable, active_account, rotate}
use lunatic92i.Auth.Run.{enter, has_digest, apply, here, after}
use lunatic92i.Auth.Rotation.{rotate_once}
use lunatic92i.Auth.Permissions.{
  alert, read, org_admin, playbook, approve, soc_analyst_l1, soc_analyst_l2, read_only,
  permission_catalog, role_permissions, has_permission, load_permissions,
}
use lunatic92i.Auth.Tiers.{
  load_permissions_lem, higher_tier, is_next, is_manager, load_permissions-approve,
}

abbrev toy : Primitives
toy = record {
  verify_password = λ hash password. text_eq hash password;
  verify_totp = λ now secret code. false;
  decrypt_secret = λ secret. secret;
  hash_token = λ token. length token;
  token_tenant = λ token. some 1;
  fold_case = λ email. email;
}

abbrev settings : Settings
settings = record {
  max_failed_login_attempts = 5;
  lockout_duration = 900_000_000;
  refresh_token_ttl = 1_000_000;
}

abbrev start : AuthDb
start = record {
  organizations = record { id = 1; slug = codes "o" } ∷ [];
  accounts =
      record {
        id = 5;
        tenant_id = 1;
        email = codes "a";
        password_hash = codes "p";
        is_active = true;
        mfa_enabled = false;
        mfa_secret_enc = none;
        failed_login_attempts = 0;
        locked_until = none;
        last_login_at = none;
      }
      ∷ [];
  sessions = [];
  audit = [];
}

abbrev client : Client
client = record { ip = none; user_agent = none }

abbrev first : Issue
first = record { now = 10; session_id = 1; access_token = codes "x"; refresh_token = codes "t" }

abbrev second : Issue
second = record { now = 20; session_id = 2; access_token = codes "y"; refresh_token = codes "tt" }

abbrev third : Issue
third = record { now = 30; session_id = 3; access_token = codes "z"; refresh_token = codes "ttt" }

abbrev entered : AuthDb
entered = apply toy settings start (enter first client (codes "o") (codes "a") (codes "p") none)

abbrev rotated : AuthDb
rotated = (rotate toy settings entered second client (codes "t")).1

-- The rotation succeeds, and its new token is new.
rotated_lem :
    (any (has_digest 1) start.sessions ≡ false)
    × (any (has_digest 2) entered.sessions ≡ false)
    × ((rotate toy settings entered second client (codes "t")).0 ≡ ok (codes "y", codes "tt"))
unfolding any apply authenticate find find_account text_eq log_in is_locked let_in write_account
    clear_failures log session_row update rotate is_usable active_account
rotated_lem = (refl, refl, refl)

rotate_once_example :
    rotate toy settings rotated third client (codes "t") ≡ (invalid_credentials, rotated)
rotate_once_example =
    rotate_once toy settings start entered rotated second third client client (codes "t")
      (codes "y", codes "tt") refl
      (after here (enter first client (codes "o") (codes "a") (codes "p") none) rotated_lem.0)
      rotated_lem.1 rotated_lem.2 here

load_permissions_lem_example : has_permission permission_catalog (alert, read) ≡ true
unfolding has_permission load_permissions any
load_permissions_lem_example = load_permissions_lem (alert, read) (read_only ∷ []) refl

higher_tier_example : has_permission (role_permissions soc_analyst_l2) (alert, read) ≡ true
unfolding has_permission is_next any
higher_tier_example = higher_tier soc_analyst_l1 soc_analyst_l2 (alert, read) refl refl

load_permissions-approve_example :
    has_permission (load_permissions (read_only ∷ org_admin ∷ [])) (playbook, approve)
    ≡ any is_manager (read_only ∷ org_admin ∷ [])
load_permissions-approve_example = load_permissions-approve (read_only ∷ org_admin ∷ [])
