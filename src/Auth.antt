-- ===== src/Auth.antt =====
-- Users and sessions: app/core/security.py, app/services/auth.py, app/api/dependencies.py,
-- app/api/routes_admin.py and the handlers of app/api/routes_auth.py.
pub mod Password
pub mod Users
pub mod Sessions
pub mod Admin
pub mod Run
pub mod Grants
pub mod SignOut
pub mod Retain
use atlas_markets.Base.{ℕ, ◌≡◌, Bool, true, false, Option, none, some, List, [], ◌∷◌, find, ◌==◌}
use atlas_markets.Base.Int.{ℤ}
use atlas_markets.Base.Text.{Text, codes, text_eq}

-- The functions of Python's hashlib, hmac and base64, and `int` of a text. A byte string is a list
-- of its bytes; none is the error that the function raises.
pub record Crypto : Type 0 where
  pub pbkdf2 : Text → Text → ℤ → Option Text
  pub hmac_hex : Text → Text → Text
  pub b64encode : Text → Text
  pub b64decode : Text → Option Text
  pub read_int : Text → Option ℤ

-- A row of `users`; the key is its identity.
pub record User : Type 0 where
  pub id : ℕ
  pub username : Text
  pub email : Option Text
  pub password_hash : Text
  pub role : Text
  pub is_active : Bool

-- A row of `user_sessions`
pub record UserSession : Type 0 where
  pub user_id : ℕ
  pub token_hash : Text
  pub expires_at : ℕ
  pub revoked_at : Option ℕ

pub data AuditAction : Type 0 where
  user_created login_attempt login_success logged_out user_updated user_password_reset : AuditAction

-- A row of `auth_audit_logs`
pub record AuthAuditLog : Type 0 where
  pub user_id : Option ℕ
  pub action : AuditAction
  pub success : Bool

-- The rows of each table with the latest first.
pub record AuthStore : Type 0 where
  pub users : List User
  pub sessions : List UserSession
  pub audit : List AuthAuditLog

pub data AuthError : Type 0 where
  password_empty username_short password_short username_taken email_taken invalid_role : AuthError
  password_unreadable authentication_required session_invalid admin_required : AuthError
  user_not_found last_admin own_account : AuthError

abbrev pub admin_role : Text
admin_role = codes "ADMIN"

abbrev pub user_role : Text
user_role = codes "USER"

abbrev pub is_admin : User → Bool
is_admin user = text_eq user.role admin_role

abbrev pub with_id : ℕ → User → Bool
with_id id user = user.id == id

abbrev pub write_auth_audit : AuditAction → Bool → Option ℕ → AuthStore → AuthStore
write_auth_audit action success user_id store = record store {
  audit = record { user_id = user_id; action = action; success = success } ∷ store.audit;
}
