-- ===== src/Auth/Admin.antt =====
-- app/api/routes_admin.py: the handlers by which an administrator manages the users.
use atlas_markets.Base.{
  ℕ, suc, Bool, true, false, not, ◌&&◌, ◌||◌, ◌==◌, Option, none, some, List, [], ◌∷◌, map, find,
  leb, if◌then◌else◌,
}
use atlas_markets.Base.Text.{Text}
use atlas_markets.Base.Answer.{Answer, done, ◌>>=◌, require, or_refuse}
use atlas_markets.Auth.{
  Crypto, User, UserSession, AuthStore, AuthError, user_not_found, last_admin, own_account,
  user_updated, user_password_reset, admin_role, user_role, is_admin, with_id, write_auth_audit,
}
use atlas_markets.Auth.Password.{hash_password}
use atlas_markets.Auth.Users.{create_user}
use atlas_markets.Auth.Sessions.{is_revoked, replace_first}

-- The roles that a request can name
pub data Role : Type 0 where
  as_admin as_user : Role

abbrev pub role_text : Role → Text
role_text as_admin = admin_role
role_text as_user = user_role

pub record UserAdminPatch : Type 0 where
  pub role : Option Role
  pub is_active : Option Bool

abbrev pub active_admin : User → Bool
active_admin user = is_admin user && user.is_active

abbrev pub count : {A : Type 0} → (A → Bool) → List A → ℕ
count p [] = 0
count p (x ∷ xs) = let rest = count p xs in if p x then suc rest else rest

-- `_active_admin_count`
abbrev pub active_admin_count : AuthStore → ℕ
active_admin_count store = count active_admin store.users

abbrev pub demotes : Option Role → Bool
demotes (some as_user) = true
demotes _ = false

abbrev pub disables : Option Bool → Bool
disables (some false) = true
disables _ = false

abbrev pub given_role : Option Role → Text → Text
given_role none role = role
given_role (some new) role = role_text new

abbrev pub given_active : Option Bool → Bool → Bool
given_active none active = active
given_active (some new) active = new

unfoldable pub patched : UserAdminPatch → User → User
patched payload target = record target {
  role = given_role payload.role target.role;
  is_active = given_active payload.is_active target.is_active;
}

-- The sessions of the user that are not revoked yet are revoked now.
abbrev pub revoke_one : ℕ → ℕ → UserSession → UserSession
revoke_one user_id now session =
    if (session.user_id == user_id) && not (is_revoked session)
    then record session { revoked_at = some now }
    else session

abbrev pub revoke_sessions : ℕ → ℕ → List UserSession → List UserSession
revoke_sessions user_id now = map (revoke_one user_id now)

unfoldable pub would_lose_last : AuthStore → User → UserAdminPatch → Bool
would_lose_last store target payload =
    let few = leb (active_admin_count store) 1 in
    (is_admin target && demotes payload.role && few)
    || (is_admin target && target.is_active && disables payload.is_active && few)

unfoldable pub update_user : AuthStore → User → ℕ → UserAdminPatch → ℕ → Answer AuthError AuthStore
unfolding would_lose_last patched
update_user store admin id payload now = do
  target ← or_refuse (find (with_id id) store.users) user_not_found
  retained ← require (not (would_lose_last store target payload)) last_admin
  other ← require (not ((target.id == admin.id) && disables payload.is_active)) own_account
  done (
      write_auth_audit user_updated true (some admin.id) (record store {
        users = replace_first (with_id id) (patched payload target) store.users;
        sessions =
            if disables payload.is_active
            then revoke_sessions target.id now store.sessions
            else store.sessions;
      }))

unfoldable pub reset_user_password :
    Crypto → AuthStore → User → ℕ → Text → Text → ℕ → Answer AuthError AuthStore
unfolding hash_password
reset_user_password crypto store admin id salt password now = do
  target ← or_refuse (find (with_id id) store.users) user_not_found
  password_hash ← hash_password crypto salt password
  done (
      write_auth_audit user_password_reset true (some admin.id) (record store {
        users =
            replace_first (with_id id) (record target { password_hash = password_hash })
              store.users;
        sessions = revoke_sessions target.id now store.sessions;
      }))

unfoldable pub add_user :
    Crypto
    → AuthStore
    → User
    → ℕ
    → Text
    → Text
    → Text
    → Role
    → Option Text
    → Answer AuthError AuthStore
unfolding create_user
add_user crypto store admin id salt username password role email =
    create_user crypto store id salt username password (role_text role) email (some admin.id)
