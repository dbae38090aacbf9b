-- ===== src/Auth/Users.antt =====
-- `create_user` and `authenticate_user` of app/services/auth.py.
use atlas_markets.Base.{
  ℕ, Bool, true, false, not, ◌||◌, Option, none, some, List, ◌∷◌, length, find, any, ltb,
  if◌then◌else◌,
}
use atlas_markets.Base.Text.{Text, text_eq, lower, strip}
use atlas_markets.Base.Answer.{Answer, done, refused, ◌>>=◌, require}
use atlas_markets.Guard.Symbols.{is_empty}
use atlas_markets.Auth.{
  Crypto, User, AuthStore, AuthError, username_short, password_short, username_taken, email_taken,
  invalid_role, password_unreadable, user_created, login_attempt, admin_role, user_role,
  write_auth_audit,
}
use atlas_markets.Auth.Password.{hash_password, verify_password}

abbrev pub normalized : Text → Text
normalized text = lower (strip text)

abbrev pub named : Text → User → Bool
named username user = text_eq user.username username

abbrev pub has_email : Text → User → Bool
has_email email user = elim user.email [ none ↦ false | some e ↦ text_eq e email ]

-- The address that is stored: that of a missing or empty one is None.
abbrev pub stored_email : Option Text → Option Text
stored_email none = none
stored_email (some email) = if is_empty email then none else some (normalized email)

abbrev pub email_used : Option Text → List User → Bool
email_used none users = false
email_used (some email) users = any (has_email email) users

-- `actor` is the administrator who adds the user, `id` the key that the database draws and `salt`
-- what `secrets.token_bytes` gives.
unfoldable pub create_user :
    Crypto
    → AuthStore
    → ℕ
    → Text
    → Text
    → Text
    → Text
    → Option Text
    → Option ℕ
    → Answer AuthError AuthStore
unfolding hash_password
create_user crypto store id salt username password role email actor = do
  long_name ← require (not (ltb (length (normalized username)) 3)) username_short
  long_password ← require (not (ltb (length password) 12)) password_short
  new_name ← require (not (any (named (normalized username)) store.users)) username_taken
  new_email ← require (not (email_used (stored_email email) store.users)) email_taken
  known ← require (text_eq role admin_role || text_eq role user_role) invalid_role
  password_hash ← hash_password crypto salt password
  done (
      write_auth_audit user_created true actor (record store {
        users =
            record {
              id = id;
              username = normalized username;
              email = stored_email email;
              password_hash = password_hash;
              role = role;
              is_active = true;
            }
            ∷ store.users;
      }))

-- Whether the password is that of an active user; an error of `verify_password` is raised on.
abbrev pub checked : Crypto → User → Text → Answer AuthError Bool
checked crypto user password =
    if user.is_active
    then (elim (verify_password crypto password user.password_hash) [
      | none ↦ refused password_unreadable
      | some valid ↦ done valid
    ])
    else done false

unfoldable pub authenticate_user :
    Crypto → AuthStore → Text → Text → Answer AuthError (AuthStore × Option User)
unfolding verify_password
authenticate_user crypto store username password =
    elim (find (named (normalized username)) store.users) [
      | none ↦ done (write_auth_audit login_attempt false none store, none)
      | some user ↦ checked crypto user password >>= (λ valid. done (
        write_auth_audit login_attempt valid (some user.id) store,
        if valid then some user else none,
      ))
    ]
