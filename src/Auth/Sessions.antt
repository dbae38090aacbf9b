-- ===== src/Auth/Sessions.antt =====
-- The sessions of app/services/auth.py, app/api/dependencies.py, and `login`, `me` and `logout` of
-- app/api/routes_auth.py. Times are natural numbers of one unit.
use atlas_markets.Base.{
  ℕ, ◌+◌, Bool, true, false, Option, none, some, List, [], ◌∷◌, find, leb, if◌then◌else◌,
}
use atlas_markets.Base.Text.{Text, codes, text_eq, lower}
use atlas_markets.Base.Answer.{Answer, done, refused, ◌>>=◌, require, or_refuse}
use atlas_markets.Auth.{
  Crypto, User, UserSession, AuthStore, AuthError, authentication_required, session_invalid,
  admin_required, login_success, logged_out, is_admin, with_id, write_auth_audit,
}
use atlas_markets.Auth.Users.{authenticate_user}

abbrev pub has_hash : Text → UserSession → Bool
has_hash hash session = text_eq session.token_hash hash

abbrev pub is_revoked : UserSession → Bool
is_revoked session = elim session.revoked_at [ none ↦ false | some at ↦ true ]

-- The first row that the test holds of becomes the given one.
abbrev pub replace_first : {A : Type 0} → (A → Bool) → A → List A → List A
replace_first p new [] = []
replace_first p new (x ∷ xs) =
    let rest = replace_first p new xs in if p x then new ∷ xs else x ∷ rest

abbrev pub revoked : UserSession → ℕ → UserSession
revoked session now = record session { revoked_at = some now }

-- The user of a session that is neither revoked nor expired
abbrev pub running : Option UserSession → ℕ → Option ℕ
running none now = none
running (some session) now =
    if is_revoked session
    then none
    else if leb session.expires_at now
    then none
    else some session.user_id

abbrev pub active_user : List User → Option ℕ → Option User
active_user users none = none
active_user users (some id) = elim (find (with_id id) users) [
  | none ↦ none
  | some user ↦ if user.is_active then some user else none
]

abbrev pub closed_by : Option User → UserSession → ℕ
closed_by none session = session.user_id
closed_by (some user) session = user.id

-- `secret` is the session secret. For a new session, `lifetime` is how long it lasts and `token`
-- what `generate_session_token` draws.
module _ (crypto : Crypto) (secret : Text) where
  abbrev pub hash_session_token : Text → Text
  hash_session_token token = crypto.hmac_hex secret token

  unfoldable pub create_session : ℕ → AuthStore → User → Text → ℕ → AuthStore
  create_session lifetime store user token now =
      write_auth_audit login_success true (some user.id) (record store {
        sessions =
            record {
              user_id = user.id;
              token_hash = hash_session_token token;
              expires_at = now + lifetime;
              revoked_at = none;
            }
            ∷ store.sessions;
      })

  unfoldable pub get_user_for_token : AuthStore → Text → ℕ → Option User
  get_user_for_token store token now =
      active_user store.users
        (running (find (has_hash (hash_session_token token)) store.sessions) now)

  -- With whether a session was revoked
  unfoldable pub revoke_session : AuthStore → Text → Option User → ℕ → AuthStore × Bool
  revoke_session store token user now =
      elim (find (has_hash (hash_session_token token)) store.sessions) [
        | none ↦ (store, false)
        | some session ↦ if is_revoked session then (store, false) else (
          write_auth_audit logged_out true (some (closed_by user session)) (record store {
            sessions =
                replace_first (has_hash (hash_session_token token)) (revoked session now)
                  store.sessions;
          }),
          true,
        )
      ]

  -- The scheme and the credentials of the request's header
  unfoldable pub get_current_user : AuthStore → Option (Text × Text) → ℕ → Answer AuthError User
  unfolding get_user_for_token
  get_current_user store none now = refused authentication_required
  get_current_user store (some (scheme, token)) now = do
    bearer ← require (text_eq (lower scheme) (codes "bearer")) authentication_required
    or_refuse (get_user_for_token store token now) session_invalid

  unfoldable pub require_admin : AuthStore → Option (Text × Text) → ℕ → Answer AuthError User
  unfolding get_current_user
  require_admin store credentials now = do
    user ← get_current_user store credentials now
    admin ← require (is_admin user) admin_required
    done user

  unfoldable pub signed_in : ℕ → AuthStore → Option User → Text → ℕ → AuthStore × Option User
  unfolding create_session
  signed_in lifetime store none token now = (store, none)
  signed_in lifetime store (some user) token now =
      (create_session lifetime store user token now, some user)

  -- Without a user, the request is answered as unauthorized; the attempt is recorded all the same.
  unfoldable pub login :
      ℕ → AuthStore → Text → Text → Text → ℕ → Answer AuthError (AuthStore × Option User)
  unfolding authenticate_user signed_in
  login lifetime store username password token now = do
    (tried, user) ← authenticate_user crypto store username password
    done (signed_in lifetime tried user token now)

  unfoldable pub logout : AuthStore → Option (Text × Text) → ℕ → Answer AuthError AuthStore
  unfolding get_current_user revoke_session
  logout store credentials now = do
    user ← get_current_user store credentials now
    (scheme, token) ← or_refuse credentials authentication_required
    done ((revoke_session store token (some user) now).0)
