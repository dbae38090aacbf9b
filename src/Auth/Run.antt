-- ===== src/Auth/Run.antt =====
-- The requests that change users and sessions, one after another: those of app/api/routes_auth.py
-- and app/api/routes_admin.py.
use atlas_markets.Base.{ℕ, Option, List, [], ◌∷◌}
use atlas_markets.Base.Text.{Text}
use atlas_markets.Base.Answer.{Answer, done, ◌>>=◌, concluded}
use atlas_markets.Auth.{Crypto, AuthStore, AuthError}
use atlas_markets.Auth.Sessions.{login, logout, require_admin}
use atlas_markets.Auth.Admin.{Role, UserAdminPatch, update_user, reset_user_password, add_user}

-- The header of a request
abbrev pub Credentials : Type 0
Credentials = Option (Text × Text)

-- What is drawn at random stands beside what the client sends: the token of a new session, the
-- salt of a stored password, the key of a new user.
pub data AuthRequest : Type 0 where
  post_login : Text → Text → Text → AuthRequest
  post_logout : Credentials → AuthRequest
  post_user : Credentials → ℕ → Text → Text → Text → Role → Option Text → AuthRequest
  patch_user : Credentials → ℕ → UserAdminPatch → AuthRequest
  post_reset : Credentials → ℕ → Text → Text → AuthRequest

module _ (crypto : Crypto) (secret : Text) (lifetime : ℕ) where
  unfoldable pub respond : AuthStore → ℕ → AuthRequest → Answer AuthError AuthStore
  unfolding login logout require_admin update_user reset_user_password add_user
  respond store now (post_login username password token) =
      login crypto secret lifetime store username password token now
      >>= (λ (after, user). done after)
  respond store now (post_logout credentials) = logout crypto secret store credentials now
  respond store now (post_user credentials id salt username password role email) =
      require_admin crypto secret store credentials now
      >>= (λ admin. add_user crypto store admin id salt username password role email)
  respond store now (patch_user credentials id payload) =
      require_admin crypto secret store credentials now
      >>= (λ admin. update_user store admin id payload now)
  respond store now (post_reset credentials id salt password) =
      require_admin crypto secret store credentials now
      >>= (λ admin. reset_user_password crypto store admin id salt password now)

  unfoldable pub run : AuthStore → List (ℕ × AuthRequest) → AuthStore
  unfolding respond
  run store [] = store
  run store ((now, request) ∷ rest) = run (concluded store (respond store now request)) rest
