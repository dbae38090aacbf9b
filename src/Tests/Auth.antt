-- ===== src/Tests/Auth.antt =====
-- Runs of the requests for users and sessions, with a toy encoding and digest.
use atlas_markets.Base.{
  ℕ, ◌+◌, ◌-◌, ◌≤◌, ◌==◌, ◌≡◌, refl, ap, true, false, Option, none, some, List, [], ◌∷◌, ◌++◌, map,
  arith, if◌then◌else◌,
}
use atlas_markets.Base.Int.{pos}
use atlas_markets.Base.Text.{Text, codes, text_eq}
use atlas_markets.Base.Answer.{done, concluded}
use atlas_markets.Auth.{Crypto, User, AuthStore, admin_role, user_role}
use atlas_markets.Auth.Password.{
  hash_password, verify_password, IsBase64, NoDollar, dollar, iteration_text,
  verify_password-hash_password,
}
use atlas_markets.Auth.Sessions.{get_user_for_token}
use atlas_markets.Auth.Admin.{as_user, reset_user_password, active_admin_count}
use atlas_markets.Auth.Run.{AuthRequest, post_login, post_logout, patch_user, run}
use atlas_markets.Auth.Grants.{
  SessionEvent, opened, closed, cut_off, granted, recorded, specified, recorded-specified,
}
use atlas_markets.Auth.SignOut.{reset_user_password-signs_out}
use atlas_markets.Auth.Retain.{run-retains}

abbrev shifted : Text → Text
shifted = map (λ c. c + 37)

abbrev unshifted : Text → Text
unshifted = map (λ c. c - 37)

abbrev toy : Crypto
toy = record {
  pbkdf2 = λ password salt count. some (password ++ salt);
  hmac_hex = λ secret token. secret ++ token;
  b64encode = shifted;
  b64decode = λ text. some (unshifted text);
  read_int = λ text. if text_eq text iteration_text then some (pos 600000) else none;
}

unshifted-shifted : (s : Text) → unshifted (shifted s) ≡ s
unshifted-shifted [] = refl
unshifted-shifted (c ∷ s) =
    let here : (c + 37) - 37 ≡ c = omega arith in rw (here, unshifted-shifted s) refl

shifted-NoDollar : (s : Text) → NoDollar (shifted s)
shifted-NoDollar [] = tt
shifted-NoDollar (c ∷ s) = (ground arith, shifted-NoDollar s)

toy-IsBase64 : IsBase64 toy
toy-IsBase64 = (λ s. ap some (unshifted-shifted s), shifted-NoDollar, refl)

abbrev long : Text
long = codes "correct horse battery"

abbrev salt : Text
salt = codes "salt"

abbrev stored : Text
stored = codes "pbkdf2_sha256$600000$" ++ (shifted salt ++ (dollar ∷ shifted (long ++ salt)))

hashed : hash_password toy salt long ≡ done stored
unfolding hash_password
hashed = refl

verify_password-hash_password_example :
    (digest : Text) × (toy.pbkdf2 long salt (pos 600000) ≡ some digest)
    × (verify_password toy long stored ≡ some true)
    × (verify_password toy (codes "guess") stored ≡ some (text_eq (codes "guess" ++ salt) digest))
verify_password-hash_password_example =
    verify_password-hash_password toy toy-IsBase64 salt long (codes "guess") hashed refl

torn : verify_password toy long (codes "pbkdf2_sha256$600000$abc") ≡ some false
unfolding verify_password
torn = refl

abbrev root : User
root = record {
  id = 1;
  username = codes "root";
  email = none;
  password_hash = stored;
  role = admin_role;
  is_active = true;
}

abbrev alice : User
alice = record root { id = 2; username = codes "alice"; role = user_role }

abbrev store : AuthStore
store = record { users = root ∷ alice ∷ []; sessions = []; audit = [] }

abbrev key : Text
key = codes "key"

abbrev bearer : Text → Option (Text × Text)
bearer token = some (codes "Bearer", token)

abbrev requests : List (ℕ × AuthRequest)
requests =
    (10, post_login (codes " ROOT ") long (codes "r"))
    ∷ (11, post_login (codes "alice") long (codes "a"))
    ∷ (12, patch_user (bearer (codes "r")) 1 (record { role = some as_user; is_active = none }))
    ∷ (13, patch_user (bearer (codes "r")) 2 (record { role = none; is_active = some false }))
    ∷ (14, post_logout (bearer (codes "r")))
    ∷ []

-- The last administrator is not demoted, and the disabled user is signed out.
after_requests :
    (map (λ u. u.is_active) (run toy key 100 store requests).users ≡ true ∷ false ∷ [])
    × (map (λ s. s.revoked_at) (run toy key 100 store requests).sessions ≡ some 13 ∷ some 14 ∷ [])
    × (active_admin_count (run toy key 100 store requests) ≡ 1)
unfolding run
after_requests = (refl, refl, refl)

run-retains_example : 1 ≤ active_admin_count (run toy key 100 store requests)
run-retains_example = run-retains toy key 100 store requests (omega arith)

abbrev events : List SessionEvent
events =
    opened alice (codes "a") 5
    ∷ opened root (codes "r") 6
    ∷ closed none (codes "r") 7
    ∷ cut_off 2 8
    ∷ []

recorded-specified_example :
    granted (recorded toy key 100 store events).sessions (codes "keya") 9
    ≡ specified toy key 100 (granted []) events (codes "keya") 9
recorded-specified_example = recorded-specified toy key 100 store events (codes "keya") 9

abbrev both : AuthStore
both = recorded toy key 100 store (opened alice (codes "a") 5 ∷ opened root (codes "r") 6 ∷ [])

signed_in_before : get_user_for_token toy key both (codes "a") 50 ≡ some alice
unfolding get_user_for_token recorded
signed_in_before = refl

expired_after : get_user_for_token toy key both (codes "a") 105 ≡ none
unfolding get_user_for_token recorded
expired_after = refl

abbrev after_reset : AuthStore
after_reset = concluded both (reset_user_password toy both root 2 salt (codes "a new password") 20)

reset : reset_user_password toy both root 2 salt (codes "a new password") 20 ≡ done after_reset
unfolding reset_user_password recorded
reset = refl

cut_off_after : get_user_for_token toy key after_reset (codes "a") 50 ≡ none
unfolding get_user_for_token recorded reset_user_password
cut_off_after = refl

root_stays : get_user_for_token toy key after_reset (codes "r") 50 ≡ some root
unfolding get_user_for_token recorded reset_user_password
root_stays = refl

reset_user_password-signs_out_example : root.id == 2 ≡ false
reset_user_password-signs_out_example =
    reset_user_password-signs_out toy key both root 2 salt (codes "a new password") 20 (codes "r")
      50 reset root_stays
