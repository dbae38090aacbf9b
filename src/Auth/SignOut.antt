-- ===== src/Auth/SignOut.antt =====
-- A user whose password an administrator resets is signed out.
use atlas_markets.Base.{
  ℕ, ◌≡◌, refl, sym, ◌∙◌, true, false, ◌==◌, Option, none, some, List, [], ◌∷◌, find, arith,
  Bool-cases, Option-cases, inl, inr,
}
use atlas_markets.Base.Text.{Text}
use atlas_markets.Base.Answer.{done, bind-done, or_refuse, or_refuse-done}
use atlas_markets.Auth.{Crypto, User, AuthStore, user_not_found, with_id}
use atlas_markets.Auth.Password.{hash_password}
use atlas_markets.Auth.Sessions.{hash_session_token, get_user_for_token, active_user}
use atlas_markets.Auth.Admin.{revoke_sessions, reset_user_password}
use atlas_markets.Auth.Grants.{granted, without, granted-revoke_sessions}

find-with_id :
    (id : ℕ) (users : List User) {user : User}
    → find (with_id id) users ≡ some user
    → user.id == id ≡ true
find-with_id id [] found = cc
find-with_id id (x ∷ users) {user} found = elim (Bool-cases (with_id id x)) [
  | inl here ↦ let same : x ≡ user = ground arith in rw (sym same) here
  | inr not_here ↦ find-with_id id users (rw not_here at found)
]

active_user-with_id :
    (users : List User) (found : Option ℕ) {user : User}
    → active_user users found ≡ some user
    → (id : ℕ) × (found ≡ some id) × (user.id == id ≡ true)
active_user-with_id users none h = cc
active_user-with_id users (some id) {user} h = elim (Option-cases (find (with_id id) users)) [
  | inl unknown ↦ ground arith
  | inr (u, e) ↦ elim (Bool-cases u.is_active) [
    | inl active ↦
        let same : u ≡ user = ground arith in (id, refl, rw (sym same) (find-with_id id users e))
    | inr disabled ↦ ground arith
  ]
]

without-other :
    (id : ℕ) (found : Option ℕ) {user : ℕ} → without id found ≡ some user → user == id ≡ false
without-other id none h = cc
without-other id (some u) h = ground arith

-- When the handler has reset a password, no token signs that user in, at any time.
pub reset_user_password-signs_out :
    (crypto : Crypto) (secret : Text) (store : AuthStore) (admin : User) (id : ℕ)
    (salt password : Text) (now : ℕ) (token : Text) (time : ℕ) {next : AuthStore} {user : User}
    → reset_user_password crypto store admin id salt password now ≡ done next
    → get_user_for_token crypto secret next token time ≡ some user
    → user.id == id ≡ false
unfolding reset_user_password get_user_for_token
reset_user_password-signs_out crypto secret store admin id salt password now token time {next}
      {user} h k =
    let (target, e1, h1) =
      bind-done (or_refuse (find (with_id id) store.users) user_not_found) _ h in
    let (hash, e2, h2) = bind-done (hash_password crypto salt password) _ h1 in
    let token_hash = hash_session_token crypto secret token in
    let rows : revoke_sessions target.id now store.sessions ≡ next.sessions = ground arith in
    let cut : granted next.sessions token_hash time
        ≡ without target.id (granted store.sessions token_hash time) =
      rw (sym rows) (granted-revoke_sessions target.id now store.sessions token_hash time) in
    let found : find (with_id id) store.users ≡ some target =
      or_refuse-done (find (with_id id) store.users) user_not_found e1 in
    let (u, is_u, of_user) =
      active_user-with_id next.users (granted next.sessions token_hash time) k in
    let other = without-other target.id (granted store.sessions token_hash time) (sym cut ∙ is_u) in
    let of_target = find-with_id id store.users found in ground arith
