-- ===== src/Auth/Retain.antt =====
-- There is always an administrator who can sign in.
use atlas_markets.Base.{
  ℕ, ◌+◌, ◌≤◌, ◌≡◌, refl, sym, Bool, true, false, not, ◌&&◌, ◌||◌, ◌==◌, Option, none, some, List,
  [], ◌∷◌, find, length, any, ltb, arith, Bool-cases, Option-cases, inl, inr, ◌⊎◌, if◌then◌else◌,
}
use atlas_markets.Base.Text.{Text, text_eq}
use atlas_markets.Base.Answer.{
  done, require, or_refuse, concluded, bind-done, or_refuse-done, require-done, concluded_keeps,
}
use atlas_markets.Auth.{
  Crypto, User, AuthStore, user_not_found, last_admin, own_account, username_short, password_short,
  username_taken, email_taken, invalid_role, authentication_required, with_id, admin_role,
  user_role,
}
use atlas_markets.Auth.Password.{hash_password}
use atlas_markets.Auth.Users.{
  create_user, authenticate_user, normalized, named, stored_email, email_used, checked,
}
use atlas_markets.Auth.Sessions.{
  signed_in, replace_first, create_session, revoke_session, has_hash, hash_session_token,
  is_revoked, get_current_user, require_admin, login, logout,
}
use atlas_markets.Auth.Admin.{
  Role, as_admin, as_user, role_text, UserAdminPatch, active_admin, count, active_admin_count,
  disables, patched, would_lose_last, update_user, reset_user_password, add_user,
}
use atlas_markets.Auth.Run.{
  AuthRequest, post_login, post_logout, post_user, patch_user, post_reset, respond, run,
}

abbrev pub one_if : Bool → ℕ
one_if b = if b then 1 else 0

one_if_bound : (b : Bool) → one_if b ≤ 1
one_if_bound b = ground arith

-- A row that replaces another changes the count by the two rows alone.
count-replace_first :
    {A : Type 0} (p q : A → Bool) (new : A) (xs : List A) {t : A}
    → find p xs ≡ some t
    → count q (replace_first p new xs) + one_if (q t) ≡ count q xs + one_if (q new)
count-replace_first p q new [] h = cc
count-replace_first p q new (x ∷ xs) {t} h = elim (Bool-cases (p x)) [
  | inl here ↦ let same : x ≡ t = ground arith in rw (here, sym same) (ground arith)
  | inr other ↦ let rest = count-replace_first p q new xs (rw other at h) in ground arith
]

-- The guard of `update_user`: the row that is patched is no active administrator, or there is
-- another one, or it stays one.
would_lose_last-false :
    (store : AuthStore) (target : User) (payload : UserAdminPatch)
    → would_lose_last store target payload ≡ false
    → one_if (active_admin target) ≤ one_if (active_admin (patched payload target))
      ⊎ 2 ≤ active_admin_count store
unfolding would_lose_last patched
would_lose_last-false store target payload h = go payload.role payload.is_active h
  where
    go :
        (role : Option Role) (active : Option Bool)
        → would_lose_last store target (record { role = role; is_active = active }) ≡ false
        → one_if (active_admin target)
            ≤ one_if (active_admin (patched (record { role = role; is_active = active }) target))
          ⊎ 2 ≤ active_admin_count store
    go none none h = ground arith
    go none (some true) h = ground arith
    go none (some false) h = ground arith
    go (some as_admin) none h = ground arith
    go (some as_admin) (some true) h = ground arith
    go (some as_admin) (some false) h = ground arith
    go (some as_user) none h = ground arith
    go (some as_user) (some true) h = ground arith
    go (some as_user) (some false) h = ground arith

update_user-retains :
    (store : AuthStore) (admin : User) (id : ℕ) (payload : UserAdminPatch) (now : ℕ)
    {next : AuthStore}
    → update_user store admin id payload now ≡ done next
    → 1 ≤ active_admin_count store
    → 1 ≤ active_admin_count next
unfolding update_user
update_user-retains store admin id payload now {next} h one =
    let (target, e1, h1) =
      bind-done (or_refuse (find (with_id id) store.users) user_not_found) _ h in
    let (u2, e2, h2) =
      bind-done (require (not (would_lose_last store target payload)) last_admin) _ h1 in
    let (u3, e3, h3) =
      bind-done (require (not ((target.id == admin.id) && disables payload.is_active)) own_account)
        _ h2 in
    let users : replace_first (with_id id) (patched payload target) store.users ≡ next.users =
      ground arith in
    let kept : would_lose_last store target payload ≡ false =
      ground (arith, require-done (not (would_lose_last store target payload)) last_admin e2) in
    let counted =
      count-replace_first (with_id id) active_admin (patched payload target) store.users
        (or_refuse-done (find (with_id id) store.users) user_not_found e1) in
    rw (sym users) (elim (would_lose_last-false store target payload kept) [
      | inl stays ↦ omega (arith, counted, stays, one)
      | inr more ↦ omega (arith, counted, more, one_if_bound (active_admin target))
    ])

reset_user_password-retains :
    (crypto : Crypto) (store : AuthStore) (admin : User) (id : ℕ) (salt password : Text) (now : ℕ)
    {next : AuthStore}
    → reset_user_password crypto store admin id salt password now ≡ done next
    → 1 ≤ active_admin_count store
    → 1 ≤ active_admin_count next
unfolding reset_user_password
reset_user_password-retains crypto store admin id salt password now {next} h one =
    let (target, e1, h1) =
      bind-done (or_refuse (find (with_id id) store.users) user_not_found) _ h in
    let (hash, e2, h2) = bind-done (hash_password crypto salt password) _ h1 in
    let new = record target { password_hash = hash } in
    let users : replace_first (with_id id) new store.users ≡ next.users = ground arith in
    let counted =
      count-replace_first (with_id id) active_admin new store.users
        (or_refuse-done (find (with_id id) store.users) user_not_found e1) in
    rw (sym users) (omega (arith, counted, one))

create_user-users :
    (crypto : Crypto) (store : AuthStore) (id : ℕ) (salt username password role : Text)
    (email : Option Text) (actor : Option ℕ) {next : AuthStore}
    → create_user crypto store id salt username password role email actor ≡ done next
    → (user : User) × (next.users ≡ user ∷ store.users)
unfolding create_user
create_user-users crypto store id salt username password role email actor {next} h =
    let (u1, e1, h1) =
      bind-done (require (not (ltb (length (normalized username)) 3)) username_short) _ h in
    let (u2, e2, h2) = bind-done (require (not (ltb (length password) 12)) password_short) _ h1 in
    let (u3, e3, h3) =
      bind-done (require (not (any (named (normalized username)) store.users)) username_taken) _
        h2 in
    let (u4, e4, h4) =
      bind-done (require (not (email_used (stored_email email) store.users)) email_taken) _ h3 in
    let (u5, e5, h5) =
      bind-done (require (text_eq role admin_role || text_eq role user_role) invalid_role) _ h4 in
    let (hash, e6, h6) = bind-done (hash_password crypto salt password) _ h5 in
    (
      record {
        id = id;
        username = normalized username;
        email = stored_email email;
        password_hash = hash;
        role = role;
        is_active = true;
      },
      ground arith,
    )

add_user-retains :
    (crypto : Crypto) (store : AuthStore) (admin : User) (id : ℕ) (salt username password : Text)
    (role : Role) (email : Option Text) {next : AuthStore}
    → add_user crypto store admin id salt username password role email ≡ done next
    → 1 ≤ active_admin_count store
    → 1 ≤ active_admin_count next
unfolding add_user
add_user-retains crypto store admin id salt username password role email {next} h one =
    let (user, users) =
      create_user-users crypto store id salt username password (role_text role) email
        (some admin.id) h in
    rw users (ground arith)

authenticate_user-users :
    (crypto : Crypto) (store : AuthStore) (username password : Text) {tried : AuthStore}
    {user : Option User}
    → authenticate_user crypto store username password ≡ done (tried, user)
    → tried.users ≡ store.users
unfolding authenticate_user
authenticate_user-users crypto store username password {tried} {user} h =
    elim (Option-cases (find (named (normalized username)) store.users)) [
      | inl unknown ↦ ground arith
      | inr (u, e) ↦
          let (valid, e2, h2) =
            bind-done (checked crypto u password) _ (rw (e, authenticate_user) at h) in
          ground arith
    ]

signed_in-users :
    (crypto : Crypto) (secret : Text) (lifetime : ℕ) (store : AuthStore) (user : Option User)
    (token : Text) (now : ℕ)
    → (signed_in crypto secret lifetime store user token now).0.users ≡ store.users
unfolding signed_in create_session
signed_in-users crypto secret lifetime store none token now = refl
signed_in-users crypto secret lifetime store (some user) token now = refl

login-users :
    (crypto : Crypto) (secret : Text) (lifetime : ℕ) (store : AuthStore)
    (username password token : Text) (now : ℕ) {after : AuthStore} {user : Option User}
    → login crypto secret lifetime store username password token now ≡ done (after, user)
    → after.users ≡ store.users
unfolding login
login-users crypto secret lifetime store username password token now {after} {user} h =
    let ((tried, found), e1, h1) =
      bind-done (authenticate_user crypto store username password) _ h in
    let same = authenticate_user-users crypto store username password e1 in
    let kept = signed_in-users crypto secret lifetime tried found token now in ground arith

revoke_session-users :
    (crypto : Crypto) (secret : Text) (store : AuthStore) (token : Text) (user : Option User)
    (now : ℕ)
    → (revoke_session crypto secret store token user now).0.users ≡ store.users
unfolding revoke_session
revoke_session-users crypto secret store token user now =
    elim (Option-cases (find (has_hash (hash_session_token crypto secret token)) store.sessions)) [
      | inl unknown ↦ rw (unknown, revoke_session) refl
      | inr (session, e) ↦ elim (Bool-cases (is_revoked session)) [
        | inl over ↦ rw (e, over, revoke_session) refl
        | inr open_yet ↦ rw (e, open_yet, revoke_session) refl
      ]
    ]

logout-users :
    (crypto : Crypto) (secret : Text) (store : AuthStore) (credentials : Option (Text × Text))
    (now : ℕ) {after : AuthStore}
    → logout crypto secret store credentials now ≡ done after
    → after.users ≡ store.users
unfolding logout
logout-users crypto secret store credentials now {after} h =
    let (user, e1, h1) = bind-done (get_current_user crypto secret store credentials now) _ h in
    let ((scheme, token), e2, h2) =
      bind-done (or_refuse credentials authentication_required) _ h1 in
    let kept = revoke_session-users crypto secret store token (some user) now in ground arith

respond-retains :
    (crypto : Crypto) (secret : Text) (lifetime : ℕ) (store : AuthStore) (now : ℕ)
    (request : AuthRequest) {next : AuthStore}
    → respond crypto secret lifetime store now request ≡ done next
    → 1 ≤ active_admin_count store
    → 1 ≤ active_admin_count next
unfolding respond
respond-retains crypto secret lifetime store now (post_login username password token) {next} h one =
    let ((after, user), e, h1) =
      bind-done (login crypto secret lifetime store username password token now) _ h in
    let users = login-users crypto secret lifetime store username password token now e in
    let same : after ≡ next = ground arith in rw (sym same, users) one
respond-retains crypto secret lifetime store now (post_logout credentials) h one =
    rw (logout-users crypto secret store credentials now h) one
respond-retains crypto secret lifetime store now
      (post_user credentials id salt username password role email) h one =
    let (admin, e, h1) = bind-done (require_admin crypto secret store credentials now) _ h in
    add_user-retains crypto store admin id salt username password role email h1 one
respond-retains crypto secret lifetime store now (patch_user credentials id payload) h one =
    let (admin, e, h1) = bind-done (require_admin crypto secret store credentials now) _ h in
    update_user-retains store admin id payload now h1 one
respond-retains crypto secret lifetime store now (post_reset credentials id salt password) h one =
    let (admin, e, h1) = bind-done (require_admin crypto secret store credentials now) _ h in
    reset_user_password-retains crypto store admin id salt password now h1 one

-- Where there is an active administrator, there is one after any requests to sign in or out, and to
-- add, change or reset users, whoever sends them.
pub run-retains :
    (crypto : Crypto) (secret : Text) (lifetime : ℕ) (store : AuthStore)
    (requests : List (ℕ × AuthRequest))
    → 1 ≤ active_admin_count store
    → 1 ≤ active_admin_count (run crypto secret lifetime store requests)
unfolding run
run-retains crypto secret lifetime store [] one = one
run-retains crypto secret lifetime store ((now, request) ∷ rest) one =
    run-retains crypto secret lifetime
      (concluded store (respond crypto secret lifetime store now request)) rest
      (concluded_keeps (λ s. 1 ≤ active_admin_count s) store
        (respond crypto secret lifetime store now request)
        (λ next h. respond-retains crypto secret lifetime store now request h one) one)
