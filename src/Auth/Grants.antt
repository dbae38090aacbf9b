-- ===== src/Auth/Grants.antt =====
-- What the table of sessions is for: which token signs which user in, and when.
use atlas_markets.Base.{
  ℕ, ◌+◌, ◌≡◌, refl, sym, ◌∙◌, true, false, not, ◌&&◌, ◌==◌, Option, none, some, List, [], ◌∷◌,
  find, leb, arith, Bool-cases, Option-cases, inl, inr, if◌then◌else◌,
}
use atlas_markets.Base.Text.{Text, text_eq, text_eq→eq}
use atlas_markets.Auth.{Crypto, User, UserSession, AuthStore}
use atlas_markets.Auth.Sessions.{
  has_hash, is_revoked, replace_first, revoked, running, hash_session_token, create_session,
  revoke_session,
}
use atlas_markets.Auth.Admin.{revoke_one, revoke_sessions}

-- The user that a token, by its hash, signs in at a time
abbrev pub Grants : Type 0
Grants = Text → ℕ → Option ℕ

abbrev pub grant : Text → ℕ → ℕ → Grants → Grants
grant hash id end grants other now =
    if text_eq hash other then (if leb end now then none else some id) else grants other now

abbrev pub withdraw : Text → Grants → Grants
withdraw hash grants other now = if text_eq hash other then none else grants other now

abbrev pub without : ℕ → Option ℕ → Option ℕ
without id none = none
without id (some user) = if user == id then none else some user

abbrev pub withdraw_user : ℕ → Grants → Grants
withdraw_user id grants other now = without id (grants other now)

-- The grants that the rows of the table stand for
abbrev pub granted : List UserSession → Grants
granted sessions hash now = running (find (has_hash hash) sessions) now

-- What the code does to the table: a sign-in, a sign-out, and the end of all sessions of a user.
pub data SessionEvent : Type 0 where
  opened : User → Text → ℕ → SessionEvent
  closed : Option User → Text → ℕ → SessionEvent
  cut_off : ℕ → ℕ → SessionEvent

module _ (crypto : Crypto) (secret : Text) (lifetime : ℕ) where
  unfoldable pub recorded : AuthStore → List SessionEvent → AuthStore
  unfolding create_session revoke_session
  recorded store [] = store
  recorded store (opened user token now ∷ events) =
      recorded (create_session crypto secret lifetime store user token now) events
  recorded store (closed user token now ∷ events) =
      recorded ((revoke_session crypto secret store token user now).0) events
  recorded store (cut_off id now ∷ events) =
      recorded (record store { sessions = revoke_sessions id now store.sessions }) events

  unfoldable pub specified : Grants → List SessionEvent → Grants
  specified grants [] = grants
  specified grants (opened user token now ∷ events) =
      specified (grant (hash_session_token crypto secret token) user.id (now + lifetime) grants)
        events
  specified grants (closed user token now ∷ events) =
      specified (withdraw (hash_session_token crypto secret token) grants) events
  specified grants (cut_off id now ∷ events) = specified (withdraw_user id grants) events

-- A row with one hash has another exactly when the hashes are the same.
has_hash-other :
    (hash other : Text) (session : UserSession)
    → has_hash hash session ≡ true
    → has_hash other session ≡ text_eq hash other
has_hash-other hash other session h = rw (text_eq→eq session.token_hash hash h) refl

find-replace_first_other :
    (hash other : Text) (new : UserSession) (rows : List UserSession)
    → text_eq hash other ≡ false
    → has_hash hash new ≡ true
    → find (has_hash other) (replace_first (has_hash hash) new rows) ≡ find (has_hash other) rows
find-replace_first_other hash other new [] differ h = refl
find-replace_first_other hash other new (x ∷ rows) differ h = elim (Bool-cases (has_hash hash x)) [
  | inl here ↦
      rw (here, has_hash-other hash other new h, has_hash-other hash other x here, differ) refl
  | inr not_here ↦ rw (not_here, find-replace_first_other hash other new rows differ h) refl
]

find-replace_first_same :
    (hash : Text) (new : UserSession) (rows : List UserSession) {session : UserSession}
    → find (has_hash hash) rows ≡ some session
    → has_hash hash new ≡ true
    → find (has_hash hash) (replace_first (has_hash hash) new rows) ≡ some new
find-replace_first_same hash new [] found h = cc
find-replace_first_same hash new (x ∷ rows) found h = elim (Bool-cases (has_hash hash x)) [
  | inl here ↦ rw (here, h) refl
  | inr not_here ↦
      rw (not_here, not_here) (find-replace_first_same hash new rows (rw not_here at found) h)
]

find-has_hash :
    (hash : Text) (rows : List UserSession) {session : UserSession}
    → find (has_hash hash) rows ≡ some session
    → has_hash hash session ≡ true
find-has_hash hash [] found = cc
find-has_hash hash (x ∷ rows) {session} found = elim (Bool-cases (has_hash hash x)) [
  | inl here ↦ let same : x ≡ session = ground arith in rw (sym same) here
  | inr not_here ↦ find-has_hash hash rows (rw not_here at found)
]

granted-create_session :
    (crypto : Crypto) (secret : Text) (lifetime : ℕ) (store : AuthStore) (user : User)
    (token : Text) (now : ℕ) (other : Text) (time : ℕ)
    → granted (create_session crypto secret lifetime store user token now).sessions other time
      ≡ grant
          (hash_session_token crypto secret token)
          user.id
          (now + lifetime)
          (granted store.sessions)
          other
          time
unfolding create_session
granted-create_session crypto secret lifetime store user token now other time =
    elim (Bool-cases (text_eq (hash_session_token crypto secret token) other)) [
      | inl same ↦ rw (same, create_session) refl
      | inr differ ↦ rw (differ, create_session) refl
    ]

revoke_one-hash :
    (id now : ℕ) (other : Text) (session : UserSession)
    → has_hash other (revoke_one id now session) ≡ has_hash other session
revoke_one-hash id now other session =
    elim (Bool-cases ((session.user_id == id) && not (is_revoked session))) [
      | inl cut ↦ rw cut refl
      | inr kept ↦ rw kept refl
    ]

running-revoke_one :
    (id now : ℕ) (session : UserSession) (time : ℕ)
    → running (some (revoke_one id now session)) time ≡ without id (running (some session) time)
running-revoke_one id now session time = elim (Bool-cases (is_revoked session)) [
  | inl over ↦ ground arith
  | inr open_yet ↦ elim (Bool-cases (session.user_id == id)) [
    | inl his ↦ ground arith
    | inr other ↦ ground arith
  ]
]

pub granted-revoke_sessions :
    (id now : ℕ) (rows : List UserSession) (other : Text) (time : ℕ)
    → granted (revoke_sessions id now rows) other time ≡ withdraw_user id (granted rows) other time
granted-revoke_sessions id now [] other time = refl
granted-revoke_sessions id now (x ∷ rows) other time = elim (Bool-cases (has_hash other x)) [
  | inl here ↦ rw (revoke_one-hash id now other x, here) (running-revoke_one id now x time)
  | inr not_here ↦
      rw (revoke_one-hash id now other x, not_here) (granted-revoke_sessions id now rows other time)
]

withdraw_idle :
    (hash : Text) (grants : Grants) (other : Text) (time : ℕ)
    → grants hash time ≡ none
    → grants other time ≡ withdraw hash grants other time
withdraw_idle hash grants other time idle = elim (Bool-cases (text_eq hash other)) [
  | inl same ↦ rw (same, sym (text_eq→eq hash other same)) idle
  | inr differ ↦ rw differ refl
]

granted-replace_first :
    (hash : Text) (rows : List UserSession) (session : UserSession) (now : ℕ) (other : Text)
    (time : ℕ)
    → find (has_hash hash) rows ≡ some session
    → granted (replace_first (has_hash hash) (revoked session now) rows) other time
      ≡ withdraw hash (granted rows) other time
granted-replace_first hash rows session now other time found =
    let of_hash = find-has_hash hash rows found in
    elim (Bool-cases (text_eq hash other)) [
      | inl same ↦
          rw
            (
              same,
              sym (text_eq→eq hash other same),
              find-replace_first_same hash (revoked session now) rows found of_hash,
            )
            refl
      | inr differ ↦
          rw (differ, find-replace_first_other hash other (revoked session now) rows differ of_hash)
            refl
    ]

granted-revoke_session :
    (crypto : Crypto) (secret : Text) (store : AuthStore) (token : Text) (user : Option User)
    (now : ℕ) (other : Text) (time : ℕ)
    → granted (revoke_session crypto secret store token user now).0.sessions other time
      ≡ withdraw (hash_session_token crypto secret token) (granted store.sessions) other time
unfolding revoke_session
granted-revoke_session crypto secret store token user now other time =
    let hash = hash_session_token crypto secret token in
    elim (Option-cases (find (has_hash hash) store.sessions)) [
      | inl unknown ↦
          rw (unknown, revoke_session)
            (withdraw_idle hash (granted store.sessions) other time (rw unknown refl))
      | inr (session, e) ↦ elim (Bool-cases (is_revoked session)) [
        | inl over ↦
            rw (e, over, revoke_session)
              (withdraw_idle hash (granted store.sessions) other time (rw (e, over) refl))
        | inr open_yet ↦
            rw (e, open_yet, revoke_session)
              (granted-replace_first hash store.sessions session now other time e)
      ]
    ]

-- Grants that agree at every token and time agree after the same events.
specified_cong :
    (crypto : Crypto) (secret : Text) (lifetime : ℕ) (events : List SessionEvent)
    (grants others : Grants)
    → ((hash : Text) (time : ℕ) → grants hash time ≡ others hash time)
    → (hash : Text) (time : ℕ)
    → specified crypto secret lifetime grants events hash time
      ≡ specified crypto secret lifetime others events hash time
unfolding specified
specified_cong crypto secret lifetime [] grants others same = same
specified_cong crypto secret lifetime (opened user token now ∷ events) grants others same =
    specified_cong crypto secret lifetime events _ _ (λ hash time. rw (same hash time) refl)
specified_cong crypto secret lifetime (closed user token now ∷ events) grants others same =
    specified_cong crypto secret lifetime events _ _ (λ hash time. rw (same hash time) refl)
specified_cong crypto secret lifetime (cut_off id now ∷ events) grants others same =
    specified_cong crypto secret lifetime events _ _ (λ hash time. rw (same hash time) refl)

-- The table of sessions implements the grants: after any sign-ins, sign-outs and ends of all
-- sessions of a user, a token signs in, at each time, the user that it does after the same events
-- on the grants themselves.
pub recorded-specified :
    (crypto : Crypto) (secret : Text) (lifetime : ℕ) (store : AuthStore)
    (events : List SessionEvent) (hash : Text) (time : ℕ)
    → granted (recorded crypto secret lifetime store events).sessions hash time
      ≡ specified crypto secret lifetime (granted store.sessions) events hash time
unfolding recorded specified
recorded-specified crypto secret lifetime store [] hash time = refl
recorded-specified crypto secret lifetime store (opened user token now ∷ events) hash time =
    let next = create_session crypto secret lifetime store user token now in
    recorded-specified crypto secret lifetime next events hash time
    ∙ specified_cong crypto secret lifetime events (granted next.sessions) _
        (granted-create_session crypto secret lifetime store user token now) hash time
recorded-specified crypto secret lifetime store (closed user token now ∷ events) hash time =
    let next = (revoke_session crypto secret store token user now).0 in
    recorded-specified crypto secret lifetime next events hash time
    ∙ specified_cong crypto secret lifetime events (granted next.sessions) _
        (granted-revoke_session crypto secret store token user now) hash time
recorded-specified crypto secret lifetime store (cut_off id now ∷ events) hash time =
    let next = record store { sessions = revoke_sessions id now store.sessions } in
    recorded-specified crypto secret lifetime next events hash time
    ∙ specified_cong crypto secret lifetime events (granted next.sessions) _
        (granted-revoke_sessions id now store.sessions) hash time
