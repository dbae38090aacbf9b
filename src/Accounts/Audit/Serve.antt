-- ===== src/Accounts/Audit/Serve.antt =====
-- Sequences of requests for accounts, and the accounts that are found armed after them.
use atlas_markets.Base.{
  ℕ, ◌<◌, ◌≡◌, refl, Bool, true, false, ◌&&◌, Option, none, some, List, [], ◌∷◌, ◌++◌, find, All,
  find-All, arith,
}
use atlas_markets.Base.Answer.{done, concluded, concluded_keeps}
use atlas_markets.Accounts.{Account, Actor, armed, LiveEvent, Store, has_id}
use atlas_markets.Accounts.Live.{
  Blocker, arming_expired, block_if, no_blockers, live_execution_is_armed, live_execution_blockers,
  has_expired,
}
use atlas_markets.Accounts.Lifecycle.{
  Request, put_live, get_live, disconnect, toggle, delete, make_active, detect, handle, serve,
}
use atlas_markets.Accounts.Audit.{last_event, IsAudited, Inv, off-IsAudited}
use atlas_markets.Accounts.Audit.Handlers.{
  live_execution-Inv, status-Inv, disconnect-Inv, toggle-Inv, delete-Inv, activate-Inv, detect-Inv,
}

handle-Inv :
    (allow : Bool) (minute : ℕ) (store : Store) (actor : Actor) (request : Request) {next : Store}
    → Inv store
    → handle allow minute store actor request ≡ done next
    → Inv next
unfolding handle
handle-Inv allow minute store actor (put_live id update now) inv h =
    live_execution-Inv allow minute store actor id update now inv h
handle-Inv allow minute store actor (get_live id now) inv h = status-Inv store actor id now inv h
handle-Inv allow minute store actor (disconnect id) inv h = disconnect-Inv store actor id inv h
handle-Inv allow minute store actor (toggle id) inv h = toggle-Inv store actor id inv h
handle-Inv allow minute store actor (delete id) inv h = delete-Inv store actor id inv h
handle-Inv allow minute store actor (make_active id) inv h = activate-Inv store actor id inv h
handle-Inv allow minute store actor (detect id successes) inv h =
    detect-Inv store actor id successes inv h

serve-Inv :
    (allow : Bool) (minute : ℕ) (store : Store) (requests : List (Actor × Request))
    → Inv store
    → Inv (serve allow minute store requests)
unfolding serve
serve-Inv allow minute store [] inv = inv
serve-Inv allow minute store ((actor, request) ∷ rest) inv =
    serve-Inv allow minute (concluded store (handle allow minute store actor request)) rest (
      concluded_keeps Inv store (handle allow minute store actor request)
        (λ next h. handle-Inv allow minute store actor request inv h) inv)

no_blockers-append :
    (xs ys : List Blocker) → no_blockers (xs ++ ys) ≡ (no_blockers xs && no_blockers ys)
no_blockers-append [] ys = refl
no_blockers-append (x ∷ xs) ys = refl

clear-running :
    (now : ℕ) (expiry : Option ℕ) {e : ℕ}
    → expiry ≡ some e
    → no_blockers (block_if (has_expired now expiry) arming_expired) ≡ true
    → now < e
clear-running now none h clear = cc
clear-running now (some x) {e} h clear = ground arith

no-blockers-running :
    (account : Account) (now e : ℕ)
    → account.expires_at ≡ some e
    → no_blockers (live_execution_blockers account now) ≡ true
    → now < e
unfolding live_execution_blockers
no-blockers-running account now e expiry clear =
    clear-running now account.expires_at expiry (ground (arith, simp no_blockers-append at clear))

-- Of accounts of which none is switched on for live money, whatever requests users have then made of
-- the handlers for accounts: when an account is found armed at a time, its last event in the log is an
-- arming that names an end later than that time.
pub serve-armed :
    (allow_live_trading : Bool) (minute : ℕ) (store : Store) (requests : List (Actor × Request))
    (id now : ℕ) (account : Account)
    → All (λ a. a.live_enabled ≡ false) store.accounts
    → find (has_id id) (serve allow_live_trading minute store requests).accounts ≡ some account
    → live_execution_is_armed account now ≡ true
    → (event : LiveEvent) × (e : ℕ) × (last_event account.id
          (serve allow_live_trading minute store requests).events
        ≡ some event)
      × (event.action ≡ armed)
      × (event.armed_until ≡ some e)
      × (now < e)
unfolding live_execution_is_armed
serve-armed allow minute store requests id now account off found is_armed =
    let inv = serve-Inv allow minute store requests (All-off store.events store.accounts off) in
    let audited = find-All _ (has_id id) _ inv found in
    let on : account.live_enabled ≡ true = ground arith in
    let clear : no_blockers (live_execution_blockers account now) ≡ true = ground arith in
    let (event, e, last, arming, until, expiry) = audited on in
    (event, e, last, arming, until, no-blockers-running account now e expiry clear)
  where
    All-off :
        (events : List LiveEvent) (rows : List Account)
        → All (λ a. a.live_enabled ≡ false) rows
        → All (IsAudited events) rows
    All-off events [] tt = tt
    All-off events (a ∷ rows) (h, rest) = (off-IsAudited events a h, All-off events rows rest)
