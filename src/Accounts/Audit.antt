-- ===== src/Accounts/Audit.antt =====
-- Every arming for live money is one that the event log shows: the rows.
pub mod Handlers
pub mod Serve
use atlas_markets.Base.{
  ℕ, ◌+◌, ◌*◌, ◌<◌, ◌≡◌, refl, sym, Bool, true, false, not, ◌&&◌, ◌||◌, ◌==◌, Option, none, some,
  List, [], ◌∷◌, ◌++◌, map, keep, find, All, All-map, find-All, All-keep_of, arith, Bool-cases,
  if_either, Option-cases, inl, inr, ltb, if◌then◌else◌,
}
use atlas_markets.Base.Text.{Text, codes, mem_text}
use atlas_markets.Base.Answer.{done, require, bind-done, concluded, concluded_keeps}
use atlas_markets.Accounts.{
  Account, Actor, LiveAction, armed, auto_disarmed, LiveEvent, Store, live_trading_blocked,
  safety_unsatisfied, confirmation_required, admin_role_required, market_data_only,
  administrator_must_enable, positions_open, not_connected, has_id, authorized_profile,
  admin_bridge_required, put,
}
use atlas_markets.Accounts.Live.{
  Blocker, arming_expired, block_if, no_blockers, confirms, trading_providers, connected,
  live_execution_is_armed, live_execution_blockers, disarm_live_execution, LiveUpdate, arm,
  switched, record_event, live_execution, lapsed, live_execution_status, has_expired,
}
use atlas_markets.Accounts.Lifecycle.{
  newest, is_replacement, replacement, activated, promote, disconnected, with_replacement,
  disconnect_account, switched_off, toggle_account, delete_account, only_active, same_route,
  activate, bybit_profile, reclassified, single, detect_bybit_environment, Request, put_live,
  get_live, disconnect, toggle, delete, make_active, detect, handle, serve,
}

pub itself : (n : ℕ) → n == n ≡ true
itself n = ground arith

abbrev pub last_event : ℕ → List LiveEvent → Option LiveEvent
last_event id = find (λ event. event.profile == id)

-- An account that is switched on for live money was last armed, until its expiry.
abbrev pub IsAudited : List LiveEvent → Account → Type 0
IsAudited events a =
    a.live_enabled ≡ true
    → (event : LiveEvent) × (e : ℕ) × (last_event a.id events ≡ some event)
      × (event.action ≡ armed)
      × (event.armed_until ≡ some e)
      × (a.expires_at ≡ some e)

abbrev pub Inv : Store → Type 0
Inv store = All (IsAudited store.events) store.accounts

pub off-IsAudited :
    (events : List LiveEvent) (a : Account) → a.live_enabled ≡ false → IsAudited events a
off-IsAudited events a off on = cc

pub put-All :
    (P : Account → Type 0) (b : Account) (rows : List Account)
    → P b
    → All P rows
    → All P (put b rows)
put-All P b rows pb a = All-map P P (λ x. if x.id == b.id then b else x) rows step a
  where
    step : (x : Account) → P x → P (if x.id == b.id then b else x)
    step x px = if_either P (x.id == b.id) b x (λ here. pb) (λ other. px)

pub record_event-Inv :
    (store : Store) (actor : Actor) (b : Account) (action : LiveAction)
    → IsAudited (record_event store actor b action).events b
    → Inv store
    → Inv (record_event store actor b action)
record_event-Inv store actor b action audited inv =
    All-map (IsAudited store.events) (IsAudited (record_event store actor b action).events)
      (λ x. if x.id == b.id then b else x) store.accounts step inv
  where
    step :
        (x : Account)
        → IsAudited store.events x
        → IsAudited (record_event store actor b action).events (if x.id == b.id then b else x)
    step x px =
        if_either (IsAudited (record_event store actor b action).events) (x.id == b.id) b x
          (λ here. audited)
          (λ other on.
            let (event, e, found, is_arming, until, expiry) = px on in
            let skip : b.id == x.id ≡ false = ground arith in
            (event, e, rw skip found, is_arming, until, expiry))

pub authorized-audited :
    (store : Store) (actor : Actor) (id : ℕ) {a : Account}
    → authorized_profile store actor id ≡ done a
    → find (has_id id) store.accounts ≡ some a
unfolding authorized_profile
authorized-audited store actor id {a} h = elim (Option-cases (find (has_id id) store.accounts)) [
  | inl gone ↦ ground arith
  | inr (b, e) ↦ ground arith
]

newest-All :
    (P : Account → Type 0) (rows : List Account) {r : Account}
    → All P rows
    → newest rows ≡ some r
    → P r
newest-All P [] a h = cc
newest-All P (x ∷ rows) {r} (px, a) h = elim (Option-cases (newest rows)) [
  | inl e ↦ let same : x ≡ r = ground arith in rw (sym same) px
  | inr (b, e) ↦
      let same : (if ltb x.created b.created then b else x) ≡ r = ground arith in
      rw (sym same)
        (if_either P (ltb x.created b.created) b x (λ later. newest-All P rows a e) (λ first. px))
]

pub promote-Inv :
    (events : List LiveEvent) (account : Account) (rows others : List Account)
    → All (IsAudited events) rows
    → All (IsAudited events) others
    → All (IsAudited events) (promote (replacement account rows) others)
unfolding replacement
promote-Inv events account rows others a b =
    elim (Option-cases (newest (keep (is_replacement account) rows))) [
      | inl none_left ↦ rw none_left b
      | inr (r, e) ↦
          let audited =
            newest-All (IsAudited events) (keep (is_replacement account) rows)
              (All-keep_of (IsAudited events) (is_replacement account) rows a) e in
          rw e (put-All (IsAudited events) (activated r) others audited b)
    ]

pub with_replacement-Inv :
    (account : Account) (store : Store) → Inv store → Inv (with_replacement account store)
with_replacement-Inv account store inv =
    promote-Inv store.events account store.accounts store.accounts inv inv
