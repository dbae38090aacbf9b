-- ===== src/Accounts/Audit/Handlers.antt =====
-- Each handler for accounts keeps every arming in the event log.
use atlas_markets.Base.{
  ℕ, ◌+◌, ◌*◌, ◌≡◌, refl, sym, Bool, true, false, not, ◌&&◌, ◌||◌, ◌==◌, Option, none, some, List,
  map, keep, All, All-map, find-All, All-keep_of, arith, Bool-cases, if_either, inl, inr,
  if◌then◌else◌,
}
use atlas_markets.Base.Text.{Text, codes, mem_text}
use atlas_markets.Base.Answer.{done, require, bind-done}
use atlas_markets.Accounts.{
  Account, Actor, LiveAction, armed, auto_disarmed, Store, live_trading_blocked, safety_unsatisfied,
  confirmation_required, admin_role_required, market_data_only, administrator_must_enable,
  positions_open, not_connected, has_id, authorized_profile, admin_bridge_required, put,
}
use atlas_markets.Accounts.Live.{
  no_blockers, confirms, trading_providers, connected, live_execution_blockers,
  disarm_live_execution, LiveUpdate, arm, switched, record_event, live_execution, lapsed,
  live_execution_status,
}
use atlas_markets.Accounts.Lifecycle.{
  replacement, promote, disconnected, with_replacement, disconnect_account, switched_off,
  toggle_account, delete_account, only_active, same_route, activate, bybit_profile, reclassified,
  single, detect_bybit_environment,
}
use atlas_markets.Accounts.Audit.{
  IsAudited, Inv, itself, put-All, record_event-Inv, authorized-audited, promote-Inv,
  with_replacement-Inv,
}

arm-IsArmed :
    (allow : Bool) (minute : ℕ) (account : Account) (update : LiveUpdate) (now : ℕ) {b : Account}
    → arm allow minute account update now ≡ done b
    → (e : ℕ) × (b.expires_at ≡ some e)
unfolding arm
arm-IsArmed allow minute account update now {b} h =
    let (u1, e1, h1) = bind-done (require allow live_trading_blocked) _ h in
    let (u2, e2, h2) =
      bind-done (require (no_blockers (live_execution_blockers account now)) safety_unsatisfied) _
        h1 in
    let (u3, e3, h3) =
      bind-done (require (confirms account update.confirmation) confirmation_required) _ h2 in
    (now + update.duration_minutes * minute, ground arith)

switched-IsAudited :
    (allow : Bool) (minute : ℕ) (store : Store) (actor : Actor) (account : Account)
    (update : LiveUpdate) (now : ℕ) (change : Account × LiveAction)
    → switched allow minute account update now ≡ done change
    → IsAudited (record_event store actor change.0 change.1).events change.0
unfolding switched disarm_live_execution
switched-IsAudited allow minute store actor account update now (b, action) h on =
    elim (Bool-cases update.enabled) [
      | inr off ↦ ground arith
      | inl arming ↦
          let (a, e1, h1) = bind-done (arm allow minute account update now) _ (rw arming at h) in
          let (e, expiry) = arm-IsArmed allow minute account update now e1 in
          let same : a ≡ b = ground arith in
          let is_arming : action ≡ armed = ground arith in
          let at_b : b.expires_at ≡ some e = rw same at expiry in
          (
            record {
              profile = b.id;
              actor = actor.id;
              action = action;
              armed_until = b.expires_at;
            },
            e,
            rw (itself b.id) refl,
            is_arming,
            at_b,
            at_b,
          )
    ]

pub live_execution-Inv :
    (allow : Bool) (minute : ℕ) (store : Store) (actor : Actor) (id : ℕ) (update : LiveUpdate)
    (now : ℕ) {next : Store}
    → Inv store
    → live_execution allow minute store actor id update now ≡ done next
    → Inv next
unfolding live_execution switched disarm_live_execution
live_execution-Inv allow minute store actor id update now {next} inv h =
    let (u1, e1, h1) = bind-done (require actor.admin admin_role_required) _ h in
    let (account, e2, h2) = bind-done (authorized_profile store actor id) _ h1 in
    let (u3, e3, h3) =
      bind-done (require (mem_text account.provider trading_providers) market_data_only) _ h2 in
    let (change, e4, h4) = bind-done (switched allow minute account update now) _ h3 in
    let same : record_event store actor change.0 change.1 ≡ next = ground arith in
    rw (sym same) (
      record_event-Inv store actor change.0 change.1
        (switched-IsAudited allow minute store actor account update now change e4) inv)

pub status-Inv :
    (store : Store) (actor : Actor) (id now : ℕ) {next : Store}
    → Inv store
    → live_execution_status store actor id now ≡ done next
    → Inv next
unfolding live_execution_status disarm_live_execution
status-Inv store actor id now {next} inv h =
    let (account, e1, h1) = bind-done (authorized_profile store actor id) _ h in
    let off = disarm_live_execution account (codes "Automatic disarm: arming window expired") in
    let same : (if lapsed account now then record_event store actor off auto_disarmed else store)
        ≡ next =
      ground arith in
    rw (sym same) (
      if_either Inv (lapsed account now) (record_event store actor off auto_disarmed) store
        (λ over. record_event-Inv store actor off auto_disarmed (λ on. cc) inv) (λ running. inv))

pub disconnect-Inv :
    (store : Store) (actor : Actor) (id : ℕ) {next : Store}
    → Inv store
    → disconnect_account store actor id ≡ done next
    → Inv next
unfolding disconnect_account disconnected disarm_live_execution
disconnect-Inv store actor id {next} inv h =
    let (account, e1, h1) = bind-done (authorized_profile store actor id) _ h in
    let (u2, e2, h2) = bind-done (admin_bridge_required actor account) _ h1 in
    let after = record_event store actor (disconnected account) auto_disarmed in
    let same : with_replacement account after ≡ next = ground arith in
    rw (sym same) (
      with_replacement-Inv account after
        (record_event-Inv store actor (disconnected account) auto_disarmed (λ on. cc) inv))

pub toggle-Inv :
    (store : Store) (actor : Actor) (id : ℕ) {next : Store}
    → Inv store
    → toggle_account store actor id ≡ done next
    → Inv next
unfolding toggle_account switched_off disarm_live_execution
toggle-Inv store actor id {next} inv h =
    let (account, e1, h1) = bind-done (authorized_profile store actor id) _ h in
    let (u2, e2, h2) =
      bind-done (require (account.is_enabled || actor.admin) administrator_must_enable) _ h1 in
    let after = record_event store actor (switched_off account) auto_disarmed in
    let before = record store {
      accounts = put (record account { is_enabled = true }) store.accounts;
    } in
    let same : (if account.is_enabled then with_replacement account after else before) ≡ next =
      ground arith in
    let audited =
      find-All (IsAudited store.events) (has_id id) store.accounts inv
        (authorized-audited store actor id e1) in
    rw (sym same) (
      if_either Inv account.is_enabled (with_replacement account after) before
        (λ on.
          with_replacement-Inv account after
            (record_event-Inv store actor (switched_off account) auto_disarmed (λ live. cc) inv))
        (λ off.
          put-All (IsAudited store.events) (record account { is_enabled = true }) store.accounts
            audited inv))

pub delete-Inv :
    (store : Store) (actor : Actor) (id : ℕ) {next : Store}
    → Inv store
    → delete_account store actor id ≡ done next
    → Inv next
unfolding delete_account
delete-Inv store actor id {next} inv h =
    let (account, e1, h1) = bind-done (authorized_profile store actor id) _ h in
    let (u2, e2, h2) = bind-done (admin_bridge_required actor account) _ h1 in
    let (u3, e3, h3) =
      bind-done
        (require ((account.open_positions == 0) && (account.open_orders == 0)) positions_open) _
        h2 in
    let kept = keep (λ a. not (a.id == account.id)) store.accounts in
    let rest =
      All-keep_of (IsAudited store.events) (λ a. not (a.id == account.id)) store.accounts inv in
    let P : Option Account → Type 0 = λ r. All (IsAudited store.events) (promote r kept) in
    let same : record store {
      accounts =
          promote (if account.is_active then replacement account store.accounts else none) kept;
    }
        ≡ next =
      ground arith in
    rw (sym same) (
      if_either P account.is_active (replacement account store.accounts) none
        (λ was. promote-Inv store.events account store.accounts kept inv rest) (λ idle. rest))

pub activate-Inv :
    (store : Store) (actor : Actor) (id : ℕ) {next : Store}
    → Inv store
    → activate store actor id ≡ done next
    → Inv next
unfolding activate
activate-Inv store actor id {next} inv h =
    let (account, e1, h1) = bind-done (authorized_profile store actor id) _ h in
    let (u2, e2, h2) = bind-done (require account.is_enabled administrator_must_enable) _ h1 in
    let (u3, e3, h3) = bind-done (require (connected account) not_connected) _ h2 in
    let same : record store { accounts = map (only_active account) store.accounts } ≡ next =
      ground arith in
    rw (sym same) (
      All-map (IsAudited store.events) (IsAudited store.events) (only_active account) store.accounts
        (step account) inv)
  where
    step :
        (account x : Account)
        → IsAudited store.events x
        → IsAudited store.events (only_active account x)
    step account x px =
        if_either (IsAudited store.events) (x.id == account.id) (record x { is_active = true }) _
          (λ here. px)
          (λ other.
            if_either (IsAudited store.events) (same_route account x)
              (record x { is_active = false }) x (λ s. px) (λ d. px))

pub detect-Inv :
    (store : Store) (actor : Actor) (id : ℕ) (successes : List (Text × Bool)) {next : Store}
    → Inv store
    → detect_bybit_environment store actor id successes ≡ done next
    → Inv next
unfolding detect_bybit_environment
detect-Inv store actor id successes {next} inv h =
    let (account, e1, h1) = bind-done (bybit_profile store actor id) _ h in
    let (environment, e2, h2) = bind-done (single successes) _ h1 in
    let same : record store { accounts = put (reclassified account environment) store.accounts }
        ≡ next =
      ground arith in
    rw (sym same) (
      put-All (IsAudited store.events) (reclassified account environment) store.accounts (λ on. cc)
        inv)
