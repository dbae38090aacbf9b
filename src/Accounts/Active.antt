-- ===== src/Accounts/Active.antt =====
-- `activate` of app/api/routes_accounts.py: which account of an owner and provider is in use.
use atlas_markets.Base.{
  ℕ, ◌≡◌, refl, sym, true, false, ◌⊎◌, ◌&&◌, ◌==◌, List, [], ◌∷◌, map, All, Bool-cases, arith, inl,
  inr,
}
use atlas_markets.Base.Answer.{done, require, bind-done}
use atlas_markets.Accounts.{
  Account, Actor, Store, administrator_must_enable, not_connected, authorized_profile,
}
use atlas_markets.Accounts.Live.{connected}
use atlas_markets.Accounts.Lifecycle.{same_route, only_active, activate}

-- A row has another owner or provider, or is in use exactly when it is this account.
abbrev pub IsSettled : Account → Account → Type 0
IsSettled account a = (same_route account a ≡ false) ⊎ (a.is_active ≡ (a.id == account.id))

-- Of the accounts of this account's owner and provider, it is the one in use.
abbrev pub IsOnly : Account → List Account → Type 0
IsOnly account = All (IsSettled account)

map-All :
    (P : Account → Type 0) (f : Account → Account) (rows : List Account)
    → ((a : Account) → P (f a))
    → All P (map f rows)
map-All P f [] step = tt
map-All P f (a ∷ rows) step = (step a, map-All P f rows step)

only_active-IsSettled : (account a : Account) → IsSettled account (only_active account a)
only_active-IsSettled account a = elim (Bool-cases (a.id == account.id)) [
  | inl here ↦ inr (ground arith)
  | inr other ↦ elim (Bool-cases (same_route account a)) [
    | inl same ↦ inr (ground arith)
    | inr different ↦ inl (ground arith)
  ]
]

-- When the handler answers, the account that it was asked for is enabled and connected, every
-- account of the same owner and provider is in use exactly when it is that one, and the events are
-- as they were.
pub activate-IsOnly :
    (store : Store) (actor : Actor) (id : ℕ) {next : Store}
    → activate store actor id ≡ done next
    → (account : Account) × (authorized_profile store actor id ≡ done account)
      × ((account.is_enabled && connected account) ≡ true)
      × IsOnly account next.accounts
      × (next.events ≡ store.events)
unfolding activate
activate-IsOnly store actor id {next} h =
    let (account, e1, h1) = bind-done (authorized_profile store actor id) _ h in
    let (u2, e2, h2) = bind-done (require account.is_enabled administrator_must_enable) _ h1 in
    let (u3, e3, h3) = bind-done (require (connected account) not_connected) _ h2 in
    let same : record store { accounts = map (only_active account) store.accounts } ≡ next =
      ground arith in
    (
      account,
      e1,
      ground arith,
      rw (sym same) (
          map-All (IsSettled account) (only_active account) store.accounts
            (only_active-IsSettled account)),
      rw (sym same) refl,
    )
