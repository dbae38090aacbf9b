-- ===== src/Accounts/Lifecycle.antt =====
-- app/api/routes_account_lifecycle.py, `activate` of app/api/routes_accounts.py and
-- `detect_bybit_environment` of app/api/routes_bybit_environment.py.
use atlas_markets.Base.{
  ℕ, Bool, true, false, not, ◌&&◌, ◌||◌, ◌==◌, Option, none, some, List, [], ◌∷◌, map, keep, find,
  ltb, if◌then◌else◌,
}
use atlas_markets.Base.Text.{Text, codes, text_eq}
use atlas_markets.Base.Answer.{concluded, Answer, done, refused, ◌>>=◌, require, or_refuse}
use atlas_markets.Accounts.{
  Account, Actor, auto_disarmed, Store, Refusal, account_not_found, account_access_denied, has_id,
  administrator_must_enable, not_connected, positions_open, credentials_missing, no_environment,
  many_environments, unreadable, authorized_profile, admin_bridge_required, put,
}
use atlas_markets.Accounts.Live.{
  connected, disarm_live_execution, record_event, LiveUpdate, live_execution, live_execution_status,
}

-- `order_by(created_at.desc())`, first row; among equals the database's order decides.
abbrev pub newest : List Account → Option Account
newest [] = none
newest (a ∷ rows) = elim (newest rows) [
  | none ↦ some a
  | some b ↦ some (if ltb a.created b.created then b else a)
]

abbrev pub is_replacement : Account → Account → Bool
is_replacement account a =
    (a.owner == account.owner)
    && text_eq a.provider account.provider
    && not (text_eq a.provider (codes "ATLAS_PAPER"))
    && not (a.id == account.id)
    && a.is_enabled
    && connected a

unfoldable pub replacement : Account → List Account → Option Account
replacement account rows = newest (keep (is_replacement account) rows)

abbrev pub activated : Account → Account
activated a = record a { is_active = true }

-- `if replacement is not None: replacement.is_active = True`
abbrev pub promote : Option Account → List Account → List Account
promote none rows = rows
promote (some r) rows = put (activated r) rows

unfoldable pub disconnected : Account → Account
unfolding disarm_live_execution
disconnected account = record (disarm_live_execution account (codes "Account disconnected")) {
  is_enabled = false;
  is_active = false;
  has_keys = false;
  credentials_configured = false;
  status = codes "DISCONNECTED";
  open_positions = 0;
  open_orders = 0;
}

abbrev pub with_replacement : Account → Store → Store
with_replacement account store = record store {
  accounts = promote (replacement account store.accounts) store.accounts;
}

unfoldable pub disconnect_account : Store → Actor → ℕ → Answer Refusal Store
unfolding authorized_profile disconnected replacement
disconnect_account store actor id = do
  account ← authorized_profile store actor id
  allowed ← admin_bridge_required actor account
  done (with_replacement account (record_event store actor (disconnected account) auto_disarmed))

unfoldable pub switched_off : Account → Account
unfolding disarm_live_execution
switched_off account = record (disarm_live_execution account (codes "Account disabled")) {
  is_enabled = false;
  is_active = false;
}

unfoldable pub toggle_account : Store → Actor → ℕ → Answer Refusal Store
unfolding authorized_profile switched_off replacement
toggle_account store actor id = do
  account ← authorized_profile store actor id
  allowed ← require (account.is_enabled || actor.admin) administrator_must_enable
  done (
      if account.is_enabled
      then with_replacement account (record_event store actor (switched_off account) auto_disarmed)
      else record store { accounts = put (record account { is_enabled = true }) store.accounts })

unfoldable pub delete_account : Store → Actor → ℕ → Answer Refusal Store
unfolding authorized_profile replacement
delete_account store actor id = do
  account ← authorized_profile store actor id
  allowed ← admin_bridge_required actor account
  flat ← require ((account.open_positions == 0) && (account.open_orders == 0)) positions_open
  let next = if account.is_active then replacement account store.accounts else none
  let rest = keep (λ a. not (a.id == account.id)) store.accounts
  done (record store { accounts = promote next rest })

abbrev pub same_route : Account → Account → Bool
same_route account a = (a.owner == account.owner) && text_eq a.provider account.provider

-- The update of the owner's rows of the provider, and of the row itself.
abbrev pub only_active : Account → Account → Account
only_active account a =
    if a.id == account.id
    then record a { is_active = true }
    else if same_route account a
    then record a { is_active = false }
    else a

unfoldable pub activate : Store → Actor → ℕ → Answer Refusal Store
unfolding authorized_profile
activate store actor id = do
  account ← authorized_profile store actor id
  enabled ← require account.is_enabled administrator_must_enable
  online ← require (connected account) not_connected
  done (record store { accounts = map (only_active account) store.accounts })

-- An environment that authenticated, with whether the numbers of its wallet can be read.
abbrev pub reclassified : Account → Text → Account
reclassified account environment =
    let changed = not (text_eq account.environment environment) in
    record account {
      certified = account.certified && not changed;
      buy_passed = account.buy_passed && not changed;
      sell_passed = account.sell_passed && not changed;
      environment = environment;
      status = codes "CONNECTED";
      live_enabled = false;
      armed_at = none;
    }

abbrev pub single : List (Text × Bool) → Answer Refusal Text
single [] = refused no_environment
single ((environment, readable) ∷ []) = if readable then done environment else refused unreadable
single (a ∷ b ∷ rest) = refused many_environments

-- `_profile` of app/api/routes_bybit_environment.py
unfoldable pub bybit_profile : Store → Actor → ℕ → Answer Refusal Account
bybit_profile store actor id = do
  account ← or_refuse (find (has_id id) store.accounts) account_not_found
  bybit ← require (text_eq account.provider (codes "BYBIT")) account_not_found
  own ← require (actor.admin || (account.owner == actor.id)) account_access_denied
  keyed ← require (account.credentials_configured && account.has_keys) credentials_missing
  done account

unfoldable pub detect_bybit_environment :
    Store → Actor → ℕ → List (Text × Bool) → Answer Refusal Store
unfolding bybit_profile
detect_bybit_environment store actor id successes = do
  account ← bybit_profile store actor id
  environment ← single successes
  done (record store { accounts = put (reclassified account environment) store.accounts })

-- The requests of these handlers.
pub data Request : Type 0 where
  put_live : ℕ → LiveUpdate → ℕ → Request
  get_live : ℕ → ℕ → Request
  disconnect : ℕ → Request
  toggle : ℕ → Request
  delete : ℕ → Request
  make_active : ℕ → Request
  detect : ℕ → List (Text × Bool) → Request

module _ (allow_live_trading : Bool) (minute : ℕ) where
  unfoldable pub handle : Store → Actor → Request → Answer Refusal Store
  unfolding live_execution live_execution_status disconnect_account toggle_account delete_account
      activate detect_bybit_environment
  handle store actor (put_live id update now) =
      live_execution allow_live_trading minute store actor id update now
  handle store actor (get_live id now) = live_execution_status store actor id now
  handle store actor (disconnect id) = disconnect_account store actor id
  handle store actor (toggle id) = toggle_account store actor id
  handle store actor (delete id) = delete_account store actor id
  handle store actor (make_active id) = activate store actor id
  handle store actor (detect id successes) = detect_bybit_environment store actor id successes

  unfoldable pub serve : Store → List (Actor × Request) → Store
  unfolding handle
  serve store [] = store
  serve store ((actor, request) ∷ rest) = serve (concluded store (handle store actor request)) rest
