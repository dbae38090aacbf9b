-- ===== src/Accounts.antt =====
-- The broker accounts: app/services/live_execution.py, app/api/routes_account_lifecycle.py, and the
-- handlers of app/api/routes_accounts.py and app/api/routes_bybit_environment.py that change
-- whether an account is active or armed for live money.
pub mod Live
pub mod Lifecycle
pub mod Audit
pub mod Active
use atlas_markets.Base.{
  ℕ, ◌≡◌, refl, Bool, true, false, not, ◌&&◌, ◌||◌, ◌==◌, Option, none, some, List, [], ◌∷◌, find,
  map, if◌then◌else◌, inl, inr, ◌⊎◌,
}
use atlas_markets.Base.Answer.{Answer, done, refused, ◌>>=◌, require}
use atlas_markets.Base.Text.{Text, codes, text_eq}

-- A row of `broker_profiles`: the columns that decide what these handlers do. `has_keys` says that
-- the encrypted key and secret are filled. The balances and the times of the last test and
-- synchronization are left out.
pub record Account : Type 0 where
  pub id : ℕ
  pub owner : ℕ
  pub provider : Text
  pub label : Text
  pub environment : Text
  pub is_enabled : Bool
  pub is_active : Bool
  pub live_enabled : Bool
  pub armed_at : Option ℕ
  pub expires_at : Option ℕ
  pub disarm_reason : Option Text
  pub certified : Bool
  pub buy_passed : Bool
  pub sell_passed : Bool
  pub status : Text
  pub credentials_configured : Bool
  pub has_keys : Bool
  pub open_positions : ℕ
  pub open_orders : ℕ
  pub created : ℕ

-- The signed-in user.
pub record Actor : Type 0 where
  pub id : ℕ
  pub admin : Bool

pub data LiveAction : Type 0 where
  armed disarmed auto_disarmed : LiveAction

-- A row of `live_execution_events`.
pub record LiveEvent : Type 0 where
  pub profile : ℕ
  pub actor : ℕ
  pub action : LiveAction
  pub armed_until : Option ℕ

-- The accounts, and the events with the newest first.
pub record Store : Type 0 where
  pub accounts : List Account
  pub events : List LiveEvent

pub data Refusal : Type 0 where
  account_not_found account_access_denied admin_role_required : Refusal
  market_data_only live_trading_blocked safety_unsatisfied confirmation_required : Refusal
  administrator_must_provision administrator_must_enable not_connected : Refusal
  positions_open credentials_missing no_environment many_environments unreadable : Refusal

abbrev pub has_id : ℕ → Account → Bool
has_id id account = account.id == id

-- `_authorized_profile` and `_profile`
unfoldable pub authorized_profile : Store → Actor → ℕ → Answer Refusal Account
authorized_profile store actor id = elim (find (has_id id) store.accounts) [
  | none ↦ refused account_not_found
  | some account ↦
      if text_eq account.provider (codes "ATLAS_PAPER")
      then refused account_not_found
      else if not actor.admin && not (account.owner == actor.id)
      then refused account_access_denied
      else done account
]

-- `admin_bridge_required`
abbrev pub admin_bridge_required : Actor → Account → Answer Refusal (Unit {0})
admin_bridge_required actor account =
    require
      (not (text_eq account.provider (codes "IBKR") || text_eq account.provider (codes "MT5"))
        || actor.admin)
      administrator_must_provision

-- The row with this id becomes the given one.
abbrev pub put : Account → List Account → List Account
put account = map (λ a. if a.id == account.id then account else a)
