-- ===== src/Automation/Route.antt =====
-- `automation_certification_blocker` and `_entry_authorization_blocker` of
-- app/services/safe_automation.py.
use atlas_markets.Base.{
  ℕ, ◌≡◌, refl, Bool, true, false, not, ◌&&◌, ◌||◌, ◌==◌, Option, none, some, List, [], ◌∷◌, any,
  find, inl, inr, arith, if◌then◌else◌, Option-cases,
}
use atlas_markets.Base.Text.{Text, codes, text_eq, upper, text_eq→eq}
use atlas_markets.Rows.{Profile}
use atlas_markets.Access.Owner.{Tables, active_owner}

pub data Reason : Type 0 where
  bybit_testnet_or_demo_required ibkr_paper_only_certified route_not_certified : Reason
  account_owner_disabled ibkr_profile_required kill_switch engine_disabled : Reason
  simulation_execution_disabled auto_trade_not_enabled profile_ownership_mismatch : Reason
  route_not_ready profile_not_found pending_submission invalid_order_proposal : Reason
  saved_protection_levels_invalid fractional_api_unsupported paper_bridge_required : Reason
  protection_bridge_upgrade_required symbol_already_has_position : Reason
  existing_position_unprotected symbol_already_has_open_order timeframe_required : Reason
  market_data_rejected broker_whatif_rejected broker_order_rejected : Reason
  protection_required mt5_demo_server_required mt5_algo_trading_disabled : Reason
  broker_preflight_rejected : Reason
  submission_unresolved order_id_missing order_cancelled fill_not_confirmed : Reason

-- A row of `symbol_strategies` and the row of `automation_states`.
pub record Config : Type 0 where
  pub id : ℕ
  pub user : ℕ
  pub profile : ℕ
  pub market : Text
  pub symbol : Text
  pub mode : Text
  pub enabled : Bool
  pub timeframe : Option Text

pub record Engine : Type 0 where
  pub enabled : Bool
  pub killed : Bool
  pub auto_execute_paper : Bool

-- The database as one check reads it.
pub record World : Type 0 where
  pub tables : Tables
  pub configs : List Config
  pub engine : Engine

abbrev pub config_by_id : ℕ → List Config → Option Config
config_by_id id = find (λ config. config.id == id)

abbrev pub ibkr : Text
ibkr = codes "IBKR"

abbrev pub paper : Text
paper = codes "PAPER"

abbrev pub auto_trade : Text
auto_trade = codes "AUTO_TRADE"

abbrev certified_routes : List (Text × Text)
certified_routes =
    (codes "MT5", codes "DEMO")
    ∷ (ibkr, paper)
    ∷ (codes "BYBIT", codes "TESTNET")
    ∷ (codes "BYBIT", codes "DEMO")
    ∷ []

unfoldable pub automation_certification_blocker : Text → Text → Option Reason
automation_certification_blocker provider environment =
    if any (λ route. text_eq (upper provider) route.0 && text_eq (upper environment) route.1)
      certified_routes
    then none
    else if text_eq (upper provider) (codes "BYBIT")
    then some bybit_testnet_or_demo_required
    else if text_eq (upper provider) ibkr
    then some ibkr_paper_only_certified
    else some route_not_certified

abbrev pub is_ready : Profile → Bool
is_ready profile =
    profile.is_enabled && profile.is_active && profile.credentials_configured && profile.connected

-- `db.refresh` raises for a row that is gone.
pub data Verdict : Type 0 where
  cleared : Verdict
  blocked : Reason → Verdict
  raised : Verdict

abbrev pub verdict : Option Reason → Verdict
verdict none = cleared
verdict (some reason) = blocked reason

verdict-cleared : (r : Option Reason) → verdict r ≡ cleared → r ≡ none
verdict-cleared none h = refl
verdict-cleared (some reason) h = cc

unfoldable pub authorize : World → Profile → Config → Option Reason
unfolding active_owner automation_certification_blocker
authorize world profile config =
    if not (active_owner world.tables profile.user)
    then some account_owner_disabled
    else if not (text_eq profile.provider ibkr)
    then some ibkr_profile_required
    else if world.engine.killed
    then some kill_switch
    else if not world.engine.enabled
    then some engine_disabled
    else if not world.engine.auto_execute_paper
    then some simulation_execution_disabled
    else if not config.enabled
        || not (text_eq config.mode auto_trade)
        || not (config.profile == profile.id)
    then some auto_trade_not_enabled
    else if not (profile.user == config.user)
    then some profile_ownership_mismatch
    else if not (is_ready profile)
    then some route_not_ready
    else automation_certification_blocker profile.provider profile.environment

-- The rows of the profile and of the configuration are read again by their ids.
unfoldable pub entry_authorization_blocker : World → ℕ → ℕ → Verdict
unfolding authorize
entry_authorization_blocker world profile_id config_id = elim (world.tables.profiles profile_id) [
  | none ↦ raised
  | some profile ↦ elim (config_by_id config_id world.configs) [
    | none ↦ raised
    | some config ↦ verdict (authorize world profile config)
  ]
]

-- What the database says where the check clears an entry.
pub record IsAuthorized (world : World) (profile : Profile) (config : Config) : Type 0 where
  pub owner : active_owner world.tables profile.user ≡ true
  pub provider : text_eq profile.provider ibkr ≡ true
  pub environment : text_eq (upper profile.environment) paper ≡ true
  pub running :
      (world.engine.enabled ≡ true)
      × (world.engine.killed ≡ false)
      × (world.engine.auto_execute_paper ≡ true)
  pub trading :
      (config.enabled ≡ true)
      × (text_eq config.mode auto_trade ≡ true)
      × (config.profile == profile.id ≡ true)
      × (profile.user == config.user ≡ true)
  pub ready : is_ready profile ≡ true

certified-ibkr :
    (provider environment : Text)
    → text_eq provider ibkr ≡ true
    → automation_certification_blocker provider environment ≡ none
    → text_eq (upper environment) paper ≡ true
unfolding automation_certification_blocker
certified-ibkr provider environment same h =
    let is_ibkr : provider ≡ ibkr = text_eq→eq provider ibkr same in
    let passes : automation_certification_blocker ibkr environment ≡ none = rw is_ibkr at h in
    ground arith

authorize-IsAuthorized :
    (world : World) (profile : Profile) (config : Config)
    → authorize world profile config ≡ none
    → IsAuthorized world profile config
unfolding authorize
authorize-IsAuthorized world profile config h = record {
  owner = ground arith;
  provider = ground arith;
  environment = certified-ibkr profile.provider profile.environment (ground arith) (ground arith);
  running = (ground arith, ground arith, ground arith);
  trading = (ground arith, ground arith, ground arith, ground arith);
  ready = ground arith;
}

-- An entry is cleared only on rows that say so: the owner is active, the profile is a connected
-- Paper account of Interactive Brokers, the engine runs and is not killed, and the configuration
-- is an enabled AUTO_TRADE one of the same user and profile.
pub entry_authorization_blocker-cleared :
    (world : World) (profile_id config_id : ℕ)
    → entry_authorization_blocker world profile_id config_id ≡ cleared
    → (profile : Profile) × (config : Config) × (world.tables.profiles profile_id ≡ some profile)
      × (config_by_id config_id world.configs ≡ some config)
      × IsAuthorized world profile config
unfolding entry_authorization_blocker
entry_authorization_blocker-cleared world profile_id config_id h =
    elim (Option-cases (world.tables.profiles profile_id)) [
      | inl gone ↦ ground arith
      | inr (profile, p) ↦ elim (Option-cases (config_by_id config_id world.configs)) [
        | inl gone ↦ ground arith
        | inr (config, c) ↦
            let passes : verdict (authorize world profile config) ≡ cleared = ground arith in
            (
              profile,
              config,
              p,
              c,
              authorize-IsAuthorized world profile config
                  (verdict-cleared (authorize world profile config) passes),
            )
      ]
    ]
