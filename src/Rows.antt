-- ===== src/Rows.antt =====
-- Rows of the database that several services share: app/db/models/automation.py and
-- app/db/models/broker.py, with the columns that the modelled code reads.
use atlas_markets.Base.{ℕ, Bool, true, false, List, [], ◌∷◌}
use atlas_markets.Base.Text.{Text, codes}

pub data Status : Type 0 where
  submitted cancelled executed exit_submitted exit_executed block skip : Status

abbrev pub is_submitted : Status → Bool
is_submitted submitted = true
is_submitted cancelled = false
is_submitted executed = false
is_submitted exit_submitted = false
is_submitted exit_executed = false
is_submitted block = false
is_submitted skip = false

-- A row of `automation_actions`. An empty order id or link is none; `audit_readable` says that
-- `raw_json` is a JSON object.
pub record Action : Type 0 where
  pub id : ℕ
  pub user : ℕ
  pub profile : ℕ
  pub provider : Text
  pub environment : Text
  pub symbol : Text
  pub side : Text
  pub status : Status
  pub order_id : Text
  pub link : Text
  pub audit_readable : Bool

-- A row of `broker_profiles`; `key` and `secret` say that the encrypted columns are filled.
pub record Profile : Type 0 where
  pub id : ℕ
  pub user : ℕ
  pub provider : Text
  pub environment : Text
  pub is_enabled : Bool
  pub is_active : Bool
  pub credentials_configured : Bool
  pub connected : Bool
  pub execution_certified : Bool
  pub buy_passed : Bool
  pub sell_passed : Bool
  pub key : Bool
  pub secret : Bool

abbrev pub bybit : Text
bybit = codes "BYBIT"

abbrev pub simulation_environments : List Text
simulation_environments = codes "TESTNET" ∷ codes "DEMO" ∷ []
