-- ===== src/Bybit/Attempt.antt =====
-- What execute_managed_spot_order of app/services/bybit_spot_execution.py starts from and reports:
-- the account and the answers of the exchange, and the checks that need neither.
use atlas_markets.Base.{ℕ, not, ◌&&◌, ◌||◌, Option, none, some, List, find, is_some, if◌then◌else◌}
use atlas_markets.Base.Text.{Text, mem_text, upper}
use atlas_markets.Base.Float.{Float}
use atlas_markets.Guard.Symbols.{canonical_symbol}
use atlas_markets.Rows.{Status, executed, Action, Profile, simulation_environments}
use atlas_markets.Access.Owner.{Tables}
use atlas_markets.Bybit.Inventory.{Side, Inventory}
use atlas_markets.Bybit.Fills.{HistoryRow, Coin}
use atlas_markets.Bybit.Reconcile.{Reads, is_unresolved}
use atlas_markets.Bybit.Submit.{Post, Venue}

pub data Reason : Type 0 where
  testnet_or_demo_required certification_required route_not_ready invalid_order_proposal : Reason
  submission_reconciliation_required managed_position_already_open : Reason
  no_managed_inventory sell_exceeds_managed_inventory broker_balance_empty_reconciled : Reason
  no_sellable_managed_inventory fill_not_confirmed zero_fill_cancelled : Reason
  fill_exceeds_managed_inventory : Reason

-- `managed_before` is zero where the source's dictionary has no such entry.
pub record Report (F : Type 0) : Type 0 where
  pub status : Status
  pub reason : Option Reason
  pub quantity : F
  pub filled_quantity : Option F
  pub managed_before : F

pub record Account (F : Type 0) : Type 0 where
  pub inventory : Option (Inventory F)
  pub actions : List Action

-- The end of a call: its report, or none if it raised, the state, and the order it posted.
pub record Run (F D : Type 0) : Type 0 where
  pub report : Option (Report F)
  pub account : Account F
  pub post : Option (Post F D)

pub record World (F D : Type 0) : Type 0 where
  pub reads : Reads F D
  pub venue : Venue F D
  pub wallet : Option (List (Coin F))  -- the coins of the first row; none if the call raises
  pub history : ℕ → Option (List (HistoryRow F D))
  pub tables : Tables
  pub link : Text

-- The arguments, with the symbol canonical.
pub record Request (F : Type 0) : Type 0 where
  pub profile : Profile
  pub user : ℕ
  pub symbol : Text
  pub quantity : F

abbrev pub request_of : {F : Type 0} → Profile → ℕ → Text → F → Request F
request_of profile user symbol quantity = record {
  profile = profile;
  user = user;
  symbol = canonical_symbol symbol;
  quantity = quantity;
}

-- A quantity that the reports and the last steps share.
pub record Sizes (F : Type 0) : Type 0 where
  pub quantity : F
  pub managed_before : F

module _ {F : Type 0} ⦃fl : Float F⦄ where
  open fl use {num, le}

  abbrev pub report_of : Status → Option Reason → Sizes F → Report F
  report_of status reason z = record {
    status = status;
    reason = reason;
    quantity = z.quantity;
    filled_quantity = none;
    managed_before = z.managed_before;
  }

  -- The checks that read the arguments and the profile only.
  unfoldable pub static_blocker : Profile → Option Side → F → Option Reason
  static_blocker profile side quantity =
      if not (mem_text (upper profile.environment) simulation_environments)
      then some testnet_or_demo_required
      else if not profile.execution_certified || not profile.buy_passed || not profile.sell_passed
      then some certification_required
      else if not (
          profile.is_enabled && profile.is_active && profile.credentials_configured
          && profile.connected)
      then some route_not_ready
      else if not (is_some side) || le quantity (num 0 0)
      then some invalid_order_proposal
      else none

  unfoldable pub pending_action : Request F → List Action → Option Action
  pending_action r actions = find (is_unresolved r.profile r.user r.symbol) actions

  abbrev pub managed_of : Option (Inventory F) → F
  managed_of none = num 0 0
  managed_of (some inventory) = inventory.managed_quantity

  abbrev pub new_inventory : Inventory F
  new_inventory = record {
    managed_quantity = num 0 0;
    average_entry_price = none;
    cumulative_bought_quantity = num 0 0;
    cumulative_sold_quantity = num 0 0;
  }

  abbrev pub existing : Option (Inventory F) → Inventory F
  existing none = new_inventory
  existing (some inventory) = inventory

  abbrev pub executed_report : Sizes F → F → Report F
  executed_report z filled = record {
    status = executed;
    reason = none;
    quantity = z.quantity;
    filled_quantity = some filled;
    managed_before = z.managed_before;
  }

  -- The wallet shows less than the inventory: the row follows the wallet.
  abbrev pub lowered : Account F → Inventory F → F → Account F
  lowered account inventory q = record account {
    inventory = some (record inventory { managed_quantity = q });
  }

  abbrev pub emptied : Account F → Inventory F → Account F
  emptied account inventory = record account {
    inventory = some (record inventory { managed_quantity = num 0 0; average_entry_price = none });
  }
