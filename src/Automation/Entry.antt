-- ===== src/Automation/Entry.antt =====
-- `_execute_ibkr` of app/services/safe_automation.py, `place_order` of app/brokers/ibkr_bridge.py
-- and `delayed_paper_mode` of app/services/ibkr_paper_data.py: an entry of a Paper account: the route and
-- the proposal.
pub mod Checks
pub mod Place
pub mod Sound
use atlas_markets.Base.{
  ℕ, Bool, true, false, not, ◌&&◌, ◌||◌, ◌==◌, Option, none, some, List, [], ◌∷◌, find, any,
  if◌then◌else◌,
}
use atlas_markets.Base.Text.{Text, codes, text_eq, mem_text, upper}
use atlas_markets.Base.Float.{Float, Raw, number, float_or_zero}
use atlas_markets.Rows.{Status, block, skip, submitted, executed, cancelled, Profile}
use atlas_markets.Guard.Symbols.{
  canonical_symbol, exposure_symbols, pending_order_symbols, PositionRow, OrderRow as GuardRow,
}
use atlas_markets.Ibkr.Shares.{Shares, parsed, ibkr_quantity_is_fractional, normalize_ibkr_shares}
use atlas_markets.Ibkr.Protection.{OrderRow, Position, position_has_native_protection}
use atlas_markets.Ibkr.Fill.{
  StatusRow, verify_ibkr_fill, Verdict as FillVerdict, filled as fill_verified,
  cancelled as fill_cancelled, submitted as fill_unknown,
}
use atlas_markets.Candles.{Candle, good, bad, completed_ibkr_candles}
use atlas_markets.Candles.Quality.{
  Quote, entry_candle_quality, ibkr_entry_quote_quality, delayed_reference,
}
use atlas_markets.Automation.Route.{
  Reason, account_owner_disabled, auto_trade_not_enabled, route_not_ready, profile_not_found,
  invalid_order_proposal, saved_protection_levels_invalid, fractional_api_unsupported,
  paper_bridge_required, protection_bridge_upgrade_required, symbol_already_has_position,
  existing_position_unprotected, symbol_already_has_open_order, timeframe_required,
  market_data_rejected, broker_whatif_rejected, broker_order_rejected, Config, World, Verdict,
  cleared, blocked, raised, auto_trade, is_ready, automation_certification_blocker,
  entry_authorization_blocker, paper,
}

pub record Settings : Type 0 where
  pub native_protection : Bool
  pub fractional_api : Bool
  pub delayed_data : Bool
  pub allow_live : Bool

-- An approved item: `shares` is `request["shares"] or request["quantity"]`, and `timeframe` the
-- one of its strategy snapshot, none where it is missing or empty.
pub record Item (F D : Type 0) : Type 0 where
  pub market : Text
  pub symbol : Text
  pub side : Text
  pub shares : Raw D
  pub stop_loss : Raw F
  pub take_profit : Raw F
  pub timeframe : Option Text

pub record Health : Type 0 where
  pub connected : Bool
  pub simulation : Bool
  pub protection : Bool

pub record Answer : Type 0 where
  pub accepted : Option Bool
  pub order_id : Option ℕ

-- What the broker answers during the call, none where reading it raises, with the clock at the
-- points where it is read. `free` says that `reserve_execution` grants the slot; the fields from
-- `health_again` on are read by `place_order`.
pub record Broker (F : Type 0) : Type 0 where
  pub account : Option (Option Text)  -- the decrypted credentials
  pub health : Option Health
  pub positions : Option (List (Position F))
  pub orders : Option (List (OrderRow F))
  pub candles : Option (Text × List (Candle F))
  pub candles_now : ℕ
  pub quality_now : ℕ
  pub quote : Option (Quote F)
  pub quote_now : ℕ
  pub what_if : Option Bool  -- `ok`, `what_if` and `simulation` of the order check
  pub free : Bool
  pub health_again : Option Health
  pub positions_again : Option (List (PositionRow F))
  pub orders_again : Option (List (GuardRow F))
  pub answer : Option Answer
  pub status_reads : ℕ → Option (StatusRow F)

-- The database at the start of the call, at the check after the what-if order, and at the check
-- that `place_order` makes right before the POST.
pub record Moments : Type 0 where
  pub start : World
  pub check : World
  pub submit : World

pub record Order (F : Type 0) : Type 0 where
  pub symbol : Text
  pub side : Text
  pub quantity : F
  pub account : Option Text

-- How a call ends: its status, none for an exception, its reason, and the order that was posted.
pub record Outcome (F : Type 0) : Type 0 where
  pub status : Option Status
  pub reason : Option Reason
  pub post : Option (Order F)

pub data Stage (F : Type 0) (A : Type 0) : Type 0 where
  pass : A → Stage F A
  stop : Option Status → Option Reason → Stage F A

infixl 5 ◌>>=◌
abbrev pub ◌>>=◌ : {F A B : Type 0} → Stage F A → (A → Stage F B) → Stage F B
pass a >>= f = f a
stop status reason >>= f = stop status reason

-- An exception, and a result with status BLOCK
abbrev pub raise : {F A : Type 0} → Stage F A
raise = stop none none

abbrev pub refuse : {F A : Type 0} → Reason → Stage F A
refuse reason = stop (some block) (some reason)

abbrev pub unless : {F : Type 0} → Bool → Reason → Stage F (Unit {0})
unless ok reason = if ok then pass tt else refuse reason

abbrev pub or_raise : {F A : Type 0} → Option A → Stage F A
or_raise none = raise
or_raise (some a) = pass a

-- The rows that `_profile_for_item` and the query of `_execute_ibkr` look for.
abbrev pub is_for : ℕ → Text → Text → Config → Bool
is_for user market symbol config =
    (config.user == user) && text_eq config.market market && text_eq config.symbol symbol

abbrev pub trades : Config → Bool
trades config = config.enabled && text_eq config.mode auto_trade

abbrev pub buy_side : Text
buy_side = codes "BUY"

abbrev pub sell_side : Text
sell_side = codes "SELL"

abbrev pub open_statuses_end : List Text
open_statuses_end = codes "FILLED" ∷ codes "CANCELLED" ∷ codes "CANCELED" ∷ codes "INACTIVE" ∷ []

abbrev pub is_side : Text → Bool
is_side side = text_eq side buy_side || text_eq side sell_side

module _ {F D : Type 0} where
  abbrev pub item_symbol : Item F D → Text
  item_symbol item = canonical_symbol item.symbol

  unfoldable pub find_route : World → ℕ → Item F D → Stage F (Config × Profile)
  find_route world user item =
      elim (find (λ c. is_for user (upper item.market) (item_symbol item) c && trades c)
        world.configs) [
          | none ↦ stop (some skip) (some auto_trade_not_enabled)
          | some config ↦ elim (world.tables.profiles config.profile) [
            | none ↦ refuse profile_not_found
            | some profile ↦
                elim (automation_certification_blocker profile.provider profile.environment) [
                  | some reason ↦ refuse reason
                  | none ↦
                      if is_ready profile then pass (config, profile) else refuse route_not_ready
                ]
          ]
        ]

module _ {F D : Type 0} ⦃fl : Float F⦄ ⦃dl : Float D⦄ (decimals : Shares F D) where
  open fl use {num, lt, eq, is_finite}

  abbrev pub levels_fit : Text → F → F → Bool
  levels_fit side stop_loss take_profit =
      (is_finite stop_loss
        && is_finite take_profit
        && lt (num 0 0) stop_loss
        && lt (num 0 0) take_profit)
      && (if text_eq side buy_side then lt stop_loss take_profit else lt take_profit stop_loss)

  unfoldable pub levels_valid : Text → Item F D → Bool
  levels_valid side item = elim (parsed item.stop_loss) [
    | none ↦ false
    | some s ↦ elim (parsed item.take_profit) [ none ↦ false | some t ↦ levels_fit side s t ]
  ]

  unfoldable pub check_proposal : Settings → Item F D → Stage F F
  unfolding levels_valid
  check_proposal settings item = do
    requested ← or_raise (normalize_ibkr_shares decimals item.shares)
    sized ← unless (is_side (upper item.side) && lt (num 0 0) requested) invalid_order_proposal
    levels ←
        unless (not settings.native_protection || levels_valid (upper item.side) item)
          saved_protection_levels_invalid
    whole ←
        unless
          (not (ibkr_quantity_is_fractional decimals (number requested)) || settings.fractional_api)
          fractional_api_unsupported
    pass requested
