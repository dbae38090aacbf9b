-- ===== src/Automation/Entry/Checks.antt =====
-- The checks that `_execute_ibkr` of app/services/safe_automation.py makes with the broker's data.
use atlas_markets.Base.{
  Bool, true, false, not, ◌&&◌, ◌||◌, Option, none, some, List, [], ◌∷◌, any, if◌then◌else◌,
  is_some,
}
use atlas_markets.Base.Text.{Text, text_eq, mem_text, upper}
use atlas_markets.Base.Float.{Float, float_or_zero}
use atlas_markets.Rows.{Profile}
use atlas_markets.Guard.Symbols.{canonical_symbol}
use atlas_markets.Ibkr.Protection.{OrderRow, Position, position_has_native_protection}
use atlas_markets.Candles.{Candle, good, bad, completed_ibkr_candles}
use atlas_markets.Candles.Quality.{
  entry_candle_quality, ibkr_entry_quote_quality, delayed_reference,
}
use atlas_markets.Automation.Route.{
  paper_bridge_required, protection_bridge_upgrade_required, symbol_already_has_position,
  existing_position_unprotected, symbol_already_has_open_order, timeframe_required,
  market_data_rejected, Config, paper,
}
use atlas_markets.Automation.Entry.{
  Settings, Broker, Stage, pass, ◌>>=◌, raise, refuse, unless, or_raise, open_statuses_end,
}

-- `delayed_paper_mode`: the health that was read is connected and simulated.
unfoldable pub delayed_paper_mode : Settings → Text → Bool
delayed_paper_mode settings environment =
    settings.delayed_data && text_eq (upper environment) paper && not settings.allow_live

abbrev pub timeframe_of : Option Text → Config → Option Text
timeframe_of none config = config.timeframe
timeframe_of (some t) config = some t

module _ {F : Type 0} ⦃fl : Float F⦄ where
  open fl use {num, eq}

  -- `any(canonical(x.symbol) == symbol and float(x.quantity or 0) != 0 for x in positions)`; none
  -- is the exception of a quantity that is no number.
  unfoldable pub holds : Text → List (Position F) → Option Bool
  holds symbol [] = some false
  holds symbol (row ∷ rows) =
      let rest = holds symbol rows in
      if text_eq (canonical_symbol row.symbol) symbol
      then elim (float_or_zero row.quantity) [
        | none ↦ none
        | some q ↦ if eq q (num 0 0) then rest else some true
      ]
      else rest

  -- Whether some position has no broker-held protection.
  unfoldable pub unprotected : Option Text → List (OrderRow F) → List (Position F) → Option Bool
  unprotected account orders [] = some false
  unprotected account orders (row ∷ rows) =
      let rest = unprotected account orders rows in
      elim (float_or_zero row.quantity) [
        | none ↦ none
        | some q ↦
            if not (eq q (num 0 0)) && not (position_has_native_protection row orders account)
            then some true
            else rest
      ]

  unfoldable pub has_open_order : Text → List (OrderRow F) → Bool
  has_open_order symbol = any (λ row.
      text_eq (canonical_symbol row.symbol) symbol
      && not (mem_text (upper row.status) open_statuses_end))

  abbrev pub protection_checked :
      Settings → Option Text → List (OrderRow F) → List (Position F) → Stage F (Unit {0})
  protection_checked settings account orders positions =
      if settings.native_protection
      then or_raise (unprotected account orders positions)
        >>= (λ found. unless (not found) existing_position_unprotected)
      else pass tt

  -- Up to the open orders of the symbol; the result is the account of the credentials.
  unfoldable pub check_broker : Settings → Broker F → Text → Stage F (Option Text)
  unfolding holds unprotected has_open_order
  check_broker settings broker symbol = do
    account ← or_raise broker.account
    health ← or_raise broker.health
    simulated ← unless (health.connected && health.simulation) paper_bridge_required
    protection ←
        unless (not settings.native_protection || health.protection)
          protection_bridge_upgrade_required
    positions ← or_raise broker.positions
    held ← or_raise (holds symbol positions)
    flat ← unless (not held) symbol_already_has_position
    orders ← or_raise broker.orders
    covered ← protection_checked settings account orders positions
    idle ← unless (not (has_open_order symbol orders)) symbol_already_has_open_order
    pass account

  -- The reference price of the entry: a completed candle, or a live quote.
  unfoldable pub check_reference :
      Broker F → Bool → Bool → Text → List (Candle F) → Stage F (Unit {0})
  check_reference broker buy true timeframe candles =
      or_raise (delayed_reference candles timeframe broker.quote_now) >>= (λ price. pass tt)
  check_reference broker buy false timeframe candles = or_raise broker.quote >>= (λ quote.
      unless (not (is_some (ibkr_entry_quote_quality quote buy broker.quote_now)))
        market_data_rejected)

  unfoldable pub check_market :
      Settings → Broker F → Config → Profile → Option Text → Bool → Stage F (Unit {0})
  unfolding delayed_paper_mode check_reference
  check_market settings broker config profile snapshot buy = elim (timeframe_of snapshot config) [
    | none ↦ refuse timeframe_required
    | some timeframe ↦ do
      payload ← or_raise broker.candles
      let (actual, rows) = payload
      elim (completed_ibkr_candles actual rows timeframe broker.candles_now) [
        | bad e ↦ raise
        | good candles ↦ do
          let delayed = delayed_paper_mode settings profile.environment
          reason ← or_raise (entry_candle_quality candles timeframe broker.quality_now delayed)
          fresh ← unless (not (is_some reason)) market_data_rejected
          check_reference broker buy delayed timeframe candles
      ]
  ]
