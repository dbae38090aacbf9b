-- ===== src/Automation/Mt5.antt =====
-- `_execute_mt5` of app/services/safe_automation.py and `place_demo_order` of
-- app/brokers/mt5_bridge.py: one order on an MT5 demo server.
pub mod Demo
use atlas_markets.Base.{
  ℕ, ◌≡◌, refl, Bool, true, false, not, ◌&&◌, ◌||◌, ◌==◌, Option, none, some, List, [], ◌∷◌, any,
  if◌then◌else◌, is_some, inl, inr, arith, Option-cases, Bool-cases,
}
use atlas_markets.Base.Text.{Text, text_eq, mem_text, upper}
use atlas_markets.Base.Float.{Float, Raw, absent, malformed, number, float_or_zero}
use atlas_markets.Rows.{Profile, executed}
use atlas_markets.Access.Owner.{active_owner}
use atlas_markets.Guard.Symbols.{
  canonical_symbol, exposure_symbols, pending_order_symbols, PositionRow, OrderRow,
}
use atlas_markets.Ibkr.Shares.{parsed}
use atlas_markets.Automation.Route.{
  Reason, account_owner_disabled, invalid_order_proposal, symbol_already_has_position,
  symbol_already_has_open_order, protection_required, mt5_demo_server_required,
  mt5_algo_trading_disabled, broker_preflight_rejected, World, Config,
}
use atlas_markets.Automation.Entry.{
  Item, Stage, pass, stop, ◌>>=◌, raise, refuse, unless, or_raise, item_symbol, is_side, find_route,
}

-- An item's order: a level that is None is `absent`.
pub record Proposal (F : Type 0) : Type 0 where
  pub volume : Raw F
  pub stop_loss : Raw F
  pub take_profit : Raw F

-- The bridge's answers, none where reading them raises: `is_demo` says that the server's name holds
-- "demo" in small letters, `trade_allowed` is none for an empty terminal, `retcode` none for a code
-- that is negative. The lists are read once by `_execute_mt5` and once by `place_demo_order`.
pub record Bridge (F : Type 0) : Type 0 where
  pub configured : Bool
  pub health : Option (Bool × Option Bool)
  pub positions : Option (List (PositionRow F))
  pub orders : Option (List (OrderRow F))
  pub retcode : Option (Option ℕ)
  pub free : Bool
  pub positions_again : Option (List (PositionRow F))
  pub orders_again : Option (List (OrderRow F))
  pub answers : Bool

pub record DemoOrder (F : Type 0) : Type 0 where
  pub symbol : Text
  pub side : Text
  pub volume : F
  pub stop_loss : F
  pub take_profit : F

-- How the call ends: its reason, none for an execution or an exception; and the order posted.
pub record Mt5Outcome (F : Type 0) : Type 0 where
  pub executed : Bool
  pub reason : Option Reason
  pub post : Option (DemoOrder F)

abbrev pub is_absent : {F : Type 0} → Raw F → Bool
is_absent absent = true
is_absent malformed = false
is_absent (number x) = false

-- `retcode in {0, 10009}`
abbrev pub is_done : Option ℕ → Bool
is_done none = false
is_done (some code) = (code == 0) || (code == 10009)

abbrev pub trading_off : Option Bool → Bool
trading_off none = false
trading_off (some allowed) = not allowed

module _ {F : Type 0} ⦃fl : Float F⦄ where
  open fl use {num, lt, le, eq}

  -- `any(canonical(x.symbol) == symbol and float(x.volume or 0) != 0 for x in positions)`
  unfoldable pub has_position : Text → List (PositionRow F) → Option Bool
  has_position symbol [] = some false
  has_position symbol (row ∷ rows) =
      let rest = has_position symbol rows in
      if text_eq (canonical_symbol row.symbol) symbol
      then elim (float_or_zero row.quantity) [
        | none ↦ none
        | some q ↦ if eq q (num 0 0) then rest else some true
      ]
      else rest

  abbrev pub has_order : Text → List (OrderRow F) → Bool
  has_order symbol = any (λ row. text_eq (canonical_symbol row.symbol) symbol)

  -- The volume of an acceptable proposal.
  unfoldable pub check_mt5_proposal : Text → Proposal F → Stage F F
  check_mt5_proposal side proposal = do
    volume ← or_raise (float_or_zero proposal.volume)
    sized ← unless (is_side side && not (le volume (num 0 0))) invalid_order_proposal
    levels ←
        unless (not (is_absent proposal.stop_loss || is_absent proposal.take_profit))
          protection_required
    pass volume

  -- The checks with the bridge's data, up to the check of the order.
  unfoldable pub check_bridge : Bridge F → Text → Stage F (Unit {0})
  unfolding has_position
  check_bridge bridge symbol = do
    configured ← or_raise (if bridge.configured then some (tt {0}) else none)
    health ← or_raise bridge.health
    demo ← unless health.0 mt5_demo_server_required
    trading ← unless (not (trading_off health.1)) mt5_algo_trading_disabled
    positions ← or_raise bridge.positions
    held ← or_raise (has_position symbol positions)
    flat ← unless (not held) symbol_already_has_position
    orders ← or_raise bridge.orders
    idle ← unless (not (has_order symbol orders)) symbol_already_has_open_order
    code ← or_raise bridge.retcode
    unless (is_done code) broker_preflight_rejected

  -- What `place_demo_order` reads under its reservation.
  unfoldable pub demo_checked : Bridge F → Text → Bool
  demo_checked bridge symbol =
      bridge.free
      && elim bridge.positions_again [
        | none ↦ false
        | some rows ↦ elim (exposure_symbols false rows) [
          | none ↦ false
          | some held ↦ not (mem_text symbol held)
        ]
      ]
      && elim bridge.orders_again [
        | none ↦ false
        | some rows ↦ not (mem_text symbol (pending_order_symbols rows))
      ]

  unfoldable pub place_demo_order : Bridge F → DemoOrder F → Mt5Outcome F
  unfolding demo_checked
  place_demo_order bridge order =
      if demo_checked bridge order.symbol
      then record { executed = bridge.answers; reason = none; post = some order }
      else record { executed = false; reason = none; post = none }

  abbrev pub mt5_outcome : {A : Type 0} → Stage F A → (A → Mt5Outcome F) → Mt5Outcome F
  mt5_outcome (pass a) f = f a
  mt5_outcome (stop status reason) f = record { executed = false; reason = reason; post = none }

  -- The order that passes the checks; `later` is the database after the bridge's answers.
  unfoldable pub prepare_mt5 :
      {D : Type 0} → World → World → Bridge F → ℕ → Item F D → Proposal F → Stage F (DemoOrder F)
  unfolding check_mt5_proposal check_bridge
  prepare_mt5 start later bridge user item proposal = do
    route ← find_route start user item
    volume ← check_mt5_proposal (upper item.side) proposal
    checked ← check_bridge bridge (item_symbol item)
    owner ← unless (active_owner later.tables user) account_owner_disabled
    stop_loss ← or_raise (parsed proposal.stop_loss)
    take_profit ← or_raise (parsed proposal.take_profit)
    pass (record {
      symbol = item_symbol item;
      side = upper item.side;
      volume = volume;
      stop_loss = stop_loss;
      take_profit = take_profit;
    })

  unfoldable pub execute_mt5 :
      {D : Type 0} → World → World → Bridge F → ℕ → Item F D → Proposal F → Mt5Outcome F
  unfolding prepare_mt5 place_demo_order
  execute_mt5 start later bridge user item proposal =
      mt5_outcome (prepare_mt5 start later bridge user item proposal) (place_demo_order bridge)
