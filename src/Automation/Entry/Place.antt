-- ===== src/Automation/Entry/Place.antt =====
-- `place_order` of app/brokers/ibkr_bridge.py and the end of `_execute_ibkr` of
-- app/services/safe_automation.py: from the what-if order to the verified fill.
use atlas_markets.Base.{ℕ, Bool, true, false, not, ◌&&◌, Option, none, some, if◌then◌else◌, is_some}
use atlas_markets.Base.Text.{Text, text_eq, mem_text, upper}
use atlas_markets.Base.Float.{Float, number}
use atlas_markets.Rows.{Status, block, submitted, executed, cancelled, Profile}
use atlas_markets.Guard.Symbols.{exposure_symbols, pending_order_symbols}
use atlas_markets.Ibkr.Shares.{Shares}
use atlas_markets.Ibkr.Fill.{
  StatusRow, verify_ibkr_fill, Verdict as FillVerdict, filled as fill_verified,
  cancelled as fill_cancelled, submitted as fill_unknown,
}
use atlas_markets.Automation.Route.{
  Reason, broker_whatif_rejected, broker_order_rejected, submission_unresolved, order_id_missing,
  order_cancelled, fill_not_confirmed, Config, Verdict, cleared, blocked, raised,
  entry_authorization_blocker,
}
use atlas_markets.Automation.Entry.{
  Settings, Item, Answer, Broker, Moments, Order, Outcome, Stage, pass, stop, ◌>>=◌, raise, refuse,
  unless, or_raise, buy_side, item_symbol, find_route, check_proposal,
}
use atlas_markets.Automation.Entry.Checks.{check_broker, check_market}

-- `place_order`: refused by an exception, blocked by `before_submit`, or posted, with no answer
-- where the POST raises.
pub data Placed : Type 0 where
  refused : Placed
  pre_blocked : Reason → Placed
  posted : Option Answer → Placed

abbrev pub before_post : Verdict → Option Answer → Placed
before_post raised answer = refused
before_post (blocked reason) answer = pre_blocked reason
before_post cleared answer = posted answer

-- The status and the reason that `_verify_ibkr_fill` leads to.
abbrev pub fill_status : FillVerdict → Status × Option Reason
fill_status fill_verified = (executed, none)
fill_status fill_cancelled = (cancelled, some order_cancelled)
fill_status fill_unknown = (submitted, some fill_not_confirmed)

-- The check after the what-if order.
abbrev pub clear : {F A : Type 0} → Verdict → A → Stage F A
clear raised a = raise
clear (blocked reason) a = refuse reason
clear cleared a = pass a

abbrev pub outcome : {F A : Type 0} → Stage F A → (A → Outcome F) → Outcome F
outcome (pass a) f = f a
outcome (stop status reason) f = record { status = status; reason = reason; post = none }

module _ {F : Type 0} ⦃fl : Float F⦄ where
  -- What `place_order` reads under its reservation: a connected Paper bridge, no position and no
  -- pending order of the symbol.
  unfoldable pub place_checked : Broker F → Text → Bool
  place_checked broker symbol =
      broker.free
      && elim broker.health_again [ none ↦ false | some h ↦ h.connected && h.simulation ]
      && elim broker.positions_again [
        | none ↦ false
        | some rows ↦ elim (exposure_symbols true rows) [
          | none ↦ false
          | some held ↦ not (mem_text symbol held)
        ]
      ]
      && elim broker.orders_again [
        | none ↦ false
        | some rows ↦ not (mem_text symbol (pending_order_symbols rows))
      ]

  unfoldable pub place_order : Broker F → Text → Verdict → Placed
  unfolding place_checked
  place_order broker symbol verdict =
      if place_checked broker symbol then before_post verdict broker.answer else refused

  -- The status of an order that was posted, and its reason.
  unfoldable pub answered : (ℕ → Option (StatusRow F)) → F → Answer → Status × Option Reason
  answered reads shares answer = elim answer.accepted [
    | none ↦ (submitted, some submission_unresolved)
    | some false ↦
        if is_some answer.order_id
        then (submitted, some submission_unresolved)
        else (block, some broker_order_rejected)
    | some true ↦ elim answer.order_id [
      | none ↦ (submitted, some order_id_missing)
      | some id ↦ fill_status (verify_ibkr_fill reads (number shares))
    ]
  ]

  unfoldable pub placed_outcome : Broker F → Order F → Placed → Outcome F
  unfolding answered
  placed_outcome broker order refused = record { status = none; reason = none; post = none }
  placed_outcome broker order (pre_blocked reason) = record {
    status = some block;
    reason = some reason;
    post = none;
  }
  placed_outcome broker order (posted none) = record {
    status = none;
    reason = none;
    post = some order;
  }
  placed_outcome broker order (posted (some answer)) =
      let end = answered broker.status_reads order.quantity answer in
      record { status = some end.0; reason = end.1; post = some order }

module _ {F D : Type 0} ⦃fl : Float F⦄ ⦃dl : Float D⦄ (decimals : Shares F D) where
  -- The order that passes every check before `place_order`, with the route it was found by.
  unfoldable pub prepare :
      Settings → Moments → Broker F → ℕ → Item F D → Stage F (Order F × Config × Profile)
  prepare settings moments broker user item = do
    route ← find_route moments.start user item
    let (config, profile) = route
    shares ← check_proposal decimals settings item
    account ← check_broker settings broker (item_symbol item)
    market ←
        check_market settings broker config profile item.timeframe
          (text_eq (upper item.side) buy_side)
    what_if ← or_raise broker.what_if
    accepted ← unless what_if broker_whatif_rejected
    clear (entry_authorization_blocker moments.check profile.id config.id) (
      record {
        symbol = item_symbol item;
        side = upper item.side;
        quantity = shares;
        account = account;
      },
      config,
      profile,
    )

  unfoldable pub execute_ibkr : Settings → Moments → Broker F → ℕ → Item F D → Outcome F
  unfolding prepare
  execute_ibkr settings moments broker user item =
      outcome (prepare settings moments broker user item) (λ ready. placed_outcome broker ready.0 (
        place_order broker ready.0.symbol
          (entry_authorization_blocker moments.submit ready.2.id ready.1.id)))
