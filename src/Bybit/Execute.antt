-- ===== src/Bybit/Execute.antt =====
-- `execute_managed_spot_order` of app/services/bybit_spot_execution.py, phase by phase. The state
-- is the managed inventory row of the profile and symbol and the rows of `automation_actions`; the
-- exchange, the other workers and the fresh order link are in `World`. A result has the fields of
-- the source's dictionaries that say what happened; those that only copy an argument are left out.
pub mod Gates
pub mod Shape
pub mod Sales
pub mod Outcomes
use atlas_markets.Base.{
  ℕ, ◌==◌, Bool, true, false, not, ◌&&◌, ◌||◌, Option, none, some, List, [], ◌∷◌, find, is_some,
  if◌then◌else◌,
}
use atlas_markets.Base.Text.{Text, codes, text_eq, mem_text, upper}
use atlas_markets.Base.Float.{Float, fmin}
use atlas_markets.Guard.Symbols.{canonical_symbol, is_empty}
use atlas_markets.Rows.{
  Status, submitted, cancelled, executed, block, Action, Profile, simulation_environments,
}
use atlas_markets.Access.Owner.{Tables, entry_owner_blocker}
use atlas_markets.Bybit.Inventory.{
  Side, buy, sell, side_of, Inventory, Slots, dust, apply_managed_fill, applied, refused,
  managed_buy_is_blocked,
}
use atlas_markets.Bybit.Fills.{
  HistoryRow, zero_fill_cancellation, Verified, read_failed, unconfirmed, confirmed,
  verify_spot_fill, fill_quantity, fill_price, base_coin, Coin, wallet_coin_quantity,
}
use atlas_markets.Bybit.Slots.{Decimals, managed_position_slots, as_slots}
use atlas_markets.Bybit.Reconcile.{
  Reads, is_unresolved, has_client, reconcile_cancelled_submissions,
}
use atlas_markets.Bybit.Submit.{
  Post, Venue, Placed, not_posted, posted, place_test_spot_market_order,
}
use atlas_markets.Bybit.Attempt.{
  request_of, report_of, static_blocker, pending_action, managed_of, new_inventory, existing,
  executed_report, lowered, emptied, Reason, Report, Account, Run, World, Request, Sizes,
  testnet_or_demo_required, certification_required, route_not_ready, invalid_order_proposal,
  submission_reconciliation_required, managed_position_already_open, no_managed_inventory,
  sell_exceeds_managed_inventory, broker_balance_empty_reconciled, no_sellable_managed_inventory,
  fill_not_confirmed, zero_fill_cancelled, fill_exceeds_managed_inventory,
}

module _ {F D : Type 0} ⦃fl : Float F⦄ ⦃dl : Float D⦄ (dec : Decimals F D) (world : World F D) where
  open fl use {num, add, lt, le}

  abbrev pub stop : Reason → Sizes F → Account F → Run F D
  stop reason z account = record {
    report = some (report_of block (some reason) z);
    account = account;
    post = none;
  }

  abbrev pub raises : Account F → Run F D
  raises account = record { report = none; account = account; post = none }

  -- The actions after the reconciliation that an unresolved submission with an order id calls for;
  -- none if it raises.
  unfoldable pub reconciled_actions : Request F → List Action → Option (List Action)
  unfolding pending_action
  reconciled_actions r actions = elim (pending_action r actions) [
    | none ↦ some actions
    | some pending ↦
        if is_empty pending.order_id
        then some actions
        else reconcile_cancelled_submissions world.reads r.profile r.user r.symbol actions
  ]

  abbrev no_slots : Slots
  no_slots = record { quantity_dust_symbols = []; unverified_symbols = [] }

  abbrev unverified_slots : Text → Slots
  unverified_slots symbol = record { quantity_dust_symbols = []; unverified_symbols = symbol ∷ [] }

  unfoldable pub slots_now : Request F → Option (Inventory F) → Slots
  slots_now r none = unverified_slots r.symbol
  slots_now r (some inventory) =
      if has_client r.profile
      then as_slots (
          managed_position_slots dec world.venue.lot
            (record { symbol = r.symbol; managed_quantity = inventory.managed_quantity } ∷ []))
      else unverified_slots r.symbol

  -- A new entry beside an inventory that is more than confirmed dust is refused.
  unfoldable pub buy_is_blocked : Request F → Option (Inventory F) → F → Bool
  unfolding slots_now
  buy_is_blocked r inventory managed_before =
      managed_buy_is_blocked r.symbol managed_before no_slots
      && managed_buy_is_blocked r.symbol managed_before (slots_now r inventory)

  -- A fill is booked, unless it sells more than ATLAS manages.
  unfoldable pub book_fill :
      Side → Sizes F → HistoryRow F D → Account F → Option (Report F) × Account F
  book_fill side z row account =
      let filled = fill_quantity row z.quantity in
      if (elim side [ buy ↦ false | sell ↦ true ]) && lt (add z.managed_before dust) filled
      then (some (report_of block (some fill_exceeds_managed_inventory) z), account)
      else elim (apply_managed_fill (existing account.inventory) (some side) filled
          (fill_price row)) [
            | refused e ↦ (none, record account { inventory = some (existing account.inventory) })
            | applied inventory ↦
                (some (executed_report z filled), record account { inventory = some inventory })
          ]

  abbrev side_text : Side → Text
  side_text buy = codes "BUY"
  side_text sell = codes "SELL"

  -- What the row that confirms the order makes of it.
  unfoldable pub conclude :
      Request F → Side → Sizes F → Text → HistoryRow F D → Account F → Option (Report F) × Account F
  unfolding book_fill
  conclude r side z order_id row account =
      if text_eq (upper row.order_status) (codes "CANCELLED")
      then (if zero_fill_cancellation row r.symbol (side_text side) order_id world.link
          then (some (report_of cancelled (some zero_fill_cancelled) z), account)
          else (some (report_of submitted (some fill_not_confirmed) z), account))
      else book_fill side z row account

  -- The reads after an order that the exchange accepted.
  unfoldable pub follow_up :
      Request F → Side → Sizes F → Text → Account F → Option (Report F) × Account F
  unfolding conclude
  follow_up r side z order_id account = elim (verify_spot_fill world.history world.link) [
    | read_failed ↦ (some (report_of submitted (some fill_not_confirmed) z), account)
    | unconfirmed ↦ (some (report_of submitted (some fill_not_confirmed) z), account)
    | confirmed row ↦ conclude r side z order_id row account
  ]

  -- The POST and what follows it; an exception of the POST leaves the call.
  unfoldable pub submit : Request F → Side → Sizes F → Account F → Run F D
  unfolding follow_up
  submit r side z account =
      if not (has_client r.profile)
      then raises account
      else elim (place_test_spot_market_order dec world.venue
          (is_some (entry_owner_blocker world.tables r.profile)) r.symbol side z.quantity
          world.link) [
            | not_posted ↦ raises account
            | posted post none ↦ record { report = none; account = account; post = some post }
            | posted post (some order_id) ↦
                let (report, after) = follow_up r side z order_id account in
                record { report = report; account = after; post = some post }
          ]

  -- A sale, once the wallet's quantity of the coin is known.
  unfoldable pub sell_against : Request F → Inventory F → Account F → F → Run F D
  unfolding submit
  sell_against r inventory account broker_quantity =
      let before = inventory.managed_quantity in
      if le broker_quantity dust
      then stop broker_balance_empty_reconciled
          (record { quantity = r.quantity; managed_before = before }) (emptied account inventory)
      else let short = lt (add broker_quantity dust) before in
        let managed = if short then broker_quantity else before in
        let after = if short then lowered account inventory broker_quantity else account in
        let size = fmin (fmin r.quantity managed) broker_quantity in
        let z : Sizes F = record { quantity = size; managed_before = managed } in
        if le size dust then stop no_sellable_managed_inventory z after else submit r sell z after

  unfoldable pub sell_phase : Request F → Account F → Run F D
  unfolding sell_against
  sell_phase r account = elim account.inventory [
    | none ↦
        stop no_managed_inventory (record { quantity = r.quantity; managed_before = num 0 0 })
          account
    | some inventory ↦
        let z : Sizes F = record {
          quantity = r.quantity;
          managed_before = inventory.managed_quantity;
        } in
        if le inventory.managed_quantity dust
        then stop no_managed_inventory z account
        else if lt (add inventory.managed_quantity dust) r.quantity
        then stop sell_exceeds_managed_inventory z account
        else if not (has_client r.profile)
        then raises account
        else elim world.wallet [
          | none ↦ raises account
          | some coins ↦ elim (base_coin r.symbol) [
            | none ↦ raises account
            | some coin ↦ sell_against r inventory account (wallet_coin_quantity coins coin)
          ]
        ]
  ]

  unfoldable pub buy_phase : Request F → Account F → Run F D
  unfolding buy_is_blocked submit
  buy_phase r account =
      let before = managed_of account.inventory in
      let z : Sizes F = record { quantity = r.quantity; managed_before = before } in
      if buy_is_blocked r account.inventory before
      then stop managed_position_already_open z account
      else submit r buy z account

  -- With the actions reconciled: another submission is refused while one is unresolved.
  unfoldable pub after_reconciliation : Request F → Option Side → Account F → Run F D
  unfolding buy_phase sell_phase pending_action
  after_reconciliation r side account = elim (pending_action r account.actions) [
    | some pending ↦
        stop submission_reconciliation_required
          (record { quantity = r.quantity; managed_before = num 0 0 }) account
    | none ↦ elim side [
      | none ↦ raises account
      | some buy ↦ buy_phase r account
      | some sell ↦ sell_phase r account
    ]
  ]

  unfoldable pub execute_managed_spot_order : Profile → ℕ → Text → Text → F → Account F → Run F D
  unfolding static_blocker reconciled_actions after_reconciliation
  execute_managed_spot_order profile user symbol side quantity account =
      let r = request_of profile user symbol quantity in
      elim (static_blocker profile (side_of side) quantity) [
        | some reason ↦
            stop reason (record { quantity = quantity; managed_before = num 0 0 }) account
        | none ↦ elim (reconciled_actions r account.actions) [
          | none ↦ raises account
          | some actions ↦
              after_reconciliation r (side_of side) (record account { actions = actions })
        ]
      ]
