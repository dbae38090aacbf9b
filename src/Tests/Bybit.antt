-- ===== src/Tests/Bybit.antt =====
-- Runs of the managed Spot inventory and of the execution of one order, on exact decimals of 12
-- places.
use atlas_markets.Base.{
  zero, suc, ℕ, ◌≡◌, ◌≤◌, ◌+◌, refl, true, false, Option, none, some, List, [], ◌∷◌, ◌⊎◌, arith,
  length,
}
use atlas_markets.Base.Text.{Text, codes}
use atlas_markets.Base.Float.{absent, number}
use atlas_markets.Base.Float.Fixed.{Fixed, fixed_float, Fixed-IsOrdered, Fixed-HasSigns, whole_part}
use atlas_markets.Base.Int.{◌+ℤ◌, ◌-ℤ◌, ◌*ℤ◌}
use atlas_markets.Guard.Symbols.{canonical_symbol, pending_order_symbols}
use atlas_markets.Rows.{submitted, executed, block, cancelled, Action, Profile}
use atlas_markets.Access.Owner.{entry_owner_blocker}
use atlas_markets.Bybit.Inventory.{
  buy, sell, side_of, Inventory, Keeps, SoldFrom, apply_managed_fill,
  apply_managed_fill-IsNonNegative, apply_managed_fill-SoldFrom,
}
use atlas_markets.Bybit.Fills.{
  HistoryRow, matching_history_row, zero_fill_cancellation, history_evidence, verify_spot_fill,
  confirmed, fill_quantity, fill_price, base_coin, Coin, wallet_coin_quantity,
}
use atlas_markets.Bybit.Fills.Evidence.{Tells, verify_spot_fill-Tells}
use atlas_markets.Bybit.Slots.{
  Decimals, LotSize, Holding, normalize_spot_qty, slot_kind, managed_position_slots, dusty_symbols,
  managed_position_slots-count,
}
use atlas_markets.Bybit.Reconcile.{
  Reads, is_unresolved, has_client, resolved, reconcile_cancelled_submissions, Outcomes,
  reconcile_cancelled_submissions-Outcomes,
}
use atlas_markets.Bybit.Submit.{
  Post, Venue, posted, place_test_spot_market_order, is_test_url, rstrip_char,
}
use atlas_markets.Bybit.Submit.Outcome.{Outcome}
use atlas_markets.Bybit.Attempt.{
  Account, World, Report, Run, request_of, pending_action, fill_exceeds_managed_inventory,
  certification_required,
}
use atlas_markets.Bybit.Execute.{reconciled_actions, execute_managed_spot_order}
use atlas_markets.Bybit.Execute.Gates.{IsReady, Posted, execute_managed_spot_order-gates}
use atlas_markets.Bybit.Execute.Outcomes.{
  IsExecution, execute_managed_spot_order-IsExecution, execute_managed_spot_order-lost,
  execute_managed_spot_order-block,
}

abbrev unit : ℕ → Fixed
unit n = fixed_float.num n 0

abbrev decimals : Decimals Fixed Fixed
decimals = record { of_float = λ x. x; truncate = whole_part }

abbrev stock : Inventory Fixed
stock = record {
  managed_quantity = unit 2;
  average_entry_price = some (unit 100);
  cumulative_bought_quantity = unit 2;
  cumulative_sold_quantity = unit 0;
}

apply_managed_fill-IsNonNegative_example :
    Keeps (apply_managed_fill stock (some buy) (unit 1) (some (unit 130)))
apply_managed_fill-IsNonNegative_example =
    apply_managed_fill-IsNonNegative Fixed-IsOrdered Fixed-HasSigns stock (some buy) (unit 1)
      (some (unit 130)) (ground arith) refl

apply_managed_fill-SoldFrom_example :
    SoldFrom stock (unit 2) (apply_managed_fill stock (some sell) (unit 2) none)
apply_managed_fill-SoldFrom_example = apply_managed_fill-SoldFrom stock (unit 2) none refl

abbrev link : Text
link = codes "atlas-auto-1"

abbrev fill_row : HistoryRow Fixed Fixed
fill_row = record {
  order_id = codes "77";
  order_link_id = some link;
  symbol = codes "BTCUSDT";
  side = codes "Sell";
  order_status = codes "Filled";
  filled_decimal = number (unit 1);
  cum_exec_qty = number (unit 1);
  exec_qty = absent;
  qty = number (unit 1);
  avg_price = number (unit 120);
  price = absent;
}

abbrev cancelled_row : HistoryRow Fixed Fixed
cancelled_row = record fill_row {
  order_status = codes "Cancelled";
  filled_decimal = number (unit 0);
  cum_exec_qty = number (unit 0);
}

-- The first read shows nothing, the second the fill.
abbrev late_history : ℕ → Option (List (HistoryRow Fixed Fixed))
late_history k = elim k [ zero ↦ some [] | suc j ↦ some (fill_row ∷ []) ]

late_fill : verify_spot_fill late_history link ≡ confirmed fill_row
unfolding verify_spot_fill history_evidence matching_history_row
late_fill = refl

verify_spot_fill-Tells_example : Tells link fill_row
verify_spot_fill-Tells_example = verify_spot_fill-Tells late_history link refl late_fill

abbrev lot : LotSize Fixed Fixed
lot = record {
  step_float = number (fixed_float.num 1 3);
  minimum_float = number (fixed_float.num 1 1);
  step = number (fixed_float.num 1 3);
  minimum = number (fixed_float.num 1 1);
}

abbrev holdings : List (Holding Fixed)
holdings =
    record { symbol = codes "BTCUSDT"; managed_quantity = unit 2 }
    ∷ record { symbol = codes "ETHUSDT"; managed_quantity = fixed_float.num 1 2 }
    ∷ []

slots_run :
    (managed_position_slots decimals (λ s. some lot) holdings).dust_symbols ≡ codes "ETHUSDT" ∷ []
unfolding managed_position_slots slot_kind normalize_spot_qty canonical_symbol ◌*ℤ◌
slots_run = refl

managed_position_slots-count_example :
    let r = managed_position_slots decimals (λ s. some lot) holdings in
    (r.count + length r.dust_symbols ≡ length holdings)
    × (length r.unverified ≤ r.count)
    × (r.dust_symbols ≡ dusty_symbols decimals (λ s. some lot) holdings)
managed_position_slots-count_example =
    managed_position_slots-count decimals (λ s. some lot) holdings

abbrev profile : Profile
profile = record {
  id = 3;
  user = 9;
  provider = codes "BYBIT";
  environment = codes "testnet";
  is_enabled = true;
  is_active = true;
  credentials_configured = true;
  connected = true;
  execution_certified = true;
  buy_passed = true;
  sell_passed = true;
  key = true;
  secret = true;
}

-- A submission whose order the exchange cancelled with nothing filled.
abbrev stale : Action
stale = record {
  id = 1;
  user = 9;
  profile = 3;
  provider = codes "BYBIT";
  environment = codes "TESTNET";
  symbol = codes "BTCUSDT";
  side = codes "SELL";
  status = submitted;
  order_id = codes "77";
  link = link;
  audit_readable = true;
}

abbrev reads : Reads Fixed Fixed
reads = record {
  history = λ a. some (cancelled_row ∷ []);
  refreshed = λ a. submitted;
  still_readable = λ a. true;
}

stale_resolved :
    reconcile_cancelled_submissions reads profile 9 (codes "btc/usdt") (stale ∷ [])
    ≡ some (record stale { status = cancelled } ∷ [])
unfolding reconcile_cancelled_submissions is_unresolved has_client resolved zero_fill_cancellation
    canonical_symbol
stale_resolved = refl

reconcile_cancelled_submissions-Outcomes_example :
    Outcomes reads
      (is_unresolved profile 9 (canonical_symbol (codes "btc/usdt")))
      (stale ∷ [])
      (record stale { status = cancelled } ∷ [])
reconcile_cancelled_submissions-Outcomes_example =
    reconcile_cancelled_submissions-Outcomes reads profile 9 (codes "btc/usdt") (stale ∷ [])
      stale_resolved

abbrev venue : Venue Fixed Fixed
venue = record {
  base_url = codes "https://api-demo.bybit.com/";
  free = true;
  open_orders = some [];
  lot = λ s. some lot;
  answer = some (codes "77");
}

abbrev order : Post Fixed Fixed
order = record {
  symbol = codes "BTCUSDT";
  side = sell;
  requested = unit 1;
  qty = unit 1;
  link = link;
}

order_placed :
    place_test_spot_market_order decimals venue false (codes "BTC/USDT") sell (unit 1) link
    ≡ posted order (some (codes "77"))
unfolding place_test_spot_market_order is_test_url rstrip_char pending_order_symbols
    normalize_spot_qty canonical_symbol ◌*ℤ◌
order_placed = refl

abbrev coins : List (Coin Fixed)
coins =
    record { coin = codes "USDT"; wallet_balance = number (unit 500) }
    ∷ record { coin = codes "btc"; wallet_balance = number (unit 3) }
    ∷ []

abbrev world : World Fixed Fixed
world = record {
  reads = reads;
  venue = venue;
  wallet = some coins;
  history = late_history;
  tables = record { users = λ u. some true; profiles = λ p. some profile };
  link = link;
}

abbrev account : Account Fixed
account = record { inventory = some stock; actions = stale ∷ [] }

abbrev sale_run : Run Fixed Fixed
sale_run =
    execute_managed_spot_order decimals world profile 9 (codes "btc/usdt") (codes "sell") (unit 1)
      account

sale_posts : sale_run.post ≡ some order
unfolding execute_managed_spot_order side_of is_unresolved has_client resolved
    reconcile_cancelled_submissions zero_fill_cancellation canonical_symbol base_coin
    wallet_coin_quantity place_test_spot_market_order is_test_url rstrip_char pending_order_symbols
    normalize_spot_qty entry_owner_blocker ◌*ℤ◌ ◌+ℤ◌ ◌-ℤ◌
sale_posts = refl

abbrev sale_report : Report Fixed
sale_report = record {
  status = executed;
  reason = none;
  quantity = unit 1;
  filled_quantity = some (unit 1);
  managed_before = unit 2;
}

sale_executes : sale_run.report ≡ some sale_report
unfolding execute_managed_spot_order side_of is_unresolved has_client resolved
    reconcile_cancelled_submissions zero_fill_cancellation canonical_symbol base_coin
    wallet_coin_quantity place_test_spot_market_order is_test_url rstrip_char pending_order_symbols
    normalize_spot_qty entry_owner_blocker verify_spot_fill history_evidence matching_history_row
    fill_quantity fill_price apply_managed_fill ◌*ℤ◌ ◌+ℤ◌ ◌-ℤ◌
sale_executes = refl

execute_managed_spot_order-gates_example :
    IsReady profile (side_of (codes "sell")) (unit 1)
    × ((actions : List Action) × (reconciled_actions decimals world
            (request_of profile 9 (codes "btc/usdt") (unit 1))
            account.actions
          ≡ some actions)
        × Posted decimals world
            (request_of profile 9 (codes "btc/usdt") (unit 1))
            (side_of (codes "sell"))
            (record account { actions = actions })
            order)
execute_managed_spot_order-gates_example =
    execute_managed_spot_order-gates decimals world profile 9 (codes "btc/usdt") (codes "sell")
      (unit 1) account sale_posts

execute_managed_spot_order-IsExecution_example :
    IsExecution decimals world
      (request_of profile 9 (codes "btc/usdt") (unit 1))
      (side_of (codes "sell"))
      account
      sale_report
      sale_run
execute_managed_spot_order-IsExecution_example =
    execute_managed_spot_order-IsExecution decimals world profile 9 (codes "btc/usdt")
      (codes "sell") (unit 1) account sale_report refl sale_executes refl

abbrev lost_world : World Fixed Fixed
lost_world = record world { venue = record venue { answer = none } }

execute_managed_spot_order-lost_example :
    let run =
      execute_managed_spot_order decimals lost_world profile 9
        (codes "btc/usdt")
        (codes "sell")
        (unit 1)
        account in
    (run.report ≡ none)
    × (pending_action (request_of profile 9 (codes "btc/usdt") (unit 1)) run.account.actions ≡ none)
unfolding execute_managed_spot_order side_of is_unresolved has_client resolved
    reconcile_cancelled_submissions zero_fill_cancellation canonical_symbol base_coin
    wallet_coin_quantity place_test_spot_market_order is_test_url rstrip_char pending_order_symbols
    normalize_spot_qty entry_owner_blocker ◌*ℤ◌ ◌+ℤ◌ ◌-ℤ◌
execute_managed_spot_order-lost_example =
    execute_managed_spot_order-lost decimals lost_world profile 9 (codes "btc/usdt") (codes "sell")
      (unit 1) account {post = order} refl refl

abbrev uncertified : Profile
uncertified = record profile { sell_passed = false }

abbrev certification_report : Report Fixed
certification_report = record {
  status = block;
  reason = some certification_required;
  quantity = unit 1;
  filled_quantity = none;
  managed_before = unit 0;
}

execute_managed_spot_order-block_example :
    let run =
      execute_managed_spot_order decimals world uncertified 9
        (codes "btc/usdt")
        (codes "sell")
        (unit 1)
        account in
    (run.post ≡ none) ⊎ (certification_report.reason ≡ some fill_exceeds_managed_inventory)
unfolding execute_managed_spot_order
execute_managed_spot_order-block_example =
    execute_managed_spot_order-block decimals world uncertified 9 (codes "btc/usdt") (codes "sell")
      (unit 1) account certification_report refl refl
