-- ===== src/Tests/Automation.antt =====
-- Entries of a Paper account on concrete inputs.
use atlas_markets.Base.{ℕ, ◌≡◌, refl, ap, true, false, none, some, List, [], ◌∷◌}
use atlas_markets.Base.Int.{◌-ℤ◌, ◌*ℤ◌}
use atlas_markets.Base.Text.{codes}
use atlas_markets.Base.Float.{absent, number}
use atlas_markets.Base.Float.Fixed.{Fixed, fixed_float}
use atlas_markets.Rows.{executed, Profile, block}
use atlas_markets.Access.Owner.{active_owner}
use atlas_markets.Guard.Symbols.{canonical_symbol, exposure_symbols, pending_order_symbols}
use atlas_markets.Ibkr.Shares.{normalize_ibkr_shares, ibkr_quantity_is_fractional}
use atlas_markets.Candles.{
  completed_trading_candles, completed_ibkr_candles, interval_ms, checked_row,
}
use atlas_markets.Candles.Quality.{Quote, entry_candle_quality, ibkr_entry_quote_quality}
use atlas_markets.Automation.Route.{
  Config, World, IsAuthorized, config_by_id, automation_certification_blocker,
  entry_authorization_blocker, entry_authorization_blocker-cleared,
}
use atlas_markets.Automation.Entry.{
  Settings, Item, Broker, Moments, Order, find_route, check_proposal,
}
use atlas_markets.Automation.Entry.Checks.{
  holds, has_open_order, delayed_paper_mode, check_reference, check_broker, check_market,
}
use atlas_markets.Automation.Entry.Place.{place_checked, place_order, placed_outcome, execute_ibkr}
use atlas_markets.Automation.Entry.Sound.{IsEntry, execute_ibkr-IsEntry}
use atlas_markets.Automation.Audit.{
  stays_open, cancelled_after_post, returns, Audited, refused_with, profile_for_item,
  execute_ibkr_audited,
}
use atlas_markets.Automation.Audit.Sound.{orders_in, execute_ibkr_audited-held}
use atlas_markets.Automation.Scan.{Turn, Visit, Scan, ScanRow, failed, returned, raised}
use atlas_markets.Automation.Mt5.{
  Proposal, Bridge, DemoOrder, execute_mt5, check_mt5_proposal, check_bridge, has_position,
  demo_checked, place_demo_order,
}
use atlas_markets.Automation.Mt5.Demo.{IsDemoOrder, execute_mt5-IsDemoOrder}
use atlas_markets.Tests.Candles.{candles}
use atlas_markets.Tests.Ibkr.{shares}

abbrev unit : ℕ → Fixed
unit n = fixed_float.num n 0

abbrev profile : Profile
profile = record {
  id = 5;
  user = 1;
  provider = codes "IBKR";
  environment = codes "PAPER";
  is_enabled = true;
  is_active = true;
  credentials_configured = true;
  connected = true;
  execution_certified = true;
  buy_passed = true;
  sell_passed = true;
  key = true;
  secret = true;
}

abbrev config : Config
config = record {
  id = 9;
  user = 1;
  profile = 5;
  market = codes "STOCKS";
  symbol = codes "AAPL";
  mode = codes "AUTO_TRADE";
  enabled = true;
  timeframe = some (codes "1m");
}

abbrev world : World
world = record {
  tables = record { users = λ id. some true; profiles = λ id. some profile };
  configs = config ∷ [];
  engine = record { enabled = true; killed = false; auto_execute_paper = true };
}

abbrev settings : Settings
settings = record {
  native_protection = false;
  fractional_api = false;
  delayed_data = false;
  allow_live = false;
}

abbrev moments : Moments
moments = record { start = world; check = world; submit = world }

abbrev item : Item Fixed Fixed
item = record {
  market = codes "stocks";
  symbol = codes "aapl";
  side = codes "buy";
  shares = number (unit 2);
  stop_loss = absent;
  take_profit = absent;
  timeframe = none;
}

abbrev quote : Quote Fixed
quote = record {
  snapshot = true;
  market_data_type = some 1;
  delayed_ticks = false;
  price = λ field. some (unit 50);
  received = λ field. some 12_070_000;
  last_trade = none;
}

-- The answer of the POST is lost.
abbrev broker : Broker Fixed
broker = record {
  account = some (some (codes "DU1"));
  health = some (record { connected = true; simulation = true; protection = false });
  positions = some [];
  orders = some [];
  candles = some (codes "1m", candles 201 0);
  candles_now = 12_070_000;
  quality_now = 12_070_000;
  quote = some quote;
  quote_now = 12_080_000;
  what_if = some true;
  free = true;
  health_again = some (record { connected = true; simulation = true; protection = false });
  positions_again = some [];
  orders_again = some [];
  answer = none;
  status_reads = λ k. none;
}

abbrev order : Order Fixed
order = record {
  symbol = codes "AAPL";
  side = codes "BUY";
  quantity = unit 2;
  account = some (codes "DU1");
}

entry_authorization_blocker-cleared_example :
    (p : Profile) × (c : Config) × (world.tables.profiles 5 ≡ some p)
    × (config_by_id 9 world.configs ≡ some c)
    × IsAuthorized world p c
unfolding entry_authorization_blocker
entry_authorization_blocker-cleared_example = entry_authorization_blocker-cleared world 5 9 refl

loses_answer :
    execute_ibkr shares settings moments broker 1 item
    ≡ record { status = none; reason = none; post = some order }
unfolding execute_ibkr find_route automation_certification_blocker check_proposal
    normalize_ibkr_shares ibkr_quantity_is_fractional check_broker holds has_open_order check_market
    delayed_paper_mode check_reference completed_ibkr_candles interval_ms checked_row
    entry_candle_quality ibkr_entry_quote_quality entry_authorization_blocker place_checked
    place_order placed_outcome canonical_symbol exposure_symbols pending_order_symbols active_owner
    completed_trading_candles ◌-ℤ◌ ◌*ℤ◌
loses_answer = refl

posts : (execute_ibkr shares settings moments broker 1 item).post ≡ some order
posts = ap (λ o. o.post) loses_answer

execute_ibkr-IsEntry_example :
    (e : IsEntry shares moments broker 1 item order) × (place_checked broker order.symbol ≡ true)
    × (p : Profile) × (c : Config) × (world.tables.profiles e.profile.id ≡ some p)
    × (config_by_id e.config.id world.configs ≡ some c)
    × IsAuthorized world p c
execute_ibkr-IsEntry_example = execute_ibkr-IsEntry shares settings moments broker 1 item posts

abbrev first : Audited Fixed
first = execute_ibkr_audited shares 3 settings moments broker cancelled_after_post 1 item []

sends : orders_in first.trace ≡ order ∷ []
unfolding execute_ibkr_audited entry_authorization_blocker automation_certification_blocker
    canonical_symbol active_owner
sends = rw loses_answer refl

unresolved : stays_open first.status ≡ true
unfolding execute_ibkr_audited entry_authorization_blocker automation_certification_blocker
    canonical_symbol active_owner
unresolved = refl

found : profile_for_item world 1 item ≡ some (9, profile)
unfolding profile_for_item canonical_symbol
found = refl

execute_ibkr_audited-held_example :
    execute_ibkr_audited shares 4 settings moments broker returns 1 item first.actions
    ≡ refused_with (some block) first.actions
execute_ibkr_audited-held_example =
    execute_ibkr_audited-held shares 3 settings moments broker cancelled_after_post 1 item [] found
      sends unresolved 4 9 settings moments broker returns item profile refl found refl

abbrev bought : Turn
bought = record {
  passes = true;
  reply = returned executed;
  commits = true;
  saves = true;
  protects = true;
}

abbrev broken : Turn
broken = record bought { reply = raised; saves = false }

abbrev refused : Turn
refused = record bought { passes = false }

abbrev visits : List Visit
visits = record { active = true; preflight = some (bought ∷ refused ∷ broken ∷ bought ∷ []) } ∷ []

-- The scan fails at the third item and keeps what was committed, the second approval too.
abbrev failed_row : ScanRow
failed_row = record { status = failed; signals = 2; approved = 2; executed_count = 1 }

abbrev failed_scan : Scan
failed_scan = record {
  row = failed_row;
  saved = failed_row;
  results = executed ∷ block ∷ block ∷ [];
  attempts = 2;
}

abbrev mt5_world : World
mt5_world = record world {
  tables = record {
    users = λ id. some true;
    profiles = λ id. some (record profile { provider = codes "MT5"; environment = codes "DEMO" });
  };
}

abbrev bridge : Bridge Fixed
bridge = record {
  configured = true;
  health = some (true, some true);
  positions = some [];
  orders = some [];
  retcode = some (some 0);
  free = true;
  positions_again = some [];
  orders_again = some [];
  answers = true;
}

abbrev proposal : Proposal Fixed
proposal = record {
  volume = number (unit 1);
  stop_loss = number (unit 40);
  take_profit = number (unit 60);
}

abbrev demo_order : DemoOrder Fixed
demo_order = record {
  symbol = codes "AAPL";
  side = codes "BUY";
  volume = unit 1;
  stop_loss = unit 40;
  take_profit = unit 60;
}

execute_mt5-IsDemoOrder_example :
    IsDemoOrder mt5_world mt5_world bridge 1 item proposal demo_order
    × (demo_checked bridge demo_order.symbol ≡ true)
unfolding execute_mt5 find_route automation_certification_blocker check_mt5_proposal check_bridge
    has_position demo_checked place_demo_order canonical_symbol exposure_symbols
    pending_order_symbols active_owner
execute_mt5-IsDemoOrder_example =
    execute_mt5-IsDemoOrder mt5_world mt5_world bridge 1 item proposal refl
