-- ===== src/Lib.antt =====
-- ATLAS MARKETS, a trading analysis, simulation and operations platform: a verification library of
-- its execution core, the code that may send an order to a broker, and of the users and accounts
-- that this code runs for.
--
-- The program: an automation worker (app/services/safe_automation.py) goes through the approved
-- items of a scan and sends them to one of three brokers. An MT5 order goes through _execute_mt5
-- and the bridge client (app/brokers/mt5_bridge.py). A Bybit order goes through
-- execute_managed_spot_order (app/services/bybit_spot_execution.py), which keeps an inventory of
-- what it bought itself, and the private client (app/brokers/bybit_private.py). An Interactive
-- Brokers Paper entry goes through _execute_ibkr_audited and _execute_ibkr, with the bridge client
-- (app/brokers/ibkr_bridge.py), the share quantities (app/services/ibkr_fractional.py) and the
-- candles and quotes of the entry (app/services/trading_candles.py). They share the symbol sets and
-- the locks of app/services/execution_guard.py and the owner checks of
-- app/services/account_access.py. A second worker (app/services/mt5_position_manager.py) closes MT5
-- demo positions. The HTTP routes sign users in, administer users and accounts, and arm an account
-- for live money.
--
-- Files:
--   Base          lists, texts, integers, orders and sorting, the answers of handlers, and the
--                 interfaces of floating-point numbers: Base/Float states what is used of floats and
--                 of decimals as a record of operations, with the laws that a theorem uses as named
--                 hypotheses, and exact decimals as an instance
--   Guard         app/services/execution_guard.py: Guard/Symbols the symbols and the sets of symbols
--                 of open positions and pending orders, Guard/Reserve the lock objects and
--                 their registry as a step relation
--   Rows, Access  the rows of app/db/models that several services read; in Access, Owner (the entry
--                 check) and Assign (the assignment of accounts) of app/services/account_access.py,
--                 and app/services/access_scope.py
--   Bybit         app/services/bybit_spot_execution.py: Inventory (apply_managed_fill), Fills (the
--                 evidence of a fill), Slots (managed_position_slots), Reconcile
--                 (reconcile_cancelled_submissions), Submit (place_test_spot_market_order of
--                 app/brokers/bybit_private.py), Attempt and Execute (execute_managed_spot_order,
--                 what it reads and reports, and its phases)
--   Ibkr          Shares (app/services/ibkr_fractional.py), Fill (_verify_ibkr_fill of
--                 app/services/safe_automation.py), Evidence (app/services/ibkr_entry_fill.py) and
--                 Protection (app/services/ibkr_protection.py)
--   Candles       app/services/trading_candles.py, and delayed_reference of
--                 app/services/ibkr_paper_data.py in Candles/Quality
--   Automation    Route (the certified routes and _entry_authorization_blocker), Entry
--                 (_execute_ibkr and place_order of app/brokers/ibkr_bridge.py in stages), Audit
--                 (_execute_ibkr_audited with its commits as a trace, cancellations and commits that
--                 fail included),
--                 Mt5 (_execute_mt5 and place_demo_order of app/brokers/mt5_bridge.py) and Scan
--                 (run_safe_scan, with any outcome of the executions that it starts, and
--                 interrupt_scan of app/services/scan_lifecycle.py)
--   Routing       app/services/provider_routing.py
--   Accounts      Live (app/services/live_execution.py and its handlers of
--                 app/api/routes_accounts.py) and Lifecycle
--                 (app/api/routes_account_lifecycle.py, the activation of an account and
--                 app/api/routes_bybit_environment.py)
--   Auth          Password (app/core/security.py), Users and Sessions (app/services/auth.py,
--                 app/api/dependencies.py, app/api/routes_auth.py), Admin (app/api/routes_admin.py)
--                 and Run, the requests of these in sequence
--   Exits         evaluate_mt5_exit_signals of app/services/position_lifecycle.py, and Manager
--                 (app/services/mt5_position_manager.py)
--   Backtest      simulate of app/backtesting/spot_breakout_v1.py, bar by bar
--   Sizing        app/services/capital_sizing.py, app/services/paper_execution.py and evaluate_risk
--                 of app/services/signal_risk.py
--   Tests         runs on concrete inputs, and the theorems at inputs that meet their hypotheses
--
-- State and effects. A database is the rows that a call reads; where a call reads it again, the
-- model has the database of each of these moments, so that other workers may change it in between.
-- What a broker answers is a record with a field for each read, none where the read raises. A lost
-- answer of an order's POST is a posted order with no answer. The tasks that share the locks of
-- execution_guard run on one event loop: a step of the relation is what runs between two awaits.
--
-- Bounds and fuel. The only counted loops are the reads of an order's status, six for Bybit and six
-- for Interactive Brokers, as in the source; every other loop is over a list. Identifiers are natural
-- numbers, times are natural numbers of one unit, texts are lists of ASCII codes.
--
-- The requests for accounts and users are sequences of handler calls, each on the database that the
-- one before it left; a refused request leaves it as it was. Digests, base64, random draws and the
-- lot arithmetic on Python's Decimal are parameters.
--
-- Not modelled: HTTP, signing, encryption and SQL; the wording of reasons that carry data; logging
-- and system events; the dispatch of a Bybit item, the position management and recovery of
-- Interactive Brokers, connecting an account, the strategy analysis behind a signal (an exit is
-- judged for any signal), the other backtests, reports and the remaining HTTP routes, of which
-- the modelled code uses only the rows that they write.
pub mod Base
pub mod Guard
pub mod Rows
pub mod Access
pub mod Bybit
pub mod Ibkr
pub mod Candles
pub mod Automation
pub mod Routing
pub mod Accounts
pub mod Auth
pub mod Backtest
pub mod Exits
pub mod Sizing
mod Tests
