-- ===== src/Tests.antt =====
-- Runs of the model on concrete inputs, and the theorems at inputs that meet their hypotheses.
mod Guard
mod Bybit
mod Candles
mod Ibkr
mod Automation
mod Routing
mod Accounts
mod Auth
mod Backtest
mod Exits
mod Access
mod Sizing
