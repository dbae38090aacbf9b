-- ===== src/Ibkr.antt =====
-- Interactive Brokers Paper trading: share quantities, fill evidence, and protective orders.
pub mod Shares
pub mod Fill
pub mod Protection
pub mod Evidence
