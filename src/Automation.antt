-- ===== src/Automation.antt =====
-- app/services/safe_automation.py: the automation worker's certified routes, its last authorization
-- check, and the entries of Interactive Brokers Paper accounts with their saved intents.
pub mod Route
pub mod Entry
pub mod Audit
pub mod Scan
pub mod Mt5
