-- ===== src/Bybit.antt =====
-- app/services/bybit_spot_execution.py and the order path of app/brokers/bybit_private.py: the
-- managed Spot inventory, the evidence read from the exchange, and the execution of one order.
pub mod Inventory
pub mod Fills
pub mod Slots
pub mod Reconcile
pub mod Submit
pub mod Attempt
pub mod Execute
