-- ===== src/Guard.antt =====
-- app/services/execution_guard.py: canonical symbols, the symbols that already carry exposure,
-- and the process-local reservation of one execution slot.
pub mod Symbols
pub mod Canonical
pub mod Pending
pub mod Reserve
