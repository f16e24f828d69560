-- ===== src/Settlement.antt =====
-- The settlement of orders in the double-entry ledger.
pub mod Ledger
pub mod Engine
mod Examples
