-- ===== src/DryRun.antt =====
-- Simulated bets: src/core/dry-run.
pub mod Trades
pub mod Ledger
pub mod Controller
mod Examples
