-- ===== src/Executor.antt =====
-- The placement of a live bet: src/betting/live-executor.ts with its gate, its safeguards and the
-- parts that it calls.
pub mod Gate
pub mod Safeguards
pub mod Bets
pub mod Outside
pub mod Place
pub mod Stop
pub mod Fixtures
mod Examples
