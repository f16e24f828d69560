-- ===== src/Risk.antt =====
-- The gate before a bet: the financial circuit breaker and the risk engine.
pub mod Breaker
pub mod Engine
pub mod Velocity
mod Examples
