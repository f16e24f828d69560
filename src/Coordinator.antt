-- ===== src/Coordinator.antt =====
-- The driver of live decisions, src/betting/betting-coordinator.ts, which composes the betting
-- state machine, the sheath, the risk engine's evaluation, the daily ledger, the circuit breaker
-- and the executor; with the policy and the health circuit of the browser that it asks
-- (src/browser/product-policy.ts, src/browser/worker/health-circuit.ts).
pub mod Browser
pub mod Outside
pub mod Place
pub mod Round
pub mod Live
pub mod Fixtures
mod Examples
