-- ===== src/Retry.antt =====
-- The repeating of calls that fail and the breaker around them: src/utils/retry.ts.
pub mod Loop
pub mod Circuit
mod Examples
