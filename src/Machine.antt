-- ===== src/Machine.antt =====
-- The betting state machine (src/core/state-machine).
pub mod Types
pub mod Context
pub mod Dates
pub mod Guards
pub mod Transitions
pub mod Instance
pub mod Effects
pub mod Send
pub mod Fixtures
mod Examples
