-- ===== src/Sheath.antt =====
-- The protective degradation of betting: src/core/sheath-mode/.
pub mod Types
pub mod Mode
mod Examples
