-- ===== src/Capital.antt =====
-- The limits on capital of src/capital.
pub mod Limits
mod Examples
