-- ===== src/Idempotency.antt =====
-- The reservation of a round's bet: src/betting/idempotency.ts, with the types of
-- src/betting/types.ts and src/types/betting.ts. Logging and the cleanup timer, which does nothing
-- on the shared store, are left out.
pub mod Types
pub mod Memory
pub mod Redis
pub mod Local
mod Examples
