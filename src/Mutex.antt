-- ===== src/Mutex.antt =====
-- The lock on a resource: src/core/distributed-mutex.ts.
pub mod Lock
mod Examples
