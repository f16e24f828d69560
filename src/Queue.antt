-- ===== src/Queue.antt =====
-- The queue of background jobs: src/core/job-queue/priority-queue.ts.
pub mod Buckets
pub mod Priority
mod Examples
