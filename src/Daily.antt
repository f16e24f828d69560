-- ===== src/Daily.antt =====
-- The entries of a day: src/ledger/daily-entries.ts, with the types of src/ledger/types.ts. Every
-- statement names one day, so the rows of a day are a state of their own.
pub mod Types
pub mod Ledger
pub mod Counter
mod Examples
