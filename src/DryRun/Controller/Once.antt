-- ===== src/DryRun/Controller/Once.antt =====
-- A signal is simulated once (src/core/dry-run/dry-run-controller.ts).
use crash.Prelude.{◌≡◌, String, true, some}
use crash.DryRun.Ledger.{VirtualTradeLedger, seen}

-- A signal that the ledger knows.
abbrev IsKnown : String → VirtualTradeLedger → Type 0
IsKnown s l = seen (some s) l.by_signal ≡ true
