-- ===== src/Lib.antt =====
-- The verification library of CrashWave, the automation of a crash game: the part of it that
-- decides whether money is put at stake, and the books of that money.
--
-- The program's path to a bet, in src/ of the repository:
--   the betting coordinator (src/betting/betting-coordinator.ts) feeds observed rounds and
--   operators' commands as events to a state machine (src/core/state-machine), asks the sheath
--   (src/core/sheath-mode) whether bets are suspended, and follows the verdict of the entry
--   decision, for which the risk engine (src/betting/risk-engine.ts) reads the financial circuit
--   breaker (src/core/circuit-breaker). The daily ledger (src/ledger) holds the number of bets of a
--   day to its limit. The live executor then asks the guard of the capital
--   (src/capital/in-memory-limits.ts), books the order in double entry (src/settlement), reserves
--   the round in the idempotency store (src/betting/idempotency.ts), and places the bet; the
--   outcome of the round settles the order. The emergency stop (src/core/emergency-stop.ts) halts
--   the executor. The coordinator is bound to the executor in Coordinator/Live.
--
-- Which file models what:
--   Prelude, Prelude/Tests, Prelude/Lists, Prelude/Integers, Prelude/Maps: shared names, Boolean
--     tests, the conditional, lists and integers over the native numbers, and maps from texts.
--   Machine/Types, Machine/Context: src/core/state-machine/types.ts, with the rounds of
--     src/types/game.ts and the entry conditions of src/types/betting.ts.
--   Machine/Dates: the platform's Date, a parameter. Where a text must parse to its time, the law
--     RoundTrips is a hypothesis.
--   Machine/Guards: src/core/state-machine/guards.ts, one function for each guard. Guards/Entry
--     says what the entry conditions mean.
--   Machine/Transitions: src/core/state-machine/transitions.ts, the table (Rules), the map that is
--     built of it at start, and its queries. Lookup and Table hold the lemmas.
--   Machine/Instance, Machine/Effects, Machine/Send: src/core/state-machine/machine.ts, the fields,
--     the effects of an event and of a state, and send, forceState and their rejections. Callbacks
--     are reports in the result; `now` is an argument. A history is `Machine.Send.run`. The child
--     modules of Send prove the properties of histories.
--   Risk/Breaker: src/core/circuit-breaker/financial-circuit-breaker.ts. What a read of the shared
--     key brings is an argument, what is written is in the result.
--   Risk/Engine: src/betting/risk-engine.ts, every condition and the verdict.
--   Risk/Velocity, Risk/Velocity/Made, Risk/Velocity/Waits: src/risk/velocity-controller.ts. A
--     history is a list of attempts, each of which asks and, if it is allowed, makes its action and
--     records it; Made keeps all actions that were made. The loop that waits, where the clock does
--     not go back and no timer fires early, runs on fuel, a turn for each millisecond that it may
--     wait and one more: a turn that goes on sleeps for a millisecond at least.
--   Sheath/Types, Sheath/Mode: src/core/sheath-mode. A history is `Sheath.Mode.run`.
--   Coordinator/Browser, Coordinator/Browser/Health: src/browser/product-policy.ts and
--     src/browser/worker/health-circuit.ts, which decide whether live bets may go on.
--   Coordinator/Outside, Coordinator/Place, Coordinator/Round: src/betting/betting-coordinator.ts.
--     `Outside` is what a placement meets; the executor is a function of it. tryPlaceBet is
--     try_place_bet, cut at its early returns into check_quota, bind_executor, prepare,
--     reserve_slot, submit, ask and conclude; onRoundStarted and onRoundCrashed are
--     on_round_started and on_round_crashed, and their sequences are `Coordinator.Round.run`.
--   Coordinator/Live: the coordinator with the live executor of Executor/Place.
--   Capital/Limits: src/capital/in-memory-limits.ts, the lock on a drawdown.
--   Idempotency/Memory, Idempotency/Redis: the two stores of src/betting/idempotency.ts. The
--     commands of the shared store are a parameter; Redis/Laws states what is documented of them.
--   Settlement/Ledger, Settlement/Engine: src/settlement/types.ts and
--     src/settlement/authoritative-settlement-engine.ts, on the tables of
--     migrations/017_double_entry_settlement.sql. A transaction is a function of both tables,
--     and of the rows of users and bets that an order may refer to. Lines are kept newest first.
--   Executor/Gate, Executor/Safeguards: src/betting/execution-mode-gate.ts and
--     src/betting/execution-safeguards.ts.
--   Executor/Bets, Executor/Outside, Executor/Place: src/betting/live-executor.ts with the rows of
--     src/persistence/repositories/bet-repo.ts. `Outside` is what the page, the observer and the
--     database do; `World` holds the guard, the books, the store, the rows and a count of clicks.
--     placeLiveBet is place_live_bet, cut at its early returns into place_running, place_unblocked,
--     place_present, place_checked, place_allowed, place_ordered, place_booked, place_reserved and
--     place_row; attempt_all is its loop. A settlement engine is wired where the placement has a
--     client order identifier. Place/Passes leads from the start of a placement to its order.
--   Executor/Stop: src/core/emergency-stop.ts, over the live executor that it stops.
--   Daily/Types, Daily/Ledger, Daily/Counter: src/ledger/daily-entries.ts for one day, with the
--     types of src/ledger/types.ts.
--   DryRun/Trades, DryRun/Ledger: src/core/dry-run/virtual-ledger.ts, the ledger of simulated bets.
--   DryRun/Controller: src/core/dry-run/dry-run-controller.ts, which feeds it.
--   Mutex/Lock: src/core/distributed-mutex.ts. The commands of the shared store are a parameter.
--   Queue/Buckets, Queue/Priority: src/core/job-queue/priority-queue.ts. A history is a list of
--     events, among them the settling of a handler and the firing of the timer.
--   Retry/Loop, Retry/Circuit: src/utils/retry.ts.
--   Idempotency/Local: a concrete store with the documented laws, for the examples.
--   Fixtures and Examples modules: concrete inputs, and each theorem at them.
--
-- Units: numbers are natural numbers. Amounts are hundredths in Machine, Risk, Capital, Executor
-- and DryRun, whose balances are units of 1e-4, and units of 1e-8, the scale of the columns, in
-- Settlement; multipliers there too. Probabilities, confidences and data qualities are thousandths,
-- times are milliseconds. So the rounding of floating point is not modelled, and a negative wager,
-- which the columns' checks refuse, cannot be written. Save for the wait of
-- Risk/Velocity/Waits, no function needs fuel: the loops of these parts go over lists, or count
-- the rounds that their bound leaves.
--
-- Assumed: SERIALIZABLE transactions act as if one after the other; the failures of the database
-- that are retried change nothing; a record of the idempotency store reads back from its JSON text
-- as it was written. Calls of the coordinator come one after the other, and the day does not change
-- in the middle of one.
--
-- Not modelled: logging, the export of metrics, and the platform's timers beside the queue's; the
-- aliasing of the machine's context object, which no property here depends on; `evidence` and the
-- time stamps of rows; getAccountBalance, which reads a cache table that the engine does not write.
-- Of the executor, the event of a failed bet, the registry of client order identifiers, and
-- latencies, none of which a placement records; its calls are serial. Of the daily ledger, the
-- days' other rows and the ledger in memory for tests. Of a simulated session, its executor and the
-- times of trades. Of the sheath, the listeners of its transitions. What the entry decision
-- service, the decision engine and the quota of a tenant answer is an argument of the coordinator:
-- the first two weigh floating-point scores of the prediction engine, which the natural numbers do
-- not express. The confirmation and the cash-out of a bet, the platform's billing, the browser and game
-- adapters, the bots and the web applications are other parts of the program and are not modelled
-- here.
mod Prelude
pub mod Capital
pub mod Coordinator
pub mod Daily
pub mod DryRun
pub mod Executor
pub mod Idempotency
pub mod Machine
pub mod Mutex
pub mod Queue
pub mod Retry
pub mod Risk
pub mod Settlement
pub mod Sheath
