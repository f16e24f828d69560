-- ===== src/Queue/Priority.antt =====
-- The class PriorityJobQueue of src/core/job-queue/priority-queue.ts. The jobs whose handler has not
-- settled are a list beside the count of them that the source keeps, and `calls` holds the identifier
-- of the job of every call of the handler, the newest first; `now` is what `Date.now()`
-- reads. A handler takes a call that settles it as its next step, the hook for dead letters being
-- part of that call, and does not call the queue before its first wait.
pub mod Bounds
pub mod Calls
pub mod Tries
use crash.Prelude.{
  ℕ, zero, suc, ◌+◌, ◌-◌, ◌*◌, ◌^◌, String, Bool, true, false, ltb, leb, max, if◌then◌else◌, List,
  [], ◌∷◌, ◌++◌, Option, none, some, get_elem?,
}
use crash.Queue.Buckets.{QueuePriority, QueueJob, Buckets, push, depth, dequeue, remove_at}

pub record PriorityJobQueue : Type 0 where
  pub buckets : Buckets
  pub max_depth : ℕ
  pub concurrency : ℕ
  pub retry_base_ms : ℕ
  pub active : ℕ
  pub running : List QueueJob
  pub calls : List String
  pub has_handler : Bool
  pub retry_timer : Option ℕ
  pub dead_letters : List QueueJob

unfoldable pub create : ℕ → ℕ → ℕ → PriorityJobQueue
create max_depth concurrency retry_base_ms = record {
  buckets = λ p. [];
  max_depth = max_depth;
  concurrency = max 1 concurrency;
  retry_base_ms = retry_base_ms;
  active = 0;
  running = [];
  calls = [];
  has_handler = false;
  retry_timer = none;
  dead_letters = [];
}

-- A job that leaves the buckets starts; `attempts` is counted before its handler is called.
abbrev pub started : QueueJob → Buckets → PriorityJobQueue → PriorityJobQueue
started job b q = record q {
  buckets = b;
  active = suc q.active;
  running = q.running ++ record job { attempts = suc job.attempts } ∷ [];
  calls = job.id ∷ q.calls;
}

start_next : Option (QueueJob × Buckets) → PriorityJobQueue → Option PriorityJobQueue
start_next none q = none
start_next (some (job, b)) q = some (started job b q)

go_on :
    (PriorityJobQueue → PriorityJobQueue)
    → PriorityJobQueue
    → Option PriorityJobQueue
    → PriorityJobQueue
go_on rest q none = q
go_on rest q (some q') = rest q'

-- The `while` loop, with the places that are free.
pump_loop : ℕ → ℕ → PriorityJobQueue → PriorityJobQueue
unfolding start_next go_on
pump_loop zero now q = q
pump_loop (suc free) now q = go_on (pump_loop free now) q (start_next (dequeue now q.buckets) q)

unfoldable pub pump : ℕ → PriorityJobQueue → PriorityJobQueue
unfolding pump_loop
pump now q = if q.has_handler then pump_loop (q.concurrency - q.active) now q else q

unfoldable pub on_process : ℕ → PriorityJobQueue → PriorityJobQueue
on_process now q = pump now (record q { has_handler = true })

abbrev pub new_job : String → QueuePriority → ℕ → ℕ → QueueJob
new_job id p max_attempts now = record {
  id = id;
  priority = p;
  attempts = 0;
  max_attempts = max_attempts;
  available_at = now;
}

-- The answer is the identifier, or `none` where `queue_depth_limit_exceeded` is thrown.
unfoldable pub enqueue :
    ℕ → String → QueuePriority → ℕ → PriorityJobQueue → PriorityJobQueue × Option String
enqueue now id p max_attempts q =
    if leb q.max_depth (depth q.buckets)
    then (q, none)
    else (pump now (record q { buckets = push (new_job id p max_attempts now) q.buckets }), some id)

-- `scheduleRetryPump`: a timer that runs is left as it is.
abbrev pub schedule : ℕ → Option ℕ → Option ℕ
schedule at (some t) = some t
schedule at none = some at

abbrev pub retried : ℕ → ℕ → QueueJob → QueueJob
retried now base job = record job { available_at = now + base * 2 ^ (job.attempts - 1) }

-- The `catch` of a run.
unfoldable pub fail : ℕ → QueueJob → PriorityJobQueue → PriorityJobQueue
fail now job q =
    if ltb job.attempts job.max_attempts
    then record q {
      buckets = push (retried now q.retry_base_ms job) q.buckets;
      retry_timer = schedule (retried now q.retry_base_ms job).available_at q.retry_timer;
    }
    else record q { dead_letters = q.dead_letters ++ job ∷ [] }

-- The `finally` of a run.
unfoldable pub finish : ℕ → PriorityJobQueue → PriorityJobQueue
finish now q = pump now (record q { active = q.active - 1 })

abbrev pub drop_running : ℕ → PriorityJobQueue → PriorityJobQueue
drop_running i q = record q { running = remove_at i q.running }

-- The handler of a running job settles, with an error or without; nothing runs at another place.
settle_job : ℕ → ℕ → Bool → Option QueueJob → PriorityJobQueue → PriorityJobQueue
settle_job now i failed none q = q
settle_job now i true (some job) q = finish now (fail now job (drop_running i q))
settle_job now i false (some job) q = finish now (drop_running i q)

unfoldable pub settle : ℕ → ℕ → Bool → PriorityJobQueue → PriorityJobQueue
unfolding settle_job
settle now i failed q = settle_job now i failed (get_elem? q.running i) q

-- The callback of the timer.
unfoldable pub fire : ℕ → PriorityJobQueue → PriorityJobQueue
fire now q = pump now (record q { retry_timer = none })

-- What happens to a queue, and a history of it.
pub data Event : Type 0 where
  handled : ℕ → Event
  enqueued : ℕ → String → QueuePriority → ℕ → Event
  settled : ℕ → ℕ → Bool → Event
  fired : ℕ → Event

unfoldable pub step : PriorityJobQueue → Event → PriorityJobQueue
step q (handled now) = on_process now q
step q (enqueued now id p max_attempts) = (enqueue now id p max_attempts q).0
step q (settled now i failed) = settle now i failed q
step q (fired now) = fire now q

unfoldable pub run : PriorityJobQueue → List Event → PriorityJobQueue
run q [] = q
run q (e ∷ es) = run (step q e) es
