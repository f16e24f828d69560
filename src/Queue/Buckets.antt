-- ===== src/Queue/Buckets.antt =====
-- The jobs of src/core/job-queue/priority-queue.ts and the map of their buckets, a function of the
-- priority. A payload, which the queue hands on, and the time of creation, which nothing reads, are
-- left out.
pub mod Order
pub mod Remaining
use crash.Prelude.{
  ℕ, zero, suc, ◌+◌, String, Bool, leb, ◌==◌, length, if◌then◌else◌, List, [], ◌∷◌, ◌++◌, Option,
  none, some,
}

pub data QueuePriority : Type 0 where
  critical high normal low background : QueuePriority

pub record QueueJob : Type 0 where
  pub id : String
  pub priority : QueuePriority
  pub attempts : ℕ
  pub max_attempts : ℕ
  pub available_at : ℕ

abbrev pub priority_order : List QueuePriority
priority_order = critical ∷ high ∷ normal ∷ low ∷ background ∷ []

-- The place of a priority in that order.
abbrev pub rank : QueuePriority → ℕ
rank critical = 0
rank high = 1
rank normal = 2
rank low = 3
rank background = 4

abbrev pub Buckets : Type 0
Buckets = QueuePriority → List QueueJob

abbrev pub put : QueuePriority → List QueueJob → Buckets → Buckets
put p jobs b q = if rank p == rank q then jobs else b q

abbrev pub push : QueueJob → Buckets → Buckets
push job b = put job.priority (b job.priority ++ job ∷ []) b

depth_of : List QueuePriority → Buckets → ℕ
depth_of [] b = 0
depth_of (p ∷ ps) b = length (b p) + depth_of ps b

unfoldable pub depth : Buckets → ℕ
unfolding depth_of
depth b = depth_of priority_order b

-- The list without its element at a place.
abbrev pub remove_at : ℕ → List QueueJob → List QueueJob
remove_at i [] = []
remove_at zero (job ∷ jobs) = jobs
remove_at (suc i) (job ∷ jobs) = job ∷ remove_at i jobs

abbrev pub is_due : ℕ → QueueJob → Bool
is_due now job = leb job.available_at now

abbrev behind : QueueJob → Option (QueueJob × List QueueJob) → Option (QueueJob × List QueueJob)
behind job none = none
behind job (some (found, rest)) = some (found, job ∷ rest)

-- The first job that is due, and the others.
unfoldable pub take_due : ℕ → List QueueJob → Option (QueueJob × List QueueJob)
take_due now [] = none
take_due now (job ∷ jobs) =
    let rest = take_due now jobs in if is_due now job then some (job, jobs) else behind job rest

-- A job that is found in a bucket leaves it; the later buckets come in where there is none.
dequeue_at :
    QueuePriority
    → Option (QueueJob × List QueueJob)
    → Buckets
    → Option (QueueJob × Buckets)
    → Option (QueueJob × Buckets)
dequeue_at p (some (job, rest)) b later = some (job, put p rest b)
dequeue_at p none b later = later

dequeue_from : List QueuePriority → ℕ → Buckets → Option (QueueJob × Buckets)
unfolding dequeue_at
dequeue_from [] now b = none
dequeue_from (p ∷ ps) now b =
    let later = dequeue_from ps now b in dequeue_at p (take_due now (b p)) b later

unfoldable pub dequeue : ℕ → Buckets → Option (QueueJob × Buckets)
unfolding dequeue_from
dequeue now b = dequeue_from priority_order now b
