-- ===== src/Queue/Priority/Bounds.antt =====
-- The bounds of a queue (src/core/job-queue/priority-queue.ts).
use crash.Prelude.{
  ℕ, zero, suc, ◌+◌, ◌-◌, ◌≤◌, ◌≡◌, refl, ap, Bool, true, false, String, length, length-append,
  get_elem?, if◌then◌else◌, if-either, leb, List, [], ◌∷◌, Option, none, some, arith,
}
use crash.Queue.Buckets.{QueueJob, Buckets, push, depth, dequeue, remove_at}
use crash.Queue.Buckets.Order.{depth-push, depth-Left, Dequeued, dequeue-Dequeued}
use crash.Queue.Buckets.{priority_order}
use crash.Queue.Priority.{
  PriorityJobQueue, started, start_next, go_on, pump_loop, pump, on_process, new_job, enqueue,
  retried, fail, finish, settle_job, settle, fire, Event, handled, enqueued, settled, fired, step,
  run,
}

-- No more handlers run than the queue may run at a time, their number is kept, and the queue is not
-- longer than its limit, save for jobs that come back from a handler.
pub record Bounded (q : PriorityJobQueue) : Type 0 where
  pub counted : q.active ≡ length q.running
  pub concurrent : q.active ≤ q.concurrency
  pub limited : depth q.buckets + q.active ≤ q.max_depth + q.concurrency

go_on-Bounded :
    (free now : ℕ) (q : PriorityJobQueue) (o : Option (QueueJob × Buckets))
    → Dequeued priority_order now q.buckets o
    → q.active + suc free ≤ q.concurrency
    → Bounded q
    → ((q' : PriorityJobQueue)
        → q'.active + free ≤ q'.concurrency
        → Bounded q'
        → Bounded (pump_loop free now q'))
    → Bounded (go_on (pump_loop free now) q (start_next o q))
unfolding go_on start_next
go_on-Bounded free now q none d l b rest = b
go_on-Bounded free now q (some (job, bs)) d l b rest =
    let e = depth-Left now q.buckets bs job d in
    let a = length-append q.running (record job { attempts = suc job.attempts } ∷ []) in
    let c = b.counted in
    let m = b.limited in
    rest (started job bs q) (omega arith)
      (record { counted = omega arith; concurrent = omega arith; limited = omega arith })

pump_loop-Bounded :
    (free now : ℕ) (q : PriorityJobQueue)
    → q.active + free ≤ q.concurrency
    → Bounded q
    → Bounded (pump_loop free now q)
unfolding pump_loop
pump_loop-Bounded zero now q l b = b
pump_loop-Bounded (suc free) now q l b =
    go_on-Bounded free now q (dequeue now q.buckets) (dequeue-Dequeued now q.buckets) l b
      (λ q'. pump_loop-Bounded free now q')

pump-Bounded : (now : ℕ) (q : PriorityJobQueue) → Bounded q → Bounded (pump now q)
unfolding pump
pump-Bounded now q b =
    let c = b.concurrent in
    if-either Bounded q.has_handler (pump_loop (q.concurrency - q.active) now q) q
      (pump_loop-Bounded (q.concurrency - q.active) now q (omega arith) b) b

length-remove_at :
    (i : ℕ) (jobs : List QueueJob) (job : QueueJob)
    → get_elem? jobs i ≡ some job
    → length jobs ≡ suc (length (remove_at i jobs))
length-remove_at i [] job h = cc
length-remove_at zero (j ∷ js) job h = refl
length-remove_at (suc i) (j ∷ js) job h = ap suc (length-remove_at i js job h)

settle_job-Bounded :
    (now i : ℕ) (failed : Bool) (o : Option QueueJob) (q : PriorityJobQueue)
    → get_elem? q.running i ≡ o
    → Bounded q
    → Bounded (settle_job now i failed o q)
unfolding settle_job finish fail
settle_job-Bounded now i failed none q h b = b
settle_job-Bounded now i true (some job) q h b =
    let l = length-remove_at i q.running job h in
    let d = depth-push (retried now q.retry_base_ms job) q.buckets in
    let c = b.counted in
    let k = b.concurrent in
    let m = b.limited in
    pump-Bounded now _
      (record { counted = ground arith; concurrent = ground arith; limited = ground arith })
settle_job-Bounded now i false (some job) q h b =
    let l = length-remove_at i q.running job h in
    let c = b.counted in
    let k = b.concurrent in
    let m = b.limited in
    pump-Bounded now _
      (record { counted = omega arith; concurrent = omega arith; limited = omega arith })

enqueue-Bounded :
    (now : ℕ) (id : String) (job : QueueJob) (full : Bool) (q : PriorityJobQueue)
    → leb q.max_depth (depth q.buckets) ≡ full
    → Bounded q
    → Bounded
        (if◌then◌else◌ {A = PriorityJobQueue × Option String} full
          (q, none)
          (pump now (record q { buckets = push job q.buckets }), some id)).0
enqueue-Bounded now id job true q h b = b
enqueue-Bounded now id job false q h b =
    let d = depth-push job q.buckets in
    let c = b.concurrent in
    pump-Bounded now (record q { buckets = push job q.buckets })
      (record { counted = b.counted; concurrent = b.concurrent; limited = ground arith })

step-Bounded : (q : PriorityJobQueue) (e : Event) → Bounded q → Bounded (step q e)
unfolding step on_process enqueue settle fire
step-Bounded q (handled now) b =
    pump-Bounded now _
      (record { counted = b.counted; concurrent = b.concurrent; limited = b.limited })
step-Bounded q (enqueued now id p n) b =
    enqueue-Bounded now id (new_job id p n now) (leb q.max_depth (depth q.buckets)) q refl b
step-Bounded q (settled now i failed) b =
    settle_job-Bounded now i failed (get_elem? q.running i) q refl b
step-Bounded q (fired now) b =
    pump-Bounded now _
      (record { counted = b.counted; concurrent = b.concurrent; limited = b.limited })

-- Over every history, as many handlers are counted as run, no more than the queue may run at a time,
-- and the jobs that wait or run are no more than both limits together.
pub run-Bounded : (q : PriorityJobQueue) (es : List Event) → Bounded q → Bounded (run q es)
unfolding run
run-Bounded q [] b = b
run-Bounded q (e ∷ es) b = run-Bounded (step q e) es (step-Bounded q e b)
