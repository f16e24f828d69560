-- ===== src/Queue/Priority/Calls.antt =====
-- How often the handler is called for a job (src/core/job-queue/priority-queue.ts).
use text.Mathlib.Text.{◌==◌ as str_eq}
use crash.Prelude.{
  ℕ, zero, suc, ◌+◌, ◌-◌, ◌≤◌, ◌≡◌, refl, String, Bool, true, false, max, get_elem?, All-get_elem?,
  if◌then◌else◌, if-either, inl, inr, Bool-cases, leb, ltb, List, [], ◌∷◌, Option, none, some,
  arith,
}
use crash.Queue.Buckets.{QueueJob, QueuePriority, Buckets, push, dequeue, priority_order, depth}
use crash.Queue.Buckets.Order.{Dequeued, dequeue-Dequeued, Left}
use crash.Queue.Buckets.Remaining.{
  tries, tries_left, tries_left_in, tries_left-single, tries_left_in-push, tries_left-remove_at,
  tries_left_in-Left,
}
use crash.Queue.Priority.{
  PriorityJobQueue, started, start_next, go_on, pump_loop, pump, on_process, new_job, enqueue,
  retried, fail, finish, drop_running, settle_job, settle, fire, Event, handled, enqueued, settled,
  fired, step, run,
}
use crash.Queue.Priority.Tries.{
  IsLeft, IsTried, Tried, Left-IsLeft, started-Tried, step-Tried, fail-Tried, drop_running-Tried,
  pushed-Tried,
}

-- The calls for the jobs with an identifier.
unfoldable pub calls_of : String → List String → ℕ
calls_of k [] = 0
calls_of k (id ∷ ids) = (if str_eq id k then 1 else 0) + calls_of k ids

-- The tries that a history grants to the jobs with an identifier: as many as each job that is
-- enqueued says, and one where it says none.
unfoldable pub granted : String → List Event → ℕ
granted k [] = 0
granted k (enqueued now id p n ∷ es) = (if str_eq id k then max 1 n else 0) + granted k es
granted k (handled now ∷ es) = granted k es
granted k (settled now i failed ∷ es) = granted k es
granted k (fired now ∷ es) = granted k es

-- The calls that were made and those that may follow with no further job.
abbrev pub total : String → PriorityJobQueue → ℕ
total k q = calls_of k q.calls + tries_left_in k q.buckets + tries_left k q.running

started-total :
    (k : String) (now : ℕ) (q : PriorityJobQueue) (job : QueueJob) (bs : Buckets)
    → Left priority_order now q.buckets job bs
    → IsLeft job
    → total k (started job bs q) ≤ total k q
unfolding calls_of
started-total k now q job bs d l =
    let e = tries_left_in-Left k now q.buckets bs job d in
    let r = tries_left-single k q.running (record job { attempts = suc job.attempts }) in
    ground arith

go_on-total :
    (k : String) (free now : ℕ) (q : PriorityJobQueue) (o : Option (QueueJob × Buckets))
    → Dequeued priority_order now q.buckets o
    → Tried q
    → ((q' : PriorityJobQueue) → Tried q' → total k (pump_loop free now q') ≤ total k q')
    → total k (go_on (pump_loop free now) q (start_next o q)) ≤ total k q
unfolding go_on start_next
go_on-total k free now q none d t rest = omega arith
go_on-total k free now q (some (job, bs)) d t rest =
    let a = rest (started job bs q) (started-Tried now q job bs d t) in
    let b = started-total k now q job bs d (Left-IsLeft now q job bs d t) in omega arith

pump_loop-total :
    (k : String) (free now : ℕ) (q : PriorityJobQueue)
    → Tried q
    → total k (pump_loop free now q) ≤ total k q
unfolding pump_loop
pump_loop-total k zero now q t = omega arith
pump_loop-total k (suc free) now q t =
    go_on-total k free now q (dequeue now q.buckets) (dequeue-Dequeued now q.buckets) t
      (λ q'. pump_loop-total k free now q')

pump-total :
    (k : String) (now : ℕ) (q : PriorityJobQueue) → Tried q → total k (pump now q) ≤ total k q
unfolding pump
pump-total k now q t =
    if-either (λ x. total k x ≤ total k q) q.has_handler
      (pump_loop (q.concurrency - q.active) now q) q
      (pump_loop-total k (q.concurrency - q.active) now q t) (omega arith)

-- A job that failed goes back with the tries that it has left, or is given up.
fail-total :
    (k : String) (now : ℕ) (job : QueueJob) (q : PriorityJobQueue)
    → total k (fail now job q) ≤ total k q + tries k job
unfolding fail
fail-total k now job q =
    let e = tries_left_in-push k (retried now q.retry_base_ms job) q.buckets in
    elim (Bool-cases (ltb job.attempts job.max_attempts)) [
      | inl h ↦ rw h (omega arith)
      | inr h ↦ rw h (omega arith)
    ]

-- Where a place becomes free, the queue is pumped.
finish-total :
    (k : String) (now : ℕ) (q : PriorityJobQueue) → Tried q → total k (finish now q) ≤ total k q
unfolding finish
finish-total k now q t =
    pump-total k now _ (record { waiting = t.waiting; running = t.running; dead = t.dead })

settle_job-total :
    (k : String) (now i : ℕ) (failed : Bool) (o : Option QueueJob) (q : PriorityJobQueue)
    → get_elem? q.running i ≡ o
    → Tried q
    → total k (settle_job now i failed o q) ≤ total k q
unfolding settle_job
settle_job-total k now i failed none q e t = omega arith
settle_job-total k now i true (some job) q e t =
    let q' = drop_running i q in
    let t' = drop_running-Tried i q t in
    let f = fail-Tried now job q' (All-get_elem? IsTried q.running i job t.running e) t' in
    let a = finish-total k now (fail now job q') f in
    let b = fail-total k now job q' in
    let c = tries_left-remove_at k i q.running job e in omega arith
settle_job-total k now i false (some job) q e t =
    let a = finish-total k now (drop_running i q) (drop_running-Tried i q t) in
    let c = tries_left-remove_at k i q.running job e in omega arith

enqueue-total :
    (k : String) (now : ℕ) (id : String) (p : QueuePriority) (n : ℕ) (q : PriorityJobQueue)
    → Tried q
    → total k (enqueue now id p n q).0 ≤ total k q + (if str_eq id k then max 1 n else 0)
unfolding enqueue
enqueue-total k now id p n q t =
    let job = new_job id p n now in
    let q' = record q { buckets = push job q.buckets } in
    let a = pump-total k now q' (pushed-Tried job q (ground arith) t) in
    let e = tries_left_in-push k job q.buckets in
    if-either
      (λ (x : PriorityJobQueue × Option String).
        total k x.0 ≤ total k q + (if str_eq id k then max 1 n else 0))
      (leb q.max_depth (depth q.buckets)) (q, none) (pump now q', some id) (ground arith)
      (ground arith)

step-total :
    (k : String) (q : PriorityJobQueue) (e : Event)
    → Tried q
    → total k (step q e) ≤ total k q + granted k (e ∷ [])
unfolding step on_process settle fire granted
step-total k q (handled now) t =
    let a =
      pump-total k now (record q { has_handler = true })
        (record { waiting = t.waiting; running = t.running; dead = t.dead }) in
    omega arith
step-total k q (enqueued now id p n) t = let a = enqueue-total k now id p n q t in omega arith
step-total k q (settled now i failed) t =
    let a = settle_job-total k now i failed (get_elem? q.running i) q refl t in omega arith
step-total k q (fired now) t =
    let a =
      pump-total k now (record q { retry_timer = none })
        (record { waiting = t.waiting; running = t.running; dead = t.dead }) in
    omega arith

granted-cons :
    (k : String) (e : Event) (es : List Event)
    → granted k (e ∷ es) ≡ granted k (e ∷ []) + granted k es
unfolding granted
granted-cons k (handled now) es = omega arith
granted-cons k (enqueued now id p n) es = omega arith
granted-cons k (settled now i failed) es = omega arith
granted-cons k (fired now) es = omega arith

run-total :
    (k : String) (q : PriorityJobQueue) (es : List Event)
    → Tried q
    → total k (run q es) ≤ total k q + granted k es
unfolding run granted
run-total k q [] t = omega arith
run-total k q (e ∷ es) t =
    let a = run-total k (step q e) es (step-Tried q e t) in
    let s = step-total k q e t in let g = granted-cons k e es in omega arith

run-Tried : (q : PriorityJobQueue) (es : List Event) → Tried q → Tried (run q es)
unfolding run
run-Tried q [] t = t
run-Tried q (e ∷ es) t = run-Tried (step q e) es (step-Tried q e t)

-- Over every history from a queue none of whose jobs has been tried too often, such as a new one,
-- the calls of the handler for the jobs with an identifier are at most as many as the jobs enqueued
-- with it say, one for a job that says none, beyond the calls made and the tries left at the start;
-- no job that waits has used its attempts up, and each that was given up has.
pub run-called :
    (q : PriorityJobQueue) (es : List Event)
    → Tried q
    → ((k : String) → calls_of k (run q es).calls ≤ total k q + granted k es) × Tried (run q es)
run-called q es t = ((λ k. let a = run-total k q es t in omega arith), run-Tried q es t)
