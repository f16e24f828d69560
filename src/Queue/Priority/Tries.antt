-- ===== src/Queue/Priority/Tries.antt =====
-- The attempts that a job counts (src/core/job-queue/priority-queue.ts).
use crash.Prelude.{
  ℕ, zero, suc, ◌-◌, ◌≤◌, ◌<◌, ◌≡◌, refl, sym, subst, Bool, true, false, Bool-cases, max, String,
  get_elem?, All-get_elem?, if◌then◌else◌, if-either, inl, inr, leb, ltb, ◌==◌, List, [], ◌∷◌, ◌++◌,
  Option, none, some, All, arith,
}
use crash.Queue.Buckets.{
  QueueJob, QueuePriority, Buckets, put, push, rank, dequeue, remove_at, priority_order, depth,
}
use crash.Queue.Buckets.Order.{Dequeued, dequeue-Dequeued, Taken, Left}
use crash.Queue.Priority.{
  PriorityJobQueue, started, start_next, go_on, pump_loop, pump, on_process, new_job, enqueue,
  schedule, retried, fail, finish, drop_running, settle_job, settle, fire, Event, handled, enqueued,
  settled, fired, step,
}

-- A job that waits may still be tried, one that runs was tried once more, a dead letter is used up.
abbrev pub IsLeft : QueueJob → Type 0
IsLeft job = job.attempts < max 1 job.max_attempts

abbrev pub IsTried : QueueJob → Type 0
IsTried job = job.attempts ≤ max 1 job.max_attempts

abbrev pub IsSpent : QueueJob → Type 0
IsSpent job = (job.attempts ≤ max 1 job.max_attempts) × (job.max_attempts ≤ job.attempts)

pub record Tried (q : PriorityJobQueue) : Type 0 where
  pub waiting : (p : QueuePriority) → All IsLeft (q.buckets p)
  pub running : All IsTried q.running
  pub dead : All IsSpent q.dead_letters

All-append :
    (P : QueueJob → Type 0) (xs ys : List QueueJob) → All P xs → All P ys → All P (xs ++ ys)
All-append P [] ys h k = k
All-append P (x ∷ xs) ys h k = (h.0, All-append P xs ys h.1 k)

-- What all jobs of a list satisfy, the one taken and the others do.
All-split :
    (P : QueueJob → Type 0) (xs ys : List QueueJob) (job : QueueJob)
    → All P (xs ++ job ∷ ys)
    → P job × All P (xs ++ ys)
All-split P [] ys job h = h
All-split P (x ∷ xs) ys job h = let (a, b) = All-split P xs ys job h.1 in (a, (h.0, b))

All-Taken :
    (P : QueueJob → Type 0) (now : ℕ) (jobs : List QueueJob) (job : QueueJob) (rest : List QueueJob)
    → Taken now jobs job rest
    → All P jobs
    → P job × All P rest
All-Taken P now jobs job rest t h =
    let (a, b) = All-split P t.before t.after job (subst (All P) t.whole h) in
    (a, subst (All P) (sym t.remains) b)

All-remove_at :
    (P : QueueJob → Type 0) (i : ℕ) (jobs : List QueueJob) → All P jobs → All P (remove_at i jobs)
All-remove_at P i [] h = tt
All-remove_at P zero (j ∷ js) h = h.1
All-remove_at P (suc i) (j ∷ js) h = (h.0, All-remove_at P i js h.1)

All-put :
    (p : QueuePriority) (jobs : List QueueJob) (b : Buckets)
    → All IsLeft jobs
    → ((q : QueuePriority) → All IsLeft (b q))
    → (q : QueuePriority) → All IsLeft (put p jobs b q)
All-put p jobs b h k q = if-either (All IsLeft) (rank p == rank q) jobs (b q) h (k q)

pub Left-IsLeft :
    (now : ℕ) (q : PriorityJobQueue) (job : QueueJob) (bs : Buckets)
    → Left priority_order now q.buckets job bs
    → Tried q
    → IsLeft job
Left-IsLeft now q job bs d t =
    (All-Taken IsLeft now (q.buckets d.bucket) job d.rest d.taken (t.waiting d.bucket)).0

pub started-Tried :
    (now : ℕ) (q : PriorityJobQueue) (job : QueueJob) (bs : Buckets)
    → Left priority_order now q.buckets job bs
    → Tried q
    → Tried (started job bs q)
started-Tried now q job bs d t =
    let (a, b) =
      All-Taken IsLeft now (q.buckets d.bucket) job d.rest d.taken (t.waiting d.bucket) in
    record {
      waiting = λ p.
          subst (λ x. All IsLeft (x p)) (sym d.leaves)
            (All-put d.bucket d.rest q.buckets b t.waiting p);
      running =
          All-append IsTried q.running (record job { attempts = suc job.attempts } ∷ []) t.running
            (omega arith, tt);
      dead = t.dead;
    }

go_on-Tried :
    (free now : ℕ) (q : PriorityJobQueue) (o : Option (QueueJob × Buckets))
    → Dequeued priority_order now q.buckets o
    → Tried q
    → ((q' : PriorityJobQueue) → Tried q' → Tried (pump_loop free now q'))
    → Tried (go_on (pump_loop free now) q (start_next o q))
unfolding go_on start_next
go_on-Tried free now q none d t rest = t
go_on-Tried free now q (some (job, bs)) d t rest =
    rest (started job bs q) (started-Tried now q job bs d t)

pump_loop-Tried : (free now : ℕ) (q : PriorityJobQueue) → Tried q → Tried (pump_loop free now q)
unfolding pump_loop
pump_loop-Tried zero now q t = t
pump_loop-Tried (suc free) now q t =
    go_on-Tried free now q (dequeue now q.buckets) (dequeue-Dequeued now q.buckets) t
      (λ q'. pump_loop-Tried free now q')

pump-Tried : (now : ℕ) (q : PriorityJobQueue) → Tried q → Tried (pump now q)
unfolding pump
pump-Tried now q t =
    if-either Tried q.has_handler (pump_loop (q.concurrency - q.active) now q) q
      (pump_loop-Tried (q.concurrency - q.active) now q t) t

push-Tried :
    (job : QueueJob) (b : Buckets)
    → IsLeft job
    → ((q : QueuePriority) → All IsLeft (b q))
    → (q : QueuePriority) → All IsLeft (push job b q)
push-Tried job b h k =
    All-put job.priority (b job.priority ++ job ∷ []) b
      (All-append IsLeft (b job.priority) (job ∷ []) (k job.priority) (h, tt)) k

pub pushed-Tried :
    (job : QueueJob) (q : PriorityJobQueue)
    → IsLeft job
    → Tried q
    → Tried (record q { buckets = push job q.buckets })
pushed-Tried job q h t = record {
  waiting = push-Tried job q.buckets h t.waiting;
  running = t.running;
  dead = t.dead;
}

-- The two outcomes of a failure.
abbrev again : QueueJob → PriorityJobQueue → PriorityJobQueue
again job q = record q {
  buckets = push job q.buckets;
  retry_timer = schedule job.available_at q.retry_timer;
}

abbrev given_up : QueueJob → PriorityJobQueue → PriorityJobQueue
given_up job q = record q { dead_letters = q.dead_letters ++ job ∷ [] }

pub fail-Tried :
    (now : ℕ) (job : QueueJob) (q : PriorityJobQueue)
    → IsTried job
    → Tried q
    → Tried (fail now job q)
unfolding fail
fail-Tried now job q h t = elim (Bool-cases (ltb job.attempts job.max_attempts)) [
  | inl e ↦
      let job' = retried now q.retry_base_ms job in
      subst (λ b. Tried (if b then again job' q else given_up job q)) (sym e)
        (record {
          waiting = push-Tried job' q.buckets (ground arith) t.waiting;
          running = t.running;
          dead = t.dead;
        })
  | inr e ↦
      subst (λ b. Tried (if b then again (retried now q.retry_base_ms job) q else given_up job q))
        (sym e)
        (record {
          waiting = t.waiting;
          running = t.running;
          dead = All-append IsSpent q.dead_letters (job ∷ []) t.dead ((h, ground arith), tt);
        })
]

pub drop_running-Tried : (i : ℕ) (q : PriorityJobQueue) → Tried q → Tried (drop_running i q)
drop_running-Tried i q t = record {
  waiting = t.waiting;
  running = All-remove_at IsTried i q.running t.running;
  dead = t.dead;
}

settle_job-Tried :
    (now i : ℕ) (failed : Bool) (o : Option QueueJob) (q : PriorityJobQueue)
    → get_elem? q.running i ≡ o
    → Tried q
    → Tried (settle_job now i failed o q)
unfolding settle_job finish
settle_job-Tried now i failed none q e t = t
settle_job-Tried now i true (some job) q e t =
    let q' = drop_running i q in
    let t' = drop_running-Tried i q t in
    let f = fail-Tried now job q' (All-get_elem? IsTried q.running i job t.running e) t' in
    pump-Tried now _ (record { waiting = f.waiting; running = f.running; dead = f.dead })
settle_job-Tried now i false (some job) q e t = pump-Tried now _ (record {
  waiting = t.waiting;
  running = All-remove_at IsTried i q.running t.running;
  dead = t.dead;
})

pub step-Tried : (q : PriorityJobQueue) (e : Event) → Tried q → Tried (step q e)
unfolding step on_process enqueue settle fire
step-Tried q (handled now) t =
    pump-Tried now _ (record { waiting = t.waiting; running = t.running; dead = t.dead })
step-Tried q (enqueued now id p n) t =
    let job = new_job id p n now in
    let q' = record q { buckets = push job q.buckets } in
    if-either (λ (x : PriorityJobQueue × Option String). Tried x.0)
      (leb q.max_depth (depth q.buckets)) (q, none) (pump now q', some id) t
      (pump-Tried now q' (pushed-Tried job q (ground arith) t))
step-Tried q (settled now i failed) t =
    settle_job-Tried now i failed (get_elem? q.running i) q refl t
step-Tried q (fired now) t =
    pump-Tried now _ (record { waiting = t.waiting; running = t.running; dead = t.dead })
