-- ===== src/Queue/Buckets/Remaining.antt =====
-- The tries that the jobs of a list and of the buckets have left
-- (src/core/job-queue/priority-queue.ts).
use text.Mathlib.Text.{◌==◌ as str_eq}
use crash.Prelude.{
  ℕ, zero, suc, ◌+◌, ◌-◌, ◌≡◌, ap, ◌∙◌, String, max, get_elem?, if◌then◌else◌, List, [], ◌∷◌, ◌++◌,
  some, arith,
}
use crash.Queue.Buckets.{
  QueueJob, QueuePriority, critical, high, normal, low, background, Buckets, put, push,
  priority_order, remove_at,
}
use crash.Queue.Buckets.Order.{Left}

-- The tries that a job has left, where it has the identifier.
abbrev pub tries : String → QueueJob → ℕ
tries k job = if str_eq job.id k then max 1 job.max_attempts - job.attempts else 0

unfoldable pub tries_left : String → List QueueJob → ℕ
tries_left k [] = 0
tries_left k (job ∷ jobs) = tries k job + tries_left k jobs

unfoldable pub tries_left_in : String → Buckets → ℕ
tries_left_in k b =
    tries_left k (b critical)
    + tries_left k (b high)
    + tries_left k (b normal)
    + tries_left k (b low)
    + tries_left k (b background)

tries_left-append :
    (k : String) (xs ys : List QueueJob)
    → tries_left k (xs ++ ys) ≡ tries_left k xs + tries_left k ys
unfolding tries_left
tries_left-append k [] ys = omega arith
tries_left-append k (x ∷ xs) ys = omega (arith, tries_left-append k xs ys)

tries_left_in-put :
    (k : String) (p : QueuePriority) (jobs : List QueueJob) (b : Buckets)
    → tries_left_in k (put p jobs b) + tries_left k (b p) ≡ tries_left_in k b + tries_left k jobs
unfolding tries_left_in
tries_left_in-put k critical jobs b = omega arith
tries_left_in-put k high jobs b = omega arith
tries_left_in-put k normal jobs b = omega arith
tries_left_in-put k low jobs b = omega arith
tries_left_in-put k background jobs b = omega arith

pub tries_left-single :
    (k : String) (xs : List QueueJob) (job : QueueJob)
    → tries_left k (xs ++ job ∷ []) ≡ tries_left k xs + tries k job
unfolding tries_left
tries_left-single k xs job = omega (arith, tries_left-append k xs (job ∷ []))

pub tries_left_in-push :
    (k : String) (job : QueueJob) (b : Buckets)
    → tries_left_in k (push job b) ≡ tries_left_in k b + tries k job
tries_left_in-push k job b =
    let e = tries_left_in-put k job.priority (b job.priority ++ job ∷ []) b in
    let l = tries_left-single k (b job.priority) job in omega arith

pub tries_left-remove_at :
    (k : String) (i : ℕ) (jobs : List QueueJob) (job : QueueJob)
    → get_elem? jobs i ≡ some job
    → tries_left k jobs ≡ tries k job + tries_left k (remove_at i jobs)
unfolding tries_left
tries_left-remove_at k i [] job h = cc
tries_left-remove_at k zero (j ∷ js) job h = ground arith
tries_left-remove_at k (suc i) (j ∷ js) job h =
    let ih = tries_left-remove_at k i js job h in omega arith

-- The job that leaves the buckets takes its tries along.
pub tries_left_in-Left :
    (k : String) (now : ℕ) (b b' : Buckets) (job : QueueJob)
    → Left priority_order now b job b'
    → tries_left_in k b ≡ tries_left_in k b' + tries k job
unfolding tries_left
tries_left_in-Left k now b b' job d =
    let e = tries_left_in-put k d.bucket d.rest b in
    let f = ap (tries_left_in k) d.leaves in
    let w =
      ap (tries_left k) d.taken.whole ∙ tries_left-append k d.taken.before (job ∷ d.taken.after) in
    let r = ap (tries_left k) d.taken.remains ∙ tries_left-append k d.taken.before d.taken.after in
    omega arith
