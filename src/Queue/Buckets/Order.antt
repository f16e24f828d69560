-- ===== src/Queue/Buckets/Order.antt =====
-- Which job leaves the buckets (src/core/job-queue/priority-queue.ts).
use crash.Prelude.{
  ℕ, suc, ◌+◌, ◌≡◌, refl, ap, ◌∙◌, Bool, true, false, length, length-append, List, [], ◌∷◌, ◌++◌,
  Option, none, some, All, if◌then◌else◌, arith, sym,
}
use crash.Queue.Buckets.{
  QueuePriority, critical, high, normal, low, background, QueueJob, priority_order, Buckets, put,
  push, depth, depth_of, is_due, take_due, behind, dequeue_at, dequeue_from, dequeue,
}

pub depth-put :
    (p : QueuePriority) (jobs : List QueueJob) (b : Buckets)
    → depth (put p jobs b) + length (b p) ≡ depth b + length jobs
unfolding depth depth_of
depth-put critical jobs b = omega arith
depth-put high jobs b = omega arith
depth-put normal jobs b = omega arith
depth-put low jobs b = omega arith
depth-put background jobs b = omega arith

pub depth-push : (job : QueueJob) (b : Buckets) → depth (push job b) ≡ suc (depth b)
depth-push job b =
    let e = depth-put job.priority (b job.priority ++ job ∷ []) b in
    let l = length-append (b job.priority) (job ∷ []) in omega arith

-- The job that is taken from a list is due, those before it are not, and the others remain.
pub record Taken (now : ℕ) (jobs : List QueueJob) (job : QueueJob) (rest : List QueueJob)
    : Type 0 where
  pub before : List QueueJob
  pub after : List QueueJob
  pub whole : jobs ≡ before ++ job ∷ after
  pub remains : rest ≡ before ++ after
  pub due : is_due now job ≡ true
  pub first : All (λ j. is_due now j ≡ false) before

abbrev pub NoneDue : ℕ → List QueueJob → Type 0
NoneDue now jobs = All (λ j. is_due now j ≡ false) jobs

-- What a search of a list finds.
abbrev Found : ℕ → List QueueJob → Option (QueueJob × List QueueJob) → Type 0
Found now jobs none = NoneDue now jobs
Found now jobs (some (job, rest)) = Taken now jobs job rest

behind-Found :
    (now : ℕ) (j : QueueJob) (js : List QueueJob) (o : Option (QueueJob × List QueueJob))
    → is_due now j ≡ false
    → Found now js o
    → Found now (j ∷ js) (behind j o)
behind-Found now j js none n f = (n, f)
behind-Found now j js (some (job, rest)) n f = record {
  before = j ∷ f.before;
  after = f.after;
  whole = ap (λ x. j ∷ x) f.whole;
  remains = ap (λ x. j ∷ x) f.remains;
  due = f.due;
  first = (n, f.first);
}

if-Found :
    (b : Bool) (now : ℕ) (j : QueueJob) (js : List QueueJob) (o : Option (QueueJob × List QueueJob))
    → is_due now j ≡ b
    → Found now js o
    → Found now (j ∷ js) (if b then some (j, js) else behind j o)
if-Found true now j js o n f = record {
  before = [];
  after = js;
  whole = refl;
  remains = refl;
  due = n;
  first = tt;
}
if-Found false now j js o n f = behind-Found now j js o n f

take_due-Found : (now : ℕ) (jobs : List QueueJob) → Found now jobs (take_due now jobs)
unfolding take_due
take_due-Found now [] = tt
take_due-Found now (j ∷ js) =
    if-Found (is_due now j) now j js (take_due now js) refl (take_due-Found now js)

-- The job that leaves the buckets comes from the first bucket that has one due.
pub record Left (ps : List QueuePriority) (now : ℕ) (b : Buckets) (job : QueueJob) (b' : Buckets)
    : Type 0 where
  pub earlier : List QueuePriority
  pub later : List QueuePriority
  pub bucket : QueuePriority
  pub rest : List QueueJob
  pub ordered : ps ≡ earlier ++ bucket ∷ later
  pub taken : Taken now (b bucket) job rest
  pub leaves : b' ≡ put bucket rest b
  pub none_earlier : All (λ p. NoneDue now (b p)) earlier

-- What leaves the buckets: a job, or none where no bucket has one due.
abbrev pub Dequeued : List QueuePriority → ℕ → Buckets → Option (QueueJob × Buckets) → Type 0
Dequeued ps now b none = All (λ p. NoneDue now (b p)) ps
Dequeued ps now b (some (job, b')) = Left ps now b job b'

dequeue_at-none :
    (p : QueuePriority) (ps : List QueuePriority) (now : ℕ) (b : Buckets)
    (later : Option (QueueJob × Buckets))
    → NoneDue now (b p)
    → Dequeued ps now b later
    → Dequeued (p ∷ ps) now b later
dequeue_at-none p ps now b none n d = (n, d)
dequeue_at-none p ps now b (some (job, b')) n d = record {
  earlier = p ∷ d.earlier;
  later = d.later;
  bucket = d.bucket;
  rest = d.rest;
  ordered = ap (λ x. p ∷ x) d.ordered;
  taken = d.taken;
  leaves = d.leaves;
  none_earlier = (n, d.none_earlier);
}

dequeue_at-Dequeued :
    (p : QueuePriority) (ps : List QueuePriority) (now : ℕ) (b : Buckets)
    (o : Option (QueueJob × List QueueJob)) (later : Option (QueueJob × Buckets))
    → Found now (b p) o
    → Dequeued ps now b later
    → Dequeued (p ∷ ps) now b (dequeue_at p o b later)
unfolding dequeue_at
dequeue_at-Dequeued p ps now b none later f d = dequeue_at-none p ps now b later f d
dequeue_at-Dequeued p ps now b (some (job, rest)) later f d = record {
  earlier = [];
  later = ps;
  bucket = p;
  rest = rest;
  ordered = refl;
  taken = f;
  leaves = refl;
  none_earlier = tt;
}

dequeue_from-Dequeued :
    (ps : List QueuePriority) (now : ℕ) (b : Buckets) → Dequeued ps now b (dequeue_from ps now b)
unfolding dequeue_from
dequeue_from-Dequeued [] now b = tt
dequeue_from-Dequeued (p ∷ ps) now b =
    dequeue_at-Dequeued p ps now b (take_due now (b p)) (dequeue_from ps now b)
      (take_due-Found now (b p)) (dequeue_from-Dequeued ps now b)

-- Where some job is due, the one that leaves the queue is the first due one of the bucket of the
-- highest priority that has one due, and the rest of the queue stays in its order; otherwise none
-- leaves.
pub dequeue-Dequeued : (now : ℕ) (b : Buckets) → Dequeued priority_order now b (dequeue now b)
unfolding dequeue
dequeue-Dequeued now b = dequeue_from-Dequeued priority_order now b

length-Taken :
    (now : ℕ) (jobs : List QueueJob) (job : QueueJob) (rest : List QueueJob)
    → Taken now jobs job rest
    → length jobs ≡ suc (length rest)
length-Taken now jobs job rest t =
    let a = length-append t.before (job ∷ t.after) in
    let b = length-append t.before t.after in
    ap length t.whole ∙ a ∙ omega arith ∙ ap (λ x. suc (length x)) (sym t.remains)

pub depth-Left :
    (now : ℕ) (b b' : Buckets) (job : QueueJob)
    → Left priority_order now b job b'
    → depth b ≡ suc (depth b')
depth-Left now b b' job d =
    let a = depth-put d.bucket d.rest b in
    let c = length-Taken now (b d.bucket) job d.rest d.taken in
    let e = ap depth d.leaves in omega arith
