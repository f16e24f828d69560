-- ===== src/Queue/Examples.antt =====
-- The theorems about the queue at concrete inputs (src/core/job-queue/priority-queue.ts).
use crash.Prelude.{◌+◌, ◌≤◌, ◌≡◌, refl, String, true, List, [], ◌∷◌, arith}
use crash.Queue.Buckets.{normal, priority_order, dequeue, take_due, depth}
use crash.Queue.Buckets.Order.{Dequeued, dequeue-Dequeued}
use crash.Queue.Priority.{
  PriorityJobQueue, Event, handled, enqueued, settled, fired, create, run, step, pump, fire,
  on_process, enqueue, settle, fail, finish,
}
use crash.Queue.Priority.Bounds.{Bounded, run-Bounded}
use crash.Queue.Priority.Tries.{Tried}
use crash.Queue.Priority.Calls.{calls_of, total, granted, run-called}

-- Two jobs of the same priority start, and both fail: they wait for times 100 and 150.
abbrev events : List Event
events =
    handled 0
    ∷ enqueued 0 "a" normal 3
    ∷ enqueued 0 "b" normal 3
    ∷ settled 0 0 true
    ∷ settled 50 0 true
    ∷ []

abbrev fresh : PriorityJobQueue
fresh = create 10 2 100

abbrev waiting : PriorityJobQueue
waiting = run fresh events

run-Bounded_example : Bounded waiting
unfolding create depth
run-Bounded_example =
    run-Bounded fresh events
      (record { counted = refl; concurrent = omega arith; limited = omega arith })

dequeue-Dequeued_example : Dequeued priority_order 120 waiting.buckets (dequeue 120 waiting.buckets)
dequeue-Dequeued_example = dequeue-Dequeued 120 waiting.buckets

-- The first job fails twice more and is given up: three calls, as many as it says.
abbrev given_up : PriorityJobQueue
given_up = run waiting (fired 100 ∷ settled 100 0 true ∷ fired 300 ∷ settled 300 1 true ∷ [])

run-called_example :
    ((k : String) → calls_of k waiting.calls ≤ total k fresh + granted k events) × Tried waiting
unfolding create
run-called_example = run-called fresh events (record { waiting = λ p. tt; running = tt; dead = tt })

calls_of_a : calls_of "a" given_up.calls ≡ 3
unfolding create run step on_process enqueue settle fire fail finish pump dequeue take_due depth
    calls_of
calls_of_a = refl
