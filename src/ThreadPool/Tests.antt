-- ===== src/ThreadPool/Tests.antt =====
-- Runs of the pool's workers, and instances of its theorems.
use mathlib.Core.Path.{◌≡◌, refl}
use libspl.Common.{true, false, some, List, [], ◌∷◌, fault, throw, task_rejected, arith, Returns}
use libspl.PriorityHeap.Ops.{
  Heap, expand, shrink, allocate_loop, allocate, construct, push, pop, top, non_empty,
}
use libspl.PriorityHeap.Contents.{IsHeapCalls, IsQueue}
use libspl.PriorityHeap.Sorting.{Descending}
use libspl.PriorityHeap.Sorted
use libspl.PriorityHeap.Sorted.{rotate}
use libspl.ThreadPool.Worker.{
  SavedContext, QueuedTask, queued_task, suspended, DeferredTask, less, Pool, looping, ran, Worker,
  Input, worker, dequeue_from, take, defer, settle, step,
}
use libspl.ThreadPool.Client.{new_pool, run, remove_task, call}
use libspl.ThreadPool.Choice.{Chosen, take-Chosen}

program : Unit {0}
unfolding expand shrink allocate_loop allocate construct push pop top non_empty dequeue_from take
    defer settle step new_pool run remove_task call
program = tt

abbrev sort : List DeferredTask → List DeferredTask
sort = Sorted.sort less

less-IsHeapCalls : IsHeapCalls less sort rotate (Descending less)
less-IsHeapCalls =
    Sorted.sort-IsHeapCalls less (λ x y e. ground (arith, e)) (λ x y z e h. ground (arith, e, h))

abbrev first_context : SavedContext
first_context = record { uctx = 1; stack = 2; home = 0 }

abbrev no_tasks : Heap DeferredTask
no_tasks = record { max_size = 64; size = 0; cells = [] }

-- a pool of one worker
abbrev new_one : Pool
new_one = record {
  tasks = [];
  suspended_tasks = [];
  running = true;
  stopping = false;
  allocated = 1 ∷ 2 ∷ [];
  freed = [];
  given_back = [];
}

-- with the task 7
abbrev with_task : Pool
with_task = record new_one { tasks = queued_task (some 7) ∷ []; allocated = 7 ∷ 1 ∷ 2 ∷ [] }

-- the task runs and suspends itself
abbrev input : Input
input = record {
  now = 5;
  late = false;
  status = suspended;
  defer_time = 0;
  fresh_context = record { uctx = 3; stack = 4; home = 0 };
}

abbrev saved_task : QueuedTask
saved_task = record { task = some 7; context = some first_context }

abbrev suspended_one : Pool
suspended_one = record new_one {
  suspended_tasks = saved_task ∷ [];
  allocated = 3 ∷ 4 ∷ 7 ∷ 1 ∷ 2 ∷ [];
}

rejected_runs : run (record new_one { stopping = true }) 7 ≡ throw task_rejected
unfolding program
rejected_runs = refl

abbrev stands : SavedContext → List Worker
stands c = worker no_tasks c looping ∷ []

-- on another worker the task stops in a context that the first one is using
foreign_runs :
    step sort rotate input suspended_one no_tasks
      (record first_context { home = 1 })
      (ran saved_task suspended 0)
    ≡ fault
unfolding program
foreign_runs = refl

abbrev two_deferred : Heap DeferredTask
two_deferred = record {
  max_size = 64;
  size = 2;
  cells =
      record { queued = saved_task; time = 4 }
      ∷ record { queued = queued_task (some 8); time = 9 }
      ∷ [];
}

two_deferred-IsQueue : IsQueue less sort rotate (Descending less) less-IsHeapCalls two_deferred
two_deferred-IsQueue = record {
  array = record { counted = refl; fits = omega arith; some_ = omega arith };
  ordered = ((refl, tt), (tt, tt));
}

take-Chosen_example :
    Returns
      (Chosen sort rotate
        (Descending less)
        less-IsHeapCalls
        input
        with_task
        two_deferred
        first_context)
      (take sort rotate input with_task two_deferred first_context)
take-Chosen_example =
    take-Chosen sort rotate (Descending less) less-IsHeapCalls input with_task two_deferred
      first_context two_deferred-IsQueue
