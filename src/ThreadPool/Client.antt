-- ===== src/ThreadPool/Client.antt =====
-- The calls of `ThreadPool` that its clients make, `terminate` in its parts, and all threads together.
use libspl.Common.{
  ◌+◌, ℕ, ◌≡◌, Bool, true, false, none, some, List, [], ◌∷◌, ◌++◌, Run, ok, throw,
  element_not_found, task_rejected, ◌==◌, if◌then◌else◌, ◌>>=◌,
}
use libspl.PriorityHeap.Ops.{Heap, allocate, initial_size}
use libspl.ThreadPool.Worker.{
  SavedContext, QueuedTask, queued_task, DeferredTask, Pool, looping, Worker, Input, worker,
  addresses, free_all, enqueue, step,
}

abbrev pub contexts : List SavedContext → List ℕ
contexts [] = []
contexts (c ∷ cs) = addresses c ++ contexts cs

-- the workers, from the one with the number `n` on
abbrev pub started : ℕ → Heap DeferredTask → List SavedContext → List Worker
started n d [] = []
started n d (c ∷ cs) = worker d (record c { home = n }) looping ∷ started (n + 1) d cs

-- `ThreadPool(size)`: the pool and its workers, with the contexts that these allocate
unfoldable pub new_pool : List SavedContext → Run (Pool × List Worker)
new_pool cs = allocate initial_size >>= λ d. ok (
  record {
    tasks = [];
    suspended_tasks = [];
    running = true;
    stopping = false;
    allocated = contexts cs;
    freed = [];
    given_back = [];
  },
  started 0 d cs,
)

-- `run(t)`, which takes the task over from its caller
unfoldable pub run : Pool → ℕ → Run Pool
run p t =
    if p.stopping
    then throw task_rejected
    else ok (enqueue (record p { allocated = t ∷ p.allocated }) (queued_task (some t)))

-- `QueuedTaskEqual`
abbrev pub is_of : ℕ → QueuedTask → Bool
is_of t q = elim q.task [ none ↦ false | some u ↦ u == t ]

-- `_suspendedTasks.remove(t)`: the task, and the others
unfoldable pub remove_task : ℕ → List QueuedTask → Run (QueuedTask × List QueuedTask)
remove_task t [] = throw element_not_found
remove_task t (q ∷ qs) =
    let rest = remove_task t qs in if is_of t q then ok (q, qs) else rest >>= λ r. ok (r.0, q ∷ r.1)

-- `if (t.task != nullptr) t.freeAll()`
abbrev pub free_task : Pool → QueuedTask → Pool
free_task p q = elim q.task [ none ↦ p | some t ↦ free_all p q ]

-- `foreach` with it
abbrev pub free_tasks : Pool → List QueuedTask → Pool
free_tasks p [] = p
free_tasks p (q ∷ qs) = free_tasks (free_task p q) qs

-- the calls of clients: `run(t)`; `resume(t)`, its removal and its enqueue; and of `terminate` the
-- writes of `_stopping` and `_running`, the enqueue of nullptr, and the end with `foreach` and `clear`
pub data Call : Type 0 where
  runs resumes : ℕ → Call
  resumed : Call
  sets_stopping : Bool → Call
  stops_running wakes drains : Call

-- one step of a client; the tasks are those that calls of `resume` hold
unfoldable pub call : Call → Pool → List QueuedTask → Run (Pool × List QueuedTask)
call (runs t) p rs = run p t >>= λ p'. ok (p', rs)
call (resumes t) p rs =
    remove_task t p.suspended_tasks >>= λ r. ok (record p { suspended_tasks = r.1 }, r.0 ∷ rs)
call resumed p [] = ok (p, [])
call resumed p (q ∷ rs) = ok (enqueue p q, rs)
call (sets_stopping b) p rs = ok (record p { stopping = b }, rs)
call stops_running p rs = ok (record p { running = false }, rs)
call wakes p rs = ok (enqueue p (queued_task none), rs)
call drains p rs = ok (record (free_tasks p p.tasks) { tasks = [] }, rs)

module _ (push_heap pop_heap : List DeferredTask → List DeferredTask) where
  -- Workers and clients take steps in any order.
  pub data Steps
      : Pool → List Worker → List QueuedTask → Pool → List Worker → List QueuedTask → Type 0 where
    stop : {p : Pool} {ws : List Worker} {rs : List QueuedTask} → Steps p ws rs p ws rs
    works :
        {p' : Pool} {ws' : List Worker} {rs' : List QueuedTask} (i : Input) (p p₁ : Pool)
        (b c : List Worker) (w w₁ : Worker) (rs : List QueuedTask)
        → step push_heap pop_heap i p w.deferred_tasks w.own w.point ≡ ok (some (p₁, w₁))
        → Steps p₁ (b ++ w₁ ∷ c) rs p' ws' rs'
        → Steps p (b ++ w ∷ c) rs p' ws' rs'
    calls :
        {p' : Pool} {ws' : List Worker} {rs' : List QueuedTask} (a : Call) (p p₁ : Pool)
        (ws : List Worker) (rs rs₁ : List QueuedTask)
        → call a p rs ≡ ok (p₁, rs₁)
        → Steps p₁ ws rs₁ p' ws' rs'
        → Steps p ws rs p' ws' rs'
