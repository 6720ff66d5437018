-- ===== src/ThreadPool/Worker.antt =====
-- `ThreadPool::_worker` and `QueuedTask` of include/thread_pool.h, step by step: between two steps other
-- threads may take theirs. The ready queue and the set of suspended tasks are sequences here, each call
-- of them one step. What a task does with its context before it stops is an input of the step, and so is
-- the time; stacks and contexts that are swapped have no content here.
use libspl.Common.{
  ℕ, Bool, true, false, ◌||◌, Option, none, some, List, [], ◌∷◌, ◌++◌, Run, ok, ltb, leb, ◌==◌,
  fault, if◌then◌else◌, ◌>>=◌,
}
use libspl.PriorityHeap.Ops.{Heap, non_empty, top, push, pop}

-- The addresses of a `ucontext_t` and of its stack, which are set and freed together, and the worker
-- whose `_ctx` is its `uc_link`: the one that runs the task first, on a context of its own. The task keeps
-- the reference to that worker's ExecutionContext, so that it returns to it and writes its `_status`.
pub record SavedContext : Type 0 where
  pub uctx : ℕ
  pub stack : ℕ
  pub home : ℕ

-- none is `nullptr`
pub record QueuedTask : Type 0 where
  pub task : Option ℕ
  pub context : Option SavedContext

abbrev pub queued_task : Option ℕ → QueuedTask
queued_task t = record { task = t; context = none }

pub data Status : Type 0 where
  complete resched resched_later deferred deferred_saved suspended : Status

pub record DeferredTask : Type 0 where
  pub queued : QueuedTask
  pub time : ℕ

-- `operator<`
abbrev pub less : DeferredTask → DeferredTask → Bool
less a b = ltb b.time a.time

-- What the threads share. The last three are no members: the addresses that were allocated, those that
-- were freed, and the tasks that the pool has left to its client, the latest first.
pub record Pool : Type 0 where
  pub tasks : List QueuedTask
  pub suspended_tasks : List QueuedTask
  pub running : Bool
  pub stopping : Bool
  pub allocated : List ℕ
  pub freed : List ℕ
  pub given_back : List ℕ

-- where a worker stands
pub data Point : Type 0 where
  looping taking leaving left : Point
  got : QueuedTask → Point
  ran : QueuedTask → Status → ℕ → Point

pub record Worker : Type 0 where
  pub deferred_tasks : Heap DeferredTask
  pub own : SavedContext
  pub point : Point

-- what a step takes from elsewhere: the clock, whether a timed wait gives up, how a task's run ends with
-- the time it asks for, and the addresses that an allocation of a context would return
pub record Input : Type 0 where
  pub now : ℕ
  pub late : Bool
  pub status : Status
  pub defer_time : ℕ
  pub fresh_context : SavedContext

abbrev pub worker : Heap DeferredTask → SavedContext → Point → Worker
worker d c pt = record { deferred_tasks = d; own = c; point = pt }

abbrev pub addresses : SavedContext → List ℕ
addresses c = c.uctx ∷ c.stack ∷ []

-- `free`
abbrev pub release : Pool → List ℕ → Pool
release p as_ = record p { freed = as_ ++ p.freed }

-- `freeContext()`
abbrev pub free_context : Pool → QueuedTask → Pool
free_context p q = elim q.context [ none ↦ p | some c ↦ release p (addresses c) ]

-- `freeAll()`; deleting nullptr does nothing
abbrev pub free_all : Pool → QueuedTask → Pool
free_all p q = elim q.task [
  | none ↦ free_context p q
  | some t ↦ free_context (release p (t ∷ [])) q
]

-- `_tasks.enqueue`
abbrev pub enqueue : Pool → QueuedTask → Pool
enqueue p q = record p { tasks = p.tasks ++ q ∷ [] }

-- `new ucontext_t()` and `malloc(_stackSize)`, for the same worker
abbrev pub own_new : SavedContext → SavedContext → SavedContext
own_new own new_ = record new_ { home = own.home }

-- `if (qt.saveContext(uctx, stack)) { uctx = new ucontext_t(); stack = malloc(_stackSize); }`: the pool,
-- the worker's context and the queued task
abbrev pub save_context :
    SavedContext → Pool → SavedContext → QueuedTask → Pool × (SavedContext × QueuedTask)
save_context new_ p own q = elim q.context [
  | some c ↦ (p, (own, q))
  | none ↦ (
    record p { allocated = addresses new_ ++ p.allocated },
    (new_, record q { context = some own }),
  )
]

-- A task stops in the worker that ran it first. On another worker's thread it jumps into a context that
-- the first one has saved on its own stack and is using, which is undefined.
abbrev pub is_home : SavedContext → Option SavedContext → Bool
is_home own none = true
is_home own (some c) = c.home == own.home

abbrev pub at_home : SavedContext → Point → Bool
at_home own (ran q status time) = is_home own q.context
at_home own looping = true
at_home own taking = true
at_home own leaving = true
at_home own left = true
at_home own (got q) = true

-- none where the thread waits
abbrev pub Moved : Type 0
Moved = Option (Pool × Worker)

module _ (push_heap pop_heap : List DeferredTask → List DeferredTask) where
  -- `_tasks.dequeue()`, and `dequeueOrTimeout` with its TimeoutError, of which the queued task keeps
  -- fields that a null task hides
  unfoldable pub dequeue_from :
      Bool → Pool → Heap DeferredTask → SavedContext → List QueuedTask → Run Moved
  dequeue_from gives_up p d own [] =
      ok (if gives_up then some (p, worker d own (got (queued_task none))) else none)
  dequeue_from gives_up p d own (q ∷ qs) = ok (some (record p { tasks = qs }, worker d own (got q)))

  abbrev pub dequeue : Bool → Pool → Heap DeferredTask → SavedContext → Run Moved
  dequeue gives_up p d own = dequeue_from gives_up p d own p.tasks

  -- the choice of the next task
  unfoldable pub take : Input → Pool → Heap DeferredTask → SavedContext → Run Moved
  take i p d own = elim (non_empty d) [
    | false ↦ dequeue false p d own
    | true ↦ top d >>= λ next. elim (leb next.time i.now) [
      | true ↦ pop pop_heap d >>= λ r. ok (some (p, worker r.0 own (got r.1.queued)))
      | false ↦ dequeue i.late p d own
    ]
  ]

  -- `deferredTasks.push({ qt, ctx._deferTime })`
  unfoldable pub defer : Pool → Heap DeferredTask → SavedContext → QueuedTask → ℕ → Run Moved
  defer p d own q time = push push_heap d (record { queued = q; time = time }) >>= λ d'.
      ok (some (p, worker d' own looping))

  -- the switch on the status
  unfoldable pub settle :
      SavedContext
      → Pool
      → Heap DeferredTask
      → SavedContext
      → QueuedTask
      → ℕ
      → ℕ
      → Status
      → Run Moved
  settle new_ p d own q t time complete = ok (some (free_all p q, worker d own looping))
  settle new_ p d own q t time resched =
      ok (some (enqueue (free_context p q) (queued_task (some t)), worker d own looping))
  settle new_ p d own q t time resched_later =
      let p' = free_context p q in
      ok (some (record p' { given_back = t ∷ p'.given_back }, worker d own looping))
  settle new_ p d own q t time deferred = defer p d own q time
  settle new_ p d own q t time deferred_saved =
      let (p', (own', q')) = save_context new_ p own q in defer p' d own' q' time
  settle new_ p d own q t time suspended =
      let (p', (own', q')) = save_context new_ p own q in
      ok (some (record p' { suspended_tasks = q' ∷ p'.suspended_tasks }, worker d own' looping))

  -- one step of a worker
  unfoldable pub step : Input → Pool → Heap DeferredTask → SavedContext → Point → Run Moved
  step i p d own looping =
      ok (some (p, worker d own (if p.running || non_empty d then taking else leaving)))
  step i p d own taking = take i p d own
  step i p d own (got q) = elim q.task [
    | none ↦ ok (some (p, worker d own looping))
    | some t ↦ ok (some (p, worker d own (ran q i.status i.defer_time)))
  ]
  step i p d own (ran q status time) = elim q.task [
    | none ↦ ok (some (p, worker d own looping))
    | some t ↦ elim (at_home own (ran q status time)) [
      | false ↦ fault
      | true ↦ settle i.fresh_context p d own q t time status
    ]
  ]
  step i p d own leaving = ok (some (release p (addresses own), worker d own left))
  step i p d own left = ok none
