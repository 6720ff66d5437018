-- ===== src/ThreadPool/Threads.antt =====
-- What holds of a pool, its workers and the calls of resume after any steps.
use libspl.Common.{false, ◌⊎◌, ℕ, ◌+◌, ◌≡◌, ◌≢◌, List, fault, total, All}
use libspl.PriorityHeap.Contents.{IsHeapCalls}
use libspl.ThreadPool.Worker.{at_home, QueuedTask, DeferredTask, less, Pool, Worker, Input, step}
use libspl.ThreadPool.Client.{started, started}
use libspl.ThreadPool.Weights.{weight, worker_weight, used, Balanced}
use libspl.ThreadPool.Ownership.{Deferred}

abbrev Removed : List QueuedTask → QueuedTask × List QueuedTask → Type 0
Removed qs r = (f : ℕ → ℕ) → total (weight f) qs ≡ weight f r.0 + total (weight f) r.1

abbrev Called : Pool → List QueuedTask → Pool × List QueuedTask → Type 0
Called p rs r = (f : ℕ → ℕ) → Balanced f p (total (weight f) rs) r.0 (total (weight f) r.1)

module _ (push_heap pop_heap : List DeferredTask → List DeferredTask)
    (IsStdHeap : List DeferredTask → Type 0)
    (calls_ : IsHeapCalls less push_heap pop_heap IsStdHeap) where
  -- the workers' heaps are in order, and what was allocated is freed, given back, or in one place
  pub record Owned (p : Pool) (ws : List Worker) (rs : List QueuedTask) : Type 0 where
    pub in_order : All (λ w. Deferred push_heap pop_heap IsStdHeap calls_ w.deferred_tasks) ws
    pub counted :
        (f : ℕ → ℕ)
        → total f p.allocated ≡ used f p + total (worker_weight f) ws + total (weight f) rs

  -- the worker is behind the run of a task that another one ran first; or whatever happens next, it does
  -- nothing undefined
  abbrev pub Defined : Pool → Worker → Type 0
  Defined p w =
      (at_home w.own w.point ≡ false)
      ⊎ ((i : Input) → step push_heap pop_heap i p w.deferred_tasks w.own w.point ≢ fault)
