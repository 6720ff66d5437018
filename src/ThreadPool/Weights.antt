-- ===== src/ThreadPool/Weights.antt =====
-- What each address of a task or a context counts for, where it is held.
use libspl.Common.{ℕ, ◌+◌, ◌≡◌, Option, none, some, total}
use libspl.ThreadPool.Worker.{
  SavedContext, QueuedTask, Pool, Point, looping, taking, leaving, left, got, ran, Worker,
}

module _ (f : ℕ → ℕ) where
  abbrev pub saved_weight : Option SavedContext → ℕ
  saved_weight none = 0
  saved_weight (some c) = f c.uctx + f c.stack

  -- a null task holds nothing
  abbrev pub weight : QueuedTask → ℕ
  weight q = elim q.task [ none ↦ 0 | some t ↦ f t + saved_weight q.context ]

  abbrev pub in_hand : Point → ℕ
  in_hand (got q) = weight q
  in_hand (ran q s t) = weight q
  in_hand looping = 0
  in_hand taking = 0
  in_hand leaving = 0
  in_hand left = 0

  -- a worker's own context, until it leaves
  abbrev pub own_weight : SavedContext → Point → ℕ
  own_weight c left = 0
  own_weight c pt = f c.uctx + f c.stack

  abbrev pub worker_weight : Worker → ℕ
  worker_weight w =
      total (λ d. weight d.queued) w.deferred_tasks.cells
      + own_weight w.own w.point
      + in_hand w.point

  -- what is freed, given back, or held by the pool
  abbrev pub used : Pool → ℕ
  used p =
      total f p.freed + total f p.given_back + total weight p.tasks + total weight p.suspended_tasks

  -- a change of the pool and of what one thread holds, by which nothing is lost or held twice
  abbrev pub Balanced : Pool → ℕ → Pool → ℕ → Type 0
  Balanced p m p' m' = total f p'.allocated + used p + m ≡ total f p.allocated + used p' + m'
