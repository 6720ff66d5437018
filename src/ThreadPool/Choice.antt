-- ===== src/ThreadPool/Choice.antt =====
-- Which task a worker takes.
use libspl.Common.{
  ℕ, ◌≡◌, refl, sym, ◌∙◌, subst, Bool, true, false, none, some, List, [], ◌∷◌, leb, arith, length,
  Returns, All, Bool-cases, inl, inr,
}
use libspl.PriorityHeap.Ops.{Heap, non_empty}
use libspl.PriorityHeap.Contents.{Perm, All-Perm, IsHeapCalls, pop-IsQueue}
use libspl.ThreadPool.Worker.{
  SavedContext, QueuedTask, queued_task, DeferredTask, less, Pool, got, Input, worker, Moved,
  dequeue_from, take,
}
use libspl.ThreadPool.Ownership.{by_test, non_empty-top, Deferred}

abbrev pub is_due : ℕ → DeferredTask → Bool
is_due now x = leb x.time now

none_due :
    (now : ℕ) (x : DeferredTask) (xs : List DeferredTask)
    → is_due now x ≡ false
    → All (λ y. less x y ≡ false) xs
    → All (λ y. is_due now y ≡ false) xs
none_due now x [] e a = tt
none_due now x (y ∷ ys) e (l, a) = (ground (arith, e, l), none_due now x ys e a)

All-none : (P : DeferredTask → Type 0) (xs : List DeferredTask) → length xs ≡ 0 → All P xs
All-none P [] e = tt
All-none P (x ∷ xs) e = absurd (omega (arith, e))

module _ (push_heap pop_heap : List DeferredTask → List DeferredTask)
    (IsStdHeap : List DeferredTask → Type 0)
    (calls : IsHeapCalls less push_heap pop_heap IsStdHeap) where
  -- how a worker may go on that chooses its next task
  pub data Chosen (i : Input) (p : Pool) (d : Heap DeferredTask) (own : SavedContext)
      : Moved → Type 0 where
    -- a deferred task that is due, and none of the others is due earlier
    from_deferred :
        (x : DeferredTask) (d' : Heap DeferredTask)
        → is_due i.now x ≡ true
        → Perm d.cells (x ∷ d'.cells)
        → All (λ y. less x y ≡ false) d'.cells
        → Chosen i p d own (some (p, worker d' own (got x.queued)))
    -- the front of the ready queue, while no deferred task is due
    from_ready :
        (q : QueuedTask) (qs : List QueuedTask)
        → All (λ y. is_due i.now y ≡ false) d.cells
        → p.tasks ≡ q ∷ qs
        → Chosen i p d own (some (record p { tasks = qs }, worker d own (got q)))
    -- no task after the time, or it waits: none is due and none is ready
    gives_up :
        All (λ y. is_due i.now y ≡ false) d.cells
        → p.tasks ≡ []
        → i.late ≡ true
        → Chosen i p d own (some (p, worker d own (got (queued_task none))))
    waits : All (λ y. is_due i.now y ≡ false) d.cells → p.tasks ≡ [] → Chosen i p d own none

  queue-Chosen :
      (i : Input) (p : Pool) (d : Heap DeferredTask) (own : SavedContext) (late : Bool)
      (qs : List QueuedTask)
      → All (λ y. is_due i.now y ≡ false) d.cells
      → p.tasks ≡ qs
      → (late ≡ true → i.late ≡ true)
      → Returns (Chosen i p d own) (dequeue_from push_heap pop_heap late p d own qs)
  unfolding dequeue_from
  queue-Chosen i p d own true [] a e l = gives_up a e (l refl)
  queue-Chosen i p d own false [] a e l = waits a e
  queue-Chosen i p d own late (q ∷ qs) a e l = from_ready q qs a e

  is_due-first :
      (now : ℕ) (x y : DeferredTask) (xs ys zs : List DeferredTask)
      → zs ≡ x ∷ xs
      → is_due now x ≡ true
      → Perm zs (y ∷ ys)
      → All (λ z. less y z ≡ false) ys
      → is_due now y ≡ true
  is_due-first now x y xs ys zs c due pm a = elim (Bool-cases (is_due now y)) [
    | inl e ↦ e
    | inr e ↦
        let late =
          subst (All (λ z. is_due now z ≡ false)) c
            (All-Perm (is_due now) (y ∷ ys) zs pm (e, none_due now y ys e a)) in
        absurd (let q : true ≡ false = sym due ∙ late.0 in cc)
  ]

  non_empty-All :
      (now : ℕ) (d : Heap DeferredTask)
      → Deferred push_heap pop_heap IsStdHeap calls d
      → non_empty d ≡ false
      → All (λ y. is_due now y ≡ false) d.cells
  unfolding non_empty
  non_empty-All now d w e = All-none _ d.cells (ground (arith, e, w.array.counted))

  -- For heap calls as the C++ standard describes them: a worker that chooses its next task takes a deferred one that is due, before which none of the others
  -- is; or no deferred one is due, and it takes the front of the ready queue, or that is empty and it has
  -- waited long enough, or it waits.
  pub take-Chosen :
      (i : Input) (p : Pool) (d : Heap DeferredTask) (own : SavedContext)
      → Deferred push_heap pop_heap IsStdHeap calls d
      → Returns (Chosen i p d own) (take push_heap pop_heap i p d own)
  unfolding take
  take-Chosen i p d own w =
      by_test _ _ _ (non_empty d)
        (λ some_.
          let (x, xs, first, c, n) = non_empty-top push_heap pop_heap IsStdHeap calls d w some_ in
          rw first (
            by_test _ _ _ (is_due i.now x)
              (λ due.
                let (d', y, e, w', pm, a, _) =
                  pop-IsQueue less push_heap pop_heap IsStdHeap calls d w n in
                rw e
                  (from_deferred y d' (is_due-first i.now x y xs d'.cells d.cells c due pm a) pm a))
              (λ early.
                queue-Chosen i p d own i.late p.tasks
                  (subst (All (λ y. is_due i.now y ≡ false)) (sym c) (
                    early,
                    none_due i.now x xs early (calls.greatest x xs (subst IsStdHeap c w.ordered)),
                  ))
                  refl (λ l. l))))
        (λ none_.
          queue-Chosen i p d own false p.tasks (non_empty-All i.now d w none_) refl
            (λ l. absurd cc))
