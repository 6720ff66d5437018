-- ===== src/ThreadPool/Ownership.antt =====
-- A worker's step moves each address of a task or a context from one place to another.
use libspl.Common.{
  ℕ, ◌+◌, ◌≤◌, ◌≡◌, refl, ap, Bool, true, false, ◌||◌, Option, none, some, sym, ◌∙◌, List, [], ◌∷◌,
  ◌++◌, Run, ok, leb, if◌then◌else◌, arith, total, total-append, Returns, Bool-cases, inl, inr,
  Returns-map, Returns-Ensures, Ensures, fault, get_elem?, or_fault,
}
use libspl.PriorityHeap.Ops.{Heap, non_empty, top}
use libspl.PriorityHeap.Contents.{IsHeapCalls, IsQueue, push-IsQueue, pop-IsQueue, uncons}
use libspl.ThreadPool.Weights.{weight, worker_weight, Balanced}
use libspl.ThreadPool.Worker.{
  SavedContext, QueuedTask, queued_task, Status, complete, resched, resched_later, deferred,
  deferred_saved, suspended, DeferredTask, less, Pool, Point, looping, taking, leaving, left, got,
  ran, Input, worker, addresses, is_home, at_home, Moved, dequeue_from, take, defer, settle, step,
}

pub by_test :
    {A : Type 0} (m n : Run A) (P : A → Type 0) (b : Bool)
    → (b ≡ true → Returns P m)
    → (b ≡ false → Returns P n)
    → Returns P (elim b [ true ↦ m | false ↦ n ])
by_test m n P true h k = h refl
by_test m n P false h k = k refl

fault-Ensures :
    {A : Type 0} (n : Run A) (P : A → Type 0) (b : Bool)
    → b ≡ false
    → Ensures P (elim b [ false ↦ fault | true ↦ n ])
fault-Ensures n P true e = absurd cc
fault-Ensures n P false e = tt

abbrev pub queued : Option ℕ → Option SavedContext → QueuedTask
queued t c = record { task = t; context = c }

module _ (push_heap pop_heap : List DeferredTask → List DeferredTask)
    (IsStdHeap : List DeferredTask → Type 0)
    (calls : IsHeapCalls less push_heap pop_heap IsStdHeap) where
  -- a heap of deferred tasks in order
  abbrev pub Deferred : Heap DeferredTask → Type 0
  Deferred d = IsQueue less push_heap pop_heap IsStdHeap calls d

  -- what a step leaves, of a thread that held `m` of each measure
  abbrev pub Kept : Pool → ((ℕ → ℕ) → ℕ) → Moved → Type 0
  Kept p m none = Unit
  Kept p m (some (p', w)) =
      Deferred w.deferred_tasks × ((f : ℕ → ℕ) → Balanced f p (m f) p' (worker_weight f w))

  Kept-after :
      (p p₁ : Pool) (m m₁ : (ℕ → ℕ) → ℕ)
      → ((f : ℕ → ℕ) → Balanced f p (m f) p₁ (m₁ f))
      → (r : Moved) → Kept p₁ m₁ r
      → Kept p m r
  Kept-after p p₁ m m₁ e none k = tt
  Kept-after p p₁ m m₁ e (some (p', w)) (d, k) = (d, λ f. omega (arith, e f, k f))

  Kept-none :
      (gives_up : Bool) (p : Pool) (d : Heap DeferredTask) (own : SavedContext)
      → Deferred d
      → Kept p
          (λ f. worker_weight f (worker d own taking))
          (if gives_up then some (p, worker d own (got (queued_task none))) else none)
  Kept-none true p d own w = (w, λ f. omega arith)
  Kept-none false p d own w = tt

  dequeue-Kept :
      (gives_up : Bool) (p : Pool) (d : Heap DeferredTask) (own : SavedContext)
      (qs : List QueuedTask)
      → Deferred d
      → p.tasks ≡ qs
      → Returns
          (Kept p (λ f. worker_weight f (worker d own taking)))
          (dequeue_from push_heap pop_heap gives_up p d own qs)
  unfolding dequeue_from
  dequeue-Kept gives_up p d own [] w e = Kept-none gives_up p d own w
  dequeue-Kept gives_up p d own (q ∷ qs) w e = (w, λ f. omega (arith, ap (total (weight f)) e))

  defer-Kept :
      (p : Pool) (d : Heap DeferredTask) (own : SavedContext) (q : QueuedTask) (time : ℕ)
      → Deferred d
      → Returns
          (Kept p (λ f. worker_weight f (worker d own looping) + weight f q))
          (defer push_heap pop_heap p d own q time)
  unfolding defer
  defer-Kept p d own q time w =
      let x : DeferredTask = record { queued = q; time = time } in
      let (d', e, w', pm) = push-IsQueue less push_heap pop_heap IsStdHeap calls d x w in
      rw e (w', λ f. omega (arith, pm (λ d. weight f d.queued)))

  settle-Kept :
      (new_ : SavedContext) (p : Pool) (d : Heap DeferredTask) (own : SavedContext) (t : ℕ)
      (c : Option SavedContext) (time : ℕ) (status : Status)
      → Deferred d
      → Returns
          (Kept p (λ f. worker_weight f (worker d own looping) + weight f (queued (some t) c)))
          (settle push_heap pop_heap new_ p d own (queued (some t) c) t time status)
  unfolding settle
  settle-Kept new_ p d own t none time complete w = (w, λ f. omega arith)
  settle-Kept new_ p d own t (some c) time complete w = (w, λ f. omega arith)
  settle-Kept new_ p d own t none time resched w =
      (w, λ f. omega (arith, total-append (weight f) p.tasks (queued_task (some t) ∷ [])))
  settle-Kept new_ p d own t (some c) time resched w =
      (w, λ f. omega (arith, total-append (weight f) p.tasks (queued_task (some t) ∷ [])))
  settle-Kept new_ p d own t none time resched_later w = (w, λ f. omega arith)
  settle-Kept new_ p d own t (some c) time resched_later w = (w, λ f. omega arith)
  settle-Kept new_ p d own t c time deferred w = defer-Kept p d own (queued (some t) c) time w
  settle-Kept new_ p d own t (some c) time deferred_saved w =
      defer-Kept p d own (queued (some t) (some c)) time w
  settle-Kept new_ p d own t none time deferred_saved w =
      let p₁ = record p { allocated = addresses new_ ++ p.allocated } in
      Returns-map _ _ (defer push_heap pop_heap p₁ d new_ (queued (some t) (some own)) time)
        (defer-Kept p₁ d new_ (queued (some t) (some own)) time w)
        (Kept-after p p₁ _ _ (λ f. omega arith))
  settle-Kept new_ p d own t (some c) time suspended w = (w, λ f. omega arith)
  settle-Kept new_ p d own t none time suspended w = (w, λ f. omega arith)

  pub non_empty-top :
      (d : Heap DeferredTask)
      → Deferred d
      → non_empty d ≡ true
      → (x : DeferredTask) × (xs : List DeferredTask) × (top d ≡ ok x)
        × (d.cells ≡ x ∷ xs)
        × (1 ≤ d.size)
  unfolding top non_empty
  non_empty-top d w e =
      let some_ : 1 ≤ d.size = ground (arith, e) in
      let (x, xs, c) = uncons d.cells (omega (arith, some_, w.array.counted)) in
      (x, xs, ap (λ l. or_fault (get_elem? l 0)) c, c, some_)

  take-Kept :
      (i : Input) (p : Pool) (d : Heap DeferredTask) (own : SavedContext)
      → Deferred d
      → Returns
          (Kept p (λ f. worker_weight f (worker d own taking)))
          (take push_heap pop_heap i p d own)
  unfolding take
  take-Kept i p d own w =
      by_test _ _ _ (non_empty d)
        (λ some_.
          let (x, xs, first, c, n) = non_empty-top d w some_ in
          rw first (
            by_test _ _ _ (leb x.time i.now)
              (λ due.
                let (d', y, e, w', pm, _, _) =
                  pop-IsQueue less push_heap pop_heap IsStdHeap calls d w n in
                rw e (w', λ f. omega (arith, pm (λ d. weight f d.queued))))
              (λ early. dequeue-Kept i.late p d own p.tasks w refl)))
        (λ none_. dequeue-Kept false p d own p.tasks w refl)

  got-Kept :
      (i : Input) (p : Pool) (d : Heap DeferredTask) (own : SavedContext) (t : Option ℕ)
      (c : Option SavedContext)
      → Deferred d
      → Returns
          (Kept p (λ f. worker_weight f (worker d own (got (queued t c)))))
          (step push_heap pop_heap i p d own (got (queued t c)))
  unfolding step
  got-Kept i p d own none c w = (w, λ f. omega arith)
  got-Kept i p d own (some t) c w = (w, λ f. omega arith)

  ran-Kept :
      (i : Input) (p : Pool) (d : Heap DeferredTask) (own : SavedContext) (t : Option ℕ)
      (c : Option SavedContext) (status : Status) (time : ℕ)
      → Deferred d
      → is_home own c ≡ true
      → Returns
          (Kept p (λ f. worker_weight f (worker d own (ran (queued t c) status time))))
          (step push_heap pop_heap i p d own (ran (queued t c) status time))
  unfolding step
  ran-Kept i p d own none c status time w home = (w, λ f. omega arith)
  ran-Kept i p d own (some t) c status time w home =
      by_test _ _ _ (is_home own c)
        (λ _.
          Returns-map _ _
            (settle push_heap pop_heap i.fresh_context p d own (queued (some t) c) t time status)
            (settle-Kept i.fresh_context p d own t c time status w)
            (Kept-after p p _ _ (λ f. omega arith)))
        (λ away. absurd (let q : true ≡ false = sym home ∙ away in cc))

  ran-Ensures :
      (i : Input) (p : Pool) (d : Heap DeferredTask) (own : SavedContext) (t : Option ℕ)
      (c : Option SavedContext) (status : Status) (time : ℕ)
      → Deferred d
      → Ensures
          (Kept p (λ f. worker_weight f (worker d own (ran (queued t c) status time))))
          (step push_heap pop_heap i p d own (ran (queued t c) status time))
  unfolding step
  ran-Ensures i p d own none c status time w = (w, λ f. omega arith)
  ran-Ensures i p d own (some t) c status time w = elim (Bool-cases (is_home own c)) [
    | inl home ↦
        Returns-Ensures
          (Kept p (λ f. worker_weight f (worker d own (ran (queued (some t) c) status time))))
          (step push_heap pop_heap i p d own (ran (queued (some t) c) status time))
          (ran-Kept i p d own (some t) c status time w home)
    | inr away ↦ fault-Ensures _ _ _ away
  ]

  -- A step of a worker whose deferred tasks are in order, and that is not behind the run of another
  -- worker's task, does nothing undefined, keeps them in order, and moves each address from one place to
  -- another.
  pub step-Kept :
      (i : Input) (p : Pool) (d : Heap DeferredTask) (own : SavedContext) (pt : Point)
      → Deferred d
      → at_home own pt ≡ true
      → Returns
          (Kept p (λ f. worker_weight f (worker d own pt)))
          (step push_heap pop_heap i p d own pt)
  unfolding step
  step-Kept i p d own looping w home = elim (Bool-cases (p.running || non_empty d)) [
    | inl go ↦ rw go (w, λ f. omega arith)
    | inr stop ↦ rw stop (w, λ f. omega arith)
  ]
  step-Kept i p d own taking w home = take-Kept i p d own w
  step-Kept i p d own (got q) w home = got-Kept i p d own q.task q.context w
  step-Kept i p d own (ran q status time) w home =
      ran-Kept i p d own q.task q.context status time w home
  step-Kept i p d own leaving w home = (w, λ f. omega arith)
  step-Kept i p d own left w home = tt

  -- wherever a step returns, it moves each address from one place to another
  pub step-Ensures :
      (i : Input) (p : Pool) (d : Heap DeferredTask) (own : SavedContext) (pt : Point)
      → Deferred d
      → Ensures
          (Kept p (λ f. worker_weight f (worker d own pt)))
          (step push_heap pop_heap i p d own pt)
  step-Ensures i p d own (ran q status time) w =
      ran-Ensures i p d own q.task q.context status time w
  step-Ensures i p d own pt w =
      Returns-Ensures (Kept p (λ f. worker_weight f (worker d own pt)))
        (step push_heap pop_heap i p d own pt) (step-Kept i p d own pt w refl)
