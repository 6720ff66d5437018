-- ===== src/Deque/Sequential.antt =====
-- Every interleaving is a run of the sequential queue.
use libspl.Common.{
  ℕ, some, ◌≡◌, refl, sym, ap, subst, Bool, true, List, [], ◌∷◌, ◌++◌, All, All-split, arith,
}
use libspl.Deque.Threads.{
  Shared, Point, Event, Outcome, blocks, undefined, goes, placed, lock, unlock, post, wait,
  read_front, thread_step, Steps, stop, step, is_call, fresh, inserted, taken, cleared,
  insert_write, take_write, clear_write,
}
use libspl.Deque.Steps.{Recalls}
use libspl.Deque.Invariant.{Inv, step-Inv}
use libspl.Deque.Progress.{start-Inv}

module _ {A : Type 0} where
  -- The sequential queue `xs` becomes `ys` by the events: an insertion puts its value at its end, and
  -- what is taken is the first value.
  abbrev pub IsRun : List A → List (Event A) → List A → Type 0
  IsRun xs [] ys = xs ≡ ys
  IsRun xs (inserted place a ∷ es) ys = IsRun (placed place a xs) es ys
  IsRun xs (taken a ∷ es) ys = (zs : List A) × (xs ≡ a ∷ zs) × IsRun zs es ys
  IsRun xs (cleared ∷ es) ys = IsRun [] es ys

  IsRun-append :
      (xs : List A) (es : List (Event A)) (ys : List A) (fs : List (Event A)) (zs : List A)
      → IsRun xs es ys
      → IsRun ys fs zs
      → IsRun xs (es ++ fs) zs
  IsRun-append xs [] ys fs zs r q = subst (λ l. IsRun l fs zs) (sym r) q
  IsRun-append xs (inserted place a ∷ es) ys fs zs r q =
      IsRun-append (placed place a xs) es ys fs zs r q
  IsRun-append xs (taken a ∷ es) ys fs zs r q = (r.0, r.1, IsRun-append r.0 es ys fs zs r.2 q)
  IsRun-append xs (cleared ∷ es) ys fs zs r q = IsRun-append [] es ys fs zs r q

  abbrev RunBy : Shared A → Outcome A → Type 0
  RunBy s blocks = Unit
  RunBy s undefined = Unit
  RunBy s (goes ev s₁ p₁) = IsRun s.items ev s₁.items

  step-Run :
      (late : Bool) (s : Shared A) (p : Point A)
      → Recalls s.items p
      → RunBy s (thread_step late s p)
  unfolding thread_step lock unlock post wait read_front
  step-Run late s (insert_write place a xs) rec = ap (placed place a) (sym rec)
  step-Run late s (take_write a xs) rec = (xs, rec, refl)
  step-Run late s clear_write rec = refl
  step-Run late s p rec = ground arith

  Steps-Run :
      {s s' : Shared A} {ts us : List (Point A)} {es : List (Event A)}
      → Steps s ts es s' us
      → Inv s ts
      → IsRun s.items es s'.items
  Steps-Run stop inv = refl
  Steps-Run (step {s = s} {s₂ = s₂} {es = es} late b c p p₁ s₁ ev e rest) inv =
      let (rec_b, (rec_p, rec_c)) = All-split (Recalls s.items) b (p ∷ c) inv.recalls in
      IsRun-append s.items ev s₁.items es s₂.items (subst (RunBy s) e (step-Run late s p rec_p))
        (Steps-Run rest (step-Inv late s b p c ev s₁ p₁ e inv))

  -- The writes of every interleaving of calls of enqueue, enqueueFront, dequeue, dequeueOrTimeout and
  -- tryDequeue on a new deque are, in their order, a run of the sequential queue from the first contents
  -- to the last, so no value is lost or taken twice.
  pub interleaved-IsRun :
      (sem_max : ℕ) (items : List A) (s₀ : Shared A) (ts : List (Point A)) (es : List (Event A))
      (s : Shared A) (us : List (Point A))
      → fresh sem_max items ≡ some s₀
      → All (λ q. is_call q ≡ true) ts
      → Steps s₀ ts es s us
      → IsRun items es s.items
  interleaved-IsRun sem_max items s₀ ts es s us new calls steps =
      let (start, same) = start-Inv sem_max items s₀ ts new calls in
      subst (λ l. IsRun l es s.items) same (Steps-Run steps start)
