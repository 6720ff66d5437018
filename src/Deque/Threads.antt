-- ===== src/Deque/Threads.antt =====
-- `parallel::Deque`: the state that threads share, and the points where a call may stand between two
-- steps.
use libspl.Common.{
  ℕ, ◌+◌, ◌-◌, ◌≡◌, Bool, true, false, List, [], ◌∷◌, ◌++◌, Exception, timeout, length, ◌==◌, ltb,
  leb, ◌%◌, ◌^◌, Option, none, some, if◌then◌else◌,
}

-- The list that the base class holds (libspl.LinkedList says how it lies in memory), the count of
-- `_sem`, and whether `_mtx` is locked; `sem_max` is the platform's SEM_VALUE_MAX.
pub record Shared (A : Type 0) : Type 0 where
  pub items : List A
  pub sem_max : ℕ
  pub sem : ℕ
  pub locked : Bool

abbrev pub shared : {A : Type 0} → ℕ → List A → ℕ → Bool → Shared A
shared sem_max items sem locked = record {
  items = items;
  sem_max = sem_max;
  sem = sem;
  locked = locked;
}

-- the end of the list that `enqueue` and `enqueueFront` insert at
pub data Place : Type 0 where
  front back : Place

-- Where a call stands. A base operation is two steps: it reads the list, and later writes what it
-- made of that; with no lock another thread could come between.
pub data Point (A : Type 0) : Type 0 where
  insert_lock insert_read : Place → A → Point A
  insert_write : Place → A → List A → Point A
  insert_unlock insert_notify : Point A
  take_wait take_timed_wait : Point A
  take_try_wait : A → Point A
  take_lock take_read : Point A
  take_write : A → List A → Point A
  take_unlock : A → Point A
  clear_lock clear_write clear_unlock : Point A
  done : Point A
  returned : A → Point A
  threw : Exception → Point A

-- what a write of the list did
pub data Event (A : Type 0) : Type 0 where
  inserted : Place → A → Event A
  taken : A → Event A
  cleared : Event A

-- A thread cannot go on, its next action is undefined, or it goes to a state and a point.
pub data Outcome (A : Type 0) : Type 0 where
  blocks undefined : Outcome A
  goes : List (Event A) → Shared A → Point A → Outcome A

abbrev pub placed : {A : Type 0} → Place → A → List A → List A
placed front a xs = a ∷ xs
placed back a xs = xs ++ a ∷ []

module _ {A : Type 0} where
  -- `_mtx.lock()` and `_mtx.unlock()`
  unfoldable pub lock : Shared A → Point A → Outcome A
  lock s p = if s.locked then blocks else goes [] (record s { locked = true }) p

  unfoldable pub unlock : Shared A → Point A → Outcome A
  unlock s p = goes [] (record s { locked = false }) p

  -- `sem_post`, which fails at SEM_VALUE_MAX; `notify` does not look at its result
  unfoldable pub post : Shared A → Point A → Outcome A
  post s p = goes [] (if ltb s.sem s.sem_max then record s { sem = s.sem + 1 } else s) p

  -- `sem_wait`, and the two that give up
  unfoldable pub wait : Shared A → Outcome A → Point A → Outcome A
  wait s otherwise p = if s.sem == 0 then otherwise else goes [] (record s { sem = s.sem - 1 }) p

  -- `takeFront` of the base class reads through `_head`
  unfoldable pub read_front : Shared A → Outcome A
  read_front s = elim s.items [ [] ↦ undefined | a ∷ xs ↦ goes [] s (take_write a xs) ]

  -- One step of a thread; `late` says that the clock has passed the time limit of `sem_timedwait`.
  unfoldable pub thread_step : Bool → Shared A → Point A → Outcome A
  thread_step late s (insert_lock place a) = lock s (insert_read place a)
  thread_step late s (insert_read place a) = goes [] s (insert_write place a s.items)
  thread_step late s (insert_write place a xs) =
      goes (inserted place a ∷ []) (record s { items = placed place a xs }) insert_unlock
  thread_step late s insert_unlock = unlock s insert_notify
  thread_step late s insert_notify = post s done
  thread_step late s take_wait = wait s blocks take_lock
  thread_step late s take_timed_wait =
      wait s (if late then goes [] s (threw timeout) else blocks) take_lock
  thread_step late s (take_try_wait a) = wait s (goes [] s (returned a)) take_lock
  thread_step late s take_lock = lock s take_read
  thread_step late s take_read = read_front s
  thread_step late s (take_write a xs) =
      goes (taken a ∷ []) (record s { items = xs }) (take_unlock a)
  thread_step late s (take_unlock a) = unlock s (returned a)
  thread_step late s clear_lock = lock s clear_write
  thread_step late s clear_write = goes (cleared ∷ []) (record s { items = [] }) clear_unlock
  thread_step late s clear_unlock = unlock s done
  thread_step late s done = blocks
  thread_step late s (returned a) = blocks
  thread_step late s (threw e) = blocks

  -- Threads take steps in any order; the events are those of the steps.
  pub data Steps
      : Shared A → List (Point A) → List (Event A) → Shared A → List (Point A) → Type 0 where
    stop : {s : Shared A} {ts : List (Point A)} → Steps s ts [] s ts
    step :
        {s s₂ : Shared A} {us : List (Point A)} {es : List (Event A)} (late : Bool)
        (b c : List (Point A)) (p p₁ : Point A) (s₁ : Shared A) (ev : List (Event A))
        → thread_step late s p ≡ goes ev s₁ p₁
        → Steps s₁ (b ++ p₁ ∷ c) es s₂ us
        → Steps s (b ++ p ∷ c) (ev ++ es) s₂ us

  -- `enqueue`, `enqueueFront`, `dequeue`, `dequeueOrTimeout` and `tryDequeue`, before their first step;
  -- not `clear`
  abbrev pub is_call : Point A → Bool
  is_call (insert_lock place a) = true
  is_call take_wait = true
  is_call take_timed_wait = true
  is_call (take_try_wait a) = true
  is_call p = false

  -- A deque of `items`, as its constructors leave it: the size is converted to int32_t and by sem_init to
  -- an unsigned number. None where that is above SEM_VALUE_MAX, and the constructor throws.
  unfoldable pub fresh : ℕ → List A → Option (Shared A)
  fresh sem_max items =
      let value = length items % 2 ^ 32 in
      if leb value sem_max then some (shared sem_max items value false) else none
