-- ===== src/Deque/Tests.antt =====
-- Interleavings of calls on small queues, and instances of the theorems.
use mathlib.Core.Path.{◌≡◌, refl}
use libspl.Common.{ℕ, some, none, arith, true, false, List, [], ◌∷◌, All, ◌≢◌}
use libspl.Deque.Threads.{
  shared, back, Point, Event, undefined, lock, unlock, post, wait, read_front, thread_step, Steps,
  stop, step, fresh, insert_lock, take_wait, take_read, clear_lock, done, returned, inserted, taken,
  cleared,
}
use libspl.Deque.Progress.{Settled, interleaved-defined, interleaved-Settled}
use libspl.Deque.Sequential.{IsRun, interleaved-IsRun}

program : Unit {0}
unfolding lock unlock post wait read_front thread_step fresh
program = tt

-- one producer and two consumers of an empty queue
abbrev calls : List (Point ℕ)
calls = insert_lock back 7 ∷ take_wait ∷ take_wait ∷ []

abbrev after : List (Point ℕ)
after = done ∷ returned 7 ∷ take_wait ∷ []

abbrev writes : List (Event ℕ)
writes = inserted back 7 ∷ taken 7 ∷ []

fresh_runs : fresh {A = ℕ} 9 [] ≡ some (shared 9 [] 0 false)
unfolding program
fresh_runs = refl

-- SEM_VALUE_MAX values at most are counted
large_runs : fresh {A = ℕ} 1 (5 ∷ 6 ∷ []) ≡ none
unfolding program
large_runs = refl

calls-run : Steps (shared 9 [] 0 false) calls writes (shared 9 [] 0 false) after
unfolding program
calls-run = step false [] (take_wait ∷ take_wait ∷ []) _ _ _ _ refl (
    step false [] (take_wait ∷ take_wait ∷ []) _ _ _ _ refl (
      step false [] (take_wait ∷ take_wait ∷ []) _ _ _ _ refl (
        step false [] (take_wait ∷ take_wait ∷ []) _ _ _ _ refl (
          step false [] (take_wait ∷ take_wait ∷ []) _ _ _ _ refl (
            step false (done ∷ []) (take_wait ∷ []) _ _ _ _ refl (
              step false (done ∷ []) (take_wait ∷ []) _ _ _ _ refl (
                step false (done ∷ []) (take_wait ∷ []) _ _ _ _ refl (
                  step false (done ∷ []) (take_wait ∷ []) _ _ _ _ refl
                    (step false (done ∷ []) (take_wait ∷ []) _ _ _ _ refl stop)))))))))

interleaved-defined_example : thread_step {A = ℕ} false (shared 9 [] 0 false) take_wait ≢ undefined
interleaved-defined_example =
    interleaved-defined 9 [] (shared 9 [] 0 false) calls writes (shared 9 [] 0 false)
      (done ∷ returned 7 ∷ []) take_wait [] false fresh_runs (refl, (refl, (refl, tt))) calls-run

interleaved-Settled_example : All (Settled []) after
unfolding program
interleaved-Settled_example =
    interleaved-Settled 9 [] (shared 9 [] 0 false) calls writes (shared 9 [] 0 false) after
      fresh_runs (omega arith) (omega arith) (refl, (refl, (refl, tt))) calls-run
      (refl, (refl, (refl, tt)))

interleaved-IsRun_example : IsRun [] writes []
interleaved-IsRun_example =
    interleaved-IsRun 9 [] (shared 9 [] 0 false) calls writes (shared 9 [] 0 false) after fresh_runs
      (refl, (refl, (refl, tt))) calls-run

-- `clear` leaves the semaphore as it is, so a call of `dequeue` behind it reads from an empty list.
cleared-take :
    Steps {A = ℕ}
      (shared 9 (3 ∷ []) 1 false)
      (clear_lock ∷ take_wait ∷ [])
      (cleared ∷ [])
      (shared 9 [] 0 true)
      (done ∷ take_read ∷ [])
    × (thread_step {A = ℕ} false (shared 9 [] 0 true) take_read ≡ undefined)
unfolding program
cleared-take = (
  step false [] (take_wait ∷ []) _ _ _ _ refl (
      step false [] (take_wait ∷ []) _ _ _ _ refl (
        step false [] (take_wait ∷ []) _ _ _ _ refl
          (step false (done ∷ []) [] _ _ _ _ refl (step false (done ∷ []) [] _ _ _ _ refl stop)))),
  refl,
)
