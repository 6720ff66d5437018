-- ===== src/SyncCondition/Tests.antt =====
-- Runs of the condition, and an instance of its theorem.
use mathlib.Core.Path.{◌≡◌, refl}
use libspl.Common.{true, false, [], ◌∷◌, arith, total}
use libspl.SyncCondition.Threads.{
  condition, end, notifying, testing, asleep, done, rejected, step, Steps, stop, next,
}
use libspl.SyncCondition.Wakeup.{sleeps, Steps-awake}

program : Unit {0}
unfolding step
program = tt

-- an end with no begin throws
end_runs : step (condition 0 0) end ≡ (condition 0 0, (rejected, false))
unfolding program
end_runs = refl

-- a thread waits; another one's end wakes it
wait_steps : Steps (condition 1 0) (testing ∷ end ∷ []) (condition 0 0) (done ∷ done ∷ [])
unfolding program
wait_steps = next (condition 1 0) (condition 1 0) [] (end ∷ []) testing asleep false refl (
    next (condition 1 0) (condition 0 0) (asleep ∷ []) [] end notifying false refl (
      next (condition 0 0) (condition 0 0) (asleep ∷ []) [] notifying done true refl
        (next (condition 0 0) (condition 0 0) [] (done ∷ []) testing done false refl stop)))

Steps-awake_example : total sleeps (done ∷ done ∷ []) ≡ 0
Steps-awake_example =
    Steps-awake (condition 1 0) (condition 0 0) (testing ∷ end ∷ []) (done ∷ done ∷ [])
      (omega arith) refl wait_steps refl (omega arith)
