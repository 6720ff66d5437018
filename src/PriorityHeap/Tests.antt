-- ===== src/PriorityHeap/Tests.antt =====
-- Runs of the heap with calls that keep the array sorted, and instances of its theorems.
use mathlib.Core.Path.{◌≡◌, refl}
use libspl.Common.{ℕ, List, [], ◌∷◌, ok, fault, ltb, ◌>>=◌, arith}
use libspl.PriorityHeap.Ops.{
  expand, shrink, allocate_loop, allocate, construct, push, pop, invalidated,
}
use libspl.PriorityHeap.Contents.{Perm, IsHeapCalls}
use libspl.PriorityHeap.Sorted
use libspl.PriorityHeap.Sorted.{rotate}
use libspl.PriorityHeap.Sorting.{Descending, push_all, pop_all, pop_all-push_all}

program : Unit {0}
unfolding expand shrink allocate_loop allocate construct push pop push_all pop_all
program = tt

abbrev sort : List ℕ → List ℕ
sort = Sorted.sort ltb

ltb-IsHeapCalls : IsHeapCalls ltb sort rotate (Descending ltb)
ltb-IsHeapCalls =
    Sorted.sort-IsHeapCalls ltb (λ x y e. ground (arith, e)) (λ x y z e h. ground (arith, e, h))

abbrev three : List ℕ
three = 2 ∷ 7 ∷ 5 ∷ []

sorted_runs :
    (allocate 0 >>= λ h. push_all sort rotate h three >>= pop_all sort rotate 3)
    ≡ ok (7 ∷ 5 ∷ 2 ∷ [])
unfolding program
sorted_runs = refl

-- a heap that has been moved from has no array, and doubling its size leaves it with none
moved_runs : push sort invalidated 1 ≡ fault
unfolding program
moved_runs = refl

pop_all-push_all_example :
    (ys : List ℕ) × ((allocate 0 >>= λ h. push_all sort rotate h three >>= pop_all sort rotate 3)
      ≡ ok ys)
    × Perm ys three
    × Descending ltb ys
pop_all-push_all_example = pop_all-push_all ltb sort rotate (Descending ltb) ltb-IsHeapCalls 0 three
