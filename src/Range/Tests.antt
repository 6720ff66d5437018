-- ===== src/Range/Tests.antt =====
-- Runs of the operations on ranges and instances of their theorems.
use mathlib.Core.Path.{◌≡◌, refl}
use libspl.Common.{ℕ, ◌<◌, ◌≤◌, ◌↔◌, true, not, ◌&&◌, ◌||◌, some, List, [], ◌∷◌, ok, fault, arith}
use libspl.Range.Map.{
  Entry, undefined, stays, wraps, rewind, prev_from, lower_bound_from, lower_bound, emplace,
  insert_entry,
}
use libspl.Range.Ops.{
  interval, entry, absorb_left, absorb, absorb_right, merge_right, steps_back, insert, starts_at,
  inside, contains, spans_from, spans_inside, contains_interval, union, subtract_step,
  subtract_loop, subtract,
}
use libspl.Range.Points.{mem, IsRange}
use libspl.Range.Insert.{Inserted, insert-Inserted, union-points, insert-undefined}
use libspl.Range.Contains.{contains-mem, contains_interval-mem}
use libspl.Range.Difference.{subtract-points}

abbrev span : ℕ → ℕ → Entry
span s e = entry (interval s e)

abbrev sample : List Entry
sample = span 2 4 ∷ span 6 9 ∷ span 12 20 ∷ []

abbrev holes : List Entry
holes = span 0 3 ∷ span 7 8 ∷ span 14 16 ∷ span 18 30 ∷ []

program : Unit {0}
unfolding rewind prev_from lower_bound_from lower_bound emplace insert_entry absorb_left absorb
    absorb_right merge_right steps_back insert starts_at inside contains spans_from spans_inside
    contains_interval union subtract_step subtract_loop subtract mem
program = tt

insert_bridges : insert undefined sample (interval 4 12) ≡ ok (span 2 20 ∷ [])
unfolding program
insert_bridges = refl

insert_first : insert wraps sample (interval 0 1) ≡ ok (span 0 1 ∷ sample)
unfolding program
insert_first = refl

subtract_cuts :
    subtract sample holes ≡ some (span 3 4 ∷ span 6 7 ∷ span 8 9 ∷ span 12 14 ∷ span 16 18 ∷ [])
unfolding program
subtract_cuts = refl

insert-Inserted_example :
    (r : List Entry) × (insert stays sample (interval 3 7) ≡ ok r)
    × Inserted sample (interval 3 7) r
insert-Inserted_example =
    insert-Inserted stays (grind arith) sample (interval 3 7) (omega arith) (omega arith)

union-points_example :
    (r : List Entry) × (union wraps sample holes ≡ ok r)
    × IsRange r
    × ((x : ℕ) → mem x r ≡ (mem x sample || mem x holes))
union-points_example = union-points wraps (grind arith) sample holes 0 (omega arith) (omega arith)

insert-undefined_example : insert undefined sample (interval 0 1) ≡ fault
insert-undefined_example = insert-undefined sample (interval 0 1) (omega arith) (grind arith)

contains-mem_example : contains sample 8 ≡ mem 8 sample
contains-mem_example = contains-mem sample 8 (omega arith)

contains_interval-mem_example :
    (contains_interval sample (interval 13 20) ≡ true)
    ↔ ((y : ℕ) → 13 ≤ y → y < 20 → mem y sample ≡ true)
contains_interval-mem_example =
    contains_interval-mem sample (interval 13 20) (omega arith) (omega arith)

subtract-points_example :
    (m : List Entry) × (subtract sample holes ≡ some m)
    × IsRange m
    × ((x : ℕ) → mem x m ≡ (mem x sample && not (mem x holes)))
subtract-points_example = subtract-points sample holes (omega arith) (omega arith)
