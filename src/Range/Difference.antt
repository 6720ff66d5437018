-- ===== src/Range/Difference.antt =====
-- `operator-` leaves the points of the left range that are not in the right one.
use libspl.Common.{
  ℕ, zero, suc, ◌+◌, ◌*◌, ◌<◌, ◌≡◌, refl, ◌∙◌, not, ◌&&◌, ◌||◌, Option, some, List, [], ◌∷◌, arith,
  length,
}
use libspl.Range.Map.{Entry, rewind}
use libspl.Range.Ops.{subtract_loop, subtract}
use libspl.Range.Points.{mem, IsRange, mem-rewind, rewind-IsRange}
use libspl.Range.Rounds.{value, Ready, measure, subtract_step-Round}

value_done : (x : ℕ) (b other : List Entry) → (mem x b || mem x []) ≡ value x b [] other
unfolding mem
value_done x b other = ground arith

value_rest : (x : ℕ) (b a : List Entry) → (mem x b || mem x a) ≡ value x b a []
unfolding mem
value_rest x b a = ground arith

-- The loop ends, in a valid range of the points that are left.
abbrev Ends : List Entry → List Entry → List Entry → Option (List Entry) → Type 0
Ends b a other o =
    (m : List Entry) × (o ≡ some m) × IsRange m × ((x : ℕ) → mem x m ≡ value x b a other)

subtract_loop-Ends :
    (k : ℕ) (b a other : List Entry)
    → measure a other < k
    → Ready b a other
    → Ends b a other (subtract_loop k b a other)
unfolding subtract_loop
subtract_loop-Ends zero b a other h r = absurd (omega arith)
subtract_loop-Ends (suc k) b [] other h r = (
  rewind b [],
  refl,
  rewind-IsRange r.hi b [] r.below tt,
  λ x. mem-rewind x b [] ∙ value_done x b other,
)
subtract_loop-Ends (suc k) b (e ∷ a) [] h r = (
  rewind b (e ∷ a),
  refl,
  rewind-IsRange r.hi b (e ∷ a) r.below r.above,
  λ x. mem-rewind x b (e ∷ a) ∙ value_rest x b (e ∷ a),
)
subtract_loop-Ends (suc k) b (e ∷ a) (o ∷ other) h r =
    let (d, step, round) = subtract_step-Round b e a o other r in
    let (m, run, valid, points) =
      subtract_loop-Ends k d.it.before d.it.after d.it2 (omega (arith, round.less)) round.ready in
    (m, rw (step, subtract_loop) run, valid, λ x. points x ∙ round.same x)

-- `operator-` of two valid ranges ends within its fuel, in a valid range of exactly the points of
-- the left range that are not in the right one.
pub subtract-points :
    (r other : List Entry)
    → IsRange r
    → IsRange other
    → (m : List Entry) × (subtract r other ≡ some m)
      × IsRange m
      × ((x : ℕ) → mem x m ≡ (mem x r && not (mem x other)))
unfolding subtract mem
subtract-points r other valid valid' =
    subtract_loop-Ends (2 * length r + 2 * length other + 1) [] r other (omega arith)
      (record { hi = 0; lo = 0; below = tt; above = valid; clear = tt; rest = valid' })
