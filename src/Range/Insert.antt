-- ===== src/Range/Insert.antt =====
-- `insert` and `operator|` add exactly the points of the intervals, and keep the order with its gaps.
use libspl.Common.{
  ℕ, suc, ◌<◌, ◌≡◌, refl, ◌∙◌, ◌||◌, List, [], ◌∷◌, ◌≢◌, ok, fault, arith, Bool-cases, inl, inr,
}
use libspl.Range.Map.{
  Interval, Entry, Cursor, whole, BeginStep, undefined, prev_from, lower_bound, lower_bound_from,
  insert_entry,
}
use libspl.Range.Ops.{
  interval, entry, at_most, raised, absorb_right, merge_right, steps_back, insert, union,
}
use libspl.Range.Points.{
  in_interval, mem, IsRangeFrom, IsRange, mem-rewind, IsRangeFrom-weaken, rewind-IsRange,
  lower_bound-Located, insert_entry-rewind,
}
use libspl.Range.Absorb.{Absorbed, Absorbed-same, stepped}

-- The second loop keeps the points, and leaves gaps.
absorb_right-IsRange :
    (e : Entry) (a : List Entry)
    → e.first ≡ e.second.start
    → e.second.start < e.second.end
    → IsRangeFrom (suc e.second.start) a
    → IsRangeFrom e.second.start (absorb_right e a)
      × ((x : ℕ) → mem x (absorb_right e a) ≡ (in_interval x e.second || mem x a))
unfolding absorb_right mem
absorb_right-IsRange e [] key fe r = ((key, omega arith, fe, tt), λ x. refl)
absorb_right-IsRange e (n ∷ a) key fe r = elim (Bool-cases (at_most n.second.start e.second.end)) [
  | inl h ↦
      let (range, points) =
        absorb_right-IsRange
          (record e { second = interval e.second.start (raised e.second.end n.second.end) }) a key
          (ground arith) (IsRangeFrom-weaken a (omega arith) r.3) in
      rw h (range, λ x. points x ∙ ground arith)
  | inr h ↦ rw h ((key, omega arith, fe, (r.0, ground arith, r.2, r.3)), λ x. refl)
]

-- `r` is a valid range of the points of `m` and of `i`.
pub record Inserted (m : List Entry) (i : Interval) (r : List Entry) : Type 0 where
  pub valid : IsRange r
  pub points : (x : ℕ) → mem x r ≡ (in_interval x i || mem x m)

merge_right-Inserted :
    (m : List Entry) (i : Interval) (j : Interval × Cursor)
    → Absorbed (λ x. in_interval x i || mem x m) j
    → let c = insert_entry (entry j.0) (whole j.1) in Inserted m i (merge_right c.before c.after)
unfolding merge_right
merge_right-Inserted m i j a =
    let n = entry j.0 in
    let (range, points) = absorb_right-IsRange n a.right refl a.filled a.above in
    rw (a.rest, insert_entry-rewind n a.left a.right a.below a.above)
      (record {
        valid = rewind-IsRange j.0.start a.left _ a.below range;
        points =
            λ x. ground (arith, mem-rewind x a.left (absorb_right n a.right), points x, a.points x);
      })

module _ (choice : BeginStep) (defined : choice ≢ undefined) where
  -- `insert` of an interval that is not empty ends in a valid range with exactly the points of the
  -- old one and of the interval.
  pub insert-Inserted :
      (m : List Entry) (i : Interval)
      → IsRange m
      → i.start < i.end
      → (r : List Entry) × (insert choice m i ≡ ok r) × Inserted m i r
  unfolding insert
  insert-Inserted m i valid fi =
      let l = lower_bound-Located i.start m valid in
      let c = lower_bound i.start m in
      let (it, e, a) =
        stepped choice i c.before c.after l.hi defined fi l.below l.above l.first_ge l.last_lt in
      (_, rw e, merge_right-Inserted m i _ (Absorbed-same _ _ (λ x. ground (arith, l.same x)) a))

  -- `operator|` of two valid ranges is a valid range of exactly the points of both.
  pub union-points :
      (m other : List Entry) (lo : ℕ)
      → IsRange m
      → IsRangeFrom lo other
      → (r : List Entry) × (union choice m other ≡ ok r)
        × IsRange r
        × ((x : ℕ) → mem x r ≡ (mem x m || mem x other))
  unfolding union mem
  union-points m [] lo valid vo = (m, refl, valid, λ x. ground arith)
  union-points m (e ∷ other) lo valid vo =
      let (r, run, is) = insert-Inserted m e.second valid vo.2 in
      let (r', run', valid', points) = union-points r other (suc e.second.end) is.valid vo.3 in
      (r', rw run run', valid', λ x. points x ∙ ground (arith, is.points x))

-- By the standard, `insert` of an interval that starts before every other decrements `begin()`.
pub insert-undefined :
    (m : List Entry) (i : Interval)
    → IsRangeFrom (suc i.start) m
    → m ≢ []
    → insert undefined m i ≡ fault
unfolding insert lower_bound lower_bound_from steps_back prev_from
insert-undefined [] i r n = absurd (n refl)
insert-undefined (e ∷ m) i r n = ground arith
