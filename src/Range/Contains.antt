-- ===== src/Range/Contains.antt =====
-- `contains`, of a point and of an interval, against the points of the range.
use libspl.Common.{
  ℕ, suc, ◌≤◌, ◌<◌, ◌≡◌, ◌↔◌, refl, true, false, ◌||◌, List, [], ◌∷◌, All, arith, Bool-cases, inl,
  inr,
}
use libspl.Range.Map.{Interval, Entry, lower_bound}
use libspl.Range.Ops.{starts_at, inside, contains, spans_from, spans_inside, contains_interval}
use libspl.Range.Points.{mem, IsRangeFrom, IsRange, IsBelow, lower_bound-Located}

pub mem_before_range : (x lo : ℕ) (m : List Entry) → IsRangeFrom lo m → x < lo → mem x m ≡ false
unfolding mem
mem_before_range x lo [] r h = refl
mem_before_range x lo (e ∷ m) r h =
    let rest = mem_before_range x (suc e.second.end) m r.3 (omega arith) in ground arith

pub mem_past_below : (x hi : ℕ) (b : List Entry) → IsBelow hi b → hi ≤ x → mem x b ≡ false
unfolding mem
mem_past_below x hi [] r h = refl
mem_past_below x hi (e ∷ b) r h =
    let rest = mem_past_below x e.second.start b r.3 (omega arith) in ground arith

mem-starts_at : (x : ℕ) (a : List Entry) → IsRangeFrom x a → mem x a ≡ starts_at x a
unfolding mem starts_at
mem-starts_at x [] r = refl
mem-starts_at x (e ∷ a) r =
    let rest = mem_before_range x (suc e.second.end) a r.3 (omega arith) in ground arith

mem-inside :
    (x hi : ℕ) (b : List Entry)
    → IsBelow hi b
    → All (λ e. e.second.start < x) b
    → mem x b ≡ inside x b
unfolding mem inside
mem-inside x hi [] r lt = refl
mem-inside x hi (e ∷ b) r lt =
    let rest = mem_past_below x e.second.start b r.3 (omega arith) in ground arith

-- On a valid range `contains` of a point is membership.
pub contains-mem : (m : List Entry) (x : ℕ) → IsRange m → contains m x ≡ mem x m
unfolding contains
contains-mem m x valid =
    let l = lower_bound-Located x m valid in
    let c = lower_bound x m in
    ground (
      arith,
      l.same x,
      mem-starts_at x c.after l.first_ge,
      mem-inside x l.hi c.before l.below l.last_lt,
    )

-- where neither neighbour spans the interval, one of its points is missing
abbrev Gap : Interval → List Entry → List Entry → Type 0
Gap x b a = (y : ℕ) × (x.start ≤ y) × (y < x.end) × ((mem y b || mem y a) ≡ false)

module _ (x : Interval) (hi : ℕ) (fx : x.start < x.end) where
  Gap-after :
      (b a : List Entry)
      → IsBelow hi b
      → IsRangeFrom hi a
      → starts_at x.start a ≡ true
      → spans_from x a ≡ false
      → Gap x b a
  unfolding starts_at spans_from mem
  Gap-after b [] below above s h = cc
  Gap-after b (e ∷ a) below above s h =
      let y = e.second.end in
      let left = mem_past_below y hi b below (omega arith) in
      let right = mem_before_range y (suc y) a above.3 (omega arith) in
      (y, ground arith, ground arith, ground arith)

  Gap-before :
      (b a : List Entry)
      → IsBelow hi b
      → IsRangeFrom hi a
      → inside x.start b ≡ true
      → spans_inside x b ≡ false
      → Gap x b a
  unfolding inside spans_inside mem
  Gap-before [] a below above s h = cc
  Gap-before (f ∷ b) a below above s h =
      let y = f.second.end in
      let left = mem_past_below y f.second.start b below.3 (omega arith) in
      let right = mem_before_range y hi a above (omega arith) in
      (y, ground arith, ground arith, ground arith)

  gap :
      (b a : List Entry)
      → IsBelow hi b
      → IsRangeFrom hi a
      → IsRangeFrom x.start a
      → All (λ e. e.second.start < x.start) b
      → (spans_from x a || spans_inside x b) ≡ false
      → Gap x b a
  gap b a below above ge lt h = elim (Bool-cases (starts_at x.start a)) [
    | inl s ↦ Gap-after b a below above s (ground arith)
    | inr n ↦ elim (Bool-cases (inside x.start b)) [
      | inl s ↦ Gap-before b a below above s (ground arith)
      | inr o ↦ (
        x.start,
        omega arith,
        fx,
        rw (mem-starts_at x.start a ge, mem-inside x.start hi b below lt, n, o),
      )
    ]
  ]

spans_from-mem :
    (x : Interval) (y : ℕ) (a : List Entry)
    → x.start ≤ y
    → y < x.end
    → spans_from x a ≡ true
    → mem y a ≡ true
unfolding spans_from mem
spans_from-mem x y [] lo hi h = cc
spans_from-mem x y (e ∷ a) lo hi h = ground arith

spans_inside-mem :
    (x : Interval) (y : ℕ) (b : List Entry)
    → x.start ≤ y
    → y < x.end
    → spans_inside x b ≡ true
    → mem y b ≡ true
unfolding spans_inside mem
spans_inside-mem x y [] lo hi h = cc
spans_inside-mem x y (e ∷ b) lo hi h = ground arith

-- On a valid range `contains` of an interval that is not empty holds exactly when every point of
-- the interval is in the range.
pub contains_interval-mem :
    (m : List Entry) (x : Interval)
    → IsRange m
    → x.start < x.end
    → (contains_interval m x ≡ true) ↔ ((y : ℕ) → x.start ≤ y → y < x.end → mem y m ≡ true)
unfolding contains_interval
contains_interval-mem m x valid fx =
    let l = lower_bound-Located x.start m valid in
    let c = lower_bound x.start m in
    (
      λ h y lo hi.
          ground (arith, l.same y, spans_from-mem x y c.after, spans_inside-mem x y c.before),
      λ all. elim (Bool-cases (spans_from x c.after || spans_inside x c.before)) [
        | inl h ↦ h
        | inr h ↦
            let (y, lo, hi, missing) =
              gap x l.hi fx c.before c.after l.below l.above l.first_ge l.last_lt h in
            absurd (ground (arith, all y lo hi, l.same y))
      ],
    )
