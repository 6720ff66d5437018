-- ===== src/Range/Absorb.antt =====
-- The first half of `insert`: where the iterator goes, and what the first loop absorbs.
use mathlib.Core.List.{append-nil}
use libspl.Common.{
  ℕ, suc, ◌≤◌, ◌<◌, ◌≡◌, refl, ◌∙◌, Bool, true, false, ◌||◌, List, [], ◌∷◌, ◌++◌, ◌≢◌, All, ok,
  arith, ltb, Bool-cases, inl, inr, lt→ltb, if◌then◌else◌,
}
use libspl.Range.Map.{
  Interval, Entry, Cursor, cursor, rewind, BeginStep, undefined, stays, wraps, prev, prev_from,
}
use libspl.Range.Ops.{interval, at_most, raised, absorb_left, absorb, steps_back}
use libspl.Range.Points.{in_interval, mem, IsRangeFrom, IsBelow, IsRangeFrom-weaken, IsBelow-weaken}

-- After the first loop: the grown interval fits between the entries on its left and on its right,
-- and with them it stands for the points `total`.
pub record Absorbed (total : ℕ → Bool) (r : Interval × Cursor) : Type 0 where
  pub left : List Entry
  pub right : List Entry
  pub rest : rewind r.1.before r.1.after ≡ rewind left right
  pub below : IsBelow r.0.start left
  pub above : IsRangeFrom (suc r.0.start) right
  pub filled : r.0.start < r.0.end
  pub points : (x : ℕ) → (in_interval x r.0 || mem x left || mem x right) ≡ total x

pub Absorbed-same :
    (f g : ℕ → Bool) {r : Interval × Cursor} → ((x : ℕ) → f x ≡ g x) → Absorbed f r → Absorbed g r
Absorbed-same f g h a = record {
  left = a.left;
  right = a.right;
  rest = a.rest;
  below = a.below;
  above = a.above;
  filled = a.filled;
  points = λ x. a.points x ∙ h x;
}

at_most-le : (a b : ℕ) → a ≤ b → at_most a b ≡ true
at_most-le a b h = ground arith

at_most-gt : (a b : ℕ) → b < a → at_most a b ≡ false
at_most-gt a b h = ground arith

absorb_left-Absorbed :
    (i : Interval) (b : List Entry) (e : Entry) (a : List Entry)
    → IsBelow e.second.start b
    → e.first ≡ e.second.start
    → e.second.start < e.second.end
    → e.second.start ≤ i.start
    → i.start < i.end
    → IsRangeFrom (suc e.second.end) a
    → IsRangeFrom (suc i.start) a
    → Absorbed (λ x. in_interval x i || mem x (e ∷ b) || mem x a) (absorb_left i b e a)
unfolding absorb_left rewind mem
absorb_left-Absorbed i [] e a below key fe le fi ra ri =
    elim (Bool-cases (at_most i.start e.second.end)) [
      | inl h ↦ rw h (record {
        left = [];
        right = a;
        rest = refl;
        below = tt;
        above = IsRangeFrom-weaken a (omega arith) ra;
        filled = ground arith;
        points = λ x. ground arith;
      })
      | inr h ↦ rw h (record {
        left = e ∷ [];
        right = a;
        rest = refl;
        below = (key, ground arith, fe, tt);
        above = ri;
        filled = fi;
        points = λ x. refl;
      })
    ]
absorb_left-Absorbed i (f ∷ b) e a below key fe le fi ra ri =
    elim (Bool-cases (at_most i.start e.second.end)) [
      | inl h ↦ rw h (
          Absorbed-same _ _ (λ x. ground arith)
            (absorb_left-Absorbed (interval e.second.start (raised i.end e.second.end)) b f a
              below.3 below.0 below.2 (omega arith) (ground arith)
              (IsRangeFrom-weaken a (omega arith) ra) (IsRangeFrom-weaken a (omega arith) ra)))
      | inr h ↦ rw h (record {
        left = e ∷ f ∷ b;
        right = a;
        rest = refl;
        below = (key, ground arith, fe, below);
        above = ri;
        filled = fi;
        points = λ x. refl;
      })
    ]

rewind-rewind : (b a c : List Entry) → rewind (rewind b a) c ≡ rewind a (b ++ c)
unfolding rewind
rewind-rewind [] a c = refl
rewind-rewind (e ∷ b) a c = rewind-rewind b (e ∷ a) c

rewind-nil : (a : List Entry) → rewind [] a ≡ a
unfolding rewind
rewind-nil a = refl

rewind-end : (a : List Entry) → rewind [] (a ++ []) ≡ a
unfolding rewind
rewind-end a = append-nil a

mem-nil : (x : ℕ) → mem x [] ≡ false
unfolding mem
mem-nil x = refl

-- the interval comes before every entry
alone :
    (i : Interval) (b a m : List Entry)
    → i.start < i.end
    → IsRangeFrom (suc i.start) m
    → rewind b a ≡ m
    → Absorbed (λ x. in_interval x i || mem x m) (i, cursor b a)
unfolding rewind mem
alone i b a m fi above e = record {
  left = [];
  right = m;
  rest = e;
  below = tt;
  above = above;
  filled = fi;
  points = λ x. ground arith;
}

without_nil :
    (x : ℕ) (i : Interval) (m : List Entry)
    → (in_interval x i || mem x m) ≡ (in_interval x i || mem x [] || mem x m)
unfolding mem
without_nil x i m = ground arith

-- what `insert` has done before it inserts the grown interval
abbrev pub Stepped : BeginStep → Interval → List Entry → List Entry → Type 0
Stepped choice i b a =
    (it : Cursor) × ((if steps_back i b a then prev choice (cursor b a) else ok (cursor b a))
      ≡ ok it)
    × Absorbed (λ x. in_interval x i || mem x b || mem x a) (absorb i it.before it.after)

-- the iterator goes back to `f`, which starts before the interval
back :
    (choice : BeginStep) (i : Interval) (f : Entry) (b a : List Entry) (hi : ℕ)
    → i.start < i.end
    → IsBelow hi (f ∷ b)
    → IsRangeFrom hi a
    → IsRangeFrom (suc i.start) a
    → f.second.start < i.start
    → steps_back i (f ∷ b) a ≡ true
    → Stepped choice i (f ∷ b) a
unfolding prev_from absorb
back choice i f b a hi fi below above ge lt s = (
  cursor b (f ∷ a),
  rw s,
  rw (at_most-le f.second.start i.start (omega arith)) (
      absorb_left-Absorbed i b f a below.3 below.0 below.2 (omega arith) fi
        (IsRangeFrom-weaken a (omega arith) above) ge),
)

-- `lower_bound` found the interval's own start, and the iterator stays
at_start :
    (choice : BeginStep) (i : Interval) (b : List Entry) (e : Entry) (a : List Entry) (hi : ℕ)
    → i.start < i.end
    → IsBelow hi b
    → IsRangeFrom hi (e ∷ a)
    → IsRangeFrom i.start (e ∷ a)
    → ltb i.start e.second.start ≡ false
    → Stepped choice i b (e ∷ a)
unfolding steps_back absorb mem
at_start choice i b e a hi fi below above ge h =
    let le : e.second.start ≤ i.start = ground arith in
    (
      cursor b (e ∷ a),
      rw h,
      rw (at_most-le e.second.start i.start le) (
          Absorbed-same _ _ (λ x. ground arith)
            (absorb_left-Absorbed i b e a (IsBelow-weaken b above.1 below) above.0 above.2 le fi
              above.3 (IsRangeFrom-weaken a (omega arith) above.3))),
    )

-- the interval starts before every entry, and the iterator is at `begin()`
at_begin :
    (choice : BeginStep) (i : Interval) (e : Entry) (a : List Entry)
    → choice ≢ undefined
    → i.start < i.end
    → IsRangeFrom (suc i.start) (e ∷ a)
    → Stepped choice i [] (e ∷ a)
unfolding steps_back prev_from absorb
at_begin undefined i e a n fi ge = absurd (n refl)
at_begin stays i e a n fi ge = (
  cursor [] (e ∷ a),
  rw (lt→ltb i.start e.second.start ge.1),
  rw (at_most-gt e.second.start i.start ge.1) (
      Absorbed-same _ _ (λ x. without_nil x i (e ∷ a))
        (alone i [] (e ∷ a) (e ∷ a) fi ge (rewind-nil (e ∷ a)))),
)
at_begin wraps i e a n fi ge = (
  cursor (rewind (e ∷ a) []) [],
  rw (lt→ltb i.start e.second.start ge.1),
  Absorbed-same _ _ (λ x. without_nil x i (e ∷ a))
      (alone i (rewind (e ∷ a) []) [] (e ∷ a) fi ge
        (rewind-rewind (e ∷ a) [] [] ∙ rewind-end (e ∷ a))),
)

pub stepped :
    (choice : BeginStep) (i : Interval) (b a : List Entry) (hi : ℕ)
    → choice ≢ undefined
    → i.start < i.end
    → IsBelow hi b
    → IsRangeFrom hi a
    → IsRangeFrom i.start a
    → All (λ e. e.second.start < i.start) b
    → Stepped choice i b a
unfolding steps_back prev_from absorb mem rewind
stepped choice i [] [] hi n fi below above ge lt =
    (cursor [] [], refl, Absorbed-same _ _ (λ x. ground arith) (alone i [] [] [] fi tt refl))
stepped choice i (f ∷ b) [] hi n fi below above ge lt =
    back choice i f b [] hi fi below above tt lt.0 refl
stepped choice i [] (e ∷ a) hi n fi below above ge lt =
    elim (Bool-cases (ltb i.start e.second.start)) [
      | inl h ↦ at_begin choice i e a n fi (ge.0, ground arith, ge.2, ge.3)
      | inr h ↦ at_start choice i [] e a hi fi below above ge h
    ]
stepped choice i (f ∷ b) (e ∷ a) hi n fi below above ge lt =
    elim (Bool-cases (ltb i.start e.second.start)) [
      | inl h ↦ back choice i f b (e ∷ a) hi fi below above (ge.0, ground arith, ge.2, ge.3) lt.0 h
      | inr h ↦ at_start choice i (f ∷ b) e a hi fi below above ge h
    ]
