-- ===== src/Range/Rounds.antt =====
-- One round of the loop of `operator-`: its state stays in order, stands for the same points, and
-- comes nearer to its end.
use libspl.Common.{
  ℕ, suc, ◌+◌, ◌-◌, ◌*◌, ◌<◌, ◌≡◌, refl, Bool, true, false, not, ◌&&◌, ◌||◌, some, List, [], ◌∷◌,
  arith, ltb, Bool-cases, inl, inr, length, if◌then◌else◌, lt_or_le,
}
use libspl.Range.Map.{Entry, cursor, rewind, insert_entry}
use libspl.Range.Ops.{interval, entry, at_most, Difference, diff, subtract_step}
use libspl.Range.Points.{
  mem, IsRangeFrom, IsBelow, IsRangeFrom-weaken, IsBelow-weaken, insert_entry-rewind,
}
use libspl.Range.Contains.{mem_before_range}

-- what the state of the loop will come to
abbrev pub value : ℕ → List Entry → List Entry → List Entry → Bool
value x b a other = mem x b || (mem x a && not (mem x other))

-- Both ranges are in order, and the entries that were passed end before the rest of the other range.
pub record Ready (b a other : List Entry) : Type 0 where
  pub hi : ℕ
  pub lo : ℕ
  pub below : IsBelow hi b
  pub above : IsRangeFrom hi a
  pub clear : IsBelow (suc lo) b
  pub rest : IsRangeFrom lo other

-- one less where the next round is known to pass an entry
unfoldable pub pending : List Entry → List Entry → ℕ
pending [] other = 0
pending (e ∷ a) [] = 0
pending (e ∷ a) (o ∷ other) =
    if at_most e.second.end o.second.start || at_most o.second.end e.second.start then 1 else 0

abbrev pub measure : List Entry → List Entry → ℕ
measure a other = 2 * length a + 2 * length other - pending a other

-- A round that ends in the state `b'`, `a'`, `other'`.
pub record Round (b a other b' a' other' : List Entry) : Type 0 where
  pub ready : Ready b' a' other'
  pub same : (x : ℕ) → value x b' a' other' ≡ value x b a other
  pub less : measure a' other' < measure a other

module _ (b : List Entry) (e : Entry) (a : List Entry) (o : Entry) (other : List Entry)
    (r : Ready b (e ∷ a) (o ∷ other)) where
  before_other : (x : ℕ) → x < o.second.start → mem x (o ∷ other) ≡ false
  before_other x h =
      let k = r.rest in mem_before_range x o.second.start (o ∷ other) (k.0, omega arith, k.2, k.3) h

  before_range : (x : ℕ) → x < e.second.start → mem x (e ∷ a) ≡ false
  before_range x h =
      let k = r.above in mem_before_range x e.second.start (e ∷ a) (k.0, omega arith, k.2, k.3) h

  pass_left :
      at_most e.second.end o.second.start ≡ true → Round b (e ∷ a) (o ∷ other) (e ∷ b) a (o ∷ other)
  unfolding mem pending
  pass_left h =
      let k = r.above in
      record {
        ready = record {
          hi = suc e.second.end;
          lo = o.second.start;
          below = (k.0, omega arith, k.2, IsBelow-weaken b k.1 r.below);
          above = k.3;
          clear = (k.0, ground arith, k.2, IsBelow-weaken b k.1 r.below);
          rest = (r.rest.0, omega arith, r.rest.2, r.rest.3);
        };
        same = λ x. elim (lt_or_le x o.second.start) [
          | inl lt ↦ let m = before_other x lt in ground arith
          | inr ge ↦ ground arith
        ];
        less = ground arith;
      }

  pass_right :
      at_most e.second.end o.second.start ≡ false
      → at_most o.second.end e.second.start ≡ true
      → Round b (e ∷ a) (o ∷ other) b (e ∷ a) other
  unfolding mem pending
  pass_right n h =
      let k = r.rest in
      record {
        ready = record {
          hi = r.hi;
          lo = suc o.second.end;
          below = r.below;
          above = r.above;
          clear = IsBelow-weaken b (omega arith) r.clear;
          rest = k.3;
        };
        same = λ x. elim (lt_or_le x e.second.start) [
          | inl lt ↦ let m = before_range x lt in ground arith
          | inr ge ↦ ground arith
        ];
        less = ground arith;
      }

  module _ (n : at_most e.second.end o.second.start ≡ false)
      (n' : at_most o.second.end e.second.start ≡ false) where
    -- only what is past the other interval is left of `e`
    keep_tail :
        at_most o.second.start e.second.start ≡ true
        → ltb o.second.end e.second.end ≡ true
        → Round b (e ∷ a) (o ∷ other) b (entry (interval o.second.end e.second.end) ∷ a) (o ∷ other)
    unfolding mem pending
    keep_tail p q =
        let k = r.above in
        let j = r.rest in
        record {
          ready = record {
            hi = o.second.end;
            lo = r.lo;
            below = IsBelow-weaken b (omega arith) r.clear;
            above = (refl, omega arith, ground arith, k.3);
            clear = r.clear;
            rest = r.rest;
          };
          same = λ x. ground arith;
          less = ground arith;
        }

    -- only what is in front of the other interval is left of `e`
    keep_head :
        ltb e.second.start o.second.start ≡ true
        → at_most e.second.end o.second.end ≡ true
        → Round b
            (e ∷ a)
            (o ∷ other)
            b
            (record e { second = interval e.second.start o.second.start } ∷ a)
            (o ∷ other)
    unfolding mem pending
    keep_head p q =
        let k = r.above in
        record {
          ready = record {
            hi = r.hi;
            lo = r.lo;
            below = r.below;
            above = (k.0, k.1, ground arith, IsRangeFrom-weaken a (ground arith) k.3);
            clear = r.clear;
            rest = r.rest;
          };
          same = λ x. ground arith;
          less = ground arith;
        }

    -- the other interval cuts a hole into `e`
    split :
        ltb e.second.start o.second.start ≡ true
        → ltb o.second.end e.second.end ≡ true
        → Round b
            (e ∷ a)
            (o ∷ other)
            (record e { second = interval e.second.start o.second.start } ∷ b)
            (entry (interval o.second.end e.second.end) ∷ a)
            (o ∷ other)
    unfolding mem pending
    split p q =
        let k = r.above in
        let j = r.rest in
        record {
          ready = record {
            hi = o.second.end;
            lo = o.second.start;
            below = (k.0, omega arith, ground arith, IsBelow-weaken b k.1 r.below);
            above = (refl, omega arith, ground arith, k.3);
            clear = (k.0, omega arith, ground arith, IsBelow-weaken b k.1 r.below);
            rest = (j.0, omega arith, j.2, j.3);
          };
          same = λ x. elim (lt_or_le x o.second.start) [
            | inl lt ↦ let m = before_other x lt in ground arith
            | inr ge ↦ ground arith
          ];
          less = ground arith;
        }

    -- the other interval covers `e`
    drop :
        at_most o.second.start e.second.start ≡ true
        → at_most e.second.end o.second.end ≡ true
        → Round b (e ∷ a) (o ∷ other) b a (o ∷ other)
    unfolding mem pending
    drop p q =
        let k = r.above in
        record {
          ready = record {
            hi = r.hi;
            lo = r.lo;
            below = r.below;
            above = IsRangeFrom-weaken a (omega arith) k.3;
            clear = r.clear;
            rest = r.rest;
          };
          same = λ x. ground arith;
          less = ground arith;
        }

  -- `insert` puts the tail where the cut left its key open
  insert-tail :
      (b' : List Entry) (v : ℕ)
      → IsBelow v b'
      → v < e.second.end
      → insert_entry (entry (interval v e.second.end)) (rewind b' a)
        ≡ cursor b' (entry (interval v e.second.end) ∷ a)
  insert-tail b' v below h =
      insert_entry-rewind (entry (interval v e.second.end)) b' a below
        (IsRangeFrom-weaken a (omega arith) r.above.3)

  abbrev pub tail : Entry
  tail = entry (interval o.second.end e.second.end)

  abbrev pub cut : Entry
  cut = record e { second = interval e.second.start o.second.start }

  abbrev pub Steps : Type 0
  Steps =
      (d : Difference) × (subtract_step b e a o other ≡ some d)
      × Round b (e ∷ a) (o ∷ other) d.it.before d.it.after d.it2

  overlap :
      at_most e.second.end o.second.start ≡ false
      → at_most o.second.end e.second.start ≡ false
      → Steps
  unfolding subtract_step rewind
  overlap n n' = elim (Bool-cases (ltb o.second.end e.second.end)) [
    | inl q ↦ elim (Bool-cases (at_most o.second.start e.second.start)) [
      | inl p ↦
          let k = r.rest in
          (
            diff b (tail ∷ a) (o ∷ other),
            ground (
              arith,
              insert-tail b o.second.end (IsBelow-weaken b (omega arith) r.clear) (ground arith),
            ),
            keep_tail n n' p q,
          )
      | inr p ↦
          let k = r.above in
          (
            diff (cut ∷ b) (tail ∷ a) (o ∷ other),
            ground (
              arith,
              insert-tail (cut ∷ b) o.second.end
                  (k.0, ground arith, ground arith, IsBelow-weaken b k.1 r.below) (ground arith),
            ),
            split n n' (ground arith) q,
          )
    ]
    | inr q ↦ elim (Bool-cases (at_most o.second.start e.second.start)) [
      | inl p ↦ (diff b a (o ∷ other), ground arith, drop n n' p (ground arith))
      | inr p ↦
          (diff b (cut ∷ a) (o ∷ other), ground arith, keep_head n n' (ground arith) (ground arith))
    ]
  ]

  -- one round passes, cuts or drops an entry, and `break` is never reached
  pub subtract_step-Round : Steps
  unfolding subtract_step rewind
  subtract_step-Round = elim (Bool-cases (at_most e.second.end o.second.start)) [
    | inl h1 ↦ (_, rw h1, pass_left h1)
    | inr h1 ↦ elim (Bool-cases (at_most o.second.end e.second.start)) [
      | inl h2 ↦ (_, rw (h1, h2), pass_right h1 h2)
      | inr h2 ↦ overlap h1 h2
    ]
  ]
