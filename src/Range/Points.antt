-- ===== src/Range/Points.antt =====
-- The set of points that the entries of a map stand for, their order, and where `lower_bound` stops.
use mathlib.Core.List.{append-nil}
use libspl.Common.{
  ℕ, suc, ◌≤◌, ◌<◌, ◌≡◌, refl, sym, ◌∙◌, Bool-cases, inl, inr, Bool, false, ◌&&◌, ◌||◌, List, [],
  ◌∷◌, ◌++◌, All, arith, ltb, leb,
}
use libspl.Range.Map.{
  Interval, Entry, Cursor, cursor, rewind, lower_bound_from, lower_bound, insert_entry, emplace,
}

abbrev pub in_interval : ℕ → Interval → Bool
in_interval x i = leb i.start x && ltb x i.end

-- whether the point lies in one of the intervals
unfoldable pub mem : ℕ → List Entry → Bool
mem x [] = false
mem x (e ∷ m) = in_interval x e.second || mem x m

-- The intervals are not empty, each key is its interval's start, and from one interval to the next
-- there is a gap; the first starts at `lo` or later.
abbrev pub IsRangeFrom : ℕ → List Entry → Type 0
IsRangeFrom lo [] = Unit
IsRangeFrom lo (e ∷ m) =
    (e.first ≡ e.second.start)
    × (lo ≤ e.second.start)
    × (e.second.start < e.second.end)
    × IsRangeFrom (suc e.second.end) m

abbrev pub IsRange : List Entry → Type 0
IsRange = IsRangeFrom 0

-- the same of the entries before an iterator, nearest first, which end before `hi`
abbrev pub IsBelow : ℕ → List Entry → Type 0
IsBelow hi [] = Unit
IsBelow hi (e ∷ b) =
    (e.first ≡ e.second.start)
    × (e.second.end < hi)
    × (e.second.start < e.second.end)
    × IsBelow e.second.start b

pub mem-rewind : (x : ℕ) (b a : List Entry) → mem x (rewind b a) ≡ (mem x b || mem x a)
unfolding mem rewind
mem-rewind x [] a = refl
mem-rewind x (e ∷ b) a = mem-rewind x b (e ∷ a) ∙ ground arith

pub IsRangeFrom-weaken :
    {lo lo' : ℕ} (m : List Entry) → lo' ≤ lo → IsRangeFrom lo m → IsRangeFrom lo' m
IsRangeFrom-weaken [] h r = tt
IsRangeFrom-weaken (e ∷ m) h r = (r.0, omega arith, r.2, r.3)

pub IsBelow-weaken : {hi hi' : ℕ} (b : List Entry) → hi ≤ hi' → IsBelow hi b → IsBelow hi' b
IsBelow-weaken [] h r = tt
IsBelow-weaken (e ∷ b) h r = (r.0, omega arith, r.2, r.3)

pub rewind-IsRange :
    (hi : ℕ) (b a : List Entry) → IsBelow hi b → IsRangeFrom hi a → IsRange (rewind b a)
unfolding rewind
rewind-IsRange hi [] a below r = IsRangeFrom-weaken a (omega arith) r
rewind-IsRange hi (e ∷ b) a below r =
    rewind-IsRange e.second.start b (e ∷ a) below.3
      (below.0, omega arith, below.2, IsRangeFrom-weaken a (omega arith) r)

-- Where an iterator stands that was found by the key `k`: every key before it is less than `k`.
pub record Located (k : ℕ) (m : List Entry) (c : Cursor) : Type 0 where
  pub hi : ℕ
  pub below : IsBelow hi c.before
  pub above : IsRangeFrom hi c.after
  pub first_ge : IsRangeFrom k c.after
  pub last_lt : All (λ e. e.second.start < k) c.before
  pub same : (x : ℕ) → (mem x c.before || mem x c.after) ≡ mem x m

module _ (k : ℕ) where
  Located-from :
      (hi : ℕ) (b a : List Entry)
      → IsBelow hi b
      → IsRangeFrom hi a
      → All (λ e. e.second.start < k) b
      → Located k (rewind b a) (lower_bound_from k b a)
  unfolding lower_bound_from rewind
  Located-from hi b [] below r lt = record {
    hi = hi;
    below = below;
    above = r;
    first_ge = tt;
    last_lt = lt;
    same = λ x. sym (mem-rewind x b []);
  }
  Located-from hi b (e ∷ a) below r lt = elim (Bool-cases (ltb e.first k)) [
    | inl h ↦ rw h (
        Located-from (suc e.second.end) (e ∷ b) a
          (r.0, omega arith, r.2, IsBelow-weaken b r.1 below) r.3 (ground arith, lt))
    | inr h ↦ rw h (record {
      hi = hi;
      below = below;
      above = r;
      first_ge = (r.0, ground arith, r.2, r.3);
      last_lt = lt;
      same = λ x. sym (mem-rewind x b (e ∷ a));
    })
  ]

  pub lower_bound-Located : (m : List Entry) → IsRange m → Located k m (lower_bound k m)
  unfolding lower_bound rewind
  lower_bound-Located m r = Located-from 0 [] m tt r tt

-- An entry goes to the place that its key leaves open.
lower_bound_from-rewind :
    (k : ℕ) (b acc a : List Entry)
    → All (λ e. e.first < k) b
    → lower_bound_from k acc (rewind b a) ≡ lower_bound_from k (b ++ acc) a
unfolding lower_bound_from rewind
lower_bound_from-rewind k [] acc a h = refl
lower_bound_from-rewind k (e ∷ b) acc a h =
    lower_bound_from-rewind k b acc (e ∷ a) h.1 ∙ ground arith

keys_lt : (k hi : ℕ) (b : List Entry) → IsBelow hi b → hi ≤ k → All (λ e. e.first < k) b
keys_lt k hi [] below h = tt
keys_lt k hi (e ∷ b) below h = (omega arith, keys_lt k e.second.start b below.3 (omega arith))

pub insert_entry-rewind :
    (n : Entry) (b a : List Entry)
    → IsBelow n.first b
    → IsRangeFrom (suc n.first) a
    → insert_entry n (rewind b a) ≡ cursor b (n ∷ a)
unfolding insert_entry lower_bound emplace lower_bound_from
insert_entry-rewind n b [] below r = rw (
  lower_bound_from-rewind n.first b [] [] (keys_lt n.first n.first b below (omega arith)),
  append-nil b,
)
insert_entry-rewind n b (e ∷ a) below r =
    rw
      (
        lower_bound_from-rewind n.first b [] (e ∷ a)
            (keys_lt n.first n.first b below (omega arith)),
        append-nil b,
      )
      (ground arith)
