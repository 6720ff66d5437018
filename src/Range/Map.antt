-- ===== src/Range/Map.antt =====
-- `std::map<T, Interval<T>>` as its entries in key order, with an iterator as the entries before it,
-- nearest first, and the entries from it on. T is an unsigned integer type; it is only compared.
use libspl.Common.{ℕ, Bool, true, false, List, [], ◌∷◌, Run, ok, fault, ltb, ◌==◌, if◌then◌else◌}

pub record Interval : Type 0 where
  pub start : ℕ
  pub end : ℕ

-- `std::pair<const T, Interval<T>>`
pub record Entry : Type 0 where
  pub first : ℕ
  pub second : Interval

pub record Cursor : Type 0 where
  pub before : List Entry
  pub after : List Entry

abbrev pub cursor : List Entry → List Entry → Cursor
cursor b a = record { before = b; after = a }

-- the entries on both sides of an iterator, in key order
unfoldable pub rewind : List Entry → List Entry → List Entry
rewind [] a = a
rewind (e ∷ b) a = rewind b (e ∷ a)

abbrev pub whole : Cursor → List Entry
whole c = rewind c.before c.after

abbrev pub is_empty : List Entry → Bool
is_empty [] = true
is_empty (e ∷ l) = false

-- What `--it` does at `begin()`: the standard leaves it undefined; the red-black tree of libstdc++
-- goes to the root where the root is the first entry, and to `end()` otherwise.
pub data BeginStep : Type 0 where
  undefined stays wraps : BeginStep

-- `--it`
unfoldable pub prev_from : BeginStep → List Entry → List Entry → Run Cursor
prev_from choice (e ∷ b) a = ok (cursor b (e ∷ a))
prev_from undefined [] a = fault
prev_from stays [] a = ok (cursor [] a)
prev_from wraps [] a = ok (cursor (rewind a []) [])

abbrev pub prev : BeginStep → Cursor → Run Cursor
prev choice c = prev_from choice c.before c.after

-- `lower_bound(k)`: the first entry whose key is not less than k
unfoldable pub lower_bound_from : ℕ → List Entry → List Entry → Cursor
lower_bound_from k b [] = cursor b []
lower_bound_from k b (e ∷ a) =
    let rest = lower_bound_from k (e ∷ b) a in if ltb e.first k then rest else cursor b (e ∷ a)

unfoldable pub lower_bound : ℕ → List Entry → Cursor
unfolding lower_bound_from
lower_bound k m = lower_bound_from k [] m

-- `insert(e).first`, with the place of its key known: an entry that has the key already is kept
unfoldable pub emplace : Entry → List Entry → List Entry → Cursor
emplace e b [] = cursor b (e ∷ [])
emplace e b (f ∷ a) = if f.first == e.first then cursor b (f ∷ a) else cursor b (e ∷ f ∷ a)

unfoldable pub insert_entry : Entry → List Entry → Cursor
insert_entry e m = let c = lower_bound e.first m in emplace e c.before c.after
