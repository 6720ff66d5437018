-- ===== src/Range/Ops.antt =====
-- `Range::insert`, both `contains`, `operator|` and `operator-`.
use libspl.Common.{
  ℕ, zero, suc, ◌+◌, ◌*◌, Bool, false, not, ◌&&◌, ◌||◌, Option, none, some, List, [], ◌∷◌, Run, ok,
  ltb, ◌==◌, if◌then◌else◌, ◌>>=◌, length,
}
use libspl.Range.Map.{
  Interval, Entry, Cursor, cursor, whole, rewind, is_empty, BeginStep, prev, lower_bound,
  insert_entry,
}

abbrev pub interval : ℕ → ℕ → Interval
interval s e = record { start = s; end = e }

abbrev pub entry : Interval → Entry
entry i = record { first = i.start; second = i }

-- `a < b || a == b`
abbrev pub at_most : ℕ → ℕ → Bool
at_most a b = ltb a b || (a == b)

-- `i.end`, raised to `e.end` where that is larger
abbrev pub raised : ℕ → ℕ → ℕ
raised a b = if ltb a b then b else a

-- the first loop of `insert`, with `it` at `e`: it absorbs `e` and goes on to the entry before it
unfoldable pub absorb_left : Interval → List Entry → Entry → List Entry → Interval × Cursor
absorb_left i [] e a =
    if at_most i.start e.second.end
    then (interval e.second.start (raised i.end e.second.end), cursor [] a)
    else (i, cursor [] (e ∷ a))
absorb_left i (f ∷ b) e a =
    let rest = absorb_left (interval e.second.start (raised i.end e.second.end)) b f a in
    if at_most i.start e.second.end then rest else (i, cursor (f ∷ b) (e ∷ a))

-- the test in front of that loop
unfoldable pub absorb : Interval → List Entry → List Entry → Interval × Cursor
unfolding absorb_left
absorb i b [] = (i, cursor b [])
absorb i b (e ∷ a) =
    if at_most e.second.start i.start then absorb_left i b e a else (i, cursor b (e ∷ a))

-- the second loop, with `it` at `e` and `next` at the head of the list
unfoldable pub absorb_right : Entry → List Entry → List Entry
absorb_right e [] = e ∷ []
absorb_right e (n ∷ a) =
    let grown = record e { second = interval e.second.start (raised e.second.end n.second.end) } in
    let rest = absorb_right grown a in
    if at_most n.second.start e.second.end then rest else e ∷ n ∷ a

-- `it` was just inserted, so it is at an entry
unfoldable pub merge_right : List Entry → List Entry → List Entry
unfolding absorb_right
merge_right b [] = rewind b []
merge_right b (e ∷ a) = rewind b (absorb_right e a)

-- whether `insert` steps back from `lower_bound(i.start)`
unfoldable pub steps_back : Interval → List Entry → List Entry → Bool
steps_back i b [] = not (is_empty b)
steps_back i b (e ∷ a) = ltb i.start e.second.start

unfoldable pub insert : BeginStep → List Entry → Interval → Run (List Entry)
unfolding steps_back absorb merge_right insert_entry
insert choice m i =
    let c = lower_bound i.start m in
    (if steps_back i c.before c.after then prev choice c else ok c) >>= λ it.
    let (j, rest) = absorb i it.before it.after in
    let placed = insert_entry (entry j) (whole rest) in ok (merge_right placed.before placed.after)

-- `it != end() && it->second.start == x`
unfoldable pub starts_at : ℕ → List Entry → Bool
starts_at x [] = false
starts_at x (e ∷ a) = e.second.start == x

-- `it != begin()`, and after `--it` the point is inside of the interval
unfoldable pub inside : ℕ → List Entry → Bool
inside x [] = false
inside x (e ∷ b) = ltb e.second.start x && ltb x e.second.end

unfoldable pub contains : List Entry → ℕ → Bool
unfolding starts_at inside
contains m x = let c = lower_bound x m in starts_at x c.after || inside x c.before

unfoldable pub spans_from : Interval → List Entry → Bool
spans_from x [] = false
spans_from x (e ∷ a) = (e.second.start == x.start) && at_most x.end e.second.end

unfoldable pub spans_inside : Interval → List Entry → Bool
spans_inside x [] = false
spans_inside x (e ∷ b) =
    ltb e.second.start x.start && ltb x.start e.second.end && at_most x.end e.second.end

unfoldable pub contains_interval : List Entry → Interval → Bool
unfolding spans_from spans_inside
contains_interval m x =
    let c = lower_bound x.start m in spans_from x c.after || spans_inside x c.before

-- `operator|`: every interval of the other range is inserted
unfoldable pub union : BeginStep → List Entry → List Entry → Run (List Entry)
union choice r [] = ok r
union choice r (e ∷ other) = insert choice r e.second >>= λ r'. union choice r' other

-- the state of the loop of `operator-`: the iterator into the result, and the rest of the other range
pub record Difference : Type 0 where
  pub it : Cursor
  pub it2 : List Entry

abbrev pub diff : List Entry → List Entry → List Entry → Difference
diff b a other = record { it = cursor b a; it2 = other }

-- one round of the loop of `operator-`, with `*it` and `*it2` at `e` and `o`; none is `break`
unfoldable pub subtract_step :
    List Entry → Entry → List Entry → Entry → List Entry → Option Difference
subtract_step b e a o other =
    let s = e.second.start in
    let t = e.second.end in
    let u = o.second.start in
    let v = o.second.end in
    let cut = record e { second = interval s u } in
    let tail = entry (interval v t) in
    if at_most t u
    then some (diff (e ∷ b) a (o ∷ other))
    else if at_most v s
    then some (diff b (e ∷ a) other)
    else if ltb u s && ltb v t
    then some (record { it = insert_entry tail (rewind b a); it2 = o ∷ other })
    else if ltb s u && ltb t v
    then some (diff b (cut ∷ a) (o ∷ other))
    else if ltb s u && ltb v t
    then some (record { it = insert_entry tail (rewind b (cut ∷ a)); it2 = o ∷ other })
    else if (u == s) && ltb v t
    then some (record { it = insert_entry tail (rewind b a); it2 = o ∷ other })
    else if ltb s u && (v == t)
    then some (diff b (cut ∷ a) (o ∷ other))
    else if at_most u s && at_most t v
    then some (diff b a (o ∷ other))
    else none

-- the loop, on fuel; none is fuel running out
unfoldable pub subtract_loop : ℕ → List Entry → List Entry → List Entry → Option (List Entry)
subtract_loop zero b a other = none
subtract_loop (suc k) b [] other = some (rewind b [])
subtract_loop (suc k) b (e ∷ a) [] = some (rewind b (e ∷ a))
subtract_loop (suc k) b (e ∷ a) (o ∷ other) = elim (subtract_step b e a o other) [
  | none ↦ some (rewind b (e ∷ a))
  | some d ↦ subtract_loop k d.it.before d.it.after d.it2
]

unfoldable pub subtract : List Entry → List Entry → Option (List Entry)
unfolding subtract_step subtract_loop
subtract r other = subtract_loop (2 * length r + 2 * length other + 1) [] r other
