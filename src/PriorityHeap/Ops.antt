-- ===== src/PriorityHeap/Ops.antt =====
-- `Heap` of include/heap.h: its array, which grows and shrinks, and the calls of std::push_heap,
-- std::pop_heap and std::make_heap on it, which are arguments. Sizes do not overflow.
use libspl.Common.{
  ℕ, zero, suc, ◌+◌, ◌-◌, ◌*◌, ◌/◌, Bool, ◌&&◌, not, Option, none, some, List, [], ◌∷◌, ◌++◌, Run,
  ok, fault, ltb, leb, ◌==◌, if◌then◌else◌, ◌>>=◌, get_elem?, or_fault, take,
}

-- `cells` holds the `size` elements that are constructed in `_data`
pub record Heap (T : Type 0) : Type 0 where
  pub max_size : ℕ
  pub size : ℕ
  pub cells : List T

abbrev pub initial_size : ℕ
initial_size = 64

abbrev pub linear_increment_threshold : ℕ
linear_increment_threshold = 67108864

abbrev pub grown : ℕ → ℕ
grown n = if leb linear_increment_threshold n then n + linear_increment_threshold else n * 2

-- the loop of `_allocate`, on fuel
unfoldable pub allocate_loop : ℕ → ℕ → ℕ → Option ℕ
allocate_loop zero max n = none
allocate_loop (suc f) max n =
    let rest = allocate_loop f (grown max) n in if ltb max n then rest else some max

module _ {T : Type 0} where
  unfoldable pub expand : Heap T → Heap T
  expand h = if h.size == h.max_size then record h { max_size = grown h.max_size } else h

  unfoldable pub shrink : Heap T → Heap T
  shrink h =
      if leb h.size (h.max_size / 2) && ltb initial_size h.max_size
      then record h { max_size = h.max_size / 2 }
      else h

  -- `_allocate(size)`; the fuel is one more than the size
  unfoldable pub allocate : ℕ → Run (Heap T)
  allocate n = or_fault (allocate_loop (suc n) initial_size n) >>= λ max.
      ok (record { max_size = max; size = 0; cells = [] })

  -- `_invalidate`, after a move
  abbrev pub invalidated : Heap T
  invalidated = record { max_size = 0; size = 0; cells = [] }

  -- `new (_data + _size) T(elem); ++_size;`, undefined behind the array
  unfoldable pub construct : Heap T → T → Run (Heap T)
  construct h x =
      if ltb h.size h.max_size
      then ok (record h { size = h.size + 1; cells = h.cells ++ x ∷ [] })
      else fault

  abbrev pub empty : Heap T → Bool
  empty h = h.size == 0

  unfoldable pub non_empty : Heap T → Bool
  non_empty h = not (h.size == 0)

  -- `*_data`
  unfoldable pub top : Heap T → Run T
  top h = or_fault (get_elem? h.cells 0)

  module _ (push_heap : List T → List T) where
    unfoldable pub push : Heap T → T → Run (Heap T)
    push h x = construct (expand h) x >>= λ h'. ok (record h' { cells = push_heap h'.cells })

  module _ (pop_heap : List T → List T) where
    -- `pop`: the heap, and the element that pop_heap left last
    unfoldable pub pop : Heap T → Run (Heap T × T)
    pop h =
        let cells = pop_heap h.cells in
        let last = h.size - 1 in
        or_fault (get_elem? cells last) >>= λ x.
        ok (shrink (record h { size = last; cells = take last cells }), x)

  module _ (make_heap : List T → List T) where
    -- the loop of `_copy(begin, end)`
    unfoldable pub construct_all : Heap T → List T → Run (Heap T)
    construct_all h [] = ok h
    construct_all h (x ∷ xs) = construct (expand h) x >>= λ h'. construct_all h' xs

    -- `_copy(begin, end)`
    unfoldable pub copy_range : Heap T → List T → Run (Heap T)
    copy_range h xs = construct_all h xs >>= λ h'. ok (record h' { cells = make_heap h'.cells })

    -- `Heap(seq)`
    unfoldable pub from_sequence : List T → ℕ → Run (Heap T)
    from_sequence xs n = allocate n >>= λ h. copy_range h xs
