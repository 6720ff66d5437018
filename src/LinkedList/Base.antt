-- ===== src/LinkedList/Base.antt =====
-- The iterators and the operations of `ListBase`.
use libspl.Common.{
  ℕ, zero, suc, ◌+◌, ◌-◌, Bool, List, [], ◌∷◌, ok, throw, out_of_range, ◌==◌, if◌then◌else◌,
}
use libspl.LinkedList.Store.{
  Ptr, null, Store, Command, ◌>>=◌, ◌>>◌, pure, load, Slot, head_slot, next_slot, set_size, mk_node,
  delete,
}
use libspl.LinkedList.Nodes.{
  insert_at, insert_with_tail, insert_after_node, remove_node, remove_front,
}

-- `IteratorBase`: the node, and the one before it
pub record Iterator : Type 0 where
  pub prev : Ptr
  pub current : Ptr

abbrev pub iterator : Ptr → Ptr → Iterator
iterator p c = record { prev = p; current = c }

-- `pos._prev == nullptr ? _head : pos._prev->next`
abbrev pub slot_before : Iterator → Slot
slot_before pos = if pos.prev == null then head_slot else next_slot pos.prev

module _ {A : Type 0} where
  abbrev pub throws : {B : Type 0} → Command A B
  throws s = throw out_of_range

  abbrev pub get_store : Command A (Store A)
  get_store s = ok (s, s)

  abbrev pub bump_size : Command A (Unit {0})
  bump_size s = ok (tt, record s { size = s.size + 1 })

  abbrev pub drop_size : Command A (Unit {0})
  drop_size s = ok (tt, record s { size = s.size - 1 })

  -- `begin()`, `end()`, `empty()`, `size()`
  unfoldable pub begin : Command A Iterator
  begin s = ok (iterator null s.head, s)

  unfoldable pub end : Command A Iterator
  end s = ok (iterator s.tail null, s)

  unfoldable pub empty : Store A → Bool
  empty s = s.head == null

  -- `operator++`, `_skipOne` and `operator*`
  unfoldable pub advance : Iterator → Command A Iterator
  advance it = do n ← load it.current; pure (iterator it.current n.next)

  unfoldable pub skip_one : Iterator → Command A Iterator
  skip_one it = do n ← load it.current; pure (iterator it.prev n.next)

  unfoldable pub deref : Iterator → Command A A
  deref it = do n ← load it.current; pure n.data_of

  unfoldable pub prepend : Ptr → Command A (Unit {0})
  prepend n = do insert_with_tail n head_slot; bump_size

  unfoldable pub append : Ptr → Command A (Unit {0})
  append n = do
    s ← get_store
    (if s.tail == null then insert_with_tail n head_slot else insert_after_node s.tail n)
    bump_size

  unfoldable pub insert_before : Iterator → Ptr → Command A (Unit {0})
  insert_before pos n =
      if pos.current == null then append n else (do insert_with_tail n (slot_before pos); bump_size)

  unfoldable pub insert_after : Iterator → Ptr → Command A (Unit {0})
  insert_after pos n =
      if pos.current == null
      then (do delete n; throws)
      else (do insert_after_node pos.current n; bump_size)

  -- `erase(pos)`: the iterator goes to the next node
  unfoldable pub erase : Iterator → Command A Iterator
  erase pos = if pos.current == null then throws else do
    pos' ← skip_one pos
    drop_size
    p ← remove_node pos.current pos.prev (slot_before pos)
    delete p
    pure pos'

  -- `remove(pos)` returns the data too
  unfoldable pub remove : Iterator → Command A (A × Iterator)
  remove pos = if pos.current == null then throws else do
    pos' ← skip_one pos
    drop_size
    p ← remove_node pos.current pos.prev (slot_before pos)
    n ← load p
    delete p
    pure (n.data_of, pos')

  -- `takeFront()`; `removeFront` of a plain node does not return `nullptr`, so its loop runs once
  unfoldable pub take_front : Command A A
  take_front = do h ← remove_front; n ← load h; delete h; drop_size; pure n.data_of

  -- `while (_size > 0) { --_size; delete _head->remove(nullptr, _head, _tail); }`
  unfoldable pub clear_loop : ℕ → Command A (Unit {0})
  clear_loop zero = pure tt
  clear_loop (suc size) = do
    set_size size
    s ← get_store
    p ← remove_node s.head null head_slot
    delete p
    clear_loop size

  unfoldable pub clear : Command A (Unit {0})
  clear = do s ← get_store; clear_loop s.size

  -- the loop of `_copy(begin, end)`, with `p` the last node so far; the values come with the
  -- addresses that the allocator returns
  unfoldable pub copy_loop : Ptr → ℕ → List (Ptr × A) → Command A (Ptr × ℕ)
  copy_loop p sz [] = pure (p, sz)
  copy_loop p sz ((fresh, a) ∷ rest) = do
    n ← mk_node fresh a
    insert_at n (next_slot p)
    copy_loop n (sz + 1) rest

  unfoldable pub copy : List (Ptr × A) → Command A (Unit {0})
  copy [] s = ok (tt, record s { head = null; tail = null; size = 0 })
  copy ((fresh, a) ∷ rest) s =
      (do
        n ← mk_node fresh a
        (λ s₂. ok (tt, record s₂ { head = n }))
        (last, sz) ← copy_loop n 1 rest
        (λ s₃. ok (tt, record s₃ { tail = last; size = sz })))
        s

  -- `_invalidate()`
  unfoldable pub invalidate : Command A (Unit {0})
  invalidate s = ok (tt, record s { head = null; tail = null; size = 0 })
