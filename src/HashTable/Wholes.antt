-- ===== src/HashTable/Wholes.antt =====
-- Whole tables of include/core/hash_table.h: their construction, `clear`, the copy, the search for the
-- next node of a key, and the iterators' steps.
use libspl.Common.{
  ℕ, zero, suc, ◌+◌, Bool, ◌&&◌, not, Option, none, some, List, [], ◌∷◌, Run, ok, fault, ltb, ◌==◌,
  if◌then◌else◌, ◌>>=◌, or_fault,
}
use libspl.HashTable.Controller.{HashRange, non_empty, next, Controller, init, hash_range}
use libspl.HashTable.Table.{
  Slots, Table, new_slots, put_slot, is_occupied, occupy, matches, free_at, full, free_loop, resize,
  rehash,
}

abbrev pub initial_table_size : ℕ
initial_table_size = 128

abbrev pub minimum_table_size : ℕ
minimum_table_size = 8

module _ {N : Type 0} where
  abbrev pub allocated : Controller → Table N
  allocated c = record { controller = c; slots = new_slots; size = 0 }

  -- `HashTable(initialSize)`
  unfoldable pub new_table : ℕ → Table N
  new_table n = allocated (init (if ltb n minimum_table_size then minimum_table_size else n))

  -- `clear`: the nodes that `_freeNodes` destroys are not seen again
  unfoldable pub clear : Table N → Table N
  clear t = allocated (init initial_table_size)

  -- `_copy(rhs)`, whose loop is that of `_rehash`
  unfoldable pub copy : Table N → Run (Table N)
  copy t = rehash t.controller.table_size t.controller t.slots >>= λ s. ok (record t { slots = s })

  -- `_getFreeIndex(h)`, whose `goto begin` is on fuel
  unfoldable pub get_free_index : ℕ → Table N → ℕ → Run (Table N × ℕ)
  get_free_index zero t h = fault
  get_free_index (suc f) t h =
      free_loop t.controller.table_size t.slots (hash_range t.controller h) h 1 >>= λ free.
      elim free [
        | free_at i ↦ ok (record t { slots = put_slot t.slots i (occupy (t.slots i)) }, i)
        | full c ↦ resize t c >>= λ t'. get_free_index f t' h
      ]

  -- `while (_i < _size && ! _table[_i].occupied()) ++_i`, on fuel
  unfoldable pub skip_free : ℕ → Table N → ℕ → ℕ
  skip_free zero t i = i
  skip_free (suc f) t i =
      let rest = skip_free f t (i + 1) in
      if ltb i t.controller.table_size && not (is_occupied (t.slots i)) then rest else i

  -- the index of `HashTableIterator(index, ht)`
  unfoldable pub iterator_at : Table N → ℕ → ℕ
  iterator_at t i = let n = t.controller.table_size in if t.size == 0 then n else skip_free n t i

  -- `operator++`
  unfoldable pub iterator_next : Table N → ℕ → ℕ
  iterator_next t i = skip_free t.controller.table_size t (i + 1)

  -- `for (it = begin(); it != end(); ++it)`, on fuel: the nodes that it reads
  unfoldable pub traverse : ℕ → Table N → ℕ → Run (List N)
  traverse zero t i = fault
  traverse (suc f) t i =
      let rest = traverse f t (iterator_next t i) in
      if i == t.controller.table_size
      then ok []
      else (or_fault (t.slots i).storage >>= λ n. rest >>= λ ns. ok (n ∷ ns))

  module _ {K : Type 0} (eq : N → K → Bool) where
    -- `_findNext(range, h, k)`, on fuel: the range, and none for `__NPOS`
    unfoldable pub find_next : ℕ → Slots N → HashRange → ℕ → K → Run (HashRange × Option ℕ)
    find_next zero t r h k = fault
    find_next (suc f) t r h k =
        let rest = find_next f t (next r) h k in
        matches eq (t r.pos) h k >>= λ found.
        if found
        then ok (next r, some r.pos)
        else if non_empty (next r)
        then rest
        else ok (next r, none)

    -- the loop of `foreach(k, f)`, on fuel: the nodes that `f` is called with
    unfoldable pub foreach_loop : ℕ → Table N → HashRange → ℕ → K → Run (List N)
    foreach_loop zero t r h k = fault
    foreach_loop (suc f) t r h k = find_next t.controller.table_size t.slots r h k >>= λ found.
        elim found.1 [
          | none ↦ ok []
          | some i ↦ or_fault (t.slots i).storage >>= λ n.
              foreach_loop f t found.0 h k >>= λ ns. ok (n ∷ ns)
        ]
