-- ===== src/LinkedList/Tests.antt =====
-- Runs of the list operations and instances of their theorems.
use mathlib.Core.Path.{◌≡◌, refl}
use libspl.Common.{ℕ, zero, suc, fault, some, none, List, [], ◌∷◌, Run, ok, throw, arith}
use libspl.LinkedList.Store.{
  null, node, Heap, Store, write, load, read_slot, write_slot, mk_node, delete, Command, ◌>>=◌,
  ◌>>◌, pure,
}
use libspl.LinkedList.Nodes.{
  insert_at, insert_with_tail, insert_after_node, remove_node, remove_front,
}
use libspl.LinkedList.Base.{
  Iterator, iterator, begin, end, empty, advance, skip_one, deref, prepend, append, insert_before,
  insert_after, erase, remove, take_front, clear_loop, clear, copy_loop, copy,
}
use libspl.LinkedList.Segments.{Cells, IsList}
use libspl.LinkedList.Methods.{Becomes}
use libspl.LinkedList.Methods.Inserts.{on_new, Fresh, insert_before-Becomes}
use libspl.LinkedList.Methods.Removals.{remove-Becomes}
use libspl.LinkedList.Methods.Wholes.{AreFresh}
use libspl.LinkedList.Queue.{enqueue_all, dequeue_all, dequeue_all-enqueue_all}

-- three nodes in memory at 5, 2 and 9
abbrev cells : Cells ℕ
cells = (5, 50) ∷ (2, 20) ∷ (9, 90) ∷ []

abbrev memory : Heap ℕ
memory =
    write (write (write (λ a. none) 5 (some (node 50 2))) 2 (some (node 20 9))) 9
      (some (node 90 null))

abbrev three : Store ℕ
three = record { heap = memory; head = 5; tail = 9; size = 3 }

three-IsList : IsList three cells
unfolding write
three-IsList = record {
  chain = (omega arith, refl, refl, (omega arith, refl, refl, (omega arith, refl, refl, tt)));
  head = refl;
  tail = refl;
  size = refl;
}

three-Fresh : Fresh three 4
unfolding write
three-Fresh = record { ne_null = omega arith; unused = refl }

program : Unit {0}
unfolding write load read_slot write_slot mk_node delete insert_at insert_with_tail
    insert_after_node remove_node remove_front begin end empty advance skip_one deref prepend append
    insert_before insert_after erase remove take_front clear_loop clear copy_loop copy
program = tt

-- the values that an iteration from `it` reads
abbrev read_values : ℕ → Iterator → Command ℕ (List ℕ)
read_values zero it = pure []
read_values (suc k) it = do
  a ← deref it
  it' ← advance it
  rest ← read_values k it'
  pure (a ∷ rest)

abbrev values_after : {B : Type 0} → ℕ → Command ℕ B → Run (List ℕ)
values_after k m = elim ((m >> (do it ← begin; read_values k it)) three) [
  | ok r ↦ ok r.0
  | throw e ↦ throw e
  | fault ↦ fault
]

append_runs : values_after 4 (on_new 4 7 append) ≡ ok (50 ∷ 20 ∷ 90 ∷ 7 ∷ [])
unfolding program
append_runs = refl

insert_before_runs :
    values_after 4 (on_new 4 7 (insert_before (iterator 5 2))) ≡ ok (50 ∷ 7 ∷ 20 ∷ 90 ∷ [])
unfolding program
insert_before_runs = refl

erase_runs : values_after 2 (erase (iterator null 5)) ≡ ok (20 ∷ 90 ∷ [])
unfolding program
erase_runs = refl

copy_runs : values_after 2 (copy ((11, 1) ∷ (12, 2) ∷ [])) ≡ ok (1 ∷ 2 ∷ [])
unfolding program
copy_runs = refl

insert_before-Becomes_example :
    (s' : Store ℕ) × (on_new 4 7 (insert_before (iterator 5 2)) three ≡ ok (tt, s'))
    × Becomes three cells s' ((5, 50) ∷ (4, 7) ∷ (2, 20) ∷ (9, 90) ∷ [])
insert_before-Becomes_example =
    insert_before-Becomes three ((5, 50) ∷ []) ((2, 20) ∷ (9, 90) ∷ []) 4 7 three-IsList three-Fresh

remove-Becomes_example :
    (s' : Store ℕ) × (remove (iterator 2 9) three ≡ ok ((90, iterator 2 null), s'))
    × Becomes three cells s' ((5, 50) ∷ (2, 20) ∷ [])
remove-Becomes_example = remove-Becomes three ((5, 50) ∷ (2, 20) ∷ []) [] 9 90 three-IsList

two-AreFresh : AreFresh three ((11, 1) ∷ (12, 2) ∷ [])
unfolding write
two-AreFresh = (omega arith, refl, refl, (omega arith, refl, refl, tt))

dequeue_all-enqueue_all_example :
    (s' : Store ℕ) × ((enqueue_all ((11, 1) ∷ (12, 2) ∷ []) >> dequeue_all 5) three
      ≡ ok (50 ∷ 20 ∷ 90 ∷ 1 ∷ 2 ∷ [], s'))
    × IsList s' []
dequeue_all-enqueue_all_example =
    dequeue_all-enqueue_all three cells ((11, 1) ∷ (12, 2) ∷ []) three-IsList two-AreFresh
