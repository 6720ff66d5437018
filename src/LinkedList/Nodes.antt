-- ===== src/LinkedList/Nodes.antt =====
-- The member functions of `SinglyLinkedNode`.
use libspl.Common.{◌==◌, if◌then◌else◌}
use libspl.LinkedList.Store.{
  Ptr, null, Command, ◌>>=◌, ◌>>◌, pure, load, Slot, head_slot, next_slot, read_slot, write_slot,
  set_tail,
}

module _ {A : Type 0} where
  -- `insert(newNode, prevNext)`
  unfoldable pub insert_at : Ptr → Slot → Command A (Unit {0})
  insert_at n prev_next = do
    q ← read_slot prev_next
    write_slot (next_slot n) q
    write_slot prev_next n

  -- `insert(newNode, prevNext, tail)`
  unfoldable pub insert_with_tail : Ptr → Slot → Command A (Unit {0})
  insert_with_tail n prev_next = do
    insert_at n prev_next
    m ← load n
    if m.next == null then set_tail n else pure tt

  -- `insertAfter(newNode, tail)`
  unfoldable pub insert_after_node : Ptr → Ptr → Command A (Unit {0})
  insert_after_node p n = insert_with_tail n (next_slot p)

  -- `remove(prevNode, prevNext, tail)` of the node `p`
  unfoldable pub remove_node : Ptr → Ptr → Slot → Command A Ptr
  remove_node p prev_node prev_next = do
    m ← load p
    write_slot prev_next m.next
    (if m.next == null then set_tail prev_node else pure tt)
    pure p

  -- `removeFront(head, tail)`
  unfoldable pub remove_front : Command A Ptr
  remove_front = do
    h ← read_slot head_slot
    m ← load h
    (if m.next == null then set_tail null else pure tt)
    write_slot head_slot m.next
    pure h
