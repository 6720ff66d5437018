-- ===== src/LinkedList/Methods.antt =====
-- The operations of `ListBase` against the sequence that the list holds.
pub mod Inserts
pub mod Removals
pub mod Wholes
use libspl.Common.{
  ℕ, suc, ◌+◌, ◌≡◌, ◌≢◌, refl, sym, ◌∙◌, ap, Bool, true, false, ◌||◌, Option, none, some, List, [],
  ◌∷◌, ◌++◌, Run, ok, arith, ◌==◌, length, if◌then◌else◌, Bool-cases, inl, inr, length-append,
}
use libspl.LinkedList.Store.{
  Ptr, null, Node, node, Heap, Store, Slot, head_slot, next_slot, write, write_self, write_ne, load,
  Command, mk_node,
}
use libspl.LinkedList.Nodes.{insert_with_tail, remove_node}
use libspl.LinkedList.Base.{Iterator, iterator, slot_before}
use libspl.LinkedList.Segments.{
  Cells, has, first, last, IsSegment, IsList, has-append, frame-write, has-middle, length-middle,
  split,
}
use libspl.LinkedList.Links.{ne→==, slot_of, Last-Last, insert-Linked}

module _ {A : Type 0} where
  -- A store with the list `xs` became one with the list `ws`: the nodes that left the list are
  -- freed, and memory outside of both lists is as it was.
  pub record Becomes (s : Store A) (xs : Cells A) (s' : Store A) (ws : Cells A) : Type 0 where
    pub list : IsList s' ws
    pub freed : (a : Ptr) → has a xs ≡ true → has a ws ≡ false → s'.heap a ≡ none
    pub frame : (a : Ptr) → has a xs ≡ false → has a ws ≡ false → s'.heap a ≡ s.heap a

  -- the iterator between `ys` and `zs`
  abbrev pub at : Cells A → Cells A → Iterator
  at ys zs = iterator (last null ys) (first zs null)

  pub unused-outside :
      (h : Heap A) (stop a : Ptr) (xs : Cells A)
      → IsSegment h stop xs
      → h a ≡ none
      → has a xs ≡ false
  unused-outside h stop a [] seg e = refl
  unused-outside h stop a (c ∷ xs) seg e =
      let rest = unused-outside h stop a xs seg.3 e in ground (arith, seg.2, ap h)

  pub slot_before-at :
      (h : Heap A) (ys zs : Cells A)
      → IsSegment h null (ys ++ zs)
      → slot_before (at ys zs) ≡ slot_of ys
  slot_before-at h [] zs seg = refl
  slot_before-at h (c ∷ ys) zs seg =
      let b = Last-Last h (first zs null) c ys (split h null (c ∷ ys) zs seg).0 in
      rw (ne→== (last c.0 ys) null b.ne_null) refl

  -- the store after `_mkNode`
  abbrev pub with_node : Store A → Ptr → A → Store A
  with_node s n v = record s { heap = write s.heap n (some (node v null)) }

  abbrev pub bumped : Store A → Store A
  bumped s = record s { size = s.size + 1 }

  -- one insertion of a fresh node, and the size counted up
  pub insert-Becomes :
      (s : Store A) (ys zs : Cells A) (n : Ptr) (v : A)
      → IsList s (ys ++ zs)
      → n ≢ null
      → s.heap n ≡ none
      → (s' : Store A) × (insert_with_tail n (slot_of ys) (with_node s n v) ≡ ok (tt, s'))
        × Becomes s (ys ++ zs) (bumped s') (ys ++ (n, v) ∷ zs)
  insert-Becomes s ys zs n v l ne unused =
      let out = unused-outside s.heap null n (ys ++ zs) l.chain unused in
      let (s', runs, k) =
        insert-Linked (with_node s n v) ys zs n v
          (frame-write s.heap n _ null (ys ++ zs) l.chain out) l.head l.tail ne
          (write_self s.heap n _) out in
      (
        s',
        runs,
        record {
          list = record {
            chain = k.chain;
            head = k.head;
            tail = k.tail;
            size = ap (λ i. i + 1) (k.size ∙ l.size) ∙ sym (length-middle (n, v) ys zs);
          };
          freed = λ a i o. absurd (cc (has-middle a n v ys zs o).1);
          frame = λ a i o. k.same a o ∙ write_ne s.heap n _ a (has-middle a n v ys zs o).0;
        },
      )
