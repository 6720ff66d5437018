-- ===== src/LinkedList/Unlinks.antt =====
-- `SinglyLinkedNode::remove` takes one node out between two segments of a list.
use libspl.Common.{
  ◌≡◌, ◌≢◌, refl, sym, ◌∙◌, false, some, [], ◌∷◌, ◌++◌, ok, arith, ◌==◌, if◌then◌else◌,
}
use libspl.LinkedList.Store.{
  Ptr, null, node, Heap, Store, head_slot, next_slot, write, write_ne, write_slot,
}
use libspl.LinkedList.Nodes.{remove_node}
use libspl.LinkedList.Segments.{
  Cells, has, first, last, IsSegment, has-ne_first, Apart-out, has-join, last-append, frame-write,
  split, join,
}
use libspl.LinkedList.Links.{ne→==, load-ok, has_ne, Last-Last, slot_of}

module _ {A : Type 0} where
  -- `s'` holds `ys` and `zs`; the node `p` is still in memory, and its pointer leads to `zs`.
  pub record Unlinked (s : Store A) (ys zs : Cells A) (p : Ptr) (v : A) (s' : Store A)
      : Type 0 where
    pub chain : IsSegment s'.heap null (ys ++ zs)
    pub head : s'.head ≡ first (ys ++ zs) null
    pub tail : s'.tail ≡ last null (ys ++ zs)
    pub size : s'.size ≡ s.size
    pub holds : s'.heap p ≡ some (node v (first zs null))
    pub out : has p (ys ++ zs) ≡ false
    pub ne_null : p ≢ null
    pub same : (a : Ptr) → has a ys ≡ false → s'.heap a ≡ s.heap a

  -- the tail after the test on the removed node's pointer
  pub tail-last :
      (t p n : Ptr) (v : A) (h : Heap A) (zs : Cells A)
      → IsSegment h null zs
      → t ≡ last p ((n, v) ∷ zs)
      → (if first zs null == null then p else t) ≡ last p zs
  tail-last t p n v h [] seg e = refl
  tail-last t p n v h (d ∷ zs) seg e = rw (ne→== d.0 null seg.0) e

  module _ (s : Store A) (p : Ptr) (v : A) (q : Ptr) (ne : p ≢ null)
      (at_p : s.heap p ≡ some (node v q)) where
    remove_head-runs :
        remove_node p null head_slot s
        ≡ ok (
          p,
          record {
            heap = s.heap;
            head = q;
            tail = if q == null then null else s.tail;
            size = s.size;
          },
        )
    unfolding remove_node write_slot
    remove_head-runs = ground (arith, load-ok p (node v q) s ne at_p)

    remove_next-runs :
        (l : Ptr) (u : A) (r : Ptr)
        → l ≢ null
        → s.heap l ≡ some (node u r)
        → remove_node p l (next_slot l) s
          ≡ ok (
            p,
            record {
              heap = write s.heap l (some (node u q));
              head = s.head;
              tail = if q == null then l else s.tail;
              size = s.size;
            },
          )
    unfolding remove_node write_slot
    remove_next-runs l u r ne_l at_l =
        ground (arith, load-ok p (node v q) s ne at_p, load-ok l (node u r) s ne_l at_l)

  pub remove-Unlinked :
      (s : Store A) (ys zs : Cells A) (p : Ptr) (v : A)
      → IsSegment s.heap null (ys ++ (p, v) ∷ zs)
      → s.head ≡ first (ys ++ (p, v) ∷ zs) null
      → s.tail ≡ last null (ys ++ (p, v) ∷ zs)
      → (s' : Store A) × (remove_node p (last null ys) (slot_of ys) s ≡ ok (p, s'))
        × Unlinked s ys zs p v s'
  remove-Unlinked s [] zs p v seg hd tl = (
    _,
    remove_head-runs s p v (first zs null) seg.0 seg.2,
    record {
      chain = seg.3;
      head = refl;
      tail = tail-last s.tail null p v s.heap zs seg.3 tl;
      size = refl;
      holds = seg.2;
      out = seg.1;
      ne_null = seg.0;
      same = λ a no. refl;
    },
  )
  remove-Unlinked s (c ∷ ys) zs p v seg hd tl =
      let (left, right, apart) = split s.heap null (c ∷ ys) ((p, v) ∷ zs) seg in
      let q = first zs null in
      let l = last c.0 ys in
      let b = Last-Last s.heap p c ys left in
      let h₁ = write s.heap l (some (node b.value q)) in
      let no_l = has-ne_first l p v zs (apart l b.member) in
      let out_l : has p (c ∷ ys) ≡ false = Apart-out p v (c ∷ ys) zs apart in
      (
        _,
        remove_next-runs s p v q right.0 right.2 l b.value p b.ne_null b.holds,
        record {
          chain =
              join h₁ null (c ∷ ys) zs (b.relink q)
                (frame-write s.heap l (some (node b.value q)) null zs right.3 no_l.1)
                (λ a i. (has-ne_first a p v zs (apart a i)).1);
          head = hd;
          tail =
              tail-last s.tail l p v s.heap zs right.3
                (tl ∙ last-append null (c ∷ ys) ((p, v) ∷ zs))
              ∙ sym (last-append null (c ∷ ys) zs);
          size = refl;
          holds = write_ne s.heap l _ p (λ e. no_l.0 (sym e)) ∙ right.2;
          out = has-join p (c ∷ ys) zs out_l right.1;
          ne_null = right.0;
          same = λ a no. write_ne s.heap l _ a (has_ne a l (c ∷ ys) no b.member);
        },
      )
