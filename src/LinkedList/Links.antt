-- ===== src/LinkedList/Links.antt =====
-- `SinglyLinkedNode::insert` puts a new node between two segments of a list.
use libspl.Common.{
  ◌≡◌, ◌≢◌, refl, sym, ◌∙◌, ap, true, false, some, [], ◌∷◌, ◌++◌, ok, arith, ◌==◌, if◌then◌else◌,
}
use libspl.LinkedList.Store.{
  Ptr, null, Node, node, Heap, Store, Slot, head_slot, next_slot, write, write_self, write_ne, load,
  read_slot, write_slot,
}
use libspl.LinkedList.Nodes.{insert_at, insert_with_tail}
use libspl.LinkedList.Segments.{
  Cells, has, first, last, IsSegment, has-outside, has-no, has-ne_first, last-append, frame-write,
  split, join,
}

pub ne→== : (a b : Ptr) → a ≢ b → (a == b) ≡ false
ne→== a b h = ground arith

module _ {A : Type 0} where
  pub load-ok :
      (p : Ptr) (n : Node A) (s : Store A) → p ≢ null → s.heap p ≡ some n → load p s ≡ ok (n, s)
  unfolding load
  load-ok p n s ne e = rw e (ground arith)

  pub has_ne : (a b : Ptr) (xs : Cells A) → has a xs ≡ false → has b xs ≡ true → a ≢ b
  has_ne a b xs out in_ e = cc (ap (λ q. has q xs) e)

  -- The last node of a segment, and the segment with that node's pointer changed.
  pub record Last (h : Heap A) (stop : Ptr) (c : Ptr × A) (ys : Cells A) : Type 0 where
    pub value : A
    pub holds : h (last c.0 ys) ≡ some (node value stop)
    pub member : has (last c.0 ys) (c ∷ ys) ≡ true
    pub ne_null : last c.0 ys ≢ null
    pub relink :
        (stop' : Ptr) → IsSegment (write h (last c.0 ys) (some (node value stop'))) stop' (c ∷ ys)

  pub Last-Last :
      (h : Heap A) (stop : Ptr) (c : Ptr × A) (ys : Cells A)
      → IsSegment h stop (c ∷ ys)
      → Last h stop c ys
  Last-Last h stop c [] s = record {
    value = c.1;
    holds = s.2;
    member = ground arith;
    ne_null = s.0;
    relink = λ stop'. (s.0, s.1, write_self h c.0 _, tt);
  }
  Last-Last h stop c (d ∷ ys) s =
      let l = Last-Last h stop d ys s.3 in
      let m = l.member in
      record {
        value = l.value;
        holds = l.holds;
        member = ground arith;
        ne_null = l.ne_null;
        relink = λ stop'. (
          s.0,
          s.1,
          write_ne h (last d.0 ys) _ c.0 (has_ne _ _ (d ∷ ys) s.1 m) ∙ s.2,
          l.relink stop',
        );
      }

  -- the slot behind a segment that starts at the head of the list
  abbrev pub slot_of : Cells A → Slot
  slot_of [] = head_slot
  slot_of (c ∷ ys) = next_slot (last c.0 ys)

  -- `s'` holds `ys`, the new node and `zs`; only the nodes of `ys` and the new one were written.
  pub record Linked (s : Store A) (ys zs : Cells A) (n : Ptr) (v : A) (s' : Store A) : Type 0 where
    pub chain : IsSegment s'.heap null (ys ++ (n, v) ∷ zs)
    pub head : s'.head ≡ first (ys ++ (n, v) ∷ zs) null
    pub tail : s'.tail ≡ last null (ys ++ (n, v) ∷ zs)
    pub size : s'.size ≡ s.size
    pub same : (a : Ptr) → has a (ys ++ (n, v) ∷ zs) ≡ false → s'.heap a ≡ s.heap a

  -- the tail after the test on the new node's pointer
  tail-last :
      (t p n : Ptr) (h : Heap A) (zs : Cells A)
      → IsSegment h null zs
      → t ≡ last p zs
      → (if first zs null == null then n else t) ≡ last n zs
  tail-last t p n h [] seg e = refl
  tail-last t p n h (d ∷ zs) seg e = rw (ne→== d.0 null seg.0) e

  module _ (s : Store A) (n : Ptr) (v : A) (ne : n ≢ null)
      (new : s.heap n ≡ some (node v null)) where
    insert_head-runs :
        insert_with_tail n head_slot s
        ≡ ok (
          tt,
          record {
            heap = write s.heap n (some (node v s.head));
            head = n;
            tail = if s.head == null then n else s.tail;
            size = s.size;
          },
        )
    unfolding insert_with_tail insert_at read_slot write_slot
    insert_head-runs =
        let s₂ = record s { heap = write s.heap n (some (node v s.head)); head = n } in
        ground (
          arith,
          load-ok n (node v null) s ne new,
          load-ok n (node v s.head) s₂ ne (write_self s.heap n _),
        )

    module _ (l : Ptr) (u : A) (q : Ptr) (ne_l : l ≢ null) (holds : s.heap l ≡ some (node u q))
        (apart : l ≢ n) where
      -- memory after the two assignments
      abbrev pub linked_heap : Heap A
      linked_heap = write (write s.heap n (some (node v q))) l (some (node u n))

      insert_next-runs :
          insert_with_tail n (next_slot l) s
          ≡ ok (
            tt,
            record {
              heap = linked_heap;
              head = s.head;
              tail = if q == null then n else s.tail;
              size = s.size;
            },
          )
      unfolding insert_with_tail insert_at read_slot write_slot
      insert_next-runs =
          let h₁ = write s.heap n (some (node v q)) in
          let s₁ = record s { heap = h₁ } in
          let s₂ = record s { heap = linked_heap } in
          let at_l = write_ne s.heap n (some (node v q)) l apart ∙ holds in
          let at_n =
            write_ne h₁ l (some (node u n)) n (λ e. apart (sym e)) ∙ write_self s.heap n _ in
          ground (
            arith,
            load-ok l (node u q) s ne_l holds,
            load-ok n (node v null) s ne new,
            load-ok l (node u q) s₁ ne_l at_l,
            load-ok n (node v q) s₂ ne at_n,
          )

  -- the new node behind `ys`
  pub insert-Linked :
      (s : Store A) (ys zs : Cells A) (n : Ptr) (v : A)
      → IsSegment s.heap null (ys ++ zs)
      → s.head ≡ first (ys ++ zs) null
      → s.tail ≡ last null (ys ++ zs)
      → n ≢ null
      → s.heap n ≡ some (node v null)
      → has n (ys ++ zs) ≡ false
      → (s' : Store A) × (insert_with_tail n (slot_of ys) s ≡ ok (tt, s')) × Linked s ys zs n v s'
  insert-Linked s [] zs n v seg hd tl ne new out = (
    _,
    insert_head-runs s n v ne new,
    record {
      chain = (
        ne,
        out,
        write_self s.heap n _ ∙ ap (λ q. some (node v q)) hd,
        frame-write s.heap n _ null zs seg out,
      );
      head = refl;
      tail = rw hd (tail-last s.tail null n s.heap zs seg tl);
      size = refl;
      same = λ a no. write_ne s.heap n _ a (ground arith);
    },
  )
  insert-Linked s (c ∷ ys) zs n v seg hd tl ne new out =
      let (left, right, apart) = split s.heap null (c ∷ ys) zs seg in
      let (out_l, out_r) = has-outside n (c ∷ ys) zs out in
      let q = first zs null in
      let l = last c.0 ys in
      let h₁ = write s.heap n (some (node v q)) in
      let b = Last-Last h₁ q c ys (frame-write s.heap n _ q (c ∷ ys) left out_l) in
      let l≢n : l ≢ n = λ e. has_ne n l (c ∷ ys) out_l b.member (sym e) in
      let h₂ = write h₁ l (some (node b.value n)) in
      let n_at =
        write_ne h₁ l (some (node b.value n)) n (λ e. l≢n (sym e)) ∙ write_self s.heap n _ in
      let zs₂ =
        frame-write h₁ l (some (node b.value n)) null zs
          (frame-write s.heap n (some (node v q)) null zs right out_r) (apart l b.member) in
      (
        _,
        insert_next-runs s n v ne new l b.value q b.ne_null
            (sym (write_ne s.heap n (some (node v q)) l l≢n) ∙ b.holds) l≢n,
        record {
          chain =
              join h₂ null (c ∷ ys) ((n, v) ∷ zs) (b.relink n) (ne, out_r, n_at, zs₂)
                (λ a i. has-no a n v zs (λ e. has_ne n a (c ∷ ys) out_l i (sym e)) (apart a i));
          head = hd;
          tail =
              tail-last s.tail l n s.heap zs right (tl ∙ last-append null (c ∷ ys) zs)
              ∙ sym (last-append null (c ∷ ys) ((n, v) ∷ zs));
          size = refl;
          same = λ a no.
              let (no_l, no_r) = has-outside a (c ∷ ys) ((n, v) ∷ zs) no in
              write_ne h₁ l (some (node b.value n)) a (has_ne a l (c ∷ ys) no_l b.member)
              ∙ write_ne s.heap n (some (node v q)) a (has-ne_first a n v zs no_r).0;
        },
      )
