-- ===== src/LinkedList/Methods/Removals.antt =====
-- `erase`, `remove`, `takeFront`, and the steps of an iterator.
use libspl.Common.{
  ◌-◌, ◌≡◌, ◌≢◌, refl, ◌∙◌, ap, none, some, [], ◌∷◌, ◌++◌, ok, throw, out_of_range, arith, ◌==◌,
  if◌then◌else◌,
}
use libspl.LinkedList.Store.{
  Ptr, null, node, Store, read_slot, write_slot, write, write_ne, delete, store, load, write_self,
  bind-runs,
}
use libspl.LinkedList.Nodes.{remove_node, remove_front}
use libspl.LinkedList.Base.{erase, remove, take_front, skip_one}
use libspl.LinkedList.Segments.{
  Cells, last, first, IsList, split, frame-write, has-outside, has-ne_first, has-middle,
  has-middle_other, length-middle,
}
use libspl.LinkedList.Links.{ne→==, slot_of, load-ok}
use libspl.LinkedList.Unlinks.{tail-last, remove-Unlinked}
use libspl.LinkedList.Methods.{Becomes, at, slot_before-at}

module _ {A : Type 0} where
  -- the store after the size is counted down, and after the node is freed
  abbrev pub dropped : Store A → Store A
  dropped s = record s { size = s.size - 1 }

  abbrev pub without : Ptr → Store A → Store A
  without p s = record s { heap = write s.heap p none }

  pub cell-at :
      (s : Store A) (ys : Cells A) (p : Ptr) (v : A) (zs : Cells A)
      → IsList s (ys ++ (p, v) ∷ zs)
      → (p ≢ null) × (s.heap p ≡ some (node v (first zs null)))
  cell-at s ys p v zs l = let r = (split s.heap null ys ((p, v) ∷ zs) l.chain).1 in (r.0, r.2)

  -- unlinking one node and freeing it
  pub unlink-Becomes :
      (s : Store A) (ys zs : Cells A) (p : Ptr) (v : A)
      → IsList s (ys ++ (p, v) ∷ zs)
      → (s' : Store A) × (remove_node p (last null ys) (slot_of ys) (dropped s) ≡ ok (p, s'))
        × (s'.heap p ≡ some (node v (first zs null)))
        × Becomes s (ys ++ (p, v) ∷ zs) (without p s') (ys ++ zs)
  unlink-Becomes s ys zs p v l =
      let (s', runs, u) = remove-Unlinked (dropped s) ys zs p v l.chain l.head l.tail in
      (
        s',
        runs,
        u.holds,
        record {
          list = record {
            chain = frame-write s'.heap p none null (ys ++ zs) u.chain u.out;
            head = u.head;
            tail = u.tail;
            size = omega (arith, u.size, l.size, length-middle (p, v) ys zs);
          };
          freed = λ a i o.
              ap (write s'.heap p none) (has-middle_other a p v ys zs i o)
              ∙ write_self s'.heap p none;
          frame = λ a i o.
              write_ne s'.heap p none a (has-middle a p v ys zs i).0
              ∙ u.same a (has-outside a ys ((p, v) ∷ zs) i).0;
        },
      )

  pub delete-runs :
      (p : Ptr) (v : A) (q : Ptr) (s : Store A)
      → p ≢ null
      → s.heap p ≡ some (node v q)
      → delete p s ≡ ok (tt, without p s)
  unfolding delete
  delete-runs p v q s ne e =
      bind-runs (load p) (λ u. store p none) s _ s (load-ok p (node v q) s ne e) refl

  -- Erasing the value at an iterator takes it out of the list; the iterator goes to the next value.
  pub erase-Becomes :
      (s : Store A) (ys zs : Cells A) (p : Ptr) (v : A)
      → IsList s (ys ++ (p, v) ∷ zs)
      → (s' : Store A) × (erase (at ys ((p, v) ∷ zs)) s ≡ ok (at ys zs, s'))
        × Becomes s (ys ++ (p, v) ∷ zs) s' (ys ++ zs)
  unfolding erase skip_one
  erase-Becomes s ys zs p v l =
      let (ne, at_p) = cell-at s ys p v zs l in
      let (s', runs, holds, b) = unlink-Becomes s ys zs p v l in
      (
        without p s',
        rw (ne→== p null ne) (
            rw (slot_before-at s.heap ys ((p, v) ∷ zs) l.chain) (
              ground (
                arith,
                load-ok p (node v (first zs null)) s ne at_p,
                runs,
                delete-runs p v (first zs null) s' ne holds,
              ))),
        b,
      )

  -- `remove` returns the value too.
  pub remove-Becomes :
      (s : Store A) (ys zs : Cells A) (p : Ptr) (v : A)
      → IsList s (ys ++ (p, v) ∷ zs)
      → (s' : Store A) × (remove (at ys ((p, v) ∷ zs)) s ≡ ok ((v, at ys zs), s'))
        × Becomes s (ys ++ (p, v) ∷ zs) s' (ys ++ zs)
  unfolding remove skip_one
  remove-Becomes s ys zs p v l =
      let (ne, at_p) = cell-at s ys p v zs l in
      let (s', runs, holds, b) = unlink-Becomes s ys zs p v l in
      (
        without p s',
        rw (ne→== p null ne) (
            rw (slot_before-at s.heap ys ((p, v) ∷ zs) l.chain) (
              ground (
                arith,
                load-ok p (node v (first zs null)) s ne at_p,
                runs,
                load-ok p (node v (first zs null)) s' ne holds,
                delete-runs p v (first zs null) s' ne holds,
              ))),
        b,
      )

  -- Neither of them removes at the past-the-end iterator: both throw.
  pub erase-throws :
      (ys : Cells A) (s : Store A)
      → (erase (at ys []) s ≡ throw out_of_range) × (remove (at ys []) s ≡ throw out_of_range)
  unfolding erase remove
  erase-throws ys s = (refl, refl)

  -- the store after `removeFront` and the size counted down, with `q` the next node
  abbrev fronted : Store A → Ptr → Ptr → Store A
  fronted s p q = record {
    heap = write s.heap p none;
    head = q;
    tail = if q == null then null else s.tail;
    size = s.size - 1;
  }

  -- `takeFront` returns the first value and takes it out of the list.
  pub take_front-Becomes :
      (s : Store A) (p : Ptr) (v : A) (zs : Cells A)
      → IsList s ((p, v) ∷ zs)
      → (s' : Store A) × (take_front s ≡ ok (v, s')) × Becomes s ((p, v) ∷ zs) s' zs
  unfolding take_front remove_front read_slot write_slot
  take_front-Becomes s p v zs l =
      let (ne, at_p) = cell-at s [] p v zs l in
      let q = first zs null in
      let s₁ = record s { tail = if q == null then null else s.tail; head = q } in
      (
        fronted s p q,
        ground (
          arith,
          l.head,
          load-ok p (node v q) s ne at_p,
          load-ok p (node v q) s₁ ne at_p,
          delete-runs p v q s₁ ne at_p,
        ),
        record {
          list = record {
            chain = frame-write s.heap p none null zs l.chain.3 l.chain.1;
            head = refl;
            tail = tail-last s.tail null p v s.heap zs l.chain.3 l.tail;
            size = omega (arith, l.size);
          };
          freed = λ a i o.
              ap (write s.heap p none) (has-middle_other a p v [] zs i o)
              ∙ write_self s.heap p none;
          frame = λ a i o. write_ne s.heap p none a (has-ne_first a p v zs i).0;
        },
      )
