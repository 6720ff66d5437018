-- ===== src/LinkedList/Methods/Inserts.antt =====
-- `prepend`, `append`, `insertBefore` and `insertAfter`, with the node that `_mkNode` makes.
use libspl.Common.{
  ◌≡◌, subst, ◌≢◌, refl, sym, ◌∙◌, ap, none, [], ◌∷◌, ◌++◌, ok, throw, out_of_range, arith,
}
use libspl.LinkedList.Store.{
  Ptr, null, node, Store, Command, ◌>>=◌, ◌>>◌, next_slot, mk_node, delete, write_self, bind-runs,
}
use libspl.LinkedList.Nodes.{insert_with_tail, insert_after_node}
use libspl.LinkedList.Base.{bump_size, prepend, append, insert_before, insert_after}
use libspl.LinkedList.Segments.{Cells, last, IsList, append-nil, append_assoc, last-append, split}
use libspl.LinkedList.Links.{ne→==, slot_of, Last-Last, load-ok}
use libspl.LinkedList.Methods.{Becomes, at, with_node, bumped, insert-Becomes, slot_before-at}

module _ {A : Type 0} where
  mk_node-runs : (n : Ptr) (v : A) (s : Store A) → mk_node n v s ≡ ok (n, with_node s n v)
  unfolding mk_node
  mk_node-runs n v s = refl

  -- a command after `_mkNode`
  abbrev pub on_new : Ptr → A → (Ptr → Command A (Unit {0})) → Command A (Unit {0})
  on_new n v f = mk_node n v >>= f

  -- the fresh address, and the list that is in memory
  pub record Fresh (s : Store A) (n : Ptr) : Type 0 where
    pub ne_null : n ≢ null
    pub unused : s.heap n ≡ none

  -- every operation below is `insert` at the slot behind `ys`, and the size counted up
  inserted :
      (f : Ptr → Command A (Unit {0})) (s : Store A) (ys zs : Cells A) (n : Ptr) (v : A)
      → IsList s (ys ++ zs)
      → Fresh s n
      → f n (with_node s n v) ≡ (insert_with_tail n (slot_of ys) >> bump_size) (with_node s n v)
      → (s' : Store A) × (on_new n v f s ≡ ok (tt, s'))
        × Becomes s (ys ++ zs) s' (ys ++ (n, v) ∷ zs)
  inserted f s ys zs n v l fresh same =
      let (s', runs, b) = insert-Becomes s ys zs n v l fresh.ne_null fresh.unused in
      (
        bumped s',
        bind-runs (mk_node n v) f s n (with_node s n v) (mk_node-runs n v s) (
            same
            ∙ bind-runs (insert_with_tail n (slot_of ys)) (λ u. bump_size) (with_node s n v) tt s'
                runs refl),
        b,
      )

  -- Prepending puts the value in front of the list.
  pub prepend-Becomes :
      (s : Store A) (xs : Cells A) (n : Ptr) (v : A)
      → IsList s xs
      → Fresh s n
      → (s' : Store A) × (on_new n v prepend s ≡ ok (tt, s')) × Becomes s xs s' ((n, v) ∷ xs)
  unfolding prepend
  prepend-Becomes s xs n v l fresh = inserted prepend s [] xs n v l fresh refl

  append-same :
      (s : Store A) (xs : Cells A) (n : Ptr)
      → IsList s xs
      → (s₁ : Store A) → s₁.tail ≡ last null xs
      → append n s₁ ≡ (insert_with_tail n (slot_of xs) >> bump_size) s₁
  unfolding append insert_after_node
  append-same s [] n l s₁ e = rw e refl
  append-same s (c ∷ xs) n l s₁ e =
      let b = Last-Last s.heap null c xs l.chain in
      rw e (rw (ne→== (last c.0 xs) null b.ne_null) refl)

  -- Appending puts the value behind the list.
  pub append-Becomes :
      (s : Store A) (xs : Cells A) (n : Ptr) (v : A)
      → IsList s xs
      → Fresh s n
      → (s' : Store A) × (on_new n v append s ≡ ok (tt, s')) × Becomes s xs s' (xs ++ (n, v) ∷ [])
  append-Becomes s xs n v l fresh =
      subst
        (λ ws.
          (s' : Store A) × (on_new n v append s ≡ ok (tt, s'))
          × Becomes s ws s' (xs ++ (n, v) ∷ []))
        (append-nil xs)
        (inserted append s xs [] n v (subst (IsList s) (sym (append-nil xs)) l) fresh
          (append-same s xs n l (with_node s n v) l.tail))

  insert_before-same :
      (s : Store A) (ys zs : Cells A) (n : Ptr)
      → IsList s (ys ++ zs)
      → (s₁ : Store A) → s₁.tail ≡ last null (ys ++ zs)
      → insert_before (at ys zs) n s₁ ≡ (insert_with_tail n (slot_of ys) >> bump_size) s₁
  unfolding insert_before
  insert_before-same s ys [] n l s₁ e =
      let d = append-nil ys in append-same s ys n (subst (IsList s) d l) s₁ (e ∙ ap (last null) d)
  insert_before-same s ys (c ∷ zs) n l s₁ e =
      let ne = (split s.heap null ys (c ∷ zs) l.chain).1.0 in
      rw (ne→== c.0 null ne) (rw (slot_before-at s.heap ys (c ∷ zs) l.chain) refl)

  -- Inserting before an iterator puts the value there; at the past-the-end iterator it appends.
  pub insert_before-Becomes :
      (s : Store A) (ys zs : Cells A) (n : Ptr) (v : A)
      → IsList s (ys ++ zs)
      → Fresh s n
      → (s' : Store A) × (on_new n v (insert_before (at ys zs)) s ≡ ok (tt, s'))
        × Becomes s (ys ++ zs) s' (ys ++ (n, v) ∷ zs)
  insert_before-Becomes s ys zs n v l fresh =
      inserted (insert_before (at ys zs)) s ys zs n v l fresh
        (insert_before-same s ys zs n l (with_node s n v) l.tail)

  slot_of-append : (ys : Cells A) (c : Ptr × A) → slot_of (ys ++ c ∷ []) ≡ next_slot c.0
  slot_of-append [] c = refl
  slot_of-append (d ∷ ys) c = ap next_slot (last-append d.0 ys (c ∷ []))

  insert_after-same :
      (s₁ : Store A) (ys : Cells A) (c : Ptr × A) (zs : Cells A) (n : Ptr)
      → c.0 ≢ null
      → insert_after (at ys (c ∷ zs)) n s₁
        ≡ (insert_with_tail n (slot_of (ys ++ c ∷ [])) >> bump_size) s₁
  unfolding insert_after insert_after_node
  insert_after-same s₁ ys c zs n ne = rw (ne→== c.0 null ne) (rw (slot_of-append ys c) refl)

  -- Inserting after an iterator at a value puts the new value behind that one.
  pub insert_after-Becomes :
      (s : Store A) (ys : Cells A) (c : Ptr × A) (zs : Cells A) (n : Ptr) (v : A)
      → IsList s (ys ++ c ∷ zs)
      → Fresh s n
      → (s' : Store A) × (on_new n v (insert_after (at ys (c ∷ zs))) s ≡ ok (tt, s'))
        × Becomes s (ys ++ c ∷ zs) s' (ys ++ c ∷ (n, v) ∷ zs)
  insert_after-Becomes s ys c zs n v l fresh =
      let ne = (split s.heap null ys (c ∷ zs) l.chain).1.0 in
      let (s', runs, b) =
        inserted (insert_after (at ys (c ∷ zs))) s (ys ++ c ∷ []) zs n v
          (subst (IsList s) (sym (append_assoc ys c zs)) l) fresh
          (insert_after-same (with_node s n v) ys c zs n ne) in
      (
        s',
        runs,
        subst (λ ws. Becomes s ws s' (ys ++ c ∷ (n, v) ∷ zs)) (append_assoc ys c zs)
            (subst (Becomes s ((ys ++ c ∷ []) ++ zs) s') (append_assoc ys c ((n, v) ∷ zs)) b),
      )

  -- Inserting after the past-the-end iterator throws.
  pub insert_after-throws :
      (s : Store A) (ys : Cells A) (n : Ptr) (v : A)
      → Fresh s n
      → on_new n v (insert_after (at ys [])) s ≡ throw out_of_range
  unfolding mk_node insert_after delete
  insert_after-throws s ys n v fresh =
      ground
        (arith, load-ok n (node v null) (with_node s n v) fresh.ne_null (write_self s.heap n _))
