-- ===== src/LinkedList/Methods/Wholes.antt =====
-- `begin`, `end`, `empty` and the iterator's steps; `clear` and `_copy`.
use libspl.Common.{
  ℕ, ◌+◌, ◌≡◌, ◌≢◌, refl, sym, ◌∙◌, ap, subst, true, false, none, some, [], ◌∷◌, ◌++◌, ok, arith,
  ◌==◌, length, Bool-cases, inl, inr,
}
use libspl.LinkedList.Store.{
  Ptr, null, node, Store, ◌>>◌, head_slot, next_slot, write, write_ne, delete, write_self,
  bind-runs, read_slot, write_slot, mk_node,
}
use libspl.LinkedList.Nodes.{remove_node, insert_at}
use libspl.LinkedList.Base.{
  iterator, begin, end, empty, advance, deref, clear_loop, clear, copy_loop, copy,
}
use libspl.LinkedList.Segments.{
  Cells, has, last, first, IsSegment, IsList, last-append, has-ne_first,
}
use libspl.LinkedList.Links.{has_ne, load-ok}
use libspl.LinkedList.Methods.{Becomes, at}
use libspl.LinkedList.Methods.Removals.{cell-at, unlink-Becomes, delete-runs, dropped, without}

module _ {A : Type 0} where
  -- `begin()` and `end()` are at the two ends of the list, and `empty()` tells whether they meet.
  pub ends-at :
      (s : Store A) (xs : Cells A)
      → IsList s xs
      → (begin s ≡ ok (at [] xs, s)) × (end s ≡ ok (at xs [], s)) × (empty s ≡ (length xs == 0))
  unfolding begin end empty
  ends-at s [] l = (rw l.head refl, rw l.tail refl, rw l.head refl)
  ends-at s (c ∷ xs) l = (rw l.head refl, rw l.tail refl, rw l.head (ground arith))

  -- An iterator at a value reads it, and steps over it.
  pub steps-at :
      (s : Store A) (ys : Cells A) (p : Ptr) (v : A) (zs : Cells A)
      → IsList s (ys ++ (p, v) ∷ zs)
      → (deref (at ys ((p, v) ∷ zs)) s ≡ ok (v, s))
        × (advance (at ys ((p, v) ∷ zs)) s ≡ ok (at (ys ++ (p, v) ∷ []) zs, s))
  unfolding deref advance
  steps-at s ys p v zs l =
      let (ne, at_p) = cell-at s ys p v zs l in
      let e = load-ok p (node v (first zs null)) s ne at_p in
      (
        ground (arith, e),
        ground (arith, e)
            ∙ ap (λ q. ok (iterator q (first zs null), s))
                (sym (last-append null ys ((p, v) ∷ []))),
      )

  clear_loop-lem :
      (xs : Cells A) (s : Store A)
      → IsList s xs
      → (s' : Store A) × (clear_loop (length xs) s ≡ ok (tt, s')) × Becomes s xs s' []
  unfolding clear_loop
  clear_loop-lem [] s l = (s, refl, record { list = l; freed = λ a i o. cc; frame = λ a i o. refl })
  clear_loop-lem ((p, v) ∷ xs) s l =
      let (ne, at_p) = cell-at s [] p v xs l in
      let (s₁, runs, holds, b) = unlink-Becomes s [] xs p v l in
      let fewer : dropped s ≡ record s { size = length xs } =
        ap (λ k. record s { size = k }) (omega (arith, l.size)) in
      let (s', runs', b') = clear_loop-lem xs (without p s₁) b.list in
      (
        s',
        bind-runs (remove_node s.head null head_slot) (λ p'. delete p' >> clear_loop (length xs))
            (record s { size = length xs }) p s₁
            (subst (λ t. remove_node s.head null head_slot t ≡ ok (p, s₁)) fewer
              (subst (λ q. remove_node q null head_slot (dropped s) ≡ ok (p, s₁)) (sym l.head)
                runs))
            (bind-runs (delete p) (λ u. clear_loop (length xs)) s₁ tt (without p s₁)
              (delete-runs p v (first xs null) s₁ ne holds) runs'),
        record {
          list = b'.list;
          freed = λ a i o. elim (Bool-cases (has a xs)) [
            | inl h ↦ b'.freed a h o
            | inr h ↦ b'.frame a h o ∙ b.freed a i h
          ];
          frame =
              λ a i o. let out = (has-ne_first a p v xs i).1 in b'.frame a out o ∙ b.frame a i out;
        },
      )

  -- Clearing empties the list and frees all of its nodes; memory outside of it is as it was.
  pub clear-Becomes :
      (s : Store A) (xs : Cells A)
      → IsList s xs
      → (s' : Store A) × (clear s ≡ ok (tt, s')) × Becomes s xs s' []
  unfolding clear
  clear-Becomes s xs l =
      subst (λ k. (s' : Store A) × (clear_loop k s ≡ ok (tt, s')) × Becomes s xs s' []) (sym l.size)
        (clear_loop-lem xs s l)

  -- The addresses that the allocator returns for a copy are distinct and not in use.
  abbrev pub AreFresh : Store A → Cells A → Type 0
  AreFresh s [] = Unit
  AreFresh s (c ∷ xs) = (c.0 ≢ null) × (s.heap c.0 ≡ none) × (has c.0 xs ≡ false) × AreFresh s xs

  pub AreFresh-same :
      (s s' : Store A) (xs : Cells A)
      → ((a : Ptr) → has a xs ≡ true → s'.heap a ≡ s.heap a)
      → AreFresh s xs
      → AreFresh s' xs
  AreFresh-same s s' [] same f = tt
  AreFresh-same s s' (c ∷ xs) same f = (
    f.0,
    same c.0 (ground arith) ∙ f.1,
    f.2,
    AreFresh-same s s' xs (λ a i. same a (ground arith)) f.3,
  )

  -- the loop links one fresh node after the other behind the node at `p`
  pub record Copied (s : Store A) (p : Ptr) (u : A) (xs : Cells A) (s' : Store A) : Type 0 where
    pub chain : IsSegment s'.heap null ((p, u) ∷ xs)
    pub head : s'.head ≡ s.head
    pub same : (a : Ptr) → has a ((p, u) ∷ xs) ≡ false → s'.heap a ≡ s.heap a

  insert_at-runs :
      (s : Store A) (n : Ptr) (v : A) (p : Ptr) (u : A)
      → n ≢ null
      → s.heap n ≡ some (node v null)
      → p ≢ null
      → s.heap p ≡ some (node u null)
      → p ≢ n
      → insert_at n (next_slot p) s
        ≡ ok (
          tt,
          record s { heap = write (write s.heap n (some (node v null))) p (some (node u n)) },
        )
  unfolding insert_at read_slot write_slot
  insert_at-runs s n v p u ne_n at_n ne_p at_p apart =
      let s₁ = record s { heap = write s.heap n (some (node v null)) } in
      let at_p₁ = write_ne s.heap n (some (node v null)) p apart ∙ at_p in
      ground (
        arith,
        load-ok p (node u null) s ne_p at_p,
        load-ok n (node v null) s ne_n at_n,
        load-ok p (node u null) s₁ ne_p at_p₁,
      )

  copy_loop-lem :
      (xs : Cells A) (s : Store A) (p : Ptr) (u : A) (k : ℕ)
      → p ≢ null
      → s.heap p ≡ some (node u null)
      → AreFresh s xs
      → has p xs ≡ false
      → (s' : Store A) × (copy_loop p k xs s ≡ ok ((last p xs, k + length xs), s'))
        × Copied s p u xs s'
  unfolding copy_loop mk_node
  copy_loop-lem [] s p u k ne at_p f out = (
    s,
    ap (λ i. ok ((p, i), s)) (omega arith),
    record { chain = (ne, refl, at_p, tt); head = refl; same = λ a o. refl },
  )
  copy_loop-lem (c ∷ xs) s p u k ne at_p f out =
      let new = some (node c.1 null) in
      let h₁ = write s.heap c.0 new in
      let h₂ = write h₁ c.0 new in
      let h₃ = write h₂ p (some (node u c.0)) in
      let s₁ = record s { heap = h₁ } in
      let s₃ = record s { heap = h₃ } in
      let apart = (has-ne_first p c.0 c.1 xs out).0 in
      let far : (a : Ptr) → a ≢ p → a ≢ c.0 → h₃ a ≡ s.heap a = λ a n m.
        write_ne h₂ p (some (node u c.0)) a n
        ∙ write_ne h₁ c.0 new a m
        ∙ write_ne s.heap c.0 new a m in
      let at_c =
        write_ne h₂ p (some (node u c.0)) c.0 (λ e. apart (sym e)) ∙ write_self h₁ c.0 new in
      let fresh =
        AreFresh-same s s₃ xs
          (λ a i.
            far a (λ e. has_ne p a xs (has-ne_first p c.0 c.1 xs out).1 i (sym e))
              (λ e. has_ne c.0 a xs f.2 i (sym e)))
          f.3 in
      let (s', runs, k') = copy_loop-lem xs s₃ c.0 c.1 (k + 1) f.0 at_c fresh f.2 in
      (
        s',
        bind-runs (insert_at c.0 (next_slot p)) (λ t. copy_loop c.0 (k + 1) xs) s₁ tt s₃
            (insert_at-runs s₁ c.0 c.1 p u f.0 (write_self s.heap c.0 new) ne
              (write_ne s.heap c.0 new p apart ∙ at_p) apart)
            (runs ∙ ap (λ i. ok ((last c.0 xs, i), s')) (omega arith)),
        record {
          chain = (ne, out, k'.same p out ∙ write_self h₂ p _, k'.chain);
          head = k'.head;
          same = λ a o.
              let (n, o') = has-ne_first a p u (c ∷ xs) o in
              k'.same a o' ∙ far a n (has-ne_first a c.0 c.1 xs o').0;
        },
      )

  -- Copying values builds a list of them in fresh nodes; all other memory, and with it the list that
  -- is copied from, is as it was.
  pub copy-IsList :
      (s : Store A) (xs : Cells A)
      → AreFresh s xs
      → (s' : Store A) × (copy xs s ≡ ok (tt, s'))
        × IsList s' xs
        × ((a : Ptr) → has a xs ≡ false → s'.heap a ≡ s.heap a)
  unfolding copy mk_node
  copy-IsList s [] f =
      (_, refl, record { chain = tt; head = refl; tail = refl; size = refl }, λ a o. refl)
  copy-IsList s (c ∷ xs) f =
      let new = some (node c.1 null) in
      let s₁ = record s { heap = write s.heap c.0 new; head = c.0 } in
      let fresh =
        AreFresh-same s s₁ xs
          (λ a i. write_ne s.heap c.0 new a (λ e. has_ne c.0 a xs f.2 i (sym e))) f.3 in
      let (s', runs, k) = copy_loop-lem xs s₁ c.0 c.1 1 f.0 (write_self s.heap c.0 new) fresh f.2 in
      (
        record s' { tail = last c.0 xs; size = 1 + length xs },
        bind-runs (copy_loop c.0 1 xs) (λ r s₃. ok (tt, record s₃ { tail = r.0; size = r.1 })) s₁
            (last c.0 xs, 1 + length xs) s' runs refl,
        record { chain = k.chain; head = k.head; tail = refl; size = omega arith },
        λ a o. k.same a o ∙ write_ne s.heap c.0 new a (has-ne_first a c.0 c.1 xs o).0,
      )
