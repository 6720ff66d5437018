-- ===== src/LinkedList/Queue.antt =====
-- `Deque` of include/deque.h for one thread, over `ListBase`; a new node's address comes from the
-- allocator.
use libspl.Common.{
  ℕ, zero, suc, ◌≡◌, refl, sym, ◌∙◌, ap, subst, Bool, true, false, not, none, List, [], ◌∷◌, ◌++◌,
  ok, length, map, arith, ◌==◌, append-nil, append_assoc, Bool-cases, inl, inr,
}
use libspl.LinkedList.Store.{Ptr, null, Store, Command, ◌>>=◌, ◌>>◌, pure, load, mk_node, bind-runs}
use libspl.LinkedList.Base.{
  Iterator, get_store, empty, prepend, append, insert_before, insert_after, take_front,
}
use libspl.LinkedList.Segments.{Cells, has, IsList, has-append}
use libspl.LinkedList.Methods.{unused-outside}
use libspl.LinkedList.Methods.Inserts.{append-Becomes}
use libspl.LinkedList.Methods.Removals.{take_front-Becomes}
use libspl.LinkedList.Methods.Wholes.{AreFresh, AreFresh-same}

module _ {A : Type 0} where
  abbrev pub enqueue_front : Ptr → A → Command A (Unit {0})
  enqueue_front n v = mk_node n v >>= prepend

  unfoldable pub enqueue : Ptr → A → Command A (Unit {0})
  enqueue n v = mk_node n v >>= append

  unfoldable pub dequeue : Command A A
  dequeue = take_front

  abbrev pub insert_new_before : Iterator → Ptr → A → Command A (Unit {0})
  insert_new_before pos n v = mk_node n v >>= insert_before pos

  abbrev pub insert_new_after : Iterator → Ptr → A → Command A (Unit {0})
  insert_new_after pos n v = mk_node n v >>= insert_after pos

  abbrev pub non_empty : Store A → Bool
  non_empty s = not (empty s)

  -- `front()` and `back()`
  abbrev pub front : Command A A
  front = get_store >>= λ s. load s.head >>= λ n. pure n.data_of

  abbrev pub back : Command A A
  back = get_store >>= λ s. load s.tail >>= λ n. pure n.data_of

  unfoldable pub enqueue_all : Cells A → Command A (Unit {0})
  enqueue_all [] = pure tt
  enqueue_all (c ∷ cs) = enqueue c.0 c.1 >> enqueue_all cs

  unfoldable pub dequeue_all : ℕ → Command A (List A)
  dequeue_all zero = pure []
  dequeue_all (suc k) = dequeue >>= λ a. dequeue_all k >>= λ as_. pure (a ∷ as_)

  AreFresh-unused :
      (s : Store A) (a : Ptr) (cs : Cells A) → AreFresh s cs → has a cs ≡ true → s.heap a ≡ none
  AreFresh-unused s a [] f i = absurd cc
  AreFresh-unused s a (c ∷ cs) f i = elim (Bool-cases (a == c.0)) [
    | inl e ↦ (let q : a ≡ c.0 = ground (arith, e) in ap s.heap q ∙ f.1)
    | inr e ↦ AreFresh-unused s a cs f.3 (ground (arith, e, i))
  ]

  enqueue_all-IsList :
      (cs xs : Cells A) (s : Store A)
      → IsList s xs
      → AreFresh s cs
      → (s' : Store A) × (enqueue_all cs s ≡ ok (tt, s')) × IsList s' (xs ++ cs)
  unfolding enqueue_all enqueue
  enqueue_all-IsList [] xs s l f = (s, refl, subst (IsList s) (sym (append-nil xs)) l)
  enqueue_all-IsList (c ∷ cs) xs s l f =
      let (s₁, runs, b) = append-Becomes s xs c.0 c.1 l (record { ne_null = f.0; unused = f.1 }) in
      let fresh : AreFresh s₁ cs =
        AreFresh-same s s₁ cs
          (λ a i.
            let free = AreFresh-unused s a cs f.3 i in
            let out = unused-outside s.heap null a xs l.chain free in
            let apart : (a == c.0) ≡ false = elim (Bool-cases (a == c.0)) [
              | inr e ↦ e
              | inl e ↦ absurd (
                  let q : a ≡ c.0 = ground (arith, e) in
                  let r : true ≡ false = sym i ∙ ap (λ x. has x cs) q ∙ f.2 in cc)
            ] in
            b.frame a out (has-append a xs (c ∷ []) ∙ ground (arith, out, apart)))
          f.3 in
      let (s', runs', l') = enqueue_all-IsList cs (xs ++ c ∷ []) s₁ b.list fresh in
      (
        s',
        bind-runs (enqueue c.0 c.1) (λ _. enqueue_all cs) s tt s₁ runs runs',
        subst (IsList s') (append_assoc xs (c ∷ []) cs) l',
      )

  dequeue_all-IsList :
      (ys zs : Cells A) (s : Store A)
      → IsList s (ys ++ zs)
      → (s' : Store A) × (dequeue_all (length ys) s ≡ ok (map (λ c. c.1) ys, s')) × IsList s' zs
  unfolding dequeue_all dequeue
  dequeue_all-IsList [] zs s l = (s, refl, l)
  dequeue_all-IsList (c ∷ ys) zs s l =
      let (s₁, runs, b) = take_front-Becomes s c.0 c.1 (ys ++ zs) l in
      let (s', runs', l') = dequeue_all-IsList ys zs s₁ b.list in
      (
        s',
        bind-runs dequeue (λ a. dequeue_all (length ys) >>= λ as_. pure (a ∷ as_)) s c.1 s₁ runs
            (bind-runs (dequeue_all (length ys)) (λ as_. pure (c.1 ∷ as_)) s₁ _ s' runs' refl),
        l',
      )

  -- Elements enqueued at fresh addresses on a well-formed deque, and dequeued as often as there are
  -- elements, come out behind those that were there, in their order, and leave a well-formed empty deque.
  pub dequeue_all-enqueue_all :
      (s : Store A) (xs cs : Cells A)
      → IsList s xs
      → AreFresh s cs
      → (s' : Store A) × ((enqueue_all cs >> dequeue_all (length (xs ++ cs))) s
          ≡ ok (map (λ c. c.1) (xs ++ cs), s'))
        × IsList s' []
  dequeue_all-enqueue_all s xs cs l f =
      let (s₁, runs, l₁) = enqueue_all-IsList cs xs s l f in
      let (s', runs', l') =
        dequeue_all-IsList (xs ++ cs) [] s₁ (subst (IsList s₁) (sym (append-nil (xs ++ cs))) l₁) in
      (s', bind-runs (enqueue_all cs) (λ _. dequeue_all (length (xs ++ cs))) s tt s₁ runs runs', l')
