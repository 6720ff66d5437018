-- ===== src/PriorityHeap/Sorting.antt =====
-- Everything pushed on a new heap and popped again comes out in order.
use libspl.Common.{
  ℕ, zero, suc, ◌+◌, ◌≡◌, refl, sym, ◌∙◌, ap, subst, Bool, false, List, [], ◌∷◌, ◌++◌, Run, ok,
  ◌>>=◌, length, arith, All, total, total-append, append-nil, length-append,
}
use libspl.PriorityHeap.Ops.{Heap, allocate, push, pop}
use libspl.PriorityHeap.Capacity.{allocate-IsHeapArray}
use libspl.PriorityHeap.Contents.{
  Perm, Perm-length, All-Perm, IsHeapCalls, IsQueue, push-IsQueue, pop-IsQueue,
}

-- none is exceeded by one behind it
abbrev pub Descending : {T : Type 0} → (T → T → Bool) → List T → Type 0
Descending comp [] = Unit
Descending comp (x ∷ xs) = All (λ y. comp x y ≡ false) xs × Descending comp xs

no_cells : {T : Type 0} (xs : List T) → length xs ≡ 0 → (f : T → ℕ) → total f [] ≡ total f xs
no_cells [] e f = refl
no_cells (x ∷ xs) e f = absurd (omega (arith, e))

module _ {T : Type 0} (push_heap pop_heap : List T → List T) where
  unfoldable pub push_all : Heap T → List T → Run (Heap T)
  push_all h [] = ok h
  push_all h (x ∷ xs) = push push_heap h x >>= λ h'. push_all h' xs

  unfoldable pub pop_all : ℕ → Heap T → Run (List T)
  pop_all zero h = ok []
  pop_all (suc n) h = pop pop_heap h >>= λ r. pop_all n r.0 >>= λ xs. ok (r.1 ∷ xs)

module _ {T : Type 0} (comp : T → T → Bool) (push_heap pop_heap : List T → List T)
    (IsStdHeap : List T → Type 0) (calls : IsHeapCalls comp push_heap pop_heap IsStdHeap) where
  push_all-IsQueue :
      (xs : List T) (h : Heap T)
      → IsQueue comp push_heap pop_heap IsStdHeap calls h
      → (h' : Heap T) × (push_all push_heap pop_heap h xs ≡ ok h')
        × IsQueue comp push_heap pop_heap IsStdHeap calls h'
        × Perm h'.cells (xs ++ h.cells)
  unfolding push_all
  push_all-IsQueue [] h w = (h, refl, w, λ f. refl)
  push_all-IsQueue (x ∷ xs) h w =
      let (h₁, e, w₁, p) = push-IsQueue comp push_heap pop_heap IsStdHeap calls h x w in
      let (h', e', w', p') = push_all-IsQueue xs h₁ w₁ in
      (
        h',
        rw e e',
        w',
        λ f. omega (arith, p' f, total-append f xs h₁.cells, p f, total-append f xs h.cells),
      )

  pop_all-Descending :
      (n : ℕ) (h : Heap T)
      → IsQueue comp push_heap pop_heap IsStdHeap calls h
      → h.size ≡ n
      → (ys : List T) × (pop_all push_heap pop_heap n h ≡ ok ys)
        × Perm ys h.cells
        × Descending comp ys
  unfolding pop_all
  pop_all-Descending zero h w e =
      ([], refl, (λ f. no_cells h.cells (omega (arith, e, w.array.counted)) f), tt)
  pop_all-Descending (suc n) h w e =
      let (h', x, r, w', p, greatest, s) =
        pop-IsQueue comp push_heap pop_heap IsStdHeap calls h w (omega (arith, e)) in
      let (ys, r', p', d) = pop_all-Descending n h' w' (omega (arith, e, s)) in
      (
        x ∷ ys,
        rw r (rw r' refl),
        λ f. ap (λ z. f x + z) (p' f) ∙ sym (p f),
        (All-Perm (comp x) h'.cells ys p' greatest, d),
      )

  -- Elements pushed on a new heap of any initial size and popped as often come out without an error, each
  -- as often as it was pushed, and none is exceeded by a later one.
  pub pop_all-push_all :
      (n : ℕ) (xs : List T)
      → (ys : List T) × ((allocate n >>= λ h.
            push_all push_heap pop_heap h xs >>= pop_all push_heap pop_heap (length xs))
          ≡ ok ys)
        × Perm ys xs
        × Descending comp ys
  pop_all-push_all n xs =
      let (h, e, a, c, ge) = allocate-IsHeapArray {T = T} n in
      let w : IsQueue comp push_heap pop_heap IsStdHeap calls h = record {
        array = a;
        ordered = subst IsStdHeap (sym c) calls.no_element;
      } in
      let (h', e', w', p) = push_all-IsQueue xs h w in
      let k = Perm-length h'.cells (xs ++ h.cells) p in
      let z = ap length c in
      let size : h'.size ≡ length xs =
        omega (arith, k, length-append xs h.cells, z, w'.array.counted) in
      let (ys, r, q, d) = pop_all-Descending (length xs) h' w' size in
      (
        ys,
        rw e (rw e' r),
        λ f. q f ∙ p f ∙ ap (λ l. total f (xs ++ l)) c ∙ ap (total f) (append-nil xs),
        d,
      )
