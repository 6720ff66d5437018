-- ===== src/PriorityHeap/Contents.antt =====
-- `push` and `pop`: what the heap holds, and which element comes out.
use libspl.Common.{
  ℕ, ◌+◌, ◌-◌, ◌≤◌, ◌≡◌, refl, sym, ◌∙◌, ap, subst, Bool, false, some, List, [], ◌∷◌, ◌++◌, ok,
  length, arith, All, total, total-append, get_elem?, if◌then◌else◌, take-append,
}
use libspl.PriorityHeap.Ops.{Heap, shrink, push, pop}
use libspl.PriorityHeap.Capacity.{
  IsHeapArray, shrink-IsHeapArray, shrink-cells, shrink-size, construct-expand,
}

-- the same elements, each as often
abbrev pub Perm : {T : Type 0} → List T → List T → Type 0
Perm {T} xs ys = (f : T → ℕ) → total f xs ≡ total f ys

total-one : {T : Type 0} (xs : List T) → total (λ (x : T). 1) xs ≡ length xs
total-one [] = refl
total-one (x ∷ xs) = omega (arith, total-one xs)

pub Perm-length : {T : Type 0} (xs ys : List T) → Perm xs ys → length xs ≡ length ys
Perm-length xs ys p = sym (total-one xs) ∙ p (λ x. 1) ∙ total-one ys

pub Perm-last : {T : Type 0} (xs : List T) (x : T) → Perm (xs ++ x ∷ []) (x ∷ xs)
Perm-last xs x f = omega (arith, total-append f xs (x ∷ []))

last-append : {T : Type 0} (xs : List T) (x : T) → get_elem? (xs ++ x ∷ []) (length xs) ≡ some x
last-append [] x = refl
last-append (y ∷ xs) x = last-append xs x

-- a Boolean test holds of no element of two lists alike
abbrev hits : {T : Type 0} → (T → Bool) → T → ℕ
hits test y = if test y then 1 else 0

All-hits :
    {T : Type 0} (test : T → Bool) (xs : List T)
    → All (λ y. test y ≡ false) xs
    → total (hits test) xs ≡ 0
All-hits test [] a = refl
All-hits test (x ∷ xs) (e, a) = let rest = All-hits test xs a in ground (arith, e, rest)

hits-All :
    {T : Type 0} (test : T → Bool) (xs : List T)
    → total (hits test) xs ≡ 0
    → All (λ y. test y ≡ false) xs
hits-All test [] e = tt
hits-All test (x ∷ xs) e = (ground (arith, e), hits-All test xs (ground (arith, e)))

pub All-Perm :
    {T : Type 0} (test : T → Bool) (xs ys : List T)
    → Perm ys xs
    → All (λ y. test y ≡ false) xs
    → All (λ y. test y ≡ false) ys
All-Perm test xs ys p a = hits-All test ys (p (hits test) ∙ All-hits test xs a)

pub uncons : {T : Type 0} (xs : List T) → 1 ≤ length xs → (x : T) × (ys : List T) × (xs ≡ x ∷ ys)
uncons [] le = absurd (omega (arith, le))
uncons (x ∷ xs) le = (x, xs, refl)

-- what the C++ standard says of std::push_heap and std::pop_heap, of whatever it calls a heap
pub record IsHeapCalls {T : Type 0} (comp : T → T → Bool) (push_heap pop_heap : List T → List T)
    (IsStdHeap : List T → Type 0) : Type 0 where
  pub no_element : IsStdHeap []
  pub greatest : (x : T) (xs : List T) → IsStdHeap (x ∷ xs) → All (λ y. comp x y ≡ false) xs
  pub pushes :
      (xs : List T) (x : T)
      → IsStdHeap xs
      → IsStdHeap (push_heap (xs ++ x ∷ [])) × Perm (push_heap (xs ++ x ∷ [])) (xs ++ x ∷ [])
  pub pops :
      (x : T) (xs : List T)
      → IsStdHeap (x ∷ xs)
      → (ys : List T) × (pop_heap (x ∷ xs) ≡ ys ++ x ∷ []) × IsStdHeap ys × Perm ys xs

module _ {T : Type 0} (comp : T → T → Bool) (push_heap pop_heap : List T → List T)
    (IsStdHeap : List T → Type 0) (calls : IsHeapCalls comp push_heap pop_heap IsStdHeap) where
  pub record IsQueue (h : Heap T) : Type 0 where
    pub array : IsHeapArray h
    pub ordered : IsStdHeap h.cells

  -- `push` on a heap returns a heap that holds the element with the others, inside its array.
  pub push-IsQueue :
      (h : Heap T) (x : T)
      → IsQueue h
      → (h' : Heap T) × (push push_heap h x ≡ ok h') × IsQueue h' × Perm h'.cells (x ∷ h.cells)
  unfolding push
  push-IsQueue h x w =
      let (h₁, e, w₁, c) = construct-expand h x w.array in
      let (o, p) = calls.pushes h.cells x w.ordered in
      let cells = ap push_heap c in
      let n = Perm-length (push_heap (h.cells ++ x ∷ [])) (h.cells ++ x ∷ []) p in
      (
        record h₁ { cells = push_heap h₁.cells },
        rw e refl,
        record {
          array = record {
            counted = ap length cells ∙ n ∙ ap length (sym c) ∙ w₁.counted;
            fits = w₁.fits;
            some_ = w₁.some_;
          };
          ordered = subst IsStdHeap (sym cells) o;
        },
        λ f. ap (total f) cells ∙ p f ∙ Perm-last h.cells x f,
      )

  -- `pop` on a heap that is not empty returns an element that none of the others exceeds, and a heap of
  -- the others.
  pub pop-IsQueue :
      (h : Heap T)
      → IsQueue h
      → 1 ≤ h.size
      → (h' : Heap T) × (x : T) × (pop pop_heap h ≡ ok (h', x))
        × IsQueue h'
        × Perm h.cells (x ∷ h'.cells)
        × All (λ y. comp x y ≡ false) h'.cells
        × (h'.size + 1 ≡ h.size)
  unfolding pop
  pop-IsQueue h w some_ =
      let (x, xs, c) = uncons h.cells (omega (arith, some_, w.array.counted)) in
      let (ys, e, o, p) = calls.pops x xs (subst IsStdHeap c w.ordered) in
      let n : length ys + 1 ≡ h.size =
        (let a = Perm-length ys xs p in
          let b = ap length c in omega (arith, a, b, w.array.counted)) in
      let last : h.size - 1 ≡ length ys = omega (arith, n) in
      let moved : pop_heap h.cells ≡ ys ++ x ∷ [] = ap pop_heap c ∙ e in
      let t = record h { size = length ys; cells = ys } in
      let array : IsHeapArray t = record {
        counted = refl;
        fits = omega (arith, w.array.fits, n);
        some_ = w.array.some_;
      } in
      (
        shrink t,
        x,
        rw last (rw moved (rw (last-append ys x) (rw (take-append ys (x ∷ [])) refl))),
        record {
          array = shrink-IsHeapArray t array;
          ordered = subst IsStdHeap (sym (shrink-cells t)) o;
        },
        λ f. ap (total f) c ∙ ap (λ z. f x + z) (sym (p f) ∙ ap (total f) (sym (shrink-cells t))),
        subst (λ l. All (λ y. comp x y ≡ false) l) (sym (shrink-cells t))
            (All-Perm (comp x) xs ys p (calls.greatest x xs (subst IsStdHeap c w.ordered))),
        ap (λ z. z + 1) (shrink-size t) ∙ n,
      )
