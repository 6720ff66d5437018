-- ===== src/PriorityHeap/Sorted.antt =====
-- Heap calls that keep the array sorted: they do what the C++ standard says.
use libspl.Common.{
  ◌+◌, ◌≡◌, refl, ◌∙◌, ap, Bool, true, false, List, [], ◌∷◌, ◌++◌, if◌then◌else◌, arith, All,
  Bool-cases, inl, inr,
}
use libspl.PriorityHeap.Contents.{Perm, IsHeapCalls}
use libspl.PriorityHeap.Sorting.{Descending}

-- the first element goes last
abbrev pub rotate : {T : Type 0} → List T → List T
rotate [] = []
rotate (x ∷ xs) = xs ++ x ∷ []

module _ {T : Type 0} (comp : T → T → Bool) where
  abbrev pub insert : T → List T → List T
  insert x [] = x ∷ []
  insert x (y ∷ ys) = if comp x y then y ∷ insert x ys else x ∷ y ∷ ys

  abbrev pub sort : List T → List T
  sort [] = []
  sort (x ∷ xs) = insert x (sort xs)

  insert-Perm : (x : T) (ys : List T) → Perm (insert x ys) (x ∷ ys)
  insert-Perm x [] f = refl
  insert-Perm x (y ∷ ys) f = let rest = insert-Perm x ys f in ground (arith, rest)

  sort-Perm : (xs : List T) → Perm (sort xs) xs
  sort-Perm [] f = refl
  sort-Perm (x ∷ xs) f = insert-Perm x (sort xs) f ∙ ap (λ z. f x + z) (sort-Perm xs f)

  module _ (asym : (x y : T) → comp x y ≡ true → comp y x ≡ false)
      (trans : (x y z : T) → comp x y ≡ false → comp y z ≡ false → comp x z ≡ false) where
    All-below :
        (x y : T) (ys : List T)
        → comp x y ≡ false
        → All (λ z. comp y z ≡ false) ys
        → All (λ z. comp x z ≡ false) ys
    All-below x y [] e a = tt
    All-below x y (z ∷ zs) e (h, a) = (trans x y z e h, All-below x y zs e a)

    insert-All :
        (y x : T) (ys : List T)
        → comp y x ≡ false
        → All (λ z. comp y z ≡ false) ys
        → All (λ z. comp y z ≡ false) (insert x ys)
    insert-All y x [] e a = (e, tt)
    insert-All y x (z ∷ zs) e (h, a) = elim (Bool-cases (comp x z)) [
      | inl lt ↦ rw lt (h, insert-All y x zs e a)
      | inr ge ↦ rw ge (e, (h, a))
    ]

    insert-Descending : (x : T) (ys : List T) → Descending comp ys → Descending comp (insert x ys)
    insert-Descending x [] d = (tt, tt)
    insert-Descending x (y ∷ ys) (a, d) = elim (Bool-cases (comp x y)) [
      | inl lt ↦ rw lt (insert-All y x ys (asym x y lt) a, insert-Descending x ys d)
      | inr ge ↦ rw ge ((ge, All-below x y ys ge a), (a, d))
    ]

    sort-Descending : (xs : List T) → Descending comp (sort xs)
    sort-Descending [] = tt
    sort-Descending (x ∷ xs) = insert-Descending x (sort xs) (sort-Descending xs)

    pub sort-IsHeapCalls : IsHeapCalls comp sort rotate (Descending comp)
    sort-IsHeapCalls = record {
      no_element = tt;
      greatest = λ x xs d. d.0;
      pushes = λ xs x d. (sort-Descending (xs ++ x ∷ []), sort-Perm (xs ++ x ∷ []));
      pops = λ x xs d. (xs, refl, d.1, λ f. refl);
    }
