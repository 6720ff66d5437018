-- ===== src/PriorityHeap/Capacity.antt =====
-- The array of the heap: it is never too short for its elements, and never shorter than at first.
use libspl.Common.{
  ℕ, zero, suc, ◌+◌, ◌/◌, ◌≤◌, ◌<◌, ◌≡◌, refl, sym, ap, subst, ◌&&◌, some, [], ◌∷◌, ◌++◌, ok, ltb,
  leb, ◌==◌, length, length-append, arith, Bool-cases, inl, inr, lt→ltb, le→ltb, lt_or_le,
}
use libspl.PriorityHeap.Ops.{
  Heap, initial_size, grown, expand, shrink, allocate_loop, allocate, construct,
}

grown-lt : (n : ℕ) → 1 ≤ n → n < grown n
grown-lt n le = ground (arith, le)

module _ {T : Type 0} where
  pub record IsHeapArray (h : Heap T) : Type 0 where
    pub counted : length h.cells ≡ h.size
    pub fits : h.size ≤ h.max_size
    pub some_ : 1 ≤ h.max_size

  expand-IsHeapArray :
      (h : Heap T) → IsHeapArray h → IsHeapArray (expand h) × (h.size < (expand h).max_size)
  unfolding expand
  expand-IsHeapArray h w =
      let up = grown-lt h.max_size w.some_ in
      elim (Bool-cases (h.size == h.max_size)) [
        | inl full ↦ rw full (
          record {
            counted = w.counted;
            fits = omega (arith, w.fits, up);
            some_ = omega (arith, up);
          },
          omega (arith, w.fits, up),
        )
        | inr room ↦ rw room (w, ground (arith, room, w.fits))
      ]

  pub shrink-IsHeapArray : (h : Heap T) → IsHeapArray h → IsHeapArray (shrink h)
  unfolding shrink
  shrink-IsHeapArray h w =
      elim (Bool-cases (leb h.size (h.max_size / 2) && ltb initial_size h.max_size)) [
        | inl wide ↦ rw wide (record {
          counted = w.counted;
          fits = ground (arith, wide);
          some_ = (let q : 64 < h.max_size = ground (arith, wide) in omega (arith, q));
        })
        | inr no_ ↦ rw no_ w
      ]

  pub shrink-cells : (h : Heap T) → (shrink h).cells ≡ h.cells
  unfolding shrink
  shrink-cells h = ground arith

  pub shrink-size : (h : Heap T) → (shrink h).size ≡ h.size
  unfolding shrink
  shrink-size h = ground arith

  expand-size : (h : Heap T) → (expand h).size ≡ h.size
  unfolding expand
  expand-size h = ground arith

  expand-cells : (h : Heap T) → (expand h).cells ≡ h.cells
  unfolding expand
  expand-cells h = ground arith

  -- an element is constructed inside the array
  pub construct-expand :
      (h : Heap T) (x : T)
      → IsHeapArray h
      → (h' : Heap T) × (construct (expand h) x ≡ ok h')
        × IsHeapArray h'
        × (h'.cells ≡ h.cells ++ x ∷ [])
  unfolding construct
  construct-expand h x w =
      let (w', lt) = expand-IsHeapArray h w in
      let h' = record (expand h) {
        size = (expand h).size + 1;
        cells = (expand h).cells ++ x ∷ [];
      } in
      let lt' : (expand h).size < (expand h).max_size =
        subst (λ n. n < (expand h).max_size) (sym (expand-size h)) lt in
      (
        h',
        rw (lt→ltb (expand h).size (expand h).max_size lt') refl,
        record {
          counted = omega (arith, length-append (expand h).cells (x ∷ []), w'.counted);
          fits = omega (arith, lt');
          some_ = w'.some_;
        },
        ap (λ l. l ++ x ∷ []) (expand-cells h),
      )

allocate_loop-ends :
    (f max n : ℕ)
    → 1 ≤ max
    → n < f + max
    → 1 ≤ f
    → (m : ℕ) × (allocate_loop f max n ≡ some m) × (n ≤ m) × (max ≤ m)
unfolding allocate_loop
allocate_loop-ends zero max n some_ lt le = absurd (omega (arith, le))
allocate_loop-ends (suc f) max n some_ lt le = elim (lt_or_le max n) [
  | inl more ↦
      let up = grown-lt max some_ in
      let (m, e, ge, ge') =
        allocate_loop-ends f (grown max) n (omega (arith, up)) (omega (arith, lt, up))
          (omega (arith, lt, more)) in
      (m, rw (lt→ltb max n more) e, ge, omega (arith, ge', up))
  | inr done ↦ (max, rw (le→ltb max n done) refl, done, omega arith)
]

-- `_allocate(size)` ends with an empty array of at least that size.
pub allocate-IsHeapArray :
    {T : Type 0} (n : ℕ)
    → (h : Heap T) × (allocate n ≡ ok h) × IsHeapArray h × (h.cells ≡ []) × (n ≤ h.max_size)
unfolding allocate
allocate-IsHeapArray n =
    let (m, e, ge, ge') =
      allocate_loop-ends (suc n) initial_size n (omega arith) (omega arith) (omega arith) in
    (
      record { max_size = m; size = 0; cells = [] },
      rw e refl,
      record { counted = refl; fits = omega arith; some_ = omega (arith, ge') },
      refl,
      ge,
    )
