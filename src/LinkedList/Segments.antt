-- ===== src/LinkedList/Segments.antt =====
-- What a list in memory stands for: its nodes' addresses and values, in order.
use libspl.Common.{
  ◌+◌, ◌≡◌, ◌≢◌, refl, sym, ◌∙◌, ap, Bool, true, false, ◌||◌, Option, some, List, [], ◌∷◌, ◌++◌,
  arith, ◌==◌, length,
}
use libspl.LinkedList.Store.{Ptr, null, Node, node, Heap, Store, write}

abbrev pub Cells : Type 0 → Type 0
Cells A = List (Ptr × A)

module _ {A : Type 0} where
  abbrev pub has : Ptr → Cells A → Bool
  has a [] = false
  has a (c ∷ xs) = (a == c.0) || has a xs

  -- the first address, or `stop` where there is none
  abbrev pub first : Cells A → Ptr → Ptr
  first [] stop = stop
  first (c ∷ xs) stop = c.0

  -- the last address, or `start` where there is none
  abbrev pub last : Ptr → Cells A → Ptr
  last start [] = start
  last start (c ∷ xs) = last c.0 xs

  -- The distinct nodes `xs` are in memory, each leads to the next, and the last one to `stop`.
  abbrev pub IsSegment : Heap A → Ptr → Cells A → Type 0
  IsSegment h stop [] = Unit
  IsSegment h stop (c ∷ xs) =
      (c.0 ≢ null)
      × (has c.0 xs ≡ false)
      × (h c.0 ≡ some (node c.1 (first xs stop)))
      × IsSegment h stop xs

  -- The store holds a list of exactly the cells `xs`.
  pub record IsList (s : Store A) (xs : Cells A) : Type 0 where
    pub chain : IsSegment s.heap null xs
    pub head : s.head ≡ first xs null
    pub tail : s.tail ≡ last null xs
    pub size : s.size ≡ length xs

  pub has-append : (a : Ptr) (xs ys : Cells A) → has a (xs ++ ys) ≡ (has a xs || has a ys)
  has-append a [] ys = refl
  has-append a (c ∷ xs) ys = let e = has-append a xs ys in ground arith

  -- an address that is in neither part
  pub has-outside :
      (a : Ptr) (xs ys : Cells A)
      → has a (xs ++ ys) ≡ false
      → (has a xs ≡ false) × (has a ys ≡ false)
  has-outside a xs ys out = let e = has-append a xs ys in (ground arith, ground arith)

  pub has-no :
      (a b : Ptr) (v : A) (xs : Cells A) → a ≢ b → has a xs ≡ false → has a ((b, v) ∷ xs) ≡ false
  has-no a b v xs ne out = ground arith

  pub has-ne_first :
      (a b : Ptr) (v : A) (xs : Cells A)
      → has a ((b, v) ∷ xs) ≡ false
      → (a ≢ b) × (has a xs ≡ false)
  has-ne_first a b v xs out = (ground arith, ground arith)

  pub first-append :
      (xs ys : Cells A) (stop : Ptr) → first (xs ++ ys) stop ≡ first xs (first ys stop)
  first-append [] ys stop = refl
  first-append (c ∷ xs) ys stop = refl

  pub last-append : (p : Ptr) (xs ys : Cells A) → last p (xs ++ ys) ≡ last (last p xs) ys
  last-append p [] ys = refl
  last-append p (c ∷ xs) ys = last-append c.0 xs ys

  -- a segment survives any change of memory that spares its addresses
  pub frame :
      (h g : Heap A) (stop : Ptr) (xs : Cells A)
      → IsSegment h stop xs
      → ((a : Ptr) → has a xs ≡ true → g a ≡ h a)
      → IsSegment g stop xs
  frame h g stop [] s same = tt
  frame h g stop (c ∷ xs) s same = (
    s.0,
    s.1,
    same c.0 (ground arith) ∙ s.2,
    frame h g stop xs s.3 (λ a i. same a (ground arith)),
  )

  pub frame-write :
      (h : Heap A) (p : Ptr) (c : Option (Node A)) (stop : Ptr) (xs : Cells A)
      → IsSegment h stop xs
      → has p xs ≡ false
      → IsSegment (write h p c) stop xs
  unfolding write
  frame-write h p c stop xs s out = frame h (write h p c) stop xs s (λ a i. ground arith)

  -- a list splits into two segments, and two segments that share no node join
  abbrev pub Apart : Cells A → Cells A → Type 0
  Apart xs ys = (a : Ptr) → has a xs ≡ true → has a ys ≡ false

  pub split :
      (h : Heap A) (stop : Ptr) (xs ys : Cells A)
      → IsSegment h stop (xs ++ ys)
      → IsSegment h (first ys stop) xs × IsSegment h stop ys × Apart xs ys
  split h stop [] ys s = (tt, s, λ a i. cc)
  split h stop (c ∷ xs) ys s =
      let (left, right, apart) = split h stop xs ys s.3 in
      let e = has-append c.0 xs ys in
      (
        (s.0, ground arith, s.2 ∙ ap (λ q. some (node c.1 q)) (first-append xs ys stop), left),
        right,
        λ a i. ground (arith, apart a),
      )

  pub join :
      (h : Heap A) (stop : Ptr) (xs ys : Cells A)
      → IsSegment h (first ys stop) xs
      → IsSegment h stop ys
      → Apart xs ys
      → IsSegment h stop (xs ++ ys)
  join h stop [] ys left right apart = right
  join h stop (c ∷ xs) ys left right apart = (
    left.0,
    has-append c.0 xs ys ∙ ground (arith, apart c.0),
    left.2 ∙ ap (λ q. some (node c.1 q)) (sym (first-append xs ys stop)),
    join h stop xs ys left.3 right (λ a i. apart a (ground arith)),
  )

  pub Apart-out : (p : Ptr) (v : A) (xs zs : Cells A) → Apart xs ((p, v) ∷ zs) → has p xs ≡ false
  Apart-out p v xs zs apart = let e = apart p in ground arith

  pub has-join :
      (a : Ptr) (xs ys : Cells A) → has a xs ≡ false → has a ys ≡ false → has a (xs ++ ys) ≡ false
  has-join a xs ys l r = let e = has-append a xs ys in ground arith

  -- one cell in the middle
  pub has-middle :
      (a n : Ptr) (v : A) (ys zs : Cells A)
      → has a (ys ++ (n, v) ∷ zs) ≡ false
      → (a ≢ n) × (has a (ys ++ zs) ≡ false)
  has-middle a n v ys zs out =
      let (l, r) = has-outside a ys ((n, v) ∷ zs) out in
      let (ne, r') = has-ne_first a n v zs r in (ne, has-join a ys zs l r')

  pub has-middle_other :
      (a n : Ptr) (v : A) (ys zs : Cells A)
      → has a (ys ++ (n, v) ∷ zs) ≡ true
      → has a (ys ++ zs) ≡ false
      → a ≡ n
  has-middle_other a n v ys zs i o =
      let d = has-append a ys ((n, v) ∷ zs) in let e = has-append a ys zs in ground arith

  pub length-middle :
      (c : Ptr × A) (ys zs : Cells A) → length (ys ++ c ∷ zs) ≡ length (ys ++ zs) + 1
  length-middle c [] zs = omega arith
  length-middle c (d ∷ ys) zs = omega (arith, length-middle c ys zs)

  pub append-nil : (xs : Cells A) → xs ++ [] ≡ xs
  append-nil [] = refl
  append-nil (c ∷ xs) = ap (λ l. c ∷ l) (append-nil xs)

  pub append_assoc :
      (xs : Cells A) (c : Ptr × A) (ys : Cells A) → (xs ++ c ∷ []) ++ ys ≡ xs ++ c ∷ ys
  append_assoc [] c ys = refl
  append_assoc (d ∷ xs) c ys = ap (λ l. d ∷ l) (append_assoc xs c ys)
