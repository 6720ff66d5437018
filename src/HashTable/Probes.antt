-- ===== src/HashTable/Probes.antt =====
-- The probing loops: they end within the table's size, and find what is in their range.
use libspl.Common.{
  ℕ, zero, suc, ◌+◌, ◌-◌, ◌*◌, ◌%◌, ◌≤◌, ◌<◌, ◌≡◌, ◌≢◌, refl, sym, ◌∙◌, ap, subst, Bool, true,
  false, Option, none, some, Run, ok, throw, fault, ltb, ◌==◌, if◌then◌else◌, ◌>>=◌, arith,
  Bool-cases, ◌⊎◌, inl, inr, ltb,
}
use native.Mathlib.Nat.{mod_self, mod-eq_of_lt, mod-lt}
use libspl.HashTable.Controller.{HashRange, non_empty, next, Controller, hash_range}
use libspl.HashTable.Growth.{IsController, product-lt_left}
use libspl.HashTable.Table.{
  Slot, Slots, is_unoccupied, is_occupied, node_eq, matches, find_loop, find_any_loop, Free,
  free_at, full, free_loop,
}

module _ {N K : Type 0} (eq : N → K → Bool) where
  -- a table whose slots answer every comparison alike is searched alike
  pub find_loop-same :
      (f : ℕ) (t t' : Slots N) (r : HashRange) (h : ℕ) (k : K)
      → ((i : ℕ) → matches eq (t' i) h k ≡ matches eq (t i) h k)
      → find_loop eq f t' r h k ≡ find_loop eq f t r h k
  unfolding find_loop
  find_loop-same zero t t' r h k same = refl
  find_loop-same (suc f) t t' r h k same =
      rw (same r.pos) (rw (find_loop-same f t t' (next r) h k same) refl)

  any-matches :
      (s : Slot N) (h : ℕ) (k : K)
      → ((s.h == h) ≡ true → is_occupied s ≡ true)
      → (if s.h == h then node_eq eq s k else ok false) ≡ matches eq s h k
  unfolding matches
  any-matches s h k live = elim (Bool-cases (s.h == h)) [
    | inl e ↦ rw e (rw (live e) refl)
    | inr e ↦ rw e (ground arith)
  ]

  -- where no slot has a stale hash, the loop that does not ask `occupied()` is the other one
  pub find_any_loop-find :
      (f : ℕ) (t : Slots N) (r : HashRange) (h : ℕ) (k : K)
      → ((i : ℕ) → ((t i).h == h) ≡ true → is_occupied (t i) ≡ true)
      → find_any_loop eq f t r h k ≡ find_loop eq f t r h k
  unfolding find_loop find_any_loop
  find_any_loop-find zero t r h k live = refl
  find_any_loop-find (suc f) t r h k live =
      rw (any-matches (t r.pos) h k (live r.pos))
        (rw (find_any_loop-find f t (next r) h k live) refl)

  -- one round at another slot
  round :
      (m : Run Bool) (more unused : Bool) (pos i c : ℕ) (rest rest' : Run (Option ℕ))
      (free : Run Free)
      → (m >>= λ found. if found then ok (some pos) else if more then rest else ok none) ≡ ok none
      → (if unused then ok (free_at pos) else if more then free else ok (full c)) ≡ ok (free_at i)
      → (pos == i) ≡ false
      → (rest ≡ ok none → free ≡ ok (free_at i) → rest' ≡ ok (some i))
      → (m >>= λ found. if found then ok (some pos) else if more then rest' else ok none)
        ≡ ok (some i)
  round m more unused pos i c rest rest' free n fr ne ih = ground arith

  -- after the node is put at the free slot that the second loop came to, it is found there
  pub find_loop-put :
      (f : ℕ) (t t' : Slots N) (r : HashRange) (h : ℕ) (k : K) (c i : ℕ)
      → find_loop eq f t r h k ≡ ok none
      → free_loop f t r h c ≡ ok (free_at i)
      → matches eq (t' i) h k ≡ ok true
      → ((j : ℕ) → j ≢ i → t' j ≡ t j)
      → find_loop eq f t' r h k ≡ ok (some i)
  unfolding find_loop free_loop
  find_loop-put zero t t' r h k c i none_ free m others = absurd cc
  find_loop-put (suc f) t t' r h k c i none_ free m others = elim (Bool-cases (r.pos == i)) [
    | inl e ↦
        let e' : r.pos ≡ i = ground (arith, e) in
        rw (ap (λ j. matches eq (t' j) h k) e' ∙ m) (ap (λ j. ok (some j)) e')
    | inr e ↦ rw (ap (λ s. matches eq s h k) (others r.pos (λ q. ground (arith, e, q)))) (
        round (matches eq (t r.pos) h k) (non_empty (next r)) (is_unoccupied (t r.pos)) r.pos i _ _
          _ (free_loop f t (next r) h (if (t r.pos).h == h then c + 1 else c)) none_ free e
          (λ a b.
            find_loop-put f t t' (next r) h k (if (t r.pos).h == h then c + 1 else c) i a b m
              others))
  ]

  pub free_here :
      (unused more : Bool) (pos i c : ℕ) (rest : Run Free)
      → (if unused then ok (free_at pos) else if more then rest else ok (full c)) ≡ ok (free_at i)
      → unused ≡ true
      → pos ≡ i
  free_here unused more pos i c rest e u = ground arith

  pub free_later :
      (unused more : Bool) (pos i c : ℕ) (rest : Run Free)
      → (if unused then ok (free_at pos) else if more then rest else ok (full c)) ≡ ok (free_at i)
      → unused ≡ false
      → rest ≡ ok (free_at i)
  free_later unused more pos i c rest e u = ground arith

  -- the free slot of the second loop is not occupied
  pub free_loop-unoccupied :
      (f : ℕ) (t : Slots N) (r : HashRange) (h c i : ℕ)
      → free_loop f t r h c ≡ ok (free_at i)
      → is_unoccupied (t i) ≡ true
  unfolding free_loop
  free_loop-unoccupied zero t r h c i e = absurd cc
  free_loop-unoccupied (suc f) t r h c i e = elim (Bool-cases (is_unoccupied (t r.pos))) [
    | inl u ↦
        let same : r.pos ≡ i =
          free_here (is_unoccupied (t r.pos)) (non_empty (next r)) r.pos i
            (if (t r.pos).h == h then c + 1 else c)
            (free_loop f t (next r) h (if (t r.pos).h == h then c + 1 else c)) e u in
        subst (λ j. is_unoccupied (t j) ≡ true) same u
    | inr u ↦ free_loop-unoccupied f t (next r) h (if (t r.pos).h == h then c + 1 else c) i (
        free_later (is_unoccupied (t r.pos)) (non_empty (next r)) r.pos i
          (if (t r.pos).h == h then c + 1 else c)
          (free_loop f t (next r) h (if (t r.pos).h == h then c + 1 else c)) e u)
  ]

pub record IsRange (r : HashRange) : Type 0 where
  pub pos_lt : r.pos < r.size
  pub end_lt : r.end < r.size

-- the rounds from the position to the end, around the table
abbrev pub distance : HashRange → ℕ
distance r = if ltb r.pos r.end then r.end - r.pos else r.size - r.pos + r.end

next-pos :
    (r : HashRange) → IsRange r → (next r).pos ≡ (if r.pos + 1 == r.size then 0 else r.pos + 1)
next-pos r w = elim (Bool-cases (r.pos + 1 == r.size)) [
  | inl e ↦
      let e' : r.pos + 1 ≡ r.size = ground (arith, e) in
      rw e (ap (λ n. n % r.size) e' ∙ mod_self r.size)
  | inr e ↦ let lt : r.pos + 1 < r.size = ground (arith, e, w.pos_lt) in rw e (mod-eq_of_lt lt)
]

pub next-IsRange : (r : HashRange) → IsRange r → IsRange (next r)
next-IsRange r w =
    let e = next-pos r w in record { pos_lt = ground (arith, e, w.pos_lt); end_lt = w.end_lt }

pub distance-next :
    (r : HashRange) → IsRange r → non_empty (next r) ≡ true → distance (next r) < distance r
distance-next r w more = let e = next-pos r w in ground (arith, e, w.pos_lt, w.end_lt)

pub distance-le : (r : HashRange) → IsRange r → (1 ≤ distance r) × (distance r ≤ r.size)
distance-le r w = (ground (arith, w.pos_lt, w.end_lt), ground (arith, w.pos_lt, w.end_lt))

pub hash_range-IsRange : (c : Controller) (h : ℕ) → IsController c → IsRange (hash_range c h)
unfolding hash_range
hash_range-IsRange c h w =
    let inside =
      product-lt_left (h % c.n_buckets) c.n_buckets c.bucket_size w.bucket (mod-lt h w.buckets) in
    record {
      pos_lt = subst (λ x. h % c.n_buckets * c.bucket_size < x) (sym w.product) inside;
      end_lt =
          mod-lt (h % c.n_buckets * c.bucket_size + 16 * c.bucket_size)
            (omega (arith, w.product, inside));
    }

-- one round of a probe that finds a slot
pub found_round :
    (m : Run Bool) (more : Bool) (pos i : ℕ) (rest : Run (Option ℕ))
    → (m >>= λ found. if found then ok (some pos) else if more then rest else ok none) ≡ ok (some i)
    → ((pos ≡ i) × (m ≡ ok true)) ⊎ (rest ≡ ok (some i))
found_round (ok true) more pos i rest e = inl (ground (arith, e), refl)
found_round (ok false) true pos i rest e = inr e
found_round (ok false) false pos i rest e = absurd (ground arith)
found_round (throw x) more pos i rest e = absurd (ground arith)
found_round fault more pos i rest e = absurd (ground arith)

module _ {N K : Type 0} (eq : N → K → Bool) where
  pub find_loop-ends :
      (f : ℕ) (t : Slots N) (r : HashRange) (h : ℕ) (k : K)
      → IsRange r
      → distance r ≤ f
      → ((i : ℕ) → (b : Bool) × (matches eq (t i) h k ≡ ok b))
      → (o : Option ℕ) × (find_loop eq f t r h k ≡ ok o)
  unfolding find_loop
  find_loop-ends zero t r h k w le live =
      absurd (let d = (distance-le r w).0 in omega (arith, d, le))
  find_loop-ends (suc f) t r h k w le live =
      let (b, e) = live r.pos in
      elim (Bool-cases b) [
        | inl hit ↦ (some r.pos, rw (e ∙ ap ok hit) refl)
        | inr miss ↦ elim (Bool-cases (non_empty (next r))) [
          | inl more ↦
              let d = distance-next r w more in
              let (o, e') =
                find_loop-ends f t (next r) h k (next-IsRange r w) (omega (arith, d, le)) live in
              (o, rw (e ∙ ap ok miss) (rw more e'))
          | inr done ↦ (none, rw (e ∙ ap ok miss) (rw done refl))
        ]
      ]

  -- what a probe finds matches
  pub find_loop-matches :
      (f : ℕ) (t : Slots N) (r : HashRange) (h : ℕ) (k : K) (i : ℕ)
      → find_loop eq f t r h k ≡ ok (some i)
      → matches eq (t i) h k ≡ ok true
  unfolding find_loop
  find_loop-matches zero t r h k i e = absurd cc
  find_loop-matches (suc f) t r h k i e =
      elim (found_round (matches eq (t r.pos) h k) (non_empty (next r)) r.pos i
        (find_loop eq f t (next r) h k) e) [
          | inl (same, m) ↦ subst (λ j. matches eq (t j) h k ≡ ok true) same m
          | inr rest ↦ find_loop-matches f t (next r) h k i rest
        ]
