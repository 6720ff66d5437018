-- ===== src/HashTable/Reach.antt =====
-- The slots that a probe comes to, and what it finds there.
use libspl.Common.{
  ℕ, zero, suc, ◌+◌, ◌≤◌, ◌<◌, ◌≡◌, refl, subst, Bool, true, false, Option, none, some, Run, ok,
  throw, fault, ◌==◌, if◌then◌else◌, ◌>>=◌, arith, Bool-cases, ◌⊎◌, inl, inr,
}
use libspl.HashTable.Controller.{HashRange, non_empty, next}
use libspl.HashTable.Table.{
  Slots, is_unoccupied, matches, find_loop, Free, free_at, full, free_loop,
}
use libspl.HashTable.Probes.{IsRange, next-IsRange, distance, distance-le, distance-next}

-- the probe from `r` comes to the slot `i` within `f` rounds
abbrev pub Visits : ℕ → HashRange → ℕ → Type 0
Visits zero r i = ⊥
Visits (suc f) r i = (r.pos ≡ i) ⊎ ((non_empty (next r) ≡ true) × Visits f (next r) i)

pub Visits-lt : (f : ℕ) (r : HashRange) (i : ℕ) → IsRange r → Visits f r i → i < r.size
Visits-lt zero r i w v = absurd v
Visits-lt (suc f) r i w (inl e) = subst (λ x. x < r.size) e w.pos_lt
Visits-lt (suc f) r i w (inr (more, v)) = Visits-lt f (next r) i (next-IsRange r w) v

-- one round of a probe, with what it computes as variables
found_goes :
    (m : Run Bool) (more : Bool) (pos i : ℕ) (rest : Run (Option ℕ))
    → (m >>= λ found. if found then ok (some pos) else if more then rest else ok none) ≡ ok (some i)
    → (pos ≡ i) ⊎ ((more ≡ true) × (rest ≡ ok (some i)))
found_goes (ok true) more pos i rest e = inl (ground (arith, e))
found_goes (ok false) true pos i rest e = inr (refl, e)
found_goes (ok false) false pos i rest e = absurd (ground arith)
found_goes (throw x) more pos i rest e = absurd (ground arith)
found_goes fault more pos i rest e = absurd (ground arith)

missed_goes :
    (m : Run Bool) (more : Bool) (pos : ℕ) (rest : Run (Option ℕ))
    → (m >>= λ found. if found then ok (some pos) else if more then rest else ok none) ≡ ok none
    → (m ≡ ok false) × (more ≡ true → rest ≡ ok none)
missed_goes (ok true) more pos rest e = absurd (ground arith)
missed_goes (ok false) true pos rest e = (refl, λ q. e)
missed_goes (ok false) false pos rest e = (refl, λ q. absurd cc)
missed_goes (throw x) more pos rest e = absurd (ground arith)
missed_goes fault more pos rest e = absurd (ground arith)

free_goes :
    (unused more : Bool) (pos i c : ℕ) (rest : Run Free)
    → (if unused then ok (free_at pos) else if more then rest else ok (full c)) ≡ ok (free_at i)
    → (pos ≡ i) ⊎ ((more ≡ true) × (rest ≡ ok (free_at i)))
free_goes true more pos i c rest e = inl (ground (arith, e))
free_goes false true pos i c rest e = inr (refl, e)
free_goes false false pos i c rest e = absurd (ground arith)

module _ {N K : Type 0} (eq : N → K → Bool) where
  -- the slot that the second loop finds free is one that the probe comes to
  pub free_loop-Visits :
      (f : ℕ) (t : Slots N) (r : HashRange) (h c i : ℕ)
      → free_loop f t r h c ≡ ok (free_at i)
      → Visits f r i
  unfolding free_loop
  free_loop-Visits zero t r h c i e = absurd cc
  free_loop-Visits (suc f) t r h c i e =
      let c' = if (t r.pos).h == h then c + 1 else c in
      elim (free_goes (is_unoccupied (t r.pos)) (non_empty (next r)) r.pos i c'
        (free_loop f t (next r) h c') e) [
          | inl here ↦ inl here
          | inr (more, rest) ↦ inr (more, free_loop-Visits f t (next r) h c' i rest)
        ]

  -- what a probe finds, it comes to
  pub find_loop-Visits :
      (f : ℕ) (t : Slots N) (r : HashRange) (h : ℕ) (k : K) (i : ℕ)
      → find_loop eq f t r h k ≡ ok (some i)
      → Visits f r i
  unfolding find_loop
  find_loop-Visits zero t r h k i e = absurd cc
  find_loop-Visits (suc f) t r h k i e =
      elim (found_goes (matches eq (t r.pos) h k) (non_empty (next r)) r.pos i
        (find_loop eq f t (next r) h k) e) [
          | inl here ↦ inl here
          | inr (more, rest) ↦ inr (more, find_loop-Visits f t (next r) h k i rest)
        ]

  -- a probe that finds nothing has come to no slot that matches
  pub find_loop-misses :
      (f : ℕ) (t : Slots N) (r : HashRange) (h : ℕ) (k : K) (i : ℕ)
      → find_loop eq f t r h k ≡ ok none
      → Visits f r i
      → matches eq (t i) h k ≡ ok false
  unfolding find_loop
  find_loop-misses zero t r h k i e v = absurd v
  find_loop-misses (suc f) t r h k i e (inl here) =
      subst (λ j. matches eq (t j) h k ≡ ok false) here
        (missed_goes (matches eq (t r.pos) h k) (non_empty (next r)) r.pos
          (find_loop eq f t (next r) h k) e).0
  find_loop-misses (suc f) t r h k i e (inr (more, v)) =
      find_loop-misses f t (next r) h k i
        ((missed_goes (matches eq (t r.pos) h k) (non_empty (next r)) r.pos
            (find_loop eq f t (next r) h k) e).1
          more)
        v

  -- the second loop ends within the table's size
  pub free_loop-ends :
      (f : ℕ) (t : Slots N) (r : HashRange) (h c : ℕ)
      → IsRange r
      → distance r ≤ f
      → (o : Free) × (free_loop f t r h c ≡ ok o)
  unfolding free_loop
  free_loop-ends zero t r h c w le = absurd (let d = (distance-le r w).0 in omega (arith, d, le))
  free_loop-ends (suc f) t r h c w le =
      let c' = if (t r.pos).h == h then c + 1 else c in
      elim (Bool-cases (is_unoccupied (t r.pos))) [
        | inl here ↦ (free_at r.pos, rw here refl)
        | inr taken ↦ elim (Bool-cases (non_empty (next r))) [
          | inl more ↦
              let d = distance-next r w more in
              let (o, e) =
                free_loop-ends f t (next r) h c' (next-IsRange r w) (omega (arith, d, le)) in
              (o, rw taken (rw more e))
          | inr done ↦ (full c', rw taken (rw done refl))
        ]
      ]
