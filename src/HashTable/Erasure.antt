-- ===== src/HashTable/Erasure.antt =====
-- `erase` of the set.
use libspl.Common.{
  ℕ, ◌-◌, ◌≡◌, refl, sym, ◌∙◌, ap, Bool, true, false, none, some, ok, ◌==◌, ◌>>=◌, arith,
  Bool-cases, Option-cases, inl, inr,
}
use libspl.HashTable.Controller.{hash_range}
use libspl.HashTable.Table.{Slot, Table, put_slot, is_unoccupied, release, matches, find_index}
use libspl.HashTable.Sets.{contains, erase}
use libspl.HashTable.Probes.{find_loop-same, find_loop-matches}
use libspl.HashTable.Membership.{matches-unused}

module _ {K : Type 0} (eq : K → K → Bool) (hash : K → ℕ) where
  matches-node :
      (s : Slot K) (h : ℕ) (k : K)
      → matches eq s h k ≡ ok true
      → (a : K) × (s.storage ≡ some a) × (eq a k ≡ true)
  unfolding matches
  matches-node s h k m = elim (Option-cases s.storage) [
    | inl e ↦ absurd (ground (arith, e, m))
    | inr (a, e) ↦ (a, e, ground (arith, e, m))
  ]

  matches-other :
      (s : Slot K) (h : ℕ) (k a : K)
      → s.storage ≡ some a
      → eq a k ≡ false
      → (matches eq s h k) ≡ ok false
  unfolding matches
  matches-other s h k a e ne = ground (arith, e, ne)

  abbrev pub erased_at : Table K → ℕ → Table K
  erased_at t i = record t { slots = put_slot t.slots i (release (t.slots i)); size = t.size - 1 }

  same_answer :
      (t : Table K) (i : ℕ) (a : K) (j : ℕ) (k₂ : K)
      → (t.slots i).storage ≡ some a
      → eq a k₂ ≡ false
      → matches eq ((erased_at t i).slots j) (hash k₂) k₂ ≡ matches eq (t.slots j) (hash k₂) k₂
  unfolding put_slot
  same_answer t i a j k₂ e ne = elim (Bool-cases (j == i)) [
    | inl q ↦
        let q' : j ≡ i = ground (arith, q) in
        rw q (matches-unused eq hash (release (t.slots i)) (hash k₂) k₂ refl)
        ∙ sym (
            ap (λ x. matches eq (t.slots x) (hash k₂) k₂) q'
            ∙ matches-other (t.slots i) (hash k₂) k₂ a e ne)
    | inr q ↦ rw q refl
  ]

  -- `erase` of a key that is found destroys a node whose key is equal to it, frees its slot and counts
  -- the size down; `contains` answers as before on every key that the erased one is not equal to.
  pub erase-contains :
      (t : Table K) (k : K) (i : ℕ)
      → find_index eq t (hash k) k ≡ ok (some i)
      → (a : K) × (t' : Table K) × ((t.slots i).storage ≡ some a)
        × (eq a k ≡ true)
        × (erase eq hash t k ≡ ok (t', true))
        × (is_unoccupied (t'.slots i) ≡ true)
        × (t'.size ≡ t.size - 1)
        × ((k₂ : K) → eq a k₂ ≡ false → contains eq hash t' k₂ ≡ contains eq hash t k₂)
  unfolding find_index erase contains put_slot
  erase-contains t k i found =
      let m =
        find_loop-matches eq t.controller.table_size t.slots (hash_range t.controller (hash k))
          (hash k) k i found in
      let (a, e, q) = matches-node (t.slots i) (hash k) k m in
      (
        a,
        erased_at t i,
        e,
        q,
        rw found refl,
        ground arith,
        refl,
        λ k₂ ne.
            ap (λ x. x >>= λ o. elim o [ none ↦ ok false | some j ↦ ok true ])
              (find_loop-same eq t.controller.table_size t.slots (erased_at t i).slots
                (hash_range t.controller (hash k₂)) (hash k₂) k₂
                (λ j. same_answer t i a j k₂ e ne)),
      )
