-- ===== src/HashTable/Membership.antt =====
-- `contains` and `put` of the set.
use libspl.Common.{
  ℕ, suc, ◌+◌, ◌≡◌, ◌≢◌, refl, sym, ◌∙◌, ap, Bool, true, false, ◌&&◌, none, some, ok, ◌==◌, ◌>>=◌,
  arith, Bool-cases, Option-cases, inl, inr,
}
use libspl.HashTable.Controller.{hash_range}
use libspl.HashTable.Growth.{IsController}
use libspl.HashTable.Table.{
  Slot, Table, put_slot, is_unoccupied, is_occupied, set, occupy, matches, find_index,
  find_any_loop, free_at, free_loop, find_or_get_free_index,
}
use libspl.HashTable.Sets.{put, contains}
use libspl.HashTable.Probes.{
  find_loop-same, find_any_loop-find, find_loop-put, find_loop-ends, free_loop-unoccupied,
  hash_range-IsRange, distance-le,
}

module _ {K : Type 0} (eq : K → K → Bool) (hash : K → ℕ) where
  -- the sizes agree, and an occupied slot has a node
  pub record IsTable (t : Table K) : Type 0 where
    pub controller : IsController t.controller
    pub nodes : (i : ℕ) → is_occupied (t.slots i) ≡ true → (k : K) × ((t.slots i).storage ≡ some k)

  defined :
      (s : Slot K) (h : ℕ) (k : K)
      → (is_occupied s ≡ true → (a : K) × (s.storage ≡ some a))
      → (b : Bool) × (matches eq s h k ≡ ok b)
  unfolding matches
  defined s h k node = elim (Bool-cases (is_occupied s && (s.h == h))) [
    | inl e ↦ let (a, e') = node (ground (arith, e)) in (eq a k, rw e (rw e' refl))
    | inr e ↦ (false, rw e refl)
  ]

  -- `contains` on a well-formed table ends within the table's size.
  pub contains-ends : (t : Table K) (k : K) → IsTable t → (b : Bool) × (contains eq hash t k ≡ ok b)
  unfolding contains find_index hash_range
  contains-ends t k w =
      let r = hash_range-IsRange t.controller (hash k) w.controller in
      let (o, e) =
        find_loop-ends eq t.controller.table_size t.slots (hash_range t.controller (hash k))
          (hash k) k r (distance-le (hash_range t.controller (hash k)) r).1
          (λ i. defined (t.slots i) (hash k) k (w.nodes i)) in
      elim (Option-cases o) [
        | inl none_ ↦ (false, rw (e ∙ ap ok none_) refl)
        | inr (j, found) ↦ (true, rw (e ∙ ap ok found) refl)
      ]

  -- the slots after `put` at a free slot
  abbrev pub put_at : Table K → ℕ → K → Table K
  put_at t i k = record t {
    slots = put_slot (put_slot t.slots i (occupy (t.slots i))) i (set (hash k) k);
    size = t.size + 1;
  }

  put-runs :
      (f : ℕ) (t : Table K) (k : K) (i : ℕ)
      → find_any_loop eq t.controller.table_size t.slots
          (hash_range t.controller (hash k))
          (hash k)
          k
        ≡ ok none
      → free_loop t.controller.table_size t.slots (hash_range t.controller (hash k)) (hash k) 1
        ≡ ok (free_at i)
      → put eq hash (suc f) t k ≡ ok (put_at t i k)
  unfolding put find_or_get_free_index put_slot
  put-runs f t k i none_ free = ground (arith, none_, free)

  slot-other : (t : Table K) (i : ℕ) (k : K) (j : ℕ) → j ≢ i → (put_at t i k).slots j ≡ t.slots j
  unfolding put_slot
  slot-other t i k j ne = ground arith

  slot-same : (t : Table K) (i : ℕ) (k : K) → (put_at t i k).slots i ≡ set (hash k) k
  unfolding put_slot
  slot-same t i k = ground arith

  matches-set :
      (k : K) (h : ℕ) (k₂ : K) → eq k k₂ ≡ false → matches eq (set (hash k) k) h k₂ ≡ ok false
  unfolding matches
  matches-set k h k₂ ne = elim (Bool-cases (hash k == h)) [
    | inl e ↦ rw e (ap ok ne)
    | inr e ↦ rw e refl
  ]

  pub matches-unused :
      (s : Slot K) (h : ℕ) (k : K) → is_unoccupied s ≡ true → matches eq s h k ≡ ok false
  unfolding matches
  matches-unused s h k u = ground arith

  matches_self : (k : K) → eq k k ≡ true → matches eq (set (hash k) k) (hash k) k ≡ ok true
  unfolding matches
  matches_self k e = let same : (hash k == hash k) ≡ true = ground arith in rw same (ap ok e)

  same_answer :
      (t : Table K) (i : ℕ) (k : K) (j : ℕ) (k₂ : K)
      → eq k k₂ ≡ false
      → is_unoccupied (t.slots i) ≡ true
      → matches eq ((put_at t i k).slots j) (hash k₂) k₂ ≡ matches eq (t.slots j) (hash k₂) k₂
  same_answer t i k j k₂ ne unused = elim (Bool-cases (j == i)) [
    | inl e ↦
        let e' : j ≡ i = ground (arith, e) in
        ap (λ x. matches eq ((put_at t i k).slots x) (hash k₂) k₂) e'
        ∙ ap (λ s. matches eq s (hash k₂) k₂) (slot-same t i k)
        ∙ matches-set k (hash k₂) k₂ ne
        ∙ sym (
            ap (λ x. matches eq (t.slots x) (hash k₂) k₂) e'
            ∙ matches-unused (t.slots i) (hash k₂) k₂ unused)
    | inr e ↦ ap (λ s. matches eq s (hash k₂) k₂) (slot-other t i k j (λ q. ground (arith, e, q)))
  ]

  -- A key that a well-formed table lacks, and that has a free slot in its range and no erased slot of
  -- its hash, is put: the size counts it, `contains` finds it, and answers as before on every other key.
  pub put-contains :
      (f : ℕ) (t : Table K) (k : K) (i : ℕ)
      → IsTable t
      → eq k k ≡ true
      → ((j : ℕ) → ((t.slots j).h == hash k) ≡ true → is_occupied (t.slots j) ≡ true)
      → find_index eq t (hash k) k ≡ ok none
      → free_loop t.controller.table_size t.slots (hash_range t.controller (hash k)) (hash k) 1
        ≡ ok (free_at i)
      → (t' : Table K) × (put eq hash (suc f) t k ≡ ok t')
        × (t'.size ≡ t.size + 1)
        × (contains eq hash t' k ≡ ok true)
        × ((k₂ : K) → eq k k₂ ≡ false → contains eq hash t' k₂ ≡ contains eq hash t k₂)
  unfolding contains find_index
  put-contains f t k i w self fresh absent room =
      let r = hash_range t.controller (hash k) in
      let n = t.controller.table_size in
      let t' = put_at t i k in
      let unused = free_loop-unoccupied eq n t.slots r (hash k) 1 i room in
      let found =
        find_loop-put eq n t.slots t'.slots r (hash k) k 1 i absent room
          (ap (λ s. matches eq s (hash k) k) (slot-same t i k) ∙ matches_self k self)
          (slot-other t i k) in
      (
        t',
        put-runs f t k i (find_any_loop-find eq n t.slots r (hash k) k fresh ∙ absent) room,
        refl,
        rw found refl,
        λ k₂ ne.
            ap (λ x. x >>= λ o. elim o [ none ↦ ok false | some j ↦ ok true ])
              (find_loop-same eq n t.slots t'.slots (hash_range t.controller (hash k₂)) (hash k₂) k₂
                (λ j. same_answer t i k j k₂ ne unused)),
      )
