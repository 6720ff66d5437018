-- ===== src/HashTable/Room.antt =====
-- When `_findOrGetFreeIndex` returns: the key is there, or a slot of its range is free, if need be after
-- resizes.
use libspl.Common.{
  ◌+◌, ◌==◌, if◌then◌else◌, sym, true, false, Bool-cases, ℕ, zero, suc, ◌≡◌, ◌≢◌, refl, ◌∙◌, subst,
  Bool, ok, ◌⊎◌, inl, inr, Returns,
}
use libspl.HashTable.Controller.{HashRange, next, hash_range}
use libspl.HashTable.Table.{
  Slots, is_unoccupied, Table, put_slot, occupy, free_at, full, free_loop, find_or_get_free_index,
  resize,
}
use libspl.HashTable.Reach.{Visits}
use libspl.HashTable.Nodes.{IsKeys, NoStale, IsHashTable, Found, find_index-cases, eq}
use libspl.HashTable.Rehash.{Resized, resize-Resized}
use libspl.HashTable.Locate.{any-find}

module _ {N : Type 0} where
  -- A slot that the probe of the hash comes to is free, or the range is full, and so it is, for fewer
  -- rounds, in the table that the resize for its collisions returns.
  abbrev pub HasRoom : ℕ → Table N → ℕ → Type 0
  HasRoom zero t h = ⊥
  HasRoom (suc f) t h =
      ((i : ℕ) × Visits t.controller.table_size (hash_range t.controller h) i
        × (is_unoccupied (t.slots i) ≡ true))
      ⊎ ((c : ℕ) × (t' : Table N) × (free_loop t.controller.table_size t.slots
              (hash_range t.controller h) h 1
            ≡ ok (full c))
          × (resize t c ≡ ok t')
          × HasRoom f t' h)

  -- the second loop finds a free slot where it comes to one
  Visits-free :
      (f : ℕ) (s : Slots N) (r : HashRange) (h c i : ℕ)
      → Visits f r i
      → is_unoccupied (s i) ≡ true
      → (j : ℕ) × (free_loop f s r h c ≡ ok (free_at j))
  unfolding free_loop
  Visits-free zero s r h c i v free = absurd v
  Visits-free (suc f) s r h c i v free = elim (Bool-cases (is_unoccupied (s r.pos))) [
    | inl here ↦ (r.pos, rw here refl)
    | inr taken ↦ elim v [
      | inl e ↦ absurd (
          let q : true ≡ false =
            sym (subst (λ x. is_unoccupied (s x) ≡ true) (sym e) free) ∙ taken in
          cc)
      | inr (more, rest) ↦
          let (j, q) =
            Visits-free f s (next r) h (if (s r.pos).h == h then c + 1 else c) i rest free in
          (j, rw taken (rw more q))
    ]
  ]

module _ {N K : Type 0} (key : N → K) (keq : K → K → Bool) (hash : K → ℕ) where
  pub Found-returns :
      (f : ℕ) (t : Table N) (k : K) (i : ℕ)
      → NoStale (hash k) t.slots
      → Found key keq hash t k i
      → find_or_get_free_index (eq key keq hash) (suc f) t (hash k) k ≡ ok (t, i)
  unfolding find_or_get_free_index
  Found-returns f t k i stale found = rw (any-find key keq hash t k stale ∙ found.is_found) refl

  pub HasRoom-returns :
      (keys : IsKeys keq hash) (f : ℕ) (t : Table N) (k : K)
      → IsHashTable key keq hash t
      → hash k ≢ 0
      → NoStale (hash k) t.slots
      → HasRoom f t (hash k)
      → (r : Table N × ℕ) × (find_or_get_free_index (eq key keq hash) f t (hash k) k ≡ ok r)
  unfolding find_or_get_free_index
  HasRoom-returns keys zero t k w nz stale room = absurd room
  HasRoom-returns keys (suc f) t k w nz stale room =
      elim (find_index-cases key keq hash keys t k w) [
        | inr (i, found) ↦ ((t, i), rw (any-find key keq hash t k stale ∙ found.is_found) refl)
        | inl missing ↦ elim room [
          | inl (slot, reached, free) ↦
              let (i, e) =
                Visits-free t.controller.table_size t.slots (hash_range t.controller (hash k))
                  (hash k) 1 slot reached free in
              (
                (record t { slots = put_slot t.slots i (occupy (t.slots i)) }, i),
                rw (any-find key keq hash t k stale ∙ missing.is_missing) (rw e refl),
              )
          | inr (c, t', e, e', more) ↦
              let z : Resized key keq hash keys t t' =
                subst (Returns (Resized key keq hash keys t)) e'
                  (resize-Resized key keq hash keys t c w) in
              let (r, q) = HasRoom-returns keys f t' k z.well nz (z.no_stale (hash k) nz) more in
              (r, rw (any-find key keq hash t k stale ∙ missing.is_missing) (rw e (rw e' q)))
        ]
      ]
