-- ===== src/HashTable/Fits.antt =====
-- Sequences of puts on a map that return.
use libspl.Common.{
  ℕ, suc, ◌≡◌, ◌≢◌, refl, sym, ◌∙◌, ap, subst, Bool, List, [], ◌∷◌, ok, throw, element_not_found,
  ◌>>=◌, ◌⊎◌, inl, inr, Ensures,
}
use libspl.HashTable.Table.{Table, put_slot, find_or_get_free_index}
use libspl.HashTable.Nodes.{IsKeys, NoStale, find_index-cases}
use libspl.HashTable.Locate.{Located, find_or_get_free_index-Located}
use libspl.HashTable.Room.{HasRoom, Found-returns, HasRoom-returns}
use libspl.HashTable.Maps.{MapNode, key_of, node_key_eq, store_value, added, get, put, value_at}
use libspl.HashTable.Lookups.{IsMap, get-At, get-absent}
use libspl.HashTable.Updates.{Updated, put-Updated}

module _ {K V : Type 0} (keq : K → K → Bool) (hash : K → ℕ) where
  -- the key is there, or its range has room within `f` rounds
  abbrev pub FitsOne : ℕ → Table (MapNode K V) → K → Type 0
  FitsOne f t k = ((v : V) × (get keq hash t k ≡ ok v)) ⊎ HasRoom f t (hash k)

  -- so it is for one node after the other, in the tables that the puts before it return
  abbrev pub Fits : ℕ → Table (MapNode K V) → List (MapNode K V) → Type 0
  Fits f t [] = Unit
  Fits f t (n ∷ ns) =
      FitsOne f t n.k
      × ((t' : Table (MapNode K V)) → put keq hash f t n.k n.v ≡ ok t' → Fits f t' ns)

module _ {K V : Type 0} (keq : K → K → Bool) (hash : K → ℕ) (keys : IsKeys keq hash) where
  located :
      (f : ℕ) (t : Table (MapNode K V)) (k : K)
      → IsMap keq hash keys t
      → hash k ≢ 0
      → NoStale (hash k) t.slots
      → FitsOne keq hash (suc f) t k
      → (r : Table (MapNode K V) × ℕ) × (find_or_get_free_index
            (node_key_eq keq hash)
            (suc f)
            t
            (hash k)
            k
          ≡ ok r)
  located f t k w nz stale (inr room) =
      HasRoom-returns key_of keq hash keys (suc f) t k w nz stale room
  located f t k w nz stale (inl (v, there)) = elim (find_index-cases key_of keq hash keys t k w) [
    | inr (i, found) ↦ ((t, i), Found-returns key_of keq hash f t k i stale found)
    | inl missing ↦ absurd (
        let q : ok v ≡ throw element_not_found =
          sym there ∙ get-absent keq hash keys t k w missing.no_node in
        cc)
  ]

  put-goes :
      (f : ℕ) (t : Table (MapNode K V)) (k : K) (v : V) (r : Table (MapNode K V) × ℕ)
      → find_or_get_free_index (node_key_eq keq hash) f t (hash k) k ≡ ok r
      → Located key_of keq hash t k r
      → (t' : Table (MapNode K V)) × (put keq hash f t k v ≡ ok t')
  unfolding put
  put-goes f t k v r e l = elim l.slot [
    | inl found ↦ (
      record r.0 { slots = put_slot r.0.slots r.1 (store_value (r.0.slots r.1) found.node v) },
      rw e (rw found.live (rw found.stored refl)),
    )
    | inr (free, reached, absent) ↦ (added r.0 r.1 (hash k) k v, rw e (rw free refl))
  ]

  -- `put` of a key that is there, or that has room, returns
  pub put-fits :
      (f : ℕ) (t : Table (MapNode K V)) (k : K) (v : V)
      → IsMap keq hash keys t
      → hash k ≢ 0
      → NoStale (hash k) t.slots
      → FitsOne keq hash (suc f) t k
      → (t' : Table (MapNode K V)) × (put keq hash (suc f) t k v ≡ ok t')
        × Updated keq hash keys t k v t'
  put-fits f t k v w nz stale room =
      let (r, e) = located f t k w nz stale room in
      let l =
        subst (Ensures (Located key_of keq hash t k)) e
          (find_or_get_free_index-Located key_of keq hash keys (suc f) t k w nz stale) in
      let (t', p) = put-goes (suc f) t k v r e l in
      (
        t',
        p,
        subst (Ensures (Updated keq hash keys t k v)) p
            (put-Updated keq hash keys (suc f) t k v w nz stale),
      )

  -- `operator[]` of a key that is there leaves the map as it is
  pub value_at-there :
      (f : ℕ) (t : Table (MapNode K V)) (k : K) (default v : V)
      → IsMap keq hash keys t
      → NoStale (hash k) t.slots
      → get keq hash t k ≡ ok v
      → value_at keq hash (suc f) t default k ≡ ok (t, v)
  unfolding value_at
  value_at-there f t k default v w stale there =
      elim (find_index-cases key_of keq hash keys t k w) [
        | inr (i, found) ↦
            let e : ok found.node.v ≡ ok v =
              sym
                (get-At keq hash keys t k found.node w (i, found.live, found.stored) found.same_key)
              ∙ there in
            rw (Found-returns key_of keq hash f t k i stale found)
              (rw found.live (rw found.stored (ap (λ m. m >>= λ x. ok (t, x)) e)))
        | inl missing ↦ absurd (
            let q : ok v ≡ throw element_not_found =
              sym there ∙ get-absent keq hash keys t k w missing.no_node in
            cc)
      ]
