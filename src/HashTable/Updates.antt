-- ===== src/HashTable/Updates.antt =====
-- `put` of the map: the key has the value, and the other keys have what they had.
use libspl.Common.{
  ℕ, suc, ◌+◌, ◌≡◌, ◌≢◌, refl, sym, ◌∙◌, ap, subst, Bool, true, false, ok, throw, element_not_found,
  arith, Bool-cases, ◌⊎◌, inl, inr, Ensures, Ensures-next,
}
use libspl.HashTable.Controller.{hash_range}
use libspl.HashTable.Table.{
  Table, put_slot, is_occupied, occupy, find_or_get_free_index, free_loop, free_at,
}
use libspl.HashTable.Reach.{Visits}
use libspl.HashTable.Nodes.{IsKeys, At, NoStale, Found, find_index-cases}
use libspl.HashTable.Placing.{put_slot-same, put_slot-Puts}
use libspl.HashTable.Replacing.{replace-Replaced}
use libspl.HashTable.Locate.{Located, find_or_get_free_index-Located, any-find}
use libspl.HashTable.Maps.{MapNode, map_node, key_of, node_key_eq, store_value, added, get, put}
use libspl.HashTable.Lookups.{IsMap, get-At, get-absent, get-same}

module _ {K : Type 0} (keq : K → K → Bool) (hash : K → ℕ) (keys : IsKeys keq hash) where
  -- a node of another key is not of the node's key
  pub unlike :
      (a k b k₂ : K) → keq a k ≡ true → keq b k₂ ≡ true → keq k k₂ ≡ false → keq b a ≡ false
  unlike a k b k₂ e e₂ ne = elim (Bool-cases (keq b a)) [
    | inr no_ ↦ no_
    | inl yes_ ↦ absurd (
        let bk = keys.trans b a k yes_ e in
        let q = keys.trans k b k₂ (keys.flip b k bk) e₂ in ground (arith, q, ne))
  ]

module _ {K V : Type 0} (keq : K → K → Bool) (hash : K → ℕ) (keys : IsKeys keq hash) where
  -- the map after `k` is given the value `v`
  pub record Updated (t : Table (MapNode K V)) (k : K) (v : V) (t' : Table (MapNode K V))
      : Type 0 where
    pub well : IsMap keq hash keys t'
    pub no_stale : (h : ℕ) → h ≢ 0 → NoStale h t.slots → NoStale h t'.slots
    pub here : get keq hash t' k ≡ ok v
    pub others : (k₂ : K) → keq k k₂ ≡ false → get keq hash t' k₂ ≡ get keq hash t k₂
    pub size_new : get keq hash t k ≡ throw element_not_found → t'.size ≡ t.size + 1
    pub size_old : (v₀ : V) → get keq hash t k ≡ ok v₀ → t'.size ≡ t.size

  overwritten :
      (t t' : Table (MapNode K V)) (k : K) (v : V) (i : ℕ) (f : Found key_of keq hash t' k i)
      → IsMap keq hash keys t
      → Located key_of keq hash t k (t', i)
      → Updated t k v
          (record t' { slots = put_slot t'.slots i (store_value (t'.slots i) f.node v) })
  overwritten t t' k v i f w l =
      let c = t'.controller in
      let n = map_node f.node.k v in
      let z =
        replace-Replaced key_of keq hash keys c t'.slots i f.node n l.well.slots f.live f.stored
          refl in
      let t'' = record t' { slots = put_slot t'.slots i (store_value (t'.slots i) f.node v) } in
      let w'' : IsMap keq hash keys t'' = record {
        controller = l.well.controller;
        slots = z.well;
      } in
      let old =
        get-At keq hash keys t k f.node w ((l.same f.node).1 (i, f.live, f.stored)) f.same_key in
      record {
        well = w'';
        no_stale = λ h nz stale. z.no_stale h (l.no_stale h nz stale);
        here = get-At keq hash keys t'' k n w'' z.here f.same_key;
        others = λ k₂ ne. get-same keq hash keys t t'' k₂ w w'' (λ m e.
            let o = z.others m (unlike keq hash keys f.node.k k m.k k₂ f.same_key e ne) in
            ((λ a. o.0 ((l.same m).0 a)), (λ a. (l.same m).1 (o.1 a))));
        size_new = λ e. absurd (let q : ok f.node.v ≡ throw element_not_found = sym old ∙ e in cc);
        size_old = λ v₀ e. l.size;
      }

  new_node :
      (t t' : Table (MapNode K V)) (k : K) (v : V) (i : ℕ)
      → is_occupied (t'.slots i) ≡ false
      → Visits t'.controller.table_size (hash_range t'.controller (hash k)) i
      → ((n : MapNode K V) → At t'.slots n → keq n.k k ≡ false)
      → IsMap keq hash keys t
      → Located key_of keq hash t k (t', i)
      → Updated t k v (added t' i (hash k) k v)
  new_node t t' k v i free reached absent w l =
      let n = map_node k v in
      let z =
        put_slot-Puts key_of keq hash keys t'.controller t'.slots i n l.well.slots free reached
          absent in
      let t'' = added t' i (hash k) k v in
      let w'' : IsMap keq hash keys t'' = record {
        controller = l.well.controller;
        slots = z.well;
      } in
      let none_ = get-absent keq hash keys t k w (λ m a. absent m ((l.same m).0 a)) in
      record {
        well = w'';
        no_stale = λ h nz stale. z.no_stale h (l.no_stale h nz stale);
        here = get-At keq hash keys t'' k n w'' z.here (keys.self k);
        others = λ k₂ ne. get-same keq hash keys t t'' k₂ w w'' (λ m e. (
          (λ a. z.keeps m ((l.same m).0 a)),
          (λ a. elim (z.only m a) [
            | inl before ↦ (l.same m).1 before
            | inr same ↦
                absurd (let q = subst (λ x. keq x.k k₂ ≡ true) same e in ground (arith, q, ne))
          ]),
        ));
        size_new = λ e. ap (λ x. x + 1) l.size;
        size_old = λ v₀ e. absurd (let q : ok v₀ ≡ throw element_not_found = sym e ∙ none_ in cc);
      }

  -- `put` on a well-formed map, of a key whose hash is not 0 and is the hash of no erased node, ends in a
  -- well-formed map where the key has the value and every other key has what it had, through any number
  -- of resizes; or it throws the number 0.
  pub put-Updated :
      (f : ℕ) (t : Table (MapNode K V)) (k : K) (v : V)
      → IsMap keq hash keys t
      → hash k ≢ 0
      → NoStale (hash k) t.slots
      → Ensures (Updated t k v) (put keq hash f t k v)
  unfolding put
  put-Updated f t k v w nz stale =
      Ensures-next (Located key_of keq hash t k) (Updated t k v)
        (find_or_get_free_index (node_key_eq keq hash) f t (hash k) k) _
        (find_or_get_free_index-Located key_of keq hash keys f t k w nz stale)
        (λ r l. elim l.slot [
          | inl found ↦ rw found.live (rw found.stored (overwritten t r.0 k v r.1 found w l))
          | inr (free, reached, absent) ↦ rw free (new_node t r.0 k v r.1 free reached absent w l)
        ])

  -- where the key is there, or a free slot is in its range, `put` returns without a resize
  pub put-returns :
      (f : ℕ) (t : Table (MapNode K V)) (k : K) (v : V)
      → IsMap keq hash keys t
      → NoStale (hash k) t.slots
      → ((v₀ : V) × (get keq hash t k ≡ ok v₀))
        ⊎ ((i : ℕ) × (free_loop t.controller.table_size t.slots
                (hash_range t.controller (hash k))
                (hash k)
                1
              ≡ ok (free_at i)))
      → (t' : Table (MapNode K V)) × (put keq hash (suc f) t k v ≡ ok t')
  unfolding put find_or_get_free_index
  put-returns f t k v w stale room = elim (find_index-cases key_of keq hash keys t k w) [
    | inr (i, found) ↦ (
      record t { slots = put_slot t.slots i (store_value (t.slots i) found.node v) },
      rw (any-find key_of keq hash t k stale ∙ found.is_found)
          (rw found.live (rw found.stored refl)),
    )
    | inl missing ↦ elim room [
      | inl (v₀, e) ↦ absurd (
          let q : ok v₀ ≡ throw element_not_found =
            sym e ∙ get-absent keq hash keys t k w missing.no_node in
          cc)
      | inr (i, e) ↦ (
        added (record t { slots = put_slot t.slots i (occupy (t.slots i)) }) i (hash k) k v,
        rw (any-find key_of keq hash t k stale ∙ missing.is_missing) (
            rw e
              (rw (ap (λ x. is_occupied x) (put_slot-same t.slots i (occupy (t.slots i)))) refl)),
      )
    ]
  ]

  -- `put` on a well-formed map, of a key whose hash is not 0 and is the hash of no erased node: it
  -- returns where the key is there or a free slot is in its range; and wherever it returns, through any
  -- number of resizes, the map is well formed, the key has the value, every other key has what it had,
  -- and the size grows by 1 exactly when the key was missing.
  pub put-get :
      (t : Table (MapNode K V)) (k : K) (v : V)
      → IsMap keq hash keys t
      → hash k ≢ 0
      → NoStale (hash k) t.slots
      → ((f : ℕ) → Ensures (Updated t k v) (put keq hash f t k v))
        × (((v₀ : V) × (get keq hash t k ≡ ok v₀))
              ⊎ ((i : ℕ) × (free_loop t.controller.table_size t.slots
                      (hash_range t.controller (hash k))
                      (hash k)
                      1
                    ≡ ok (free_at i)))
            → (f : ℕ) → (t' : Table (MapNode K V)) × (put keq hash (suc f) t k v ≡ ok t'))
  put-get t k v w nz stale =
      ((λ f. put-Updated f t k v w nz stale), (λ room f. put-returns f t k v w stale room))
