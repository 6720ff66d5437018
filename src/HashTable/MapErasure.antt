-- ===== src/HashTable/MapErasure.antt =====
-- `erase` and `remove` of the map.
use libspl.Common.{
  ℕ, ◌-◌, ◌≡◌, ◌≢◌, refl, sym, ◌∙◌, Bool, true, false, ok, throw, element_not_found, ◌>>=◌, arith,
  Bool-cases, inl, inr,
}
use libspl.HashTable.Table.{Table}
use libspl.HashTable.Nodes.{IsKeys, NoStale, Found, find_index-cases}
use libspl.HashTable.Releasing.{release-Freed}
use libspl.HashTable.Maps.{MapNode, key_of, released, get, erase, remove}
use libspl.HashTable.Lookups.{IsMap, get-Found, get-absent, get-same}
use libspl.HashTable.Updates.{unlike}

module _ {K V : Type 0} (keq : K → K → Bool) (hash : K → ℕ) (keys : IsKeys keq hash) where
  -- the map after `k` is erased
  pub record Erased (t : Table (MapNode K V)) (k : K) (r : Table (MapNode K V) × Bool)
      : Type 0 where
    pub well : IsMap keq hash keys r.0
    pub no_stale : (h : ℕ) → h ≢ hash k → NoStale h t.slots → NoStale h r.0.slots
    pub gone : get keq hash r.0 k ≡ throw element_not_found
    pub others : (k₂ : K) → keq k k₂ ≡ false → get keq hash r.0 k₂ ≡ get keq hash t k₂
    pub was_there : (v : V) → get keq hash t k ≡ ok v → (r.1 ≡ true) × (r.0.size ≡ t.size - 1)
    pub was_missing : get keq hash t k ≡ throw element_not_found → r ≡ (t, false)

  erased_at :
      (t : Table (MapNode K V)) (k : K) (i : ℕ)
      → IsMap keq hash keys t
      → Found key_of keq hash t k i
      → Erased t k (released t i, true)
  erased_at t k i w f =
      let n = f.node in
      let z = release-Freed key_of keq hash keys t.controller t.slots i n w.slots f.live f.stored in
      let t' = released t i in
      let w' : IsMap keq hash keys t' = record { controller = w.controller; slots = z.well } in
      let old = get-Found keq hash keys t k i f in
      record {
        well = w';
        no_stale = λ h ne stale. z.no_stale h (λ e. ne (e ∙ keys.alike n.k k f.same_key)) stale;
        gone = get-absent keq hash keys t' k w' (λ m a. elim (Bool-cases (keq m.k k)) [
          | inr no_ ↦ no_
          | inl yes_ ↦ absurd (
              let q = keys.trans m.k k n.k yes_ (keys.flip n.k k f.same_key) in
              let p = z.gone m a in ground (arith, p, q))
        ]);
        others = λ k₂ ne.
            get-same keq hash keys t t' k₂ w w'
              (λ m e. z.others m (unlike keq hash keys n.k k m.k k₂ f.same_key e ne));
        was_there = λ v e. (refl, refl);
        was_missing = λ e. absurd (let q : ok n.v ≡ throw element_not_found = sym old ∙ e in cc);
      }

  -- `erase` on a well-formed map returns a well-formed map where the key is missing and every other key
  -- has what it had; it tells whether the key was there, and then the size goes down by 1.
  pub erase-get :
      (t : Table (MapNode K V)) (k : K)
      → IsMap keq hash keys t
      → (r : Table (MapNode K V) × Bool) × (erase keq hash t k ≡ ok r) × Erased t k r
  unfolding erase
  erase-get t k w = elim (find_index-cases key_of keq hash keys t k w) [
    | inr (i, f) ↦ ((released t i, true), rw f.is_found refl, erased_at t k i w f)
    | inl missing ↦
        let none_ = get-absent keq hash keys t k w missing.no_node in
        (
          (t, false),
          rw missing.is_missing refl,
          record {
            well = w;
            no_stale = λ h ne stale. stale;
            gone = none_;
            others = λ k₂ ne. refl;
            was_there =
                λ v e. absurd (let q : ok v ≡ throw element_not_found = sym e ∙ none_ in cc);
            was_missing = λ e. refl;
          },
        )
  ]

  -- `remove` on a well-formed map is `get` followed by `erase`.
  pub remove-get :
      (t : Table (MapNode K V)) (k : K)
      → IsMap keq hash keys t
      → remove keq hash t k ≡ (get keq hash t k >>= λ v. erase keq hash t k >>= λ r. ok (r.0, v))
  unfolding remove get erase
  remove-get t k w = elim (find_index-cases key_of keq hash keys t k w) [
    | inr (i, f) ↦ rw f.is_found (rw f.stored refl)
    | inl missing ↦ rw missing.is_missing refl
  ]
