-- ===== src/HashTable/Filling.antt =====
-- New, cleared and copied maps, and maps filled from a sequence: an association list says what they hold.
use native.Mathlib.Nat.{div-one}
use libspl.Common.{
  ℕ, suc, ◌≤◌, ◌≡◌, ◌≢◌, refl, sym, ◌∙◌, ap, subst, Bool, true, false, List, [], ◌∷◌, Run, ok,
  throw, element_not_found, ltb, if◌then◌else◌, arith, Bool-cases, inl, inr, All, Returns,
  Returns-map,
}
use libspl.HashTable.Controller.{Controller, init}
use libspl.HashTable.Growth.{IsController}
use libspl.HashTable.Table.{Table}
use libspl.HashTable.Nodes.{IsKeys, At, NoStale, find_index-cases}
use libspl.HashTable.Rehash.{Resized, rehashed}
use libspl.HashTable.Wholes.{allocated, new_table, copy, minimum_table_size}
use libspl.HashTable.Maps.{MapNode, key_of, get, put_all}
use libspl.HashTable.Lookups.{IsMap, get-At, get-absent, get-same}
use libspl.HashTable.Updates.{Updated}
use libspl.HashTable.Fits.{Fits, put-fits}

-- what a list of nodes, each overriding the ones before it, says of a key
abbrev pub override : {K V : Type 0} → (K → K → Bool) → List (MapNode K V) → K → Run V → Run V
override keq [] k r = r
override keq (n ∷ ns) k r = override keq ns k (if keq n.k k then ok n.v else r)

pub init-IsController : (n : ℕ) → 1 ≤ n → IsController (init n)
unfolding init
init-IsController n le =
    let e = div-one n in
    record { product = refl; buckets = subst (λ x. 1 ≤ x) (sym e) le; bucket = omega arith }

new_table-NoStale : (N : Type 0) (size h : ℕ) → h ≢ 0 → NoStale h (new_table {N = N} size).slots
unfolding new_table
new_table-NoStale N size h z i free e = z (sym e)

module _ {K V : Type 0} (keq : K → K → Bool) (hash : K → ℕ) (keys : IsKeys keq hash) where
  pub allocated-IsMap :
      (c : Controller) → IsController c → IsMap {V = V} keq hash keys (allocated c)
  allocated-IsMap c w = record {
    controller = w;
    slots = record { nodes = λ i live. absurd cc; distinct = λ i j n m live. absurd cc };
  }

  -- equal keys have the same value
  get-respects :
      (t : Table (MapNode K V)) (a b : K)
      → IsMap keq hash keys t
      → keq a b ≡ true
      → get keq hash t a ≡ get keq hash t b
  get-respects t a b w e = elim (find_index-cases key_of keq hash keys t a w) [
    | inl missing ↦
        get-absent keq hash keys t a w missing.no_node
        ∙ sym (
            get-absent keq hash keys t b w (λ n at. elim (Bool-cases (keq n.k b)) [
              | inr no_ ↦ no_
              | inl yes_ ↦ absurd (
                  let q = keys.trans n.k b a yes_ (keys.flip a b e) in
                  let p = missing.no_node n at in ground (arith, p, q))
            ]))
    | inr (i, f) ↦
        let at : At t.slots f.node = (i, f.live, f.stored) in
        get-At keq hash keys t a f.node w at f.same_key
        ∙ sym (get-At keq hash keys t b f.node w at (keys.trans f.node.k a b f.same_key e))
  ]

  pub record Filled (t : Table (MapNode K V)) (ns : List (MapNode K V)) (t' : Table (MapNode K V))
      : Type 0 where
    pub well : IsMap keq hash keys t'
    pub no_stale : (h : ℕ) → h ≢ 0 → NoStale h t.slots → NoStale h t'.slots
    pub says : (k : K) → get keq hash t' k ≡ override keq ns k (get keq hash t k)

  put_all-Filled :
      (f : ℕ) (ns : List (MapNode K V)) (t : Table (MapNode K V))
      → IsMap keq hash keys t
      → All (λ n. hash n.k ≢ 0) ns
      → ((h : ℕ) → h ≢ 0 → NoStale h t.slots)
      → Fits keq hash (suc f) t ns
      → (t' : Table (MapNode K V)) × (put_all keq hash (suc f) t ns ≡ ok t') × Filled t ns t'
  unfolding put_all
  put_all-Filled f [] t w nz stale fit =
      (t, refl, record { well = w; no_stale = λ h z s. s; says = λ k. refl })
  put_all-Filled f (n ∷ ns) t w (z, nz) stale (room, fit) =
      let (t', e, u) = put-fits keq hash keys f t n.k n.v w z (stale (hash n.k) z) room in
      let (t'', e', l) =
        put_all-Filled f ns t' u.well nz (λ h y. u.no_stale h y (stale h y)) (fit t' e) in
      (
        t'',
        rw e e',
        record {
          well = l.well;
          no_stale = λ h y s. l.no_stale h y (u.no_stale h y s);
          says = λ k. l.says k ∙ ap (override keq ns k) (now t t' n k u);
        },
      )
    where
      now :
          (t t' : Table (MapNode K V)) (n : MapNode K V) (k : K)
          → Updated keq hash keys t n.k n.v t'
          → get keq hash t' k ≡ (if keq n.k k then ok n.v else get keq hash t k)
      now t t' n k u = elim (Bool-cases (keq n.k k)) [
        | inl yes_ ↦ rw yes_ (sym (get-respects t' n.k k u.well yes_) ∙ u.here)
        | inr no_ ↦ rw no_ (u.others k no_)
      ]

  new_table-IsMap : (size : ℕ) → IsMap {V = V} keq hash keys (new_table size)
  unfolding new_table
  new_table-IsMap size =
      let n = if ltb size minimum_table_size then minimum_table_size else size in
      allocated-IsMap (init n) (init-IsController n (ground arith))

  new_table-empty :
      (size : ℕ) (k : K) (m : MapNode K V) → At (new_table size).slots m → keq m.k k ≡ false
  unfolding new_table
  new_table-empty size k m (i, live, stored) = absurd cc

  -- A new map is filled with a sequence of nodes, whose hashes are not 0, where at each node the key is
  -- there already or a slot in the range of its hash is free, at once or after at most `f` resizes: this
  -- returns, and the map is well formed, has no erased nodes, and gives for every key the value of the
  -- last node with that key, or throws that there is none.
  pub put_all-override :
      (f size : ℕ) (ns : List (MapNode K V))
      → All (λ n. hash n.k ≢ 0) ns
      → Fits keq hash (suc f) (new_table size) ns
      → (t : Table (MapNode K V)) × (put_all keq hash (suc f) (new_table size) ns ≡ ok t)
        × IsMap keq hash keys t
        × ((h : ℕ) → h ≢ 0 → NoStale h t.slots)
        × ((k : K) → get keq hash t k ≡ override keq ns k (throw element_not_found))
  put_all-override f size ns nz fit =
      let w = new_table-IsMap size in
      let none_ =
        λ (k : K). get-absent keq hash keys (new_table size) k w (new_table-empty size k) in
      let (t, e, l) =
        put_all-Filled f ns (new_table size) w nz (new_table-NoStale (MapNode K V) size) fit in
      (
        t,
        e,
        l.well,
        (λ h z. l.no_stale h z (new_table-NoStale (MapNode K V) size h z)),
        λ k. l.says k ∙ ap (override keq ns k) (none_ k),
      )

  -- A copy of a well-formed map, where it is built without the number 0 thrown, is well formed and gives
  -- the same for every key.
  pub copy-get :
      (t : Table (MapNode K V))
      → IsMap keq hash keys t
      → Returns
          (λ t'.
            IsMap keq hash keys t'
            × (t'.size ≡ t.size)
            × ((k : K) → get keq hash t' k ≡ get keq hash t k))
          (copy t)
  unfolding copy
  copy-get t w =
      Returns-map (Resized key_of keq hash keys t) _ (copy t)
        (rehashed key_of keq hash keys t t.controller w w.controller)
        (λ t' z. (z.well, z.size, λ k. get-same keq hash keys t t' k w z.well (λ n e. z.same n)))
