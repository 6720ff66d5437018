-- ===== src/HashTable/Maps.antt =====
-- `HashMap` of include/hash_map.h, for one thread.
use libspl.Common.{
  ℕ, ◌+◌, ◌-◌, Bool, true, false, none, some, List, [], ◌∷◌, Run, ok, throw, element_not_found,
  or_fault, if◌then◌else◌, ◌>>=◌,
}
use libspl.HashTable.Controller.{hash_range}
use libspl.HashTable.Table.{
  Slot, Table, put_slot, is_occupied, set, release, find_index, find_or_get_free_index,
}
use libspl.HashTable.Wholes.{foreach_loop}

pub record MapNode (K V : Type 0) : Type 0 where
  pub k : K
  pub v : V

abbrev pub map_node : {K V : Type 0} → K → V → MapNode K V
map_node k v = record { k = k; v = v }

abbrev pub key_of : {K V : Type 0} → MapNode K V → K
key_of n = n.k

module _ {K V : Type 0} where
  -- `storage.n` of the slot
  abbrev pub node_at : Table (MapNode K V) → ℕ → Run (MapNode K V)
  node_at t i = or_fault (t.slots i).storage

  abbrev pub store_value : Slot (MapNode K V) → MapNode K V → V → Slot (MapNode K V)
  store_value s n v = record s { storage = some (map_node n.k v) }

  -- `_table[i].release(); --_size;`
  abbrev pub released : Table (MapNode K V) → ℕ → Table (MapNode K V)
  released t i = record t { slots = put_slot t.slots i (release (t.slots i)); size = t.size - 1 }

  -- `_table[i].set(h, {k, v}); ++_size;`
  abbrev pub added : Table (MapNode K V) → ℕ → ℕ → K → V → Table (MapNode K V)
  added t i h k v = record t {
    slots = put_slot t.slots i (set h (map_node k v));
    size = t.size + 1;
  }

  module _ (keq : K → K → Bool) (hash : K → ℕ) where
    -- `HashMapNodeKeyEqual`
    abbrev pub node_key_eq : MapNode K V → K → Bool
    node_key_eq n k = keq n.k k

    unfoldable pub contains : Table (MapNode K V) → K → Run Bool
    contains t k =
        find_index node_key_eq t (hash k) k >>= λ i. elim i [ none ↦ ok false | some j ↦ ok true ]

    unfoldable pub get_node : Table (MapNode K V) → K → Run (MapNode K V)
    get_node t k = find_index node_key_eq t (hash k) k >>= λ i. elim i [
      | none ↦ throw element_not_found
      | some j ↦ node_at t j
    ]

    unfoldable pub get : Table (MapNode K V) → K → Run V
    get t k = find_index node_key_eq t (hash k) k >>= λ i. elim i [
      | none ↦ throw element_not_found
      | some j ↦ node_at t j >>= λ n. ok n.v
    ]

    unfoldable pub get_or : Table (MapNode K V) → K → V → Run V
    get_or t k default = find_index node_key_eq t (hash k) k >>= λ i. elim i [
      | none ↦ ok default
      | some j ↦ node_at t j >>= λ n. ok n.v
    ]

    -- `put(k, v)`, on fuel for the resizes
    unfoldable pub put : ℕ → Table (MapNode K V) → K → V → Run (Table (MapNode K V))
    put f t k v = find_or_get_free_index node_key_eq f t (hash k) k >>= λ r.
        let (t', i) = r in
        if is_occupied (t'.slots i)
        then (node_at t' i >>= λ n.
            ok (record t' { slots = put_slot t'.slots i (store_value (t'.slots i) n v) }))
        else ok (added t' i (hash k) k v)

    unfoldable pub put_all :
        ℕ → Table (MapNode K V) → List (MapNode K V) → Run (Table (MapNode K V))
    put_all f t [] = ok t
    put_all f t (n ∷ ns) = put f t n.k n.v >>= λ t'. put_all f t' ns

    -- `operator[](k)`: the table, and the value that the reference refers to
    unfoldable pub value_at : ℕ → Table (MapNode K V) → V → K → Run (Table (MapNode K V) × V)
    value_at f t default k = find_or_get_free_index node_key_eq f t (hash k) k >>= λ r.
        let (t', i) = r in
        let t'' = if is_occupied (t'.slots i) then t' else added t' i (hash k) k default in
        node_at t'' i >>= λ n. ok (t'', n.v)

    -- `operator[](k) const`
    unfoldable pub const_value_at : Table (MapNode K V) → K → Run V
    const_value_at t k = find_index node_key_eq t (hash k) k >>= λ i. elim i [
      | none ↦ throw element_not_found
      | some j ↦ node_at t j >>= λ n. ok n.v
    ]

    unfoldable pub erase : Table (MapNode K V) → K → Run (Table (MapNode K V) × Bool)
    erase t k = find_index node_key_eq t (hash k) k >>= λ i. elim i [
      | none ↦ ok (t, false)
      | some j ↦ ok (released t j, true)
    ]

    -- `erase(k, predicate)`
    unfoldable pub erase_if :
        Table (MapNode K V) → K → (MapNode K V → Bool) → Run (Table (MapNode K V) × Bool)
    erase_if t k predicate = find_index node_key_eq t (hash k) k >>= λ i. elim i [
      | none ↦ ok (t, false)
      | some j ↦ node_at t j >>= λ n. ok (if predicate n then (released t j, true) else (t, false))
    ]

    unfoldable pub remove : Table (MapNode K V) → K → Run (Table (MapNode K V) × V)
    remove t k = find_index node_key_eq t (hash k) k >>= λ i. elim i [
      | none ↦ throw element_not_found
      | some j ↦ node_at t j >>= λ n. ok (released t j, n.v)
    ]

    -- `remove(k, predicate)`
    unfoldable pub remove_if :
        Table (MapNode K V) → K → (MapNode K V → Bool) → Run (Table (MapNode K V) × V)
    remove_if t k predicate = find_index node_key_eq t (hash k) k >>= λ i. elim i [
      | none ↦ throw element_not_found
      | some j ↦ node_at t j >>= λ n.
          if predicate n then ok (released t j, n.v) else throw element_not_found
    ]

    unfoldable pub remove_node : Table (MapNode K V) → K → Run (Table (MapNode K V) × MapNode K V)
    remove_node t k = find_index node_key_eq t (hash k) k >>= λ i. elim i [
      | none ↦ throw element_not_found
      | some j ↦ node_at t j >>= λ n. ok (released t j, n)
    ]

    -- `removeNode(k, predicate)`
    unfoldable pub remove_node_if :
        Table (MapNode K V) → K → (MapNode K V → Bool) → Run (Table (MapNode K V) × MapNode K V)
    remove_node_if t k predicate = find_index node_key_eq t (hash k) k >>= λ i. elim i [
      | none ↦ throw element_not_found
      | some j ↦
          node_at t j >>= λ n. if predicate n then ok (released t j, n) else throw element_not_found
    ]

    -- `foreach(k, f)`, on fuel
    unfoldable pub foreach : ℕ → Table (MapNode K V) → K → Run (List (MapNode K V))
    foreach f t k = foreach_loop node_key_eq f t (hash_range t.controller (hash k)) (hash k) k
