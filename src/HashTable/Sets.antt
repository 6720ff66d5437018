-- ===== src/HashTable/Sets.antt =====
-- The operations of `HashSet` (include/hash_set.h), for one thread.
use libspl.Common.{
  ℕ, ◌+◌, ◌-◌, Bool, true, false, none, some, List, [], ◌∷◌, Run, ok, throw, element_not_found,
  or_fault, if◌then◌else◌, ◌>>=◌,
}
use libspl.HashTable.Controller.{hash_range}
use libspl.HashTable.Table.{
  Table, put_slot, is_occupied, set, release, find_index, find_or_get_free_index,
}
use libspl.HashTable.Wholes.{foreach_loop}

module _ {K : Type 0} where
  -- `_table[i].release(); --_size;`
  abbrev pub released : Table K → ℕ → Table K
  released t i = record t { slots = put_slot t.slots i (release (t.slots i)); size = t.size - 1 }

  abbrev pub key_at : Table K → ℕ → Run K
  key_at t i = or_fault (t.slots i).storage

  module _ (eq : K → K → Bool) (hash : K → ℕ) where
    unfoldable pub put : ℕ → Table K → K → Run (Table K)
    put f t k = find_or_get_free_index eq f t (hash k) k >>= λ r.
        let (t', i) = r in
        ok (
          if is_occupied (t'.slots i)
          then t'
          else record t' { slots = put_slot t'.slots i (set (hash k) k); size = t'.size + 1 })

    unfoldable pub put_all : ℕ → Table K → List K → Run (Table K)
    put_all f t [] = ok t
    put_all f t (k ∷ ks) = put f t k >>= λ t'. put_all f t' ks

    unfoldable pub contains : Table K → K → Run Bool
    contains t k = find_index eq t (hash k) k >>= λ i. elim i [ none ↦ ok false | some j ↦ ok true ]

    unfoldable pub get : Table K → K → Run K
    get t k = find_index eq t (hash k) k >>= λ i. elim i [
      | none ↦ throw element_not_found
      | some j ↦ key_at t j
    ]

    unfoldable pub get_or : Table K → K → K → Run K
    get_or t k default =
        find_index eq t (hash k) k >>= λ i. elim i [ none ↦ ok default | some j ↦ key_at t j ]

    unfoldable pub erase : Table K → K → Run (Table K × Bool)
    erase t k = find_index eq t (hash k) k >>= λ i. elim i [
      | none ↦ ok (t, false)
      | some j ↦ ok (released t j, true)
    ]

    -- `erase(k, predicate)`
    unfoldable pub erase_if : Table K → K → (K → Bool) → Run (Table K × Bool)
    erase_if t k predicate = find_index eq t (hash k) k >>= λ i. elim i [
      | none ↦ ok (t, false)
      | some j ↦ key_at t j >>= λ n. ok (if predicate n then (released t j, true) else (t, false))
    ]

    unfoldable pub remove : Table K → K → Run (Table K × K)
    remove t k = find_index eq t (hash k) k >>= λ i. elim i [
      | none ↦ throw element_not_found
      | some j ↦ key_at t j >>= λ n. ok (released t j, n)
    ]

    -- `remove(k, predicate)`
    unfoldable pub remove_if : Table K → K → (K → Bool) → Run (Table K × K)
    remove_if t k predicate = find_index eq t (hash k) k >>= λ i. elim i [
      | none ↦ throw element_not_found
      | some j ↦
          key_at t j >>= λ n. if predicate n then ok (released t j, n) else throw element_not_found
    ]

    -- `foreach(k, f)`, on fuel: the keys that `f` is called with
    unfoldable pub foreach : ℕ → Table K → K → Run (List K)
    foreach f t k = foreach_loop eq f t (hash_range t.controller (hash k)) (hash k) k
