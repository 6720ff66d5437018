-- ===== src/HashTable/MapTests.antt =====
-- Runs of the map and of whole tables, and instances of their theorems.
use mathlib.Core.Path.{◌≡◌, refl}
use libspl.Common.{
  ℕ, suc, ◌+◌, ◌≢◌, ◌⊎◌, inl, inr, Bool, Run, ap, subst, List, [], ◌∷◌, ok, throw, fault,
  element_not_found, ◌>>=◌, ◌==◌, arith, Ensures, Returns, All,
}
use libspl.HashTable.Controller.{
  init, grow_bucket, shrink_buckets, increase_bucket_size, increase_number_of_buckets,
  need_to_expand_bucket, hash_range,
}
use libspl.HashTable.Table.{
  Table, new_slots, put_slot, set, matches, find_loop, find_index, find_any_loop, free_at,
  free_loop, place, rehash_loop, rehash, resize, find_or_get_free_index,
}
use libspl.HashTable.Growth.{IsController}
use libspl.HashTable.Wholes.{
  new_table, copy, find_next, foreach_loop, skip_free, iterator_at, iterator_next, traverse,
}
use libspl.HashTable.Maps.{
  MapNode, map_node, key_of, contains, get, get_or, put, put_all, value_at, erase, erase_if, remove,
  remove_if, foreach,
}
use libspl.HashTable.Nodes.{IsKeys, NoStale}
use libspl.HashTable.Placing.{put_slot-Puts}
use libspl.HashTable.Rehash.{Resized, resize-Resized}
use libspl.HashTable.Lookups.{IsMap}
use libspl.HashTable.Updates.{Updated, put-get}
use libspl.HashTable.MapErasure.{Erased, erase-get}
use libspl.HashTable.Filling.{
  override, init-IsController, allocated-IsMap, put_all-override, copy-get,
}
use libspl.HashTable.Room.{HasRoom}
use libspl.HashTable.Fits.{Fits}
use libspl.HashTable.Sets
use libspl.HashTable.SetUpdates.{IsHashSet, Joined, put-Joined}

program : Unit {0}
unfolding init grow_bucket shrink_buckets increase_bucket_size increase_number_of_buckets
    need_to_expand_bucket hash_range put_slot matches find_loop find_index find_any_loop free_loop
    place rehash_loop rehash resize find_or_get_free_index new_table copy find_next foreach_loop
    skip_free iterator_at iterator_next traverse contains get get_or put put_all value_at erase
    erase_if remove remove_if foreach
program = tt

abbrev eq : ℕ → ℕ → Bool
eq a b = a == b

abbrev key_hash : ℕ → ℕ
key_hash k = k + 1

eq-IsKeys : IsKeys eq key_hash
eq-IsKeys = record {
  self = λ k. ground arith;
  flip = λ a b e. ground (arith, e);
  trans = λ a b c e e'. ground (arith, e, e');
  alike = λ a b e. ground (arith, e);
}

abbrev Map : Type 0
Map = Table (MapNode ℕ ℕ)

abbrev eight : Map
eight = new_table 8

abbrev two_nodes : List (MapNode ℕ ℕ)
two_nodes = map_node 4 40 ∷ map_node 12 41 ∷ []

filled_runs : (put_all eq key_hash 1 eight two_nodes >>= λ t. get eq key_hash t 12) ≡ ok 41
unfolding program
filled_runs = refl

-- nine keys in eight slots: the last one makes it sixteen
abbrev nine_nodes : List (MapNode ℕ ℕ)
nine_nodes =
    map_node 0 1
    ∷ map_node 1 2
    ∷ map_node 2 3
    ∷ map_node 3 4
    ∷ map_node 4 5
    ∷ map_node 5 6
    ∷ map_node 6 7
    ∷ map_node 7 8
    ∷ map_node 8 9
    ∷ []

resized_runs :
    ◌>>=◌ {C = ℕ × ℕ}
      (put_all eq key_hash 2 eight nine_nodes)
      (λ t. ok (t.controller.table_size, t.size))
    ≡ ok (16, 9)
unfolding program
resized_runs = refl

removed_runs :
    (put_all eq key_hash 1 eight two_nodes >>= λ t.
    remove eq key_hash t 4 >>= λ r. get eq key_hash r.0 4)
    ≡ throw element_not_found
unfolding program
removed_runs = refl

traverse_runs :
    (put_all eq key_hash 1 eight two_nodes >>= λ t. traverse 9 t (iterator_at t 0)) ≡ ok two_nodes
unfolding program
traverse_runs = refl

abbrev one_at : ℕ → Map
one_at i = record eight { slots = put_slot new_slots i (set 5 (map_node 4 40)); size = 1 }

foreach_runs : foreach eq key_hash 2 (one_at 5) 4 ≡ ok (map_node 4 40 ∷ [])
unfolding program
foreach_runs = refl

-- the node in the last slot of its range is found again and again
foreach_last_runs : foreach eq key_hash 4 (one_at 4) 4 ≡ fault
unfolding program
foreach_last_runs = refl

eight-IsController : IsController eight.controller
unfolding new_table
eight-IsController = init-IsController 8 (omega arith)

eight-IsMap : IsMap {V = ℕ} eq key_hash eq-IsKeys eight
unfolding new_table
eight-IsMap = allocated-IsMap eq key_hash eq-IsKeys eight.controller eight-IsController

one-IsMap : IsMap {V = ℕ} eq key_hash eq-IsKeys (one_at 5)
unfolding new_table hash_range init
one-IsMap = record {
  controller = eight-IsController;
  slots =
      (put_slot-Puts key_of eq key_hash eq-IsKeys eight.controller new_slots 5 (map_node 4 40)
        eight-IsMap.slots refl (inl refl) (λ m (i, live, stored). absurd cc)).well;
}

one-NoStale : NoStale 13 (one_at 5).slots
unfolding put_slot
one-NoStale i free e = ground (arith, e)

put-get_example :
    ((f : ℕ)
      → Ensures
          (Updated eq key_hash eq-IsKeys (one_at 5) 12 41)
          (put eq key_hash f (one_at 5) 12 41))
    × (((v₀ : ℕ) × (get eq key_hash (one_at 5) 12 ≡ ok v₀))
          ⊎ ((i : ℕ) × (free_loop 8 (one_at 5).slots (hash_range eight.controller 13) 13 1
                ≡ ok (free_at i)))
        → (f : ℕ) → (t' : Map) × (put eq key_hash (suc f) (one_at 5) 12 41 ≡ ok t'))
unfolding new_table init
put-get_example =
    put-get eq key_hash eq-IsKeys (one_at 5) 12 41 one-IsMap (λ e. ground (arith, e)) one-NoStale

erase-get_example :
    (r : Map × Bool) × (erase eq key_hash (one_at 5) 4 ≡ ok r)
    × Erased eq key_hash eq-IsKeys (one_at 5) 4 r
erase-get_example = erase-get eq key_hash eq-IsKeys (one_at 5) 4 one-IsMap

hashes : (ns : List (MapNode ℕ ℕ)) → All (λ n. key_hash n.k ≢ 0) ns
hashes [] = tt
hashes (n ∷ ns) = (λ e. ground (arith, e), hashes ns)

-- two keys of one bucket of fifteen: the second one makes the buckets larger
abbrev colliding : List (MapNode ℕ ℕ)
colliding = map_node 4 40 ∷ map_node 19 41 ∷ []

abbrev fifteen : Map
fifteen = new_table 15

abbrev or_empty : Run Map → Map
or_empty (ok t) = t
or_empty (throw x) = fifteen
or_empty fault = fifteen

abbrev with_four : Map
with_four = or_empty (put eq key_hash 2 fifteen 4 40)

colliding-HasRoom : HasRoom 2 with_four 20
unfolding program
colliding-HasRoom =
    inr (1, or_empty (resize with_four 1), refl, refl, inl (11, inr (refl, inl refl), refl))

colliding-Fits : Fits eq key_hash 2 fifteen colliding
unfolding program
colliding-Fits = (
  inr (inl (5, inl refl, refl)),
  λ t' e.
      let e' : ok with_four ≡ ok t' = e in
      subst (λ t. Fits eq key_hash 2 t (map_node 19 41 ∷ [])) (ap or_empty e')
        (inr colliding-HasRoom, λ t'' e''. tt),
)

put_all-override_example :
    (t : Map) × (put_all eq key_hash 2 fifteen colliding ≡ ok t)
    × IsMap eq key_hash eq-IsKeys t
    × ((h : ℕ) → h ≢ 0 → NoStale h t.slots)
    × ((k : ℕ) → get eq key_hash t k ≡ override eq colliding k (throw element_not_found))
put_all-override_example =
    put_all-override eq key_hash eq-IsKeys 1 15 colliding (hashes colliding) colliding-Fits

resize-Resized_example :
    Returns (Resized key_of eq key_hash eq-IsKeys (one_at 5)) (resize (one_at 5) 3)
resize-Resized_example = resize-Resized key_of eq key_hash eq-IsKeys (one_at 5) 3 one-IsMap

copy-get_example :
    Returns
      (λ t'.
        IsMap eq key_hash eq-IsKeys t'
        × (t'.size ≡ 1)
        × ((k : ℕ) → get eq key_hash t' k ≡ get eq key_hash (one_at 5) k))
      (copy (one_at 5))
copy-get_example = copy-get eq key_hash eq-IsKeys (one_at 5) one-IsMap

abbrev one_key : Table ℕ
one_key = record (new_table 8) { slots = put_slot new_slots 5 (set 5 4); size = 1 }

one_key-IsHashSet : IsHashSet eq key_hash eq-IsKeys one_key
unfolding new_table hash_range init
one_key-IsHashSet = record {
  controller = eight-IsController;
  slots =
      (put_slot-Puts (λ k. k) eq key_hash eq-IsKeys eight.controller new_slots 5 4
        (record { nodes = λ i live. absurd cc; distinct = λ i j n m live. absurd cc }) refl
        (inl refl) (λ m (i, live, stored). absurd cc)).well;
}

one_key-NoStale : NoStale 13 one_key.slots
unfolding put_slot
one_key-NoStale i free e = ground (arith, e)

one_key-HasRoom : HasRoom 1 one_key 13
unfolding program
one_key-HasRoom = inl (6, inr (refl, inl refl), refl)

put-Joined_example :
    (t' : Table ℕ) × (Sets.put eq key_hash 1 one_key 12 ≡ ok t')
    × Joined eq key_hash eq-IsKeys one_key 12 t'
put-Joined_example =
    put-Joined eq key_hash eq-IsKeys 0 one_key 12 one_key-IsHashSet (λ e. ground (arith, e))
      one_key-NoStale (inr one_key-HasRoom)
