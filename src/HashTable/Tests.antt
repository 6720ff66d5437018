-- ===== src/HashTable/Tests.antt =====
-- Runs of the table, the set and the hash functions, and instances of their theorems.
use mathlib.Core.Path.{◌≡◌, refl}
use libspl.Common.{ℕ, ◌+◌, Bool, true, some, ok, fault, ◌>>=◌, ◌==◌, arith}
use libspl.HashTable.Hash.{hash_combine, hash_bytes, hash, hash_chars, hash_str, short_hash}
use libspl.HashTable.Controller.{
  Controller, init, grow_bucket, shrink_buckets, increase_bucket_size, increase_number_of_buckets,
  need_to_expand_bucket, hash_range,
}
use libspl.HashTable.Growth.{IsController}
use libspl.HashTable.Table.{
  Table, new_slots, is_occupied, put_slot, set, matches, find_loop, find_index, find_any_loop,
  free_loop, place, rehash_loop, rehash, resize, find_or_get_free_index,
}
use libspl.HashTable.Sets.{put, contains, erase}
use libspl.HashTable.Membership.{IsTable}

program : Unit {0}
unfolding hash_combine hash_bytes hash hash_chars hash_str short_hash init grow_bucket
    shrink_buckets increase_bucket_size increase_number_of_buckets need_to_expand_bucket hash_range
    put_slot matches find_loop find_index find_any_loop free_loop place rehash_loop rehash resize
    find_or_get_free_index put contains erase
program = tt

abbrev eq : ℕ → ℕ → Bool
eq a b = a == b

abbrev key_hash : ℕ → ℕ
key_hash k = k + 1

-- eight slots, with the key 4 at slot 5
abbrev eight : Controller
eight = record { bucket_size = 1; n_buckets = 8; table_size = 8 }

abbrev one_key : Table ℕ
one_key = record { controller = eight; slots = put_slot new_slots 5 (set 5 4); size = 1 }

init_runs : init 8 ≡ eight
unfolding program
init_runs = refl

-- 12 has the hash 13, and the slot behind 5 is free
put_runs : (put eq key_hash 1 one_key 12 >>= λ t. contains eq key_hash t 12) ≡ ok true
unfolding program
put_runs = refl

put_twice : (put eq key_hash 1 one_key 4 >>= λ t. ok t.size) ≡ ok 1
unfolding program
put_twice = refl

-- after `erase` the slot keeps the hash, and `put` of the key compares with the destroyed node
put_erased : (erase eq key_hash one_key 4 >>= λ r. put eq key_hash 1 r.0 4) ≡ fault
unfolding program
put_erased = refl

eight-IsController : IsController eight
eight-IsController = record { product = refl; buckets = omega arith; bucket = omega arith }

one_key-node : (i : ℕ) → is_occupied (one_key.slots i) ≡ true → (one_key.slots i).storage ≡ some 4
unfolding put_slot
one_key-node i e = ground arith

one_key-IsTable : IsTable eq key_hash one_key
one_key-IsTable = record { controller = eight-IsController; nodes = λ i e. (4, one_key-node i e) }

one_key-fresh : (j : ℕ) → ((one_key.slots j).h == 13) ≡ true → is_occupied (one_key.slots j) ≡ true
unfolding put_slot
one_key-fresh j e = ground arith
