-- ===== src/HashTable/Controller.antt =====
-- `HashRange` and `HashTableController` of include/core/hash_table.h. Sizes count slots in memory, so
-- they do not overflow.
use libspl.Common.{
  ℕ, zero, suc, ◌+◌, ◌-◌, ◌*◌, ◌/◌, ◌%◌, Bool, not, Option, none, some, ltb, ◌==◌, if◌then◌else◌,
}

pub record HashRange : Type 0 where
  pub pos : ℕ
  pub end : ℕ
  pub size : ℕ

abbrev pub non_empty : HashRange → Bool
non_empty r = not (r.pos == r.end)

abbrev pub next : HashRange → HashRange
next r = record r { pos = (r.pos + 1) % r.size }

pub record Controller : Type 0 where
  pub bucket_size : ℕ
  pub n_buckets : ℕ
  pub table_size : ℕ

abbrev pub threshold : ℕ
threshold = 100000000

abbrev pub bucket_search : ℕ
bucket_search = 16

unfoldable pub init : ℕ → Controller
init sz = record { bucket_size = 1; n_buckets = sz / 1; table_size = sz / 1 * 1 }

-- `x < threshold ? x * 2 : x + threshold`
abbrev pub increased : ℕ → ℕ
increased x = if ltb x threshold then x * 2 else x + threshold

-- `do ... while (bucketSize < hashCollisions)`, on fuel; none is fuel running out
unfoldable pub grow_bucket : ℕ → ℕ → ℕ → Option ℕ
grow_bucket zero bucket collisions = none
grow_bucket (suc k) bucket collisions =
    let rest = grow_bucket k (increased bucket) collisions in
    if ltb (increased bucket) collisions then rest else some (increased bucket)

-- `nBuckets / 2 < threshold ? nBuckets / 2 : nBuckets - threshold`
abbrev pub decreased : ℕ → ℕ
decreased n = if ltb (n / 2) threshold then n / 2 else n - threshold

-- `while (newNBuckets * bucketSize > tableSize)`, from `nBuckets` and `newNBuckets`, on fuel
unfoldable pub shrink_buckets : ℕ → ℕ → ℕ → ℕ → ℕ → Option ℕ
shrink_buckets zero bucket size n new_n = none
shrink_buckets (suc k) bucket size n new_n =
    let rest = shrink_buckets k bucket size new_n (decreased new_n) in
    if ltb size (new_n * bucket) then rest else some n

-- `increaseBucketSize(sz, hashCollisions)`: the controller, and the old size or 0
unfoldable pub increase_bucket_size : Controller → ℕ → ℕ → Option (Controller × ℕ)
increase_bucket_size c sz collisions =
    if c.bucket_size == sz
    then elim (grow_bucket (collisions + 1) c.bucket_size collisions) [
      | none ↦ none
      | some b ↦ elim (shrink_buckets (c.n_buckets + 1) b c.table_size c.n_buckets c.n_buckets) [
        | none ↦ none
        | some n ↦
            some (record { bucket_size = b; n_buckets = n; table_size = n * b }, c.table_size)
      ]
    ]
    else some (c, 0)

unfoldable pub increase_number_of_buckets : Controller → ℕ → Controller × ℕ
increase_number_of_buckets c sz =
    let n = increased c.n_buckets in
    if c.n_buckets == sz
    then (
      record { bucket_size = c.bucket_size; n_buckets = n; table_size = n * c.bucket_size },
      c.table_size,
    )
    else (c, 0)

unfoldable pub need_to_expand_bucket : Controller → ℕ → Bool
need_to_expand_bucket c collisions = ltb c.bucket_size collisions

unfoldable pub hash_range : Controller → ℕ → HashRange
hash_range c h =
    let i = h % c.n_buckets * c.bucket_size in
    record {
      pos = i;
      end = (i + bucket_search * c.bucket_size) % c.table_size;
      size = c.table_size;
    }
