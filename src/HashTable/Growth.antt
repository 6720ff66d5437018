-- ===== src/HashTable/Growth.antt =====
-- The growth of a table: the loops end, and the table gets larger.
use libspl.Common.{
  ℕ, zero, suc, ◌+◌, ◌*◌, ◌≤◌, ◌<◌, ◌≡◌, refl, sym, subst, true, some, ◌==◌, arith, inl, inr,
  lt→ltb, le→ltb, lt_or_le,
}
use libspl.HashTable.Controller.{
  Controller, increased, decreased, grow_bucket, shrink_buckets, increase_bucket_size,
  increase_number_of_buckets,
}

-- the sizes of a table agree, and none is 0
pub record IsController (c : Controller) : Type 0 where
  pub product : c.table_size ≡ c.n_buckets * c.bucket_size
  pub buckets : 1 ≤ c.n_buckets
  pub bucket : 1 ≤ c.bucket_size

factor_pos : (n b s : ℕ) → s < n * b → 1 ≤ n
factor_pos zero b s h = absurd (omega arith)
factor_pos (suc n) b s h = omega arith

product-lt : (n b b' : ℕ) → 1 ≤ n → b < b' → n * b < n * b'
product-lt zero b b' h lt = absurd (omega arith)
product-lt (suc zero) b b' h lt = omega arith
product-lt (suc (suc n)) b b' h lt = let r = product-lt (suc n) b b' (omega arith) lt in grind arith

pub product-lt_left : (n n' b : ℕ) → 1 ≤ b → n < n' → n * b < n' * b
product-lt_left n n' b h lt = let r = product-lt b n n' h lt in grind arith

increased-lt : (x : ℕ) → 1 ≤ x → x < increased x
increased-lt x h = ground arith

decreased-lt : (n : ℕ) → 1 ≤ n → decreased n < n
decreased-lt n h = ground arith

grow_bucket-ends :
    (k b collisions : ℕ)
    → 1 ≤ b
    → collisions ≤ b + k
    → 1 ≤ k
    → (b' : ℕ) × (grow_bucket k b collisions ≡ some b') × (b < b') × (collisions ≤ b')
unfolding grow_bucket
grow_bucket-ends zero b collisions h le pos = absurd (omega arith)
grow_bucket-ends (suc k) b collisions h le pos =
    let up = increased-lt b h in
    elim (lt_or_le (increased b) collisions) [
      | inl lt ↦
          let (b', e, lt', le') =
            grow_bucket-ends k (increased b) collisions (omega arith) (omega arith) (omega arith) in
          (b', rw (lt→ltb (increased b) collisions lt) e, omega arith, le')
      | inr ge ↦ (increased b, rw (le→ltb (increased b) collisions ge) refl, up, ge)
    ]

-- from the second round on `nBuckets * bucketSize` exceeds the old size
shrink_buckets-ends :
    (k b size n new_n : ℕ)
    → size < n * b
    → new_n < k
    → (n' : ℕ) × (shrink_buckets k b size n new_n ≡ some n') × (size < n' * b)
unfolding shrink_buckets
shrink_buckets-ends zero b size n new_n h lt = absurd (omega arith)
shrink_buckets-ends (suc k) b size n new_n h lt = elim (lt_or_le size (new_n * b)) [
  | inl more ↦
      let pos : 1 ≤ new_n = factor_pos new_n b size more in
      let down = decreased-lt new_n pos in
      let (n', e, h') = shrink_buckets-ends k b size new_n (decreased new_n) more (omega arith) in
      (n', rw (lt→ltb size (new_n * b) more) e, h')
  | inr done ↦ (n, rw (le→ltb size (new_n * b) done) refl, h)
]

-- Growing the buckets of a well-formed table ends; the new table is well formed and larger, and its
-- buckets hold the colliding keys that were counted.
pub increase_bucket_size-IsController :
    (c : Controller) (collisions : ℕ)
    → IsController c
    → (c' : Controller) × (increase_bucket_size c c.bucket_size collisions
        ≡ some (c', c.table_size))
      × IsController c'
      × (c.table_size < c'.table_size)
      × (collisions ≤ c'.bucket_size)
unfolding increase_bucket_size
increase_bucket_size-IsController c collisions w =
    let (b, e, lt, le) =
      grow_bucket-ends (collisions + 1) c.bucket_size collisions w.bucket (omega arith)
        (omega arith) in
    let more : c.table_size < c.n_buckets * b =
      subst (λ x. x < c.n_buckets * b) (sym w.product)
        (product-lt c.n_buckets c.bucket_size b w.buckets lt) in
    let (n, e', h) =
      shrink_buckets-ends (c.n_buckets + 1) b c.table_size c.n_buckets c.n_buckets more
        (omega arith) in
    let same : (c.bucket_size == c.bucket_size) ≡ true = ground arith in
    (
      record { bucket_size = b; n_buckets = n; table_size = n * b },
      rw same (rw e (rw e' refl)),
      record { product = refl; buckets = factor_pos n b c.table_size h; bucket = omega arith },
      h,
      le,
    )

-- So does growing their number, with buckets as large as before.
pub increase_number_of_buckets-IsController :
    (c : Controller)
    → IsController c
    → (c' : Controller) × (increase_number_of_buckets c c.n_buckets ≡ (c', c.table_size))
      × IsController c'
      × (c.table_size < c'.table_size)
      × (c'.bucket_size ≡ c.bucket_size)
unfolding increase_number_of_buckets
increase_number_of_buckets-IsController c w =
    let up = increased-lt c.n_buckets w.buckets in
    let same : (c.n_buckets == c.n_buckets) ≡ true = ground arith in
    (
      record {
        bucket_size = c.bucket_size;
        n_buckets = increased c.n_buckets;
        table_size = increased c.n_buckets * c.bucket_size;
      },
      rw same refl,
      record { product = refl; buckets = omega arith; bucket = w.bucket },
      subst (λ x. x < increased c.n_buckets * c.bucket_size) (sym w.product)
          (product-lt_left c.n_buckets (increased c.n_buckets) c.bucket_size w.bucket up),
      refl,
    )
