-- ===== src/HashTable/Table.antt =====
-- `HashTableNode` and the probing of `HashTable` (include/core/hash_table.h), for one thread,
-- whose locks do nothing.
use libspl.Common.{
  ℕ, zero, suc, ◌+◌, ◌*◌, Bool, true, false, ◌&&◌, ◌||◌, Option, none, some, Run, ok, throw, fault,
  int_zero, leb, ◌==◌, if◌then◌else◌, ◌>>=◌,
}
use libspl.HashTable.Controller.{
  HashRange, non_empty, next, Controller, increase_bucket_size, increase_number_of_buckets,
  need_to_expand_bucket, hash_range,
}

pub data Status : Type 0 where
  unoccupied tentatively_occupied occupied : Status

-- `HashTableNode`: the storage is none before a node is constructed in it and after it is destroyed
pub record Slot (N : Type 0) : Type 0 where
  pub h : ℕ
  pub status : Status
  pub storage : Option N

abbrev pub slot : {N : Type 0} → ℕ → Status → Option N → Slot N
slot h s k = record { h = h; status = s; storage = k }

abbrev pub Slots : Type 0 → Type 0
Slots N = ℕ → Slot N

pub record Table (N : Type 0) : Type 0 where
  pub controller : Controller
  pub slots : Slots N
  pub size : ℕ

-- how the second loop of `_findOrGetFreeIndex` ends: at a free slot, or with a number of collisions
pub data Free : Type 0 where
  free_at : ℕ → Free
  full : ℕ → Free

module _ {N : Type 0} where
  -- `calloc`
  abbrev pub new_slots : Slots N
  new_slots i = slot 0 unoccupied none

  unfoldable pub put_slot : Slots N → ℕ → Slot N → Slots N
  put_slot t i s j = if j == i then s else t j

  abbrev pub is_unoccupied : Slot N → Bool
  is_unoccupied s = elim s.status [ unoccupied ↦ true | _ ↦ false ]

  -- `set`, `occupyIfFree` where it succeeds, `release` and `occupied`
  abbrev pub set : ℕ → N → Slot N
  set h k = slot h occupied (some k)

  abbrev pub occupy : Slot N → Slot N
  occupy s = record s { status = tentatively_occupied }

  abbrev pub release : Slot N → Slot N
  release s = slot s.h unoccupied none

  abbrev pub is_occupied : Slot N → Bool
  is_occupied s = elim s.status [ occupied ↦ true | _ ↦ false ]

  module _ {K : Type 0} (eq : N → K → Bool) where
    -- `_eq(node, k)`; with no node in the storage it is undefined
    abbrev pub node_eq : Slot N → K → Run Bool
    node_eq s k = elim s.storage [ none ↦ fault | some a ↦ ok (eq a k) ]

    -- `occupied() && h == h && _eq(...)`
    unfoldable pub matches : Slot N → ℕ → K → Run Bool
    matches s h k = if is_occupied s && (s.h == h) then node_eq s k else ok false

    -- the loop of `_findIndex`, on fuel: none is `__NPOS`, a fault of the fuel or the storage
    unfoldable pub find_loop : ℕ → Slots N → HashRange → ℕ → K → Run (Option ℕ)
    find_loop zero t r h k = fault
    find_loop (suc f) t r h k =
        let rest = find_loop f t (next r) h k in
        matches (t r.pos) h k >>= λ found.
        if found then ok (some r.pos) else if non_empty (next r) then rest else ok none

    unfoldable pub find_index : Table N → ℕ → K → Run (Option ℕ)
    find_index t h k = find_loop t.controller.table_size t.slots (hash_range t.controller h) h k

    -- the first loop of `_findOrGetFreeIndex`, which does not ask `occupied()`
    unfoldable pub find_any_loop : ℕ → Slots N → HashRange → ℕ → K → Run (Option ℕ)
    find_any_loop zero t r h k = fault
    find_any_loop (suc f) t r h k =
        let rest = find_any_loop f t (next r) h k in
        (if (t r.pos).h == h then node_eq (t r.pos) k else ok false) >>= λ found.
        if found then ok (some r.pos) else if non_empty (next r) then rest else ok none

  unfoldable pub free_loop : ℕ → Slots N → HashRange → ℕ → ℕ → Run Free
  free_loop zero t r h collisions = fault
  free_loop (suc f) t r h collisions =
      let c = if (t r.pos).h == h then collisions + 1 else collisions in
      let rest = free_loop f t (next r) h c in
      if is_unoccupied (t r.pos)
      then ok (free_at r.pos)
      else if non_empty (next r)
      then rest
      else ok (full c)

  -- `_getFreeIndex_noResize` and `set` at the index; `throw 0` where the range is full
  unfoldable pub place : Controller → Slots N → ℕ → N → Run (Slots N)
  place c t h k = free_loop c.table_size t (hash_range c h) h 1 >>= λ r. elim r [
    | free_at i ↦ ok (put_slot t i (set h k))
    | full n ↦ throw int_zero
  ]

  -- the loop of `_rehash` over the slots of the old table, from `i` on
  unfoldable pub rehash_loop : ℕ → ℕ → Controller → Slots N → Slots N → Run (Slots N)
  rehash_loop zero i c old t = ok t
  rehash_loop (suc n) i c old t =
      if is_occupied (old i)
      then elim (old i).storage [
        | none ↦ fault
        | some k ↦ place c t (old i).h k >>= λ t'. rehash_loop n (i + 1) c old t'
      ]
      else rehash_loop n (i + 1) c old t

  unfoldable pub rehash : ℕ → Controller → Slots N → Run (Slots N)
  rehash old_size c old = rehash_loop old_size 0 c old new_slots

  -- `_resize(hashCollisions)`
  unfoldable pub resize : Table N → ℕ → Run (Table N)
  resize t collisions =
      let c = t.controller in
      if need_to_expand_bucket c collisions || leb (2 * t.size) c.table_size
      then elim (increase_bucket_size c c.bucket_size collisions) [
        | none ↦ fault
        | some (c₁, old_size) ↦
            let c₂ =
              if c₁.table_size == t.size
              then (increase_number_of_buckets c₁ c₁.n_buckets).0
              else c₁ in
            if old_size == 0
            then ok (record t { controller = c₁ })
            else (rehash old_size c₂ t.slots >>= λ s. ok (record t { controller = c₂; slots = s }))
      ]
      else (let (c₁, old_size) = increase_number_of_buckets c c.n_buckets in
          if old_size == 0
          then ok (record t { controller = c₁ })
          else (rehash old_size c₁ t.slots >>= λ s. ok (record t { controller = c₁; slots = s })))

  module _ {K : Type 0} (eq : N → K → Bool) where
    -- `_findOrGetFreeIndex(h, k)`, whose `goto begin` is on fuel: the table, and the index of a slot
    -- that was found or has been made tentatively occupied
    unfoldable pub find_or_get_free_index : ℕ → Table N → ℕ → K → Run (Table N × ℕ)
    find_or_get_free_index zero t h k = fault
    find_or_get_free_index (suc f) t h k = do
      let r = hash_range t.controller h
      let n = t.controller.table_size
      found ← find_any_loop eq n t.slots r h k
      elim found [
        | some i ↦ ok (t, i)
        | none ↦ free_loop n t.slots r h 1 >>= λ free. elim free [
          | free_at i ↦ ok (record t { slots = put_slot t.slots i (occupy (t.slots i)) }, i)
          | full c ↦ resize t c >>= λ t'. find_or_get_free_index f t' h k
        ]
      ]
