-- ===== src/HashTable/Placing.antt =====
-- A node set at a free slot, and the rehash of a table, which is a sequence of these.
use libspl.Common.{
  ℕ, ◌≡◌, ◌≢◌, sym, ◌∙◌, ap, subst, Bool, true, false, some, ◌==◌, arith, Bool-cases, ◌⊎◌, inl, inr,
}
use libspl.HashTable.Controller.{Controller, hash_range}
use libspl.HashTable.Table.{Slot, Slots, put_slot, set, is_unoccupied, is_occupied}
use libspl.HashTable.Reach.{Visits}
use libspl.HashTable.Nodes.{IsKeys, At, NoStale, Stands, IsSlots}

module _ {N : Type 0} where
  -- the slot of a node that is put at another slot is as it was
  pub put_slot-other : (s : Slots N) (j : ℕ) (x : Slot N) (i : ℕ) → i ≢ j → put_slot s j x i ≡ s i
  unfolding put_slot
  put_slot-other s j x i ne = ground (arith, ne)

  pub put_slot-same : (s : Slots N) (j : ℕ) (x : Slot N) → put_slot s j x j ≡ x
  unfolding put_slot
  put_slot-same s j x = ground arith

  pub unoccupied-other : (s : Slot N) → is_unoccupied s ≡ true → is_occupied s ≡ false
  unoccupied-other s e = ground (arith, e)

module _ {N K : Type 0} (key : N → K) (keq : K → K → Bool) (hash : K → ℕ) where
  -- the slots after a node is put at a free slot of its range
  pub record Puts (c : Controller) (s s' : Slots N) (n : N) : Type 0 where
    pub well : IsSlots key keq hash c s'
    pub no_stale : (h : ℕ) → NoStale h s → NoStale h s'
    pub here : At s' n
    pub keeps : (m : N) → At s m → At s' m
    pub only : (m : N) → At s' m → At s m ⊎ (m ≡ n)

  module _ (keys : IsKeys keq hash) where
    module _ (c : Controller) (s : Slots N) (j : ℕ) (n : N) (w : IsSlots key keq hash c s)
        (unused : is_occupied (s j) ≡ false)
        (reached : Visits c.table_size (hash_range c (hash (key n))) j)
        (new : (m : N) → At s m → keq (key m) (key n) ≡ false) where
      abbrev after : Slots N
      after = put_slot s j (set (hash (key n)) n)

      there : (after j).storage ≡ some n
      there = ap (λ x. x.storage) (put_slot-same s j (set (hash (key n)) n))

      live_after : is_occupied (after j) ≡ true
      live_after = ap (λ x. is_occupied x) (put_slot-same s j (set (hash (key n)) n))

      elsewhere : (i : ℕ) → i ≢ j → after i ≡ s i
      elsewhere i ne = put_slot-other s j (set (hash (key n)) n) i ne

      live_there :
          (i : ℕ) (m : N)
          → is_occupied (after i) ≡ true
          → (after i).storage ≡ some m
          → ((i ≡ j) × (m ≡ n))
            ⊎ ((i ≢ j) × ((is_occupied (s i) ≡ true) × ((s i).storage ≡ some m)))
      live_there i m live stored = elim (Bool-cases (i == j)) [
        | inl e ↦
            let e' : i ≡ j = ground (arith, e) in
            let q = subst (λ x. (after x).storage ≡ some m) e' stored in
            let z : some m ≡ some n = sym q ∙ there in inl (e', cc)
        | inr e ↦
            let ne : i ≢ j = λ q. ground (arith, e, q) in
            let q = elsewhere i ne in
            inr (
              ne,
              (subst (λ x. is_occupied x ≡ true) q live, subst (λ x. x.storage ≡ some m) q stored),
            )
      ]

      after-nodes : (i : ℕ) → is_occupied (after i) ≡ true → Stands key keq hash c after i
      after-nodes i live = elim (Bool-cases (i == j)) [
        | inl e ↦
            let e' : i ≡ j = ground (arith, e) in
            subst (λ x. Stands key keq hash c after x) (sym e')
              (record {
                node = n;
                stored = there;
                hashed = ap (λ x. x.h) (put_slot-same s j (set (hash (key n)) n));
                reached =
                    subst (λ x. Visits c.table_size (hash_range c x) j)
                      (sym (ap (λ x. x.h) (put_slot-same s j (set (hash (key n)) n)))) reached;
              })
        | inr e ↦
            let q = elsewhere i (λ z. ground (arith, e, z)) in
            let p = w.nodes i (subst (λ x. is_occupied x ≡ true) q live) in
            record {
              node = p.node;
              stored = ap (λ x. x.storage) q ∙ p.stored;
              hashed = ap (λ x. x.h) q ∙ p.hashed;
              reached =
                  subst (λ x. Visits c.table_size (hash_range c x) i) (sym (ap (λ x. x.h) q))
                    p.reached;
            }
      ]

      after-distinct :
          (i i' : ℕ) (m m' : N)
          → is_occupied (after i) ≡ true
          → is_occupied (after i') ≡ true
          → (after i).storage ≡ some m
          → (after i').storage ≡ some m'
          → keq (key m) (key m') ≡ true
          → i ≡ i'
      after-distinct i i' m m' live live' stored stored' same = elim (live_there i m live stored) [
        | inl (e, z) ↦ elim (live_there i' m' live' stored') [
          | inl (e', z') ↦ e ∙ sym e'
          | inr (ne, (l, t)) ↦ absurd (
              let no_ = new m' (i', l, t) in
              let yes_ =
                keys.flip (key n) (key m') (subst (λ x. keq (key x) (key m') ≡ true) z same) in
              ground (arith, no_, yes_))
        ]
        | inr (ne, (l, t)) ↦ elim (live_there i' m' live' stored') [
          | inl (e', z') ↦ absurd (
              let no_ = new m (i, l, t) in
              let yes_ = subst (λ x. keq (key m) (key x) ≡ true) z' same in
              ground (arith, no_, yes_))
          | inr (ne', (l', t')) ↦ w.distinct i i' m m' l l' t t' same
        ]
      ]

      after-NoStale : (h : ℕ) → NoStale h s → NoStale h after
      after-NoStale h stale i free = elim (Bool-cases (i == j)) [
        | inl e ↦ absurd (
            let e' : i ≡ j = ground (arith, e) in
            let q = subst (λ x. is_occupied (after x) ≡ false) e' free in
            ground (arith, live_after, q))
        | inr e ↦
            let q = elsewhere i (λ z. ground (arith, e, z)) in
            λ z. stale i (subst (λ x. is_occupied x ≡ false) q free) (sym (ap (λ x. x.h) q) ∙ z)
      ]

      after-keeps : (m : N) → At s m → At after m
      after-keeps m (i, live, stored) =
          let ne : i ≢ j = λ e.
            let q = subst (λ x. is_occupied (s x) ≡ true) e live in ground (arith, q, unused) in
          let q = elsewhere i ne in
          (i, subst (λ x. is_occupied x ≡ true) (sym q) live, ap (λ x. x.storage) q ∙ stored)

      after-only : (m : N) → At after m → At s m ⊎ (m ≡ n)
      after-only m (i, live, stored) = elim (live_there i m live stored) [
        | inl (e, z) ↦ inr z
        | inr (ne, (l, t)) ↦ inl (i, l, t)
      ]

      pub put_slot-Puts : Puts c s after n
      put_slot-Puts = record {
        well = record { nodes = after-nodes; distinct = after-distinct };
        no_stale = after-NoStale;
        here = (j, live_after, there);
        keeps = after-keeps;
        only = after-only;
      }
