-- ===== src/HashTable/Releasing.antt =====
-- A node destroyed, and its slot freed.
use libspl.Common.{
  ℕ, ◌≡◌, ◌≢◌, sym, ◌∙◌, ap, subst, Bool, true, false, some, ◌==◌, arith, Bool-cases, inl, inr,
}
use libspl.HashTable.Controller.{Controller, hash_range}
use libspl.HashTable.Table.{Slots, put_slot, is_occupied, release}
use libspl.HashTable.Reach.{Visits}
use libspl.HashTable.Nodes.{IsKeys, At, NoStale, IsSlots, stands}
use libspl.HashTable.Placing.{put_slot-same, put_slot-other}

module _ {N K : Type 0} (key : N → K) (keq : K → K → Bool) (hash : K → ℕ)
    (keys : IsKeys keq hash) where
  module _ (c : Controller) (s : Slots N) (j : ℕ) (n : N) (w : IsSlots key keq hash c s)
      (live_j : is_occupied (s j) ≡ true) (stored_j : (s j).storage ≡ some n) where
    abbrev pub freed : Slots N
    freed = put_slot s j (release (s j))

    at_j : freed j ≡ release (s j)
    at_j = put_slot-same s j (release (s j))

    elsewhere : (i : ℕ) → i ≢ j → freed i ≡ s i
    elsewhere i ne = put_slot-other s j (release (s j)) i ne

    free_j : is_occupied (freed j) ≡ false
    free_j = ap (λ x. is_occupied x) at_j

    other : (i : ℕ) → is_occupied (freed i) ≡ true → i ≢ j
    other i live e =
        let q = subst (λ x. is_occupied (freed x) ≡ true) e live in ground (arith, q, free_j)

    was : (i : ℕ) → is_occupied (freed i) ≡ true → freed i ≡ s i
    was i live = elsewhere i (other i live)

    freed-IsSlots : IsSlots key keq hash c freed
    freed-IsSlots = record {
      nodes = λ i live.
          let e = was i live in
          let p = w.nodes i (subst (λ x. is_occupied x ≡ true) e live) in
          record {
            node = p.node;
            stored = ap (λ x. x.storage) e ∙ p.stored;
            hashed = ap (λ x. x.h) e ∙ p.hashed;
            reached =
                subst (λ h. Visits c.table_size (hash_range c h) i) (sym (ap (λ x. x.h) e))
                  p.reached;
          };
      distinct = λ i i' m m' l l' t t' q.
          let e = was i l in
          let e' = was i' l' in
          w.distinct i i' m m' (subst (λ x. is_occupied x ≡ true) e l)
            (subst (λ x. is_occupied x ≡ true) e' l') (subst (λ x. x.storage ≡ some m) e t)
            (subst (λ x. x.storage ≡ some m') e' t') q;
    }

    pub record Freed : Type 0 where
      pub well : IsSlots key keq hash c freed
      pub gone : (m : N) → At freed m → keq (key m) (key n) ≡ false
      pub no_stale : (h : ℕ) → h ≢ hash (key n) → NoStale h s → NoStale h freed
      pub others :
          (m : N) → keq (key m) (key n) ≡ false → (At s m → At freed m) × (At freed m → At s m)

    pub release-Freed : Freed
    release-Freed = record {
      well = freed-IsSlots;
      gone = λ m (i, live, stored). elim (Bool-cases (keq (key m) (key n))) [
        | inr no_ ↦ no_
        | inl yes_ ↦ absurd (
            let e = was i live in
            other i live (
              w.distinct i j m n (subst (λ x. is_occupied x ≡ true) e live) live_j
                (subst (λ x. x.storage ≡ some m) e stored) stored_j yes_))
      ];
      no_stale = λ h ne stale i free z. elim (Bool-cases (i == j)) [
        | inl q ↦
            let q' : i ≡ j = ground (arith, q) in
            let y = subst (λ x. (freed x).h ≡ h) q' z in
            ne (sym y ∙ ap (λ x. x.h) at_j ∙ (stands key keq hash c s j n w live_j stored_j).0)
        | inr q ↦
            let e = elsewhere i (λ y. ground (arith, q, y)) in
            stale i (subst (λ x. is_occupied x ≡ false) e free) (sym (ap (λ x. x.h) e) ∙ z)
      ];
      others = λ m no_. (
        (λ (i, live, stored). elim (Bool-cases (i == j)) [
          | inl q ↦ absurd (
              let q' : i ≡ j = ground (arith, q) in
              let z : some m ≡ some n = sym stored ∙ ap (λ x. (s x).storage) q' ∙ stored_j in
              let y : m ≡ n = cc in
              let yes_ = subst (λ x. keq (key x) (key n) ≡ true) (sym y) (keys.self (key n)) in
              ground (arith, no_, yes_))
          | inr q ↦
              let e = elsewhere i (λ z. ground (arith, q, z)) in
              (i, ap (λ x. is_occupied x) e ∙ live, ap (λ x. x.storage) e ∙ stored)
        ]),
        (λ (i, live, stored).
            let e = was i live in
            (
              i,
              subst (λ x. is_occupied x ≡ true) e live,
              subst (λ x. x.storage ≡ some m) e stored,
            )),
      );
    }
