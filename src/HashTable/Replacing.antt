-- ===== src/HashTable/Replacing.antt =====
-- A node replaced by one of the same key.
use libspl.Common.{
  ℕ, ◌≡◌, ◌≢◌, refl, sym, ◌∙◌, ap, subst, Bool, true, false, some, ◌==◌, arith, Bool-cases, ◌⊎◌,
  inl, inr,
}
use libspl.HashTable.Controller.{Controller, hash_range}
use libspl.HashTable.Table.{Slot, Slots, put_slot, is_occupied}
use libspl.HashTable.Reach.{Visits}
use libspl.HashTable.Nodes.{IsKeys, At, NoStale, Stands, IsSlots}
use libspl.HashTable.Placing.{put_slot-same, put_slot-other}

abbrev pub replace : {N : Type 0} → Slot N → N → Slot N
replace s n = record s { storage = some n }

module _ {N K : Type 0} (key : N → K) (keq : K → K → Bool) (hash : K → ℕ)
    (keys : IsKeys keq hash) where
  module _ (c : Controller) (s : Slots N) (j : ℕ) (n n' : N) (w : IsSlots key keq hash c s)
      (live_j : is_occupied (s j) ≡ true) (stored_j : (s j).storage ≡ some n)
      (same : key n' ≡ key n) where
    abbrev pub replaced : Slots N
    replaced = put_slot s j (replace (s j) n')

    at_j : replaced j ≡ replace (s j) n'
    at_j = put_slot-same s j (replace (s j) n')

    elsewhere : (i : ℕ) → i ≢ j → replaced i ≡ s i
    elsewhere i ne = put_slot-other s j (replace (s j) n') i ne

    same-field :
        {A : Type 0} (f : Slot N → A) (i : ℕ)
        → f (replace (s j) n') ≡ f (s j)
        → f (replaced i) ≡ f (s i)
    same-field f i e = elim (Bool-cases (i == j)) [
      | inl q ↦
          let q' : i ≡ j = ground (arith, q) in
          subst (λ x. f (replaced x) ≡ f (s x)) (sym q') (ap f at_j ∙ e)
      | inr q ↦ ap f (elsewhere i (λ z. ground (arith, q, z)))
    ]

    -- a node of the new slots stands for one of the old ones, of the same key
    record Was (i : ℕ) (m' : N) : Type 0 where
      pub before : N
      pub held : (s i).storage ≡ some before
      pub same_key : key m' ≡ key before
      pub either : ((i ≡ j) × (m' ≡ n')) ⊎ (m' ≡ before)

    at_n' : (replaced j).storage ≡ some n'
    at_n' = ap (λ x. x.storage) at_j

    was :
        (i : ℕ) (m' : N)
        → (replaced i).storage ≡ some m'
        → is_occupied (replaced i) ≡ true
        → Was i m'
    was i m' stored live = elim (Bool-cases (i == j)) [
      | inl q ↦
          let q' : i ≡ j = ground (arith, q) in
          let z : some m' ≡ some n' =
            sym (subst (λ x. (replaced x).storage ≡ some m') q' stored) ∙ at_n' in
          let y : m' ≡ n' = cc in
          record {
            before = n;
            held = ap (λ x. (s x).storage) q' ∙ stored_j;
            same_key = ap key y ∙ same;
            either = inl (q', y);
          }
      | inr q ↦
          let e = elsewhere i (λ z. ground (arith, q, z)) in
          record {
            before = m';
            held = sym (ap (λ x. x.storage) e) ∙ stored;
            same_key = refl;
            either = inr refl;
          }
    ]

    live_same : (i : ℕ) → is_occupied (replaced i) ≡ is_occupied (s i)
    live_same i = same-field (λ x. is_occupied x) i refl

    hash_same : (i : ℕ) → (replaced i).h ≡ (s i).h
    hash_same i = same-field (λ x. x.h) i refl

    replaced-nodes : (i : ℕ) → is_occupied (replaced i) ≡ true → Stands key keq hash c replaced i
    replaced-nodes i live =
        let p = w.nodes i (sym (live_same i) ∙ live) in
        elim (Bool-cases (i == j)) [
          | inl q ↦
              let q' : i ≡ j = ground (arith, q) in
              let z : some p.node ≡ some n = sym p.stored ∙ ap (λ x. (s x).storage) q' ∙ stored_j in
              let y : p.node ≡ n = cc in
              record {
                node = n';
                stored = ap (λ x. (replaced x).storage) q' ∙ at_n';
                hashed = hash_same i ∙ p.hashed ∙ ap (λ x. hash (key x)) y ∙ ap hash (sym same);
                reached =
                    subst (λ h. Visits c.table_size (hash_range c h) i) (sym (hash_same i))
                      p.reached;
              }
          | inr q ↦ record {
            node = p.node;
            stored = ap (λ x. x.storage) (elsewhere i (λ z. ground (arith, q, z))) ∙ p.stored;
            hashed = hash_same i ∙ p.hashed;
            reached =
                subst (λ h. Visits c.table_size (hash_range c h) i) (sym (hash_same i)) p.reached;
          }
        ]

    replaced-distinct :
        (i i' : ℕ) (m m' : N)
        → is_occupied (replaced i) ≡ true
        → is_occupied (replaced i') ≡ true
        → (replaced i).storage ≡ some m
        → (replaced i').storage ≡ some m'
        → keq (key m) (key m') ≡ true
        → i ≡ i'
    replaced-distinct i i' m m' l l' t t' e =
        let a = was i m t l in
        let b = was i' m' t' l' in
        w.distinct i i' a.before b.before (sym (live_same i) ∙ l) (sym (live_same i') ∙ l') a.held
          b.held
          (subst (λ x. keq x (key b.before) ≡ true) a.same_key
            (subst (λ x. keq (key m) x ≡ true) b.same_key e))

    pub record Replaced : Type 0 where
      pub well : IsSlots key keq hash c replaced
      pub here : At replaced n'
      pub no_stale : (h : ℕ) → NoStale h s → NoStale h replaced
      pub others :
          (m : N)
          → keq (key m) (key n) ≡ false
          → (At s m → At replaced m) × (At replaced m → At s m)

    clash : (m m' : N) → m ≡ m' → key m' ≡ key n → keq (key m) (key n) ≡ false → ⊥
    clash m m' e k no_ =
        let q = ap key e ∙ k in
        let yes_ = subst (λ x. keq x (key n) ≡ true) (sym q) (keys.self (key n)) in
        ground (arith, no_, yes_)

    pub replace-Replaced : Replaced
    replace-Replaced = record {
      well = record { nodes = replaced-nodes; distinct = replaced-distinct };
      here = (j, live_same j ∙ live_j, at_n');
      no_stale = λ h stale i free z. stale i (sym (live_same i) ∙ free) (sym (hash_same i) ∙ z);
      others = λ m no_. (
        (λ (i, live, stored). elim (Bool-cases (i == j)) [
          | inl q ↦ absurd (
              let q' : i ≡ j = ground (arith, q) in
              let z : some m ≡ some n = sym stored ∙ ap (λ x. (s x).storage) q' ∙ stored_j in
              let y : m ≡ n = cc in clash m n y refl no_)
          | inr q ↦
              let e = elsewhere i (λ z. ground (arith, q, z)) in
              (i, live_same i ∙ live, ap (λ x. x.storage) e ∙ stored)
        ]),
        (λ (i, live, stored).
            let a = was i m stored live in
            elim a.either [
              | inl (q, y) ↦ absurd (clash m n' y same no_)
              | inr y ↦ (i, sym (live_same i) ∙ live, a.held ∙ ap some (sym y))
            ]),
      );
    }
