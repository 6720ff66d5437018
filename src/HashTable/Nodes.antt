-- ===== src/HashTable/Nodes.antt =====
-- Well-formed tables: every node stands once, in the range of its hash.
use libspl.Common.{
  ℕ, ◌≡◌, ◌≢◌, refl, sym, ◌∙◌, ap, subst, Bool, true, false, ◌&&◌, none, some, ok, ◌==◌, arith,
  Bool-cases, Option-cases, ◌⊎◌, inl, inr,
}
use libspl.HashTable.Controller.{Controller, hash_range}
use libspl.HashTable.Growth.{IsController}
use libspl.HashTable.Table.{Slot, Slots, Table, is_occupied, matches, find_loop, find_index}
use libspl.HashTable.Probes.{hash_range-IsRange, distance-le, find_loop-ends, find_loop-matches}
use libspl.HashTable.Reach.{Visits, find_loop-misses}

-- what `KeyEqual` and `Hash` promise
pub record IsKeys {K : Type 0} (keq : K → K → Bool) (hash : K → ℕ) : Type 0 where
  pub self : (k : K) → keq k k ≡ true
  pub flip : (a b : K) → keq a b ≡ true → keq b a ≡ true
  pub trans : (a b c : K) → keq a b ≡ true → keq b c ≡ true → keq a c ≡ true
  pub alike : (a b : K) → keq a b ≡ true → hash a ≡ hash b

-- a node stands in the slots
abbrev pub At : {N : Type 0} → Slots N → N → Type 0
At s n = (i : ℕ) × (is_occupied (s i) ≡ true) × ((s i).storage ≡ some n)

-- no slot that holds no node has the hash, as one that an erased node of that hash has left
abbrev pub NoStale : {N : Type 0} → ℕ → Slots N → Type 0
NoStale h s = (i : ℕ) → is_occupied (s i) ≡ false → (s i).h ≢ h

module _ {N K : Type 0} (key : N → K) (keq : K → K → Bool) (hash : K → ℕ) where
  abbrev pub eq : N → K → Bool
  eq n k = keq (key n) k

  pub record Stands (c : Controller) (s : Slots N) (i : ℕ) : Type 0 where
    pub node : N
    pub stored : (s i).storage ≡ some node
    pub hashed : (s i).h ≡ hash (key node)
    pub reached : Visits c.table_size (hash_range c (s i).h) i

  pub record IsSlots (c : Controller) (s : Slots N) : Type 0 where
    pub nodes : (i : ℕ) → is_occupied (s i) ≡ true → Stands c s i
    pub distinct :
        (i j : ℕ) (n m : N)
        → is_occupied (s i) ≡ true
        → is_occupied (s j) ≡ true
        → (s i).storage ≡ some n
        → (s j).storage ≡ some m
        → keq (key n) (key m) ≡ true
        → i ≡ j

  pub record IsHashTable (t : Table N) : Type 0 where
    pub controller : IsController t.controller
    pub slots : IsSlots t.controller t.slots

  defined :
      (c : Controller) (s : Slots N) (i h : ℕ) (k : K)
      → IsSlots c s
      → (b : Bool) × (matches eq (s i) h k ≡ ok b)
  unfolding matches
  defined c s i h k w = elim (Bool-cases (is_occupied (s i) && ((s i).h == h))) [
    | inl e ↦ let n = w.nodes i (ground (arith, e)) in (eq n.node k, rw e (rw n.stored refl))
    | inr e ↦ (false, rw e refl)
  ]

  -- a node that matches
  pub record Found (t : Table N) (k : K) (i : ℕ) : Type 0 where
    pub node : N
    pub is_found : find_index eq t (hash k) k ≡ ok (some i)
    pub live : is_occupied (t.slots i) ≡ true
    pub stored : (t.slots i).storage ≡ some node
    pub same_key : keq (key node) k ≡ true

  pub record Missing (t : Table N) (k : K) : Type 0 where
    pub is_missing : find_index eq t (hash k) k ≡ ok none
    pub no_node : (n : N) → At t.slots n → keq (key n) k ≡ false

  matches-Found :
      (s : Slot N) (h : ℕ) (k : K)
      → matches eq s h k ≡ ok true
      → (is_occupied s ≡ true) × ((n : N) × ((s.storage ≡ some n) × (keq (key n) k ≡ true)))
  unfolding matches
  matches-Found s h k m = elim (Bool-cases (is_occupied s && (s.h == h))) [
    | inl e ↦ elim (Option-cases s.storage) [
      | inl z ↦ absurd (ground (arith, e, z, m))
      | inr (n, z) ↦ (ground (arith, e), (n, (z, ground (arith, e, z, m))))
    ]
    | inr e ↦ absurd (ground (arith, e, m))
  ]

  matches-stored :
      (s : Slot N) (h : ℕ) (k : K) (n : N)
      → is_occupied s ≡ true
      → s.storage ≡ some n
      → s.h ≡ h
      → matches eq s h k ≡ ok (keq (key n) k)
  unfolding matches
  matches-stored s h k n o z e = ground (arith, o, z, e)

  pub stands :
      (c : Controller) (s : Slots N) (i : ℕ) (n : N)
      → IsSlots c s
      → is_occupied (s i) ≡ true
      → (s i).storage ≡ some n
      → ((s i).h ≡ hash (key n)) × Visits c.table_size (hash_range c (hash (key n))) i
  stands c s i n w live stored =
      let p = w.nodes i live in
      let same : p.node ≡ n = let e : some p.node ≡ some n = sym p.stored ∙ stored in cc in
      let e = p.hashed ∙ ap (λ m. hash (key m)) same in
      (e, subst (λ h. Visits c.table_size (hash_range c h) i) e p.reached)

  module _ (keys : IsKeys keq hash) where
    unmissed :
        (c : Controller) (s : Slots N) (h : ℕ) (n : N) (k : K) (i : ℕ)
        → IsSlots c s
        → is_occupied (s i) ≡ true
        → (s i).storage ≡ some n
        → keq (key n) k ≡ true
        → h ≡ hash k
        → find_loop eq c.table_size s (hash_range c h) h k ≡ ok none
        → ⊥
    unmissed c s h n k i w live stored yes_ e none_ =
        let (hashed, reached) = stands c s i n w live stored in
        let q : hash (key n) ≡ h = keys.alike (key n) k yes_ ∙ sym e in
        let no_ =
          find_loop-misses eq c.table_size s (hash_range c h) h k i none_
            (subst (λ x. Visits c.table_size (hash_range c x) i) q reached) in
        let m = matches-stored (s i) h k n live stored (hashed ∙ q) in ground (arith, no_, m, yes_)

    pub find_index-cases :
        (t : Table N) (k : K) → IsHashTable t → Missing t k ⊎ ((i : ℕ) × Found t k i)
    unfolding find_index hash_range
    find_index-cases t k w =
        let c = t.controller in
        let r = hash_range c (hash k) in
        let is_range = hash_range-IsRange c (hash k) w.controller in
        let (o, e) =
          find_loop-ends eq c.table_size t.slots r (hash k) k is_range ((distance-le r is_range).1)
            (λ i. defined c t.slots i (hash k) k w.slots) in
        elim (Option-cases o) [
          | inl z ↦ inl (record {
            is_missing = e ∙ ap ok z;
            no_node = λ n (i, live, stored). elim (Bool-cases (keq (key n) k)) [
              | inr no_ ↦ no_
              | inl yes_ ↦
                  absurd
                    (unmissed c t.slots (hash k) n k i w.slots live stored yes_ refl (e ∙ ap ok z))
            ];
          })
          | inr (i, z) ↦
              let found = e ∙ ap ok z in
              let (live, (n, (stored, same))) =
                matches-Found (t.slots i) (hash k) k
                  (find_loop-matches eq c.table_size t.slots r (hash k) k i found) in
              inr (
                i,
                record {
                  node = n;
                  is_found = found;
                  live = live;
                  stored = stored;
                  same_key = same;
                },
              )
        ]

    -- a node that stands in the table is the one that is found for its key
    pub find-At :
        (t : Table N) (k : K) (n : N)
        → IsHashTable t
        → At t.slots n
        → keq (key n) k ≡ true
        → (i : ℕ) × (f : Found t k i) × (f.node ≡ n)
    find-At t k n w (j, live, stored) yes_ = elim (find_index-cases t k w) [
      | inl missing ↦
          absurd (let no_ = missing.no_node n (j, live, stored) in ground (arith, no_, yes_))
      | inr (i, f) ↦
          let joined = keys.trans (key f.node) k (key n) f.same_key (keys.flip (key n) k yes_) in
          let e = w.slots.distinct i j f.node n f.live live f.stored stored joined in
          let q = subst (λ x. (t.slots x).storage ≡ some f.node) e f.stored in
          let s : some f.node ≡ some n = sym q ∙ stored in (i, f, cc)
    ]
