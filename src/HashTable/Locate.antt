-- ===== src/HashTable/Locate.antt =====
-- `_findOrGetFreeIndex`: the slot of the key, or a free slot of its range, in a table of the same nodes.
use libspl.Common.{
  ℕ, zero, suc, ◌≡◌, ◌≢◌, refl, sym, ◌∙◌, ap, subst, Bool, true, false, Run, ok, ◌==◌, ◌>>=◌, arith,
  Bool-cases, ◌⊎◌, inl, inr, Ensures, Ensures-bind, Ensures-map, Ensures-next, Returns-Ensures,
}
use libspl.HashTable.Controller.{Controller, hash_range}
use libspl.HashTable.Table.{
  Slot, Slots, Table, put_slot, occupy, is_unoccupied, is_occupied, Free, free_at, full, free_loop,
  find_index, find_any_loop, find_or_get_free_index, resize,
}
use libspl.HashTable.Probes.{free_loop-unoccupied, find_any_loop-find}
use libspl.HashTable.Reach.{Visits, free_loop-Visits}
use libspl.HashTable.Nodes.{
  IsKeys, At, NoStale, IsSlots, IsHashTable, Found, Missing, find_index-cases, eq,
}
use libspl.HashTable.Placing.{put_slot-same, put_slot-other, unoccupied-other}
use libspl.HashTable.Rehash.{Resized, resize-Resized}

-- slots that differ in the tentative marks only
record Alike {N : Type 0} (s s' : Slots N) : Type 0 where
  pub live : (i : ℕ) → is_occupied (s' i) ≡ is_occupied (s i)
  pub stored : (i : ℕ) → (s' i).storage ≡ (s i).storage
  pub hashed : (i : ℕ) → (s' i).h ≡ (s i).h

occupy-same :
    {N : Type 0} {A : Type 0} (f : Slot N → A) (s : Slots N) (j i : ℕ)
    → f (occupy (s j)) ≡ f (s j)
    → f (put_slot s j (occupy (s j)) i) ≡ f (s i)
occupy-same f s j i e = elim (Bool-cases (i == j)) [
  | inl q ↦
      let q' : i ≡ j = ground (arith, q) in
      subst (λ x. f (put_slot s j (occupy (s j)) x) ≡ f (s x)) (sym q')
        (ap f (put_slot-same s j (occupy (s j))) ∙ e)
  | inr q ↦ ap f (put_slot-other s j (occupy (s j)) i (λ z. ground (arith, q, z)))
]

occupy-Alike :
    {N : Type 0} (s : Slots N) (j : ℕ)
    → is_unoccupied (s j) ≡ true
    → Alike s (put_slot s j (occupy (s j)))
occupy-Alike s j e = record {
  live = λ i. occupy-same (λ x. is_occupied x) s j i (sym (unoccupied-other (s j) e));
  stored = λ i. occupy-same (λ x. x.storage) s j i refl;
  hashed = λ i. occupy-same (λ x. x.h) s j i refl;
}

module _ {N K : Type 0} (key : N → K) (keq : K → K → Bool) (hash : K → ℕ) where
  Alike-IsSlots :
      (c : Controller) (s s' : Slots N)
      → Alike s s'
      → IsSlots key keq hash c s
      → IsSlots key keq hash c s'
  Alike-IsSlots c s s' a w = record {
    nodes = λ i live.
        let p = w.nodes i (sym (a.live i) ∙ live) in
        record {
          node = p.node;
          stored = a.stored i ∙ p.stored;
          hashed = a.hashed i ∙ p.hashed;
          reached =
              subst (λ h. Visits c.table_size (hash_range c h) i) (sym (a.hashed i)) p.reached;
        };
    distinct = λ i j n m li lj si sj.
        w.distinct i j n m (sym (a.live i) ∙ li) (sym (a.live j) ∙ lj) (sym (a.stored i) ∙ si)
          (sym (a.stored j) ∙ sj);
  }

  -- where `_findOrGetFreeIndex` leaves a table, and the slot that it returns
  pub record Located (t : Table N) (k : K) (r : Table N × ℕ) : Type 0 where
    pub well : IsHashTable key keq hash r.0
    pub no_stale : (h : ℕ) → h ≢ 0 → NoStale h t.slots → NoStale h r.0.slots
    pub same : (n : N) → (At t.slots n → At r.0.slots n) × (At r.0.slots n → At t.slots n)
    pub size : r.0.size ≡ t.size
    pub slot :
        Found key keq hash r.0 k r.1
        ⊎ ((is_occupied (r.0.slots r.1) ≡ false)
            × (Visits r.0.controller.table_size (hash_range r.0.controller (hash k)) r.1)
            × ((n : N) → At r.0.slots n → keq (key n) k ≡ false))

  Alike-At : (s s' : Slots N) → Alike s s' → (n : N) → (At s n → At s' n) × (At s' n → At s n)
  Alike-At s s' a n = (
    (λ (i, live, stored). (i, a.live i ∙ live, a.stored i ∙ stored)),
    (λ (i, live, stored). (i, sym (a.live i) ∙ live, sym (a.stored i) ∙ stored)),
  )

  -- the first loop finds what `_findIndex` finds, where no slot has the hash of an erased node
  pub any-find :
      (t : Table N) (k : K)
      → NoStale (hash k) t.slots
      → find_any_loop
          (eq key keq hash)
          t.controller.table_size
          t.slots
          (hash_range t.controller (hash k))
          (hash k)
          k
        ≡ find_index (eq key keq hash) t (hash k) k
  unfolding find_index
  any-find t k stale =
      find_any_loop-find (eq key keq hash) t.controller.table_size t.slots
        (hash_range t.controller (hash k)) (hash k) k
        (λ i e. elim (Bool-cases (is_occupied (t.slots i))) [
          | inl live ↦ live
          | inr free ↦ absurd (stale i free (ground (arith, e)))
        ])

  module _ (keys : IsKeys keq hash) where
    kept :
        (t t' : Table N) (k : K) (r : Table N × ℕ)
        → Resized key keq hash keys t t'
        → Located t' k r
        → Located t k r
    kept t t' k r z l = record {
      well = l.well;
      no_stale = λ h nz stale. l.no_stale h nz (z.no_stale h nz);
      same = λ n. ((λ a. (l.same n).0 ((z.same n).0 a)), (λ a. (z.same n).1 ((l.same n).1 a)));
      size = l.size ∙ z.size;
      slot = l.slot;
    }

    at_free :
        (t : Table N) (k : K) (i : ℕ)
        → IsHashTable key keq hash t
        → Missing key keq hash t k
        → free_loop t.controller.table_size t.slots (hash_range t.controller (hash k)) (hash k) 1
          ≡ ok (free_at i)
        → Located t k (record t { slots = put_slot t.slots i (occupy (t.slots i)) }, i)
    at_free t k i w missing e =
        let c = t.controller in
        let unused =
          free_loop-unoccupied (eq key keq hash) c.table_size t.slots (hash_range c (hash k))
            (hash k) 1 i e in
        let s' = put_slot t.slots i (occupy (t.slots i)) in
        let a = occupy-Alike t.slots i unused in
        record {
          well = record { controller = w.controller; slots = Alike-IsSlots c t.slots s' a w.slots };
          no_stale = λ h nz stale i free z. stale i (sym (a.live i) ∙ free) (sym (a.hashed i) ∙ z);
          same = Alike-At t.slots s' a;
          size = refl;
          slot = inr (
            a.live i ∙ unoccupied-other (t.slots i) unused,
            free_loop-Visits (eq key keq hash) c.table_size t.slots (hash_range c (hash k)) (hash k)
                1 i e,
            λ n at. missing.no_node n ((Alike-At t.slots s' a n).1 at),
          );
        }

    -- what follows the second loop: the free slot, or the resize and the search again
    after_probe :
        (r : Free) (t : Table N) (k : K)
        → IsHashTable key keq hash t
        → Missing key keq hash t k
        → (again : Table N → Run (Table N × ℕ))
        → free_loop t.controller.table_size t.slots (hash_range t.controller (hash k)) (hash k) 1
          ≡ ok r
        → ((t' : Table N) → Resized key keq hash keys t t' → Ensures (Located t' k) (again t'))
        → Ensures (Located t k) (elim r [
          | free_at i ↦ ok (record t { slots = put_slot t.slots i (occupy (t.slots i)) }, i)
          | full c ↦ resize t c >>= again
        ])
    after_probe (free_at i) t k w missing again e ih = at_free t k i w missing e
    after_probe (full c) t k w missing again e ih =
        Ensures-next (Resized key keq hash keys t) (Located t k) (resize t c) again
          (Returns-Ensures (Resized key keq hash keys t) (resize t c)
            (resize-Resized key keq hash keys t c w))
          (λ t' z.
            Ensures-map (Located t' k) (Located t k) (again t') (ih t' z)
              (λ r l. kept t t' k r z l))

    -- `_findOrGetFreeIndex` returns the slot of a node with the key, or a free slot in the key's range
    -- where there is none, in a well-formed table of the same nodes.
    pub find_or_get_free_index-Located :
        (f : ℕ) (t : Table N) (k : K)
        → IsHashTable key keq hash t
        → hash k ≢ 0
        → NoStale (hash k) t.slots
        → Ensures (Located t k) (find_or_get_free_index (eq key keq hash) f t (hash k) k)
    unfolding find_or_get_free_index
    find_or_get_free_index-Located zero t k w nz stale = tt
    find_or_get_free_index-Located (suc f) t k w nz stale =
        elim (find_index-cases key keq hash keys t k w) [
          | inl missing ↦ rw (any-find t k stale ∙ missing.is_missing) (
              Ensures-bind (Located t k)
                (free_loop t.controller.table_size t.slots (hash_range t.controller (hash k))
                  (hash k) 1)
                _
                (λ r e.
                  after_probe r t k w missing
                    (λ t'. find_or_get_free_index (eq key keq hash) f t' (hash k) k) e
                    (λ t' z.
                      find_or_get_free_index-Located f t' k z.well nz (z.no_stale (hash k) nz))))
          | inr (i, found) ↦ rw (any-find t k stale ∙ found.is_found) (record {
            well = w;
            no_stale = λ h nz stale. stale;
            same = λ n. ((λ a. a), (λ a. a));
            size = refl;
            slot = inl found;
          })
        ]
