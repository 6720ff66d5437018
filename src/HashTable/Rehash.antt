-- ===== src/HashTable/Rehash.antt =====
-- `_rehash` and `_resize`: the new table is well formed and holds the same nodes.
use libspl.Common.{
  ℕ, zero, suc, ◌+◌, ◌*◌, ◌<◌, ◌≡◌, ◌≢◌, refl, sym, ◌∙◌, ap, subst, Bool, true, false, ◌||◌, some,
  ok, throw, int_zero, leb, ◌==◌, if◌then◌else◌, ◌>>=◌, arith, Bool-cases, inl, inr, Returns,
  Returns-bind,
}
use libspl.HashTable.Controller.{
  Controller, hash_range, increase_number_of_buckets, need_to_expand_bucket,
}
use libspl.HashTable.Growth.{
  IsController, increase_bucket_size-IsController, increase_number_of_buckets-IsController,
}
use libspl.HashTable.Table.{
  Slots, Table, put_slot, set, is_occupied, Free, free_at, full, free_loop, place, rehash_loop,
  rehash, new_slots, resize,
}
use libspl.HashTable.Probes.{free_loop-unoccupied, hash_range-IsRange, distance-le}
use libspl.HashTable.Reach.{Visits-lt, free_loop-Visits, free_loop-ends}
use libspl.HashTable.Nodes.{IsKeys, At, NoStale, IsSlots, IsHashTable, stands, eq}
use libspl.HashTable.Placing.{Puts, put_slot-Puts, unoccupied-other}

module _ {N K : Type 0} (key : N → K) (keq : K → K → Bool) (hash : K → ℕ)
    (keys : IsKeys keq hash) where
  place-Puts :
      (c : Controller) (s : Slots N) (n : N)
      → IsController c
      → IsSlots key keq hash c s
      → ((m : N) → At s m → keq (key m) (key n) ≡ false)
      → Returns (λ s'. Puts key keq hash c s s' n) (place c s (hash (key n)) n)
  unfolding place hash_range
  place-Puts c s n wc w new =
      let r = hash_range c (hash (key n)) in
      let is_range = hash_range-IsRange c (hash (key n)) wc in
      let (o, e) =
        free_loop-ends (eq key keq hash) c.table_size s r (hash (key n)) 1 is_range
          ((distance-le r is_range).1) in
      rw e (placed o e)
    where
      placed :
          (r : Free)
          → free_loop c.table_size s (hash_range c (hash (key n))) (hash (key n)) 1 ≡ ok r
          → Returns
              (λ s'. Puts key keq hash c s s' n)
              (elim r [
                | free_at i ↦ ok (put_slot s i (set (hash (key n)) n))
                | full m ↦ throw int_zero
              ])
      placed (free_at i) e =
          put_slot-Puts key keq hash keys c s i n w
            (unoccupied-other (s i) (
              free_loop-unoccupied (eq key keq hash) c.table_size s (hash_range c (hash (key n)))
                (hash (key n)) 1 i e))
            (free_loop-Visits (eq key keq hash) c.table_size s (hash_range c (hash (key n)))
              (hash (key n)) 1 i e)
            new
      placed (full m) e = tt

  module _ (c c₀ : Controller) (old : Slots N) (w₀ : IsSlots key keq hash c₀ old)
      (wc : IsController c) where
    -- the nodes of the first `i` slots of the old table stand in the new one
    record Moved (i : ℕ) (s : Slots N) : Type 0 where
      pub well : IsSlots key keq hash c s
      pub no_stale : (h : ℕ) → h ≢ 0 → NoStale h s
      pub from :
          (n : N)
          → At s n
          → (j : ℕ) × (j < i) × (is_occupied (old j) ≡ true) × ((old j).storage ≡ some n)
      pub to :
          (j : ℕ) (n : N) → j < i → is_occupied (old j) ≡ true → (old j).storage ≡ some n → At s n

    skips : (i : ℕ) (s : Slots N) → is_occupied (old i) ≡ false → Moved i s → Moved (i + 1) s
    skips i s free m = record {
      well = m.well;
      no_stale = m.no_stale;
      from = λ n a. let (j, lt, live, stored) = m.from n a in (j, omega (arith, lt), live, stored);
      to = λ j n lt live stored. elim (Bool-cases (j == i)) [
        | inl e ↦ absurd (
            let e' : j ≡ i = ground (arith, e) in
            let q = subst (λ x. is_occupied (old x) ≡ true) e' live in ground (arith, q, free))
        | inr e ↦ m.to j n (ground (arith, lt, e)) live stored
      ];
    }

    moves :
        (i : ℕ) (s s' : Slots N) (n : N)
        → is_occupied (old i) ≡ true
        → (old i).storage ≡ some n
        → Moved i s
        → Puts key keq hash c s s' n
        → Moved (i + 1) s'
    moves i s s' n live stored m p = record {
      well = p.well;
      no_stale = λ h nz. p.no_stale h (m.no_stale h nz);
      from = λ n' a. elim (p.only n' a) [
        | inl before ↦ let (j, lt, l, t) = m.from n' before in (j, omega (arith, lt), l, t)
        | inr same ↦ (i, omega arith, live, stored ∙ ap some (sym same))
      ];
      to = λ j n' lt l t. elim (Bool-cases (j == i)) [
        | inl e ↦
            let e' : j ≡ i = ground (arith, e) in
            let q = subst (λ x. (old x).storage ≡ some n') e' t in
            let z : some n ≡ some n' = sym stored ∙ q in
            let y : n ≡ n' = cc in subst (λ x. At s' x) y p.here
        | inr e ↦ p.keeps n' (m.to j n' (ground (arith, lt, e)) l t)
      ];
    }

    -- a node of the old table that comes next is of no key that has been moved
    unmoved :
        (i : ℕ) (s : Slots N) (n : N)
        → is_occupied (old i) ≡ true
        → (old i).storage ≡ some n
        → Moved i s
        → (m : N) → At s m
        → keq (key m) (key n) ≡ false
    unmoved i s n live stored mv m a = elim (Bool-cases (keq (key m) (key n))) [
      | inr no_ ↦ no_
      | inl yes_ ↦ absurd (
          let (j, lt, l, t) = mv.from m a in
          let e = w₀.distinct j i m n l live t stored yes_ in omega (arith, lt, e))
    ]

    rehash_loop-Moved :
        (m i : ℕ) (s : Slots N) → Moved i s → Returns (Moved (i + m)) (rehash_loop m i c old s)
    unfolding rehash_loop
    rehash_loop-Moved zero i s mv = let e : i ≡ i + 0 = omega arith in subst (λ x. Moved x s) e mv
    rehash_loop-Moved (suc m) i s mv =
        let e : i + 1 + m ≡ i + suc m = omega arith in
        elim (Bool-cases (is_occupied (old i))) [
          | inl live ↦
              let p = w₀.nodes i live in
              rw live (
                rw p.stored (
                  rw p.hashed (
                    Returns-bind (λ s'. Puts key keq hash c s s' p.node) (Moved (i + suc m))
                      (place c s (hash (key p.node)) p.node) (λ s'. rehash_loop m (i + 1) c old s')
                      (place-Puts c s p.node wc mv.well (unmoved i s p.node live p.stored mv))
                      (λ s' q.
                        subst (λ x. Returns (Moved x) (rehash_loop m (i + 1) c old s')) e
                          (rehash_loop-Moved m (i + 1) s'
                            (moves i s s' p.node live p.stored mv q))))))
          | inr free ↦ rw free (
              subst (λ x. Returns (Moved x) (rehash_loop m (i + 1) c old s)) e
                (rehash_loop-Moved m (i + 1) s (skips i s free mv)))
        ]

    nothing : Moved 0 new_slots
    nothing = record {
      well = record { nodes = λ i live. absurd cc; distinct = λ i j n m live. absurd cc };
      no_stale = λ h nz i free z. nz (sym z);
      from = λ n (i, live, stored). absurd cc;
      to = λ j n lt. absurd (omega (arith, lt));
    }

    rehash-Moved : (m : ℕ) → Returns (Moved m) (rehash m c old)
    unfolding rehash
    rehash-Moved m =
        let e : 0 + m ≡ m = omega arith in
        subst (λ x. Returns (Moved x) (rehash_loop m 0 c old new_slots)) e
          (rehash_loop-Moved m 0 new_slots nothing)

  pub record Resized (t t' : Table N) : Type 0 where
    pub well : IsHashTable key keq hash t'
    pub no_stale : (h : ℕ) → h ≢ 0 → NoStale h t'.slots
    pub same : (n : N) → (At t.slots n → At t'.slots n) × (At t'.slots n → At t.slots n)
    pub size : t'.size ≡ t.size

  -- a table of the controller `c` with the slots of a rehash
  pub rehashed :
      (t : Table N) (c : Controller)
      → IsHashTable key keq hash t
      → IsController c
      → Returns (Resized t) (
          rehash t.controller.table_size c t.slots >>= λ s.
          ok (record t { controller = c; slots = s }))
  unfolding hash_range
  rehashed t c w wc =
      let c₀ = t.controller in
      Returns-bind (Moved c c₀ t.slots w.slots wc c₀.table_size) (Resized t)
        (rehash c₀.table_size c t.slots) _ (rehash-Moved c c₀ t.slots w.slots wc c₀.table_size)
        (λ s m. record {
          well = record { controller = wc; slots = m.well };
          no_stale = m.no_stale;
          same = λ n. (
            (λ (i, live, stored).
                let p = stands key keq hash c₀ t.slots i n w.slots live stored in
                m.to i n
                  (Visits-lt c₀.table_size (hash_range c₀ (hash (key n))) i
                    (hash_range-IsRange c₀ (hash (key n)) w.controller) p.1)
                  live stored),
            (λ a. let (j, lt, live, stored) = m.from n a in (j, live, stored)),
          );
          size = refl;
        })

  slots-some : (c : Controller) → IsController c → (c.table_size == 0) ≡ false
  unfolding hash_range
  slots-some c w = let r = hash_range-IsRange c 0 w in ground (arith, r.pos_lt)

  -- the controller that grew, grown again where the table would be full
  grown :
      (c : Controller) (n : ℕ)
      → IsController c
      → IsController (if c.table_size == n then (increase_number_of_buckets c c.n_buckets).0 else c)
  grown c n w = elim (Bool-cases (c.table_size == n)) [
    | inl e ↦
        let (c', q, w', more, same) = increase_number_of_buckets-IsController c w in rw e (rw q w')
    | inr e ↦ rw e w
  ]

  -- `_resize` ends in a well-formed table of the same nodes, or throws the number 0.
  pub resize-Resized :
      (t : Table N) (n : ℕ) → IsHashTable key keq hash t → Returns (Resized t) (resize t n)
  unfolding resize
  resize-Resized t n w =
      let c = t.controller in
      elim (Bool-cases (need_to_expand_bucket c n || leb (2 * t.size) c.table_size)) [
        | inl wide ↦
            let (c₁, e, w₁, more, same) = increase_bucket_size-IsController c n w.controller in
            rw wide (
              rw e (
                rw (slots-some c w.controller) (
                  rehashed t
                    (if c₁.table_size == t.size
                      then (increase_number_of_buckets c₁ c₁.n_buckets).0
                      else c₁)
                    w (grown c₁ t.size w₁))))
        | inr long ↦
            let (c₁, e, w₁, more, same) = increase_number_of_buckets-IsController c w.controller in
            rw long (rw e (rw (slots-some c w.controller) (rehashed t c₁ w w₁)))
      ]
