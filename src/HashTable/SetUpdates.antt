-- ===== src/HashTable/SetUpdates.antt =====
-- `put` and `erase` of the set, through any number of resizes.
use libspl.Common.{
  ℕ, suc, ◌+◌, ◌≡◌, ◌⊎◌, ◌≢◌, refl, sym, ◌∙◌, ap, subst, Bool, true, false, ok, arith, Bool-cases,
  inl, inr, if◌then◌else◌, Ensures, Ensures-next,
}
use libspl.HashTable.Controller.{hash_range}
use libspl.HashTable.Table.{Table, put_slot, set, is_occupied, find_or_get_free_index}
use libspl.HashTable.Reach.{Visits}
use libspl.HashTable.Nodes.{IsKeys, At, NoStale, IsHashTable, Found, find_index-cases, find-At}
use libspl.HashTable.Placing.{put_slot-Puts}
use libspl.HashTable.Locate.{Located, find_or_get_free_index-Located}
use libspl.HashTable.Room.{HasRoom, Found-returns, HasRoom-returns}
use libspl.HashTable.Sets.{put, contains}

module _ {K : Type 0} (keq : K → K → Bool) (hash : K → ℕ) (keys : IsKeys keq hash) where
  abbrev own : K → K
  own k = k

  abbrev pub IsHashSet : Table K → Type 0
  IsHashSet t = IsHashTable own keq hash t

  contains-At :
      (t : Table K) (k n : K)
      → IsHashSet t
      → At t.slots n
      → keq n k ≡ true
      → contains keq hash t k ≡ ok true
  unfolding contains
  contains-At t k n w a e =
      let (i, f, same) = find-At own keq hash keys t k n w a e in rw f.is_found refl

  contains-absent :
      (t : Table K) (k : K)
      → IsHashSet t
      → ((n : K) → At t.slots n → keq n k ≡ false)
      → contains keq hash t k ≡ ok false
  unfolding contains
  contains-absent t k w no_ = elim (find_index-cases own keq hash keys t k w) [
    | inl missing ↦ rw missing.is_missing refl
    | inr (i, f) ↦
        absurd
          (let q = no_ f.node (i, f.live, f.stored) in let p = f.same_key in ground (arith, q, p))
  ]

  contains-same :
      (t t' : Table K) (k : K)
      → IsHashSet t
      → IsHashSet t'
      → ((n : K) → keq n k ≡ true → (At t.slots n → At t'.slots n) × (At t'.slots n → At t.slots n))
      → contains keq hash t' k ≡ contains keq hash t k
  contains-same t t' k w w' same = elim (find_index-cases own keq hash keys t k w) [
    | inl missing ↦
        contains-absent t' k w' (λ n a. elim (Bool-cases (keq n k)) [
          | inr no_ ↦ no_
          | inl yes_ ↦ missing.no_node n ((same n yes_).1 a)
        ])
        ∙ sym (contains-absent t k w missing.no_node)
    | inr (i, f) ↦
        contains-At t' k f.node w' ((same f.node f.same_key).0 (i, f.live, f.stored)) f.same_key
        ∙ sym (contains-At t k f.node w (i, f.live, f.stored) f.same_key)
  ]

  pub record Joined (t : Table K) (k : K) (t' : Table K) : Type 0 where
    pub well : IsHashSet t'
    pub no_stale : (h : ℕ) → h ≢ 0 → NoStale h t.slots → NoStale h t'.slots
    pub here : contains keq hash t' k ≡ ok true
    pub others : (k₂ : K) → keq k k₂ ≡ false → contains keq hash t' k₂ ≡ contains keq hash t k₂
    pub size_new : contains keq hash t k ≡ ok false → t'.size ≡ t.size + 1
    pub size_old : contains keq hash t k ≡ ok true → t'.size ≡ t.size

  was_there :
      (t : Table K) (k : K) (r : Table K × ℕ)
      → Found own keq hash r.0 k r.1
      → IsHashSet t
      → Located own keq hash t k r
      → Joined t k r.0
  was_there t k r f w l =
      let at : At r.0.slots f.node = (r.1, f.live, f.stored) in
      let old = contains-At t k f.node w ((l.same f.node).1 at) f.same_key in
      record {
        well = l.well;
        no_stale = l.no_stale;
        here = contains-At r.0 k f.node l.well at f.same_key;
        others = λ k₂ ne. contains-same t r.0 k₂ w l.well (λ n e. l.same n);
        size_new = λ e. absurd (let q : ok true ≡ ok false = sym old ∙ e in cc);
        size_old = λ e. l.size;
      }

  new_node :
      (t : Table K) (k : K) (r : Table K × ℕ)
      → is_occupied (r.0.slots r.1) ≡ false
      → Visits r.0.controller.table_size (hash_range r.0.controller (hash k)) r.1
      → ((n : K) → At r.0.slots n → keq n k ≡ false)
      → IsHashSet t
      → Located own keq hash t k r
      → Joined t k
          (record r.0 { slots = put_slot r.0.slots r.1 (set (hash k) k); size = r.0.size + 1 })
  new_node t k r free reached absent w l =
      let z =
        put_slot-Puts own keq hash keys r.0.controller r.0.slots r.1 k l.well.slots free reached
          absent in
      let t' = record r.0 {
        slots = put_slot r.0.slots r.1 (set (hash k) k);
        size = r.0.size + 1;
      } in
      let w' : IsHashSet t' = record { controller = l.well.controller; slots = z.well } in
      let none_ = contains-absent t k w (λ n a. absent n ((l.same n).0 a)) in
      record {
        well = w';
        no_stale = λ h nz stale. z.no_stale h (l.no_stale h nz stale);
        here = contains-At t' k k w' z.here (keys.self k);
        others = λ k₂ ne. contains-same t t' k₂ w w' (λ m e. (
          (λ a. z.keeps m ((l.same m).0 a)),
          (λ a. elim (z.only m a) [
            | inl before ↦ (l.same m).1 before
            | inr same ↦
                absurd (let q = subst (λ x. keq x k₂ ≡ true) same e in ground (arith, q, ne))
          ]),
        ));
        size_new = λ e. ap (λ x. x + 1) l.size;
        size_old = λ e. absurd (let q : ok true ≡ ok false = sym e ∙ none_ in cc);
      }

  put-Ensures :
      (f : ℕ) (t : Table K) (k : K)
      → IsHashSet t
      → hash k ≢ 0
      → NoStale (hash k) t.slots
      → Ensures (Joined t k) (put keq hash f t k)
  unfolding put
  put-Ensures f t k w nz stale =
      Ensures-next (Located own keq hash t k) (Joined t k)
        (find_or_get_free_index keq f t (hash k) k) _
        (find_or_get_free_index-Located own keq hash keys f t k w nz stale)
        (λ r l. elim l.slot [
          | inl found ↦ rw found.live (was_there t k r found w l)
          | inr (free, reached, absent) ↦ rw free (new_node t k r free reached absent w l)
        ])

  -- where the search for the slot returns, `put` returns
  put-goes :
      (f : ℕ) (t : Table K) (k : K) (r : Table K × ℕ)
      → find_or_get_free_index keq f t (hash k) k ≡ ok r
      → (t' : Table K) × (put keq hash f t k ≡ ok t')
  unfolding put
  put-goes f t k r e = (
    if is_occupied (r.0.slots r.1)
        then r.0
        else record r.0 { slots = put_slot r.0.slots r.1 (set (hash k) k); size = r.0.size + 1 },
    rw e refl,
  )

  -- `put` on a well-formed set, of a key whose hash is not 0 and is the hash of no erased key: where the
  -- set contains the key, or a slot in the range of its hash is free, at once or after at most `f`
  -- resizes, it returns; the set is well formed and contains the key, answers as before on every other
  -- key, and its size counts the key if it was missing.
  pub put-Joined :
      (f : ℕ) (t : Table K) (k : K)
      → IsHashSet t
      → hash k ≢ 0
      → NoStale (hash k) t.slots
      → (contains keq hash t k ≡ ok true) ⊎ HasRoom (suc f) t (hash k)
      → (t' : Table K) × (put keq hash (suc f) t k ≡ ok t') × Joined t k t'
  put-Joined f t k w nz stale room =
      let (r, e) = located f t k w nz stale room in
      let (t', p) = put-goes (suc f) t k r e in
      (t', p, subst (Ensures (Joined t k)) p (put-Ensures (suc f) t k w nz stale))
    where
      located :
          (f : ℕ) (t : Table K) (k : K)
          → IsHashSet t
          → hash k ≢ 0
          → NoStale (hash k) t.slots
          → (contains keq hash t k ≡ ok true) ⊎ HasRoom (suc f) t (hash k)
          → (r : Table K × ℕ) × (find_or_get_free_index keq (suc f) t (hash k) k ≡ ok r)
      located f t k w nz stale (inr room) =
          HasRoom-returns own keq hash keys (suc f) t k w nz stale room
      located f t k w nz stale (inl there) = elim (find_index-cases own keq hash keys t k w) [
        | inr (i, found) ↦ ((t, i), Found-returns own keq hash f t k i stale found)
        | inl missing ↦
            absurd
              (let q : ok true ≡ ok false = sym there ∙ contains-absent t k w missing.no_node in cc)
      ]
