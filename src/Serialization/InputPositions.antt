-- ===== src/Serialization/InputPositions.antt =====
-- The random-access input: it returns the bytes of the region at the position that was sought.
use libspl.Common.{
  ℕ, ◌+◌, ◌-◌, ◌≤◌, ◌≡◌, sym, ◌∙◌, ap, List, ◌++◌, Run, ltb, leb, if◌then◌else◌, ◌>>=◌, length,
  arith, Returns, Returns-bind, Returns-map, length-append, Bool-cases, inl, inr,
}
use libspl.Serialization.Input.{Input, empty_buffer, get}
use libspl.Serialization.Gets.{IsSource, Got, get-Got}
use libspl.Serialization.Positions.{span, span-append, span-same, length-span}
use libspl.Serialization.RoundTrip.{same_start}
use libspl.Serialization.InputRegion.{InputRegion, size_minus, known, region_length, read, seek_to}

-- `_readAt` returns the bytes at the position and changes none, or throws
abbrev pub IsReader : {S : Type 0} → (S → ℕ → ℕ) → (S → ℕ → ℕ → Run (S × List ℕ)) → Type 0
IsReader {S} byte_at read_at =
    (s : S) (p n : ℕ)
    → Returns (λ t. (t.1 ≡ span (byte_at s) p n) × ((j : ℕ) → byte_at t.0 j ≡ byte_at s j))
        (read_at s p n)

size_minus-le : (a b : ℕ) → b ≤ a → size_minus a b ≡ a - b
unfolding size_minus
size_minus-le a b le = ground (arith, le)

front :
    (f : ℕ → ℕ) (p k : ℕ) (xs ys : List ℕ)
    → span f p k ≡ xs ++ ys
    → (n : ℕ) → length xs ≡ n
    → xs ≡ span f p n
front f p k xs ys e n l =
    let lengths = ap length e in
    let k' : k ≡ n + length ys =
      omega (arith, lengths, length-span f p k, length-append xs ys, l) in
    let e' = sym e ∙ ap (λ x. span f p x) k' ∙ span-append f p n (length ys) in
    (same_start xs ys (span f p n) (span f (p + n) (length ys)) (l ∙ sym (length-span f p n)) e').0

module _ {S : Type 0} (byte_at : S → ℕ → ℕ) (read_at : S → ℕ → ℕ → Run (S × List ℕ))
    (get_length : S → ℕ) where
  abbrev pub Inside : InputRegion S → Type 0
  Inside r = r.position ≤ region_length read_at get_length r

  abbrev pub rest_of : InputRegion S → List ℕ
  rest_of r = span (byte_at r.store) r.position (region_length read_at get_length r - r.position)

  abbrev moved : InputRegion S → S → ℕ → InputRegion S
  moved r s n = record (known read_at get_length r) { store = s; position = r.position + n }

  moved-length :
      (r : InputRegion S) (s : S) (n : ℕ)
      → region_length read_at get_length (moved r s n) ≡ region_length read_at get_length r
  moved-length r s n = ground arith

  known-store : (r : InputRegion S) → (known read_at get_length r).store ≡ r.store
  known-store r = ground arith

  after_read :
      (r : InputRegion S) (s : S) (n : ℕ)
      → r.position + n ≤ region_length read_at get_length r
      → ((j : ℕ) → byte_at s j ≡ byte_at r.store j)
      → rest_of r ≡ span (byte_at r.store) r.position n ++ rest_of (moved r s n)
  after_read r s n le same =
      let m = moved-length r s n in
      let k : region_length read_at get_length r - r.position
          ≡ n + (region_length read_at get_length (moved r s n) - (r.position + n)) =
        omega (arith, m, le) in
      ap (λ x. span (byte_at r.store) r.position x) k
      ∙ span-append (byte_at r.store) r.position n
          (region_length read_at get_length (moved r s n) - (r.position + n))
      ∙ ap (λ x. span (byte_at r.store) r.position n ++ x)
          (sym (
            span-same (byte_at r.store) (byte_at s) (r.position + n)
              (region_length read_at get_length (moved r s n) - (r.position + n)) (λ j lt. same j)))

  module _ (reader : IsReader byte_at read_at) where
    pub read-IsSource : IsSource (read read_at get_length) rest_of Inside
    unfolding read
    read-IsSource r least most inside le =
        let n = region_length read_at get_length r in
        let e = size_minus-le n r.position inside in
        elim (Bool-cases (ltb (size_minus n r.position) least)) [
          | inl short ↦ rw short tt
          | inr enough ↦
              let l =
                if leb most (size_minus n r.position) then most else size_minus n r.position in
              rw enough (
                Returns-bind _ _ (read_at r.store r.position l) _ (reader r.store r.position l)
                  (λ t (bytes, same).
                    let k = ap length bytes ∙ length-span (byte_at r.store) r.position l in
                    let m = moved-length r t.0 l in
                    let bound : r.position + l ≤ n = ground (arith, e, inside) in
                    (
                      after_read r t.0 l bound same
                          ∙ ap (λ x. x ++ rest_of (moved r t.0 l)) (sym bytes),
                      ground (arith, k, enough, le),
                      ground (arith, k),
                      omega (arith, m, bound),
                    )))
        ]

    -- After `seek_to` to a position, `get` returns the bytes of the region there, whatever was buffered;
    -- or one of them throws.
    pub seek_to-get :
        (i : Input (InputRegion S)) (p addr len : ℕ)
        → 1 ≤ i.buf_size
        → Returns
            (λ r. r.1 ≡ span (byte_at i.source.store) p len)
            (seek_to read_at get_length i p >>= λ j. get (read read_at get_length) j addr len)
    unfolding seek_to
    seek_to-get i p addr len room =
        elim (Bool-cases (ltb (region_length read_at get_length i.source) p)) [
          | inl beyond ↦ rw beyond tt
          | inr within ↦
              let j = record (empty_buffer i) {
                source = record (known read_at get_length i.source) { position = p };
              } in
              let inside : Inside j.source = ground (arith, within) in
              rw within (
                Returns-map (Got (read read_at get_length) rest_of Inside len j) _
                  (get (read read_at get_length) j addr len)
                  (get-Got (read read_at get_length) rest_of Inside read-IsSource j addr len inside
                    room)
                  (λ r g.
                    front (byte_at (known read_at get_length i.source).store) p _ r.1 _ g.bytes len
                      g.number
                    ∙ ap (λ s. span (byte_at s) p len) (known-store i.source)))
        ]
