-- ===== src/Serialization/Positions.antt =====
-- The positions of the random-access output: its bytes stand where `tell` says, within the length.
use libspl.Common.{
  ℕ, zero, suc, ◌+◌, ◌≤◌, ◌<◌, ◌≡◌, ◌≢◌, refl, sym, ◌∙◌, ap, none, List, [], ◌∷◌, ◌++◌, Run, ok,
  throw, ltb, ◌==◌, ◌>>=◌, length, arith, Ensures, Ensures-next, fault, Returns, Returns-bind,
  Returns-map, Returns-both, length-append, Bool-cases, ◌⊎◌, inl, inr,
}
use libspl.Serialization.Output.{Output, flush, put}
use libspl.Serialization.Written.{IsSink, IsOutput, content, flush-Flushed}
use libspl.Serialization.Puts.{Accepts, put-content}
use libspl.Serialization.Region.{
  Region, known, region_length, write, tell, seek_to, new_region_output,
}
use libspl.Serialization.Sequences.{Blocks, bytes_of, put_all, put_all-flush}
use libspl.Serialization.Devices.{put_all-On, flush-On}

-- `n` bytes from `p` on
abbrev pub span : (ℕ → ℕ) → ℕ → ℕ → List ℕ
span f p zero = []
span f p (suc n) = f p ∷ span f (p + 1) n

pub length-span : (f : ℕ → ℕ) (p n : ℕ) → length (span f p n) ≡ n
length-span f p zero = refl
length-span f p (suc n) = ap (λ x. suc x) (length-span f (p + 1) n)

pub span-append : (f : ℕ → ℕ) (p m n : ℕ) → span f p (m + n) ≡ span f p m ++ span f (p + m) n
span-append f p zero n =
    let z : p ≡ p + 0 = omega arith in
    let y : 0 + n ≡ n = omega arith in ap (λ x. span f p x) y ∙ ap (λ x. span f x n) z
span-append f p (suc m) n =
    let z : p + 1 + m ≡ p + suc m = omega arith in
    let y : suc m + n ≡ suc (m + n) = omega arith in
    let next = ap (λ x. span f (p + 1) m ++ span f x n) z in
    ap (λ x. span f p x) y ∙ ap (λ x. f p ∷ x) (span-append f (p + 1) m n ∙ next)

pub span-same :
    (f g : ℕ → ℕ) (p n : ℕ) → ((j : ℕ) → j < p + n → g j ≡ f j) → span g p n ≡ span f p n
span-same f g p zero same = refl
span-same f g p (suc n) same =
    let rest = span-same f g (p + 1) n (λ j lt. same j (omega (arith, lt))) in
    ap (λ x. x ∷ span g (p + 1) n) (same p (omega arith)) ∙ ap (λ x. f p ∷ x) rest

prefix :
    (f g : ℕ → ℕ) (p : ℕ) (bs : List ℕ)
    → span g p (length bs) ≡ bs
    → ((j : ℕ) → j < p → g j ≡ f j)
    → span g 0 (p + length bs) ≡ span f 0 p ++ bs
prefix f g p bs block below =
    let z : 0 + p ≡ p = omega arith in
    span-append g 0 p (length bs)
    ∙ ap (λ x. x ++ span g (0 + p) (length bs))
        (span-same f g 0 p (λ j lt. below j (omega (arith, lt))))
    ∙ ap (λ x. span f 0 p ++ span g x (length bs)) z
    ∙ ap (λ x. span f 0 p ++ x) block

-- `_writeAt` writes the block at the position and nothing else, or throws
abbrev pub IsStore : {S : Type 0} → (S → ℕ → ℕ) → (S → ℕ → List ℕ → Run S) → Type 0
IsStore {S} byte_at write_at =
    (s : S) (p : ℕ) (bs : List ℕ)
    → Returns
        (λ s'.
          (span (byte_at s') p (length bs) ≡ bs)
          × ((j : ℕ) → (j < p) ⊎ (p + length bs ≤ j) → byte_at s' j ≡ byte_at s j))
        (write_at s p bs)

module _ {S : Type 0} (byte_at : S → ℕ → ℕ) (write_at : S → ℕ → List ℕ → Run S)
    (get_length : S → ℕ) where
  abbrev pub region_bytes : Region S → List ℕ
  region_bytes r = span (byte_at r.store) 0 r.position

  abbrev pub Within : ℕ → Region S → Type 0
  Within n r = (region_length write_at get_length r ≡ n) × (r.position ≤ n)

  known-length :
      (r : Region S) (s : S) (p : ℕ)
      → region_length write_at get_length
          (record (known write_at get_length r) { store = s; position = p })
        ≡ region_length write_at get_length r
  known-length r s p = ground arith

  anything : (m : Run S) → Ensures (λ s. Unit {0}) m
  anything (ok s) = tt
  anything (throw e) = tt
  anything fault = tt

  -- a write ends within the length of the region
  pub write-Within :
      (n : ℕ) (r : Region S) (bs : List ℕ)
      → Within n r
      → Ensures (Within n) (write write_at get_length r bs)
  unfolding write
  write-Within n r bs (e, le) =
      elim (Bool-cases (ltb (region_length write_at get_length r) (r.position + length bs))) [
        | inl beyond ↦ rw beyond tt
        | inr inside ↦ rw inside (
            Ensures-next (λ s. Unit {0}) (Within n) (write_at r.store r.position bs) _
              (anything (write_at r.store r.position bs))
              (λ s u. (known-length r s (r.position + length bs) ∙ e, ground (arith, inside, e))))
      ]

  module _ (store : IsStore byte_at write_at) where
    pub write-IsSink : IsSink (write write_at get_length) region_bytes
    unfolding write
    write-IsSink r bs =
        elim (Bool-cases (ltb (region_length write_at get_length r) (r.position + length bs))) [
          | inl beyond ↦ rw beyond tt
          | inr inside ↦ rw inside (
              Returns-bind _ (λ d'. region_bytes d' ≡ region_bytes r ++ bs)
                (write_at r.store r.position bs) _ (store r.store r.position bs)
                (λ s (block, rest).
                  prefix (byte_at r.store) (byte_at s) r.position bs block
                    (λ j lt. rest j (inl lt))))
        ]

    tell-content :
        (o : Output (Region S))
        → tell write_at get_length o ≡ length (content (write write_at get_length) region_bytes o)
    tell-content o = omega (
      arith,
      length-append (region_bytes o.sink) o.buf,
      length-span (byte_at o.sink.store) 0 o.sink.position,
    )

    -- `put` on a random-access serializer that is not locked moves `tell` by the number of bytes.
    pub put-tell :
        (o : Output (Region S)) (addr : ℕ) (bs : List ℕ)
        → IsOutput o
        → o.locked_cursor ≡ none
        → 1 ≤ o.buf_size
        → Returns
            (λ o'. tell write_at get_length o' ≡ tell write_at get_length o + length bs)
            (put (write write_at get_length) o addr bs)
    put-tell o addr bs w e room =
        Returns-map (Accepts (write write_at get_length) region_bytes bs o) _
          (put (write write_at get_length) o addr bs)
          (put-content (write write_at get_length) region_bytes write-IsSink o addr bs w e room)
          (λ o' a.
            tell-content o'
            ∙ ap length a.holds
            ∙ length-append (content (write write_at get_length) region_bytes o) bs
            ∙ ap (λ n. n + length bs) (sym (tell-content o)))

    -- Blocks put on a new random-access serializer and flushed stand at the start of the region, in
    -- their order, and end within its length; otherwise the serializer throws.
    pub put_all-region :
        (s : S) (size : ℕ) (blocks : Blocks)
        → 1 ≤ size
        → Returns
            (λ o'.
              (span (byte_at o'.sink.store) 0 (length (bytes_of blocks)) ≡ bytes_of blocks)
              × (o'.sink.position ≡ length (bytes_of blocks))
              × (length (bytes_of blocks) ≤ get_length s))
            (put_all
                (write write_at get_length)
                (new_region_output write_at get_length s size)
                blocks
              >>= flush (write write_at get_length))
    put_all-region s size blocks room =
        let o = new_region_output write_at get_length s size in
        let w : IsOutput o = record { fits = omega arith; lock_le = λ l q. absurd cc } in
        Returns-map (λ o'. (region_bytes o'.sink ≡ bytes_of blocks) × Within (get_length s) o'.sink)
          _ (put_all (write write_at get_length) o blocks >>= flush (write write_at get_length))
          (Returns-both _ (λ o'. Within (get_length s) o'.sink) _
            (put_all-flush (write write_at get_length) region_bytes write-IsSink blocks o w refl
              room)
            (Ensures-next (λ o'. Within (get_length s) o'.sink)
              (λ o'. Within (get_length s) o'.sink) (put_all (write write_at get_length) o blocks)
              (flush (write write_at get_length))
              (put_all-On (write write_at get_length) (Within (get_length s))
                (write-Within (get_length s)) blocks o (refl, omega arith))
              (λ p q.
                flush-On (write write_at get_length) (Within (get_length s))
                  (write-Within (get_length s)) p q)))
          (λ o' (bytes, (e, le)).
            let n : o'.sink.position ≡ length (bytes_of blocks) =
              sym (length-span (byte_at o'.sink.store) 0 o'.sink.position) ∙ ap length bytes in
            (ap (λ k. span (byte_at o'.sink.store) 0 k) (sym n) ∙ bytes, n, omega (arith, n, le)))

    -- `seek_to` on a serializer that is not locked makes `tell` the position, if that is not where the
    -- last write ended or nothing is buffered.
    pub seek_to-tell :
        (o : Output (Region S)) (p : ℕ)
        → IsOutput o
        → o.locked_cursor ≡ none
        → (p ≢ o.sink.position) ⊎ (length o.buf ≡ 0)
        → Returns (λ o'. tell write_at get_length o' ≡ p) (seek_to write_at get_length o p)
    unfolding seek_to
    seek_to-tell o p w e free = elim (Bool-cases (p == o.sink.position)) [
      | inl here ↦ rw here (ground (arith, here, free))
      | inr away ↦ rw away (elim (Bool-cases (ltb (region_length write_at get_length o.sink) p)) [
        | inl beyond ↦ rw beyond tt
        | inr inside ↦ rw inside (
            Returns-bind _ (λ o'. tell write_at get_length o' ≡ p)
              (flush (write write_at get_length)
                (record o { sink = known write_at get_length o.sink }))
              _
              (flush-Flushed (write write_at get_length) region_bytes write-IsSink
                (record o { sink = known write_at get_length o.sink })
                (record { fits = w.fits; lock_le = w.lock_le }))
              (λ o' f. ground (arith, f.1, e)))
      ])
    ]
