-- ===== src/Serialization/RoundTrip.antt =====
-- What is put and flushed, and read again by as many `get`s of the same lengths.
use libspl.Common.{
  ℕ, ◌≤◌, ◌≡◌, refl, sym, ◌∙◌, ap, subst, List, [], ◌∷◌, ◌++◌, Run, ok, ◌>>=◌, length, arith,
  Returns, Returns-bind,
}
use libspl.Serialization.Output.{new_output, flush}
use libspl.Serialization.Written.{IsSink}
use libspl.Serialization.Sequences.{Blocks, bytes_of, put_all, put_all-flush}
use libspl.Serialization.Input.{Input, new_input, get}
use libspl.Serialization.Gets.{IsSource, pending, Got, get-Got}

abbrev pub contents : Blocks → List (List ℕ)
contents [] = []
contents ((addr, bs) ∷ rest) = bs ∷ contents rest

-- two lists that begin with as many elements and are the same
pub same_start :
    (xs ys xs' ys' : List ℕ)
    → length xs ≡ length xs'
    → xs ++ ys ≡ xs' ++ ys'
    → (xs ≡ xs') × (ys ≡ ys')
same_start [] ys [] ys' l e = (refl, e)
same_start [] ys (x' ∷ xs') ys' l e = absurd (omega (arith, l))
same_start (x ∷ xs) ys [] ys' l e = absurd (omega (arith, l))
same_start (x ∷ xs) ys (x' ∷ xs') ys' l e =
    let head : x ≡ x' = cc in
    let tail : xs ++ ys ≡ xs' ++ ys' = cc in
    let (a, b) = same_start xs ys xs' ys' (omega (arith, l)) tail in
    (ap (λ z. z ∷ xs) head ∙ ap (λ z. x' ∷ z) a, b)

module _ {E : Type 0} (read : E → ℕ → ℕ → Run (E × List ℕ)) where
  -- the `get`s of the blocks' lengths, to their addresses
  unfoldable pub get_all : Input E → Blocks → Run (List (List ℕ))
  get_all i [] = ok []
  get_all i ((addr, bs) ∷ rest) =
      get read i addr (length bs) >>= λ r. get_all r.0 rest >>= λ more. ok (r.1 ∷ more)

module _ {E : Type 0} (read : E → ℕ → ℕ → Run (E × List ℕ)) (stream : E → List ℕ) (I : E → Type 0)
    (source : IsSource read stream I) where
  get_all-contents :
      (blocks : Blocks) (i : Input E)
      → I i.source
      → 1 ≤ i.buf_size
      → pending read stream I i ≡ bytes_of blocks
      → Returns (λ bss. bss ≡ contents blocks) (get_all read i blocks)
  unfolding get_all
  get_all-contents [] i k room e = refl
  get_all-contents ((addr, bs) ∷ rest) i k room e =
      Returns-bind (Got read stream I (length bs) i) (λ bss. bss ≡ bs ∷ contents rest)
        (get read i addr (length bs)) _ (get-Got read stream I source i addr (length bs) k room)
        (λ r g.
          let (same, behind) =
            same_start r.1 (pending read stream I r.0) bs (bytes_of rest) g.number
              (sym g.bytes ∙ e) in
          Returns-bind (λ bss. bss ≡ contents rest) (λ bss. bss ≡ bs ∷ contents rest)
            (get_all read r.0 rest) _
            (get_all-contents rest r.0 g.kept (subst (λ x. 1 ≤ x) (sym g.size) room) behind)
            (λ more q. ap (λ x. x ∷ more) same ∙ ap (λ x. bs ∷ x) q))

  module _ {D : Type 0} (write : D → List ℕ → Run D) (written : D → List ℕ)
      (sink : IsSink write written) (reopen : D → E)
      (reopened : (d : D) → stream (reopen d) ≡ written d) (opens : (d : D) → I (reopen d)) where
    -- Blocks put on a new output serializer and flushed, and read by as many gets of a new input
    -- serializer from what was written, come back block for block, where each of the two buffers has room
    -- for a byte at least and the device has held nothing before; or the device throws.
    pub get_all-put_all :
        (blocks : Blocks) (d : D) (size size' : ℕ)
        → written d ≡ []
        → 1 ≤ size
        → 1 ≤ size'
        → Returns
            (λ bss. bss ≡ contents blocks)
            (put_all write (new_output d size) blocks >>= flush write >>= λ o.
              get_all read (new_input (reopen o.sink) size') blocks)
    get_all-put_all blocks d size size' fresh room room' =
        Returns-bind (λ o'. written o'.sink ≡ written d ++ [] ++ bytes_of blocks)
          (λ bss. bss ≡ contents blocks) (put_all write (new_output d size) blocks >>= flush write)
          _
          (put_all-flush write written sink blocks (new_output d size)
            (record { fits = omega arith; lock_le = λ l q. absurd cc }) refl room)
          (λ o q.
            get_all-contents blocks (new_input (reopen o.sink) size') (opens o.sink) room'
              (reopened o.sink ∙ q ∙ ap (λ x. x ++ [] ++ bytes_of blocks) fresh))
