-- ===== src/Serialization/Sequences.antt =====
-- Several blocks put one after the other, and the flush behind them.
use libspl.Common.{
  ℕ, ◌≤◌, ◌≡◌, refl, sym, ◌∙◌, ap, subst, none, List, [], ◌∷◌, ◌++◌, Run, ok, ◌>>=◌, arith, Returns,
  Returns-bind, Returns-map, append_assoc, append-nil, length-append,
}
use libspl.Serialization.Output.{Output, flush, put}
use libspl.Serialization.Written.{IsSink, IsOutput, content, Flushed, flush-Flushed}
use libspl.Serialization.Puts.{Accepts, empty, put-content}

-- blocks of bytes with the addresses they lie at
abbrev pub Blocks : Type 0
Blocks = List (ℕ × List ℕ)

abbrev pub bytes_of : Blocks → List ℕ
bytes_of [] = []
bytes_of ((addr, bs) ∷ rest) = bs ++ bytes_of rest

module _ {D : Type 0} (write : D → List ℕ → Run D) where
  unfoldable pub put_all : Output D → Blocks → Run (Output D)
  put_all o [] = ok o
  put_all o ((addr, bs) ∷ rest) = put write o addr bs >>= λ o'. put_all o' rest

module _ {D : Type 0} (write : D → List ℕ → Run D) (written : D → List ℕ)
    (sink : IsSink write written) where
  put_all-content :
      (blocks : Blocks) (o : Output D)
      → IsOutput o
      → o.locked_cursor ≡ none
      → 1 ≤ o.buf_size
      → Returns (Accepts write written (bytes_of blocks) o) (put_all write o blocks)
  unfolding put_all
  put_all-content [] o w e room = record {
    well = w;
    holds = sym (append-nil (content write written o));
    unlocked = e;
    total = omega arith;
    size = refl;
  }
  put_all-content ((addr, bs) ∷ rest) o w e room =
      Returns-bind (Accepts write written bs o) (Accepts write written (bs ++ bytes_of rest) o)
        (put write o addr bs) (λ o'. put_all write o' rest)
        (put-content write written sink o addr bs w e room)
        (λ o' a.
          Returns-map (Accepts write written (bytes_of rest) o')
            (Accepts write written (bs ++ bytes_of rest) o) (put_all write o' rest)
            (put_all-content rest o' a.well a.unlocked (subst (λ x. 1 ≤ x) (sym a.size) room))
            (λ o2 b. record {
              well = b.well;
              holds =
                  b.holds
                  ∙ ap (λ x. x ++ bytes_of rest) a.holds
                  ∙ append_assoc (content write written o) bs (bytes_of rest);
              unlocked = b.unlocked;
              total = omega (arith, a.total, b.total, length-append bs (bytes_of rest));
              size = b.size ∙ a.size;
            }))

  written_all :
      (o o' : Output D)
      → Flushed write written o o'
      → o.locked_cursor ≡ none
      → written o'.sink ≡ content write written o
  written_all o o' (k, z) e =
      let none_ : o'.buf ≡ [] = empty o'.buf (ground (arith, z, e)) in
      sym (append-nil (written o'.sink)) ∙ sym (ap (λ x. written o'.sink ++ x) none_) ∙ k.same

  -- Blocks put on a serializer that is not locked, and flushed, are written in their order behind what
  -- was written and buffered, whatever their sizes and addresses and that of the buffer.
  pub put_all-flush :
      (blocks : Blocks) (o : Output D)
      → IsOutput o
      → o.locked_cursor ≡ none
      → 1 ≤ o.buf_size
      → Returns
          (λ o'. written o'.sink ≡ written o.sink ++ o.buf ++ bytes_of blocks)
          (put_all write o blocks >>= flush write)
  put_all-flush blocks o w e room =
      Returns-bind (Accepts write written (bytes_of blocks) o) _ (put_all write o blocks)
        (flush write) (put_all-content blocks o w e room)
        (λ p a.
          Returns-map (Flushed write written p) _ (flush write p)
            (flush-Flushed write written sink p a.well)
            (λ q f. written_all p q f a.unlocked ∙ a.holds))
