-- ===== src/Serialization/Written.antt =====
-- What the output serializer has written, with what its buffer holds: the bytes that were put.
use libspl.Common.{
  ℕ, ◌+◌, ◌-◌, ◌≤◌, ◌≡◌, refl, ◌∙◌, ap, none, some, List, ◌++◌, Run, ok, ltb, length, take, drop,
  arith, Returns, Returns-bind, take-drop, length-drop, append_assoc, Bool-cases, inl, inr,
}
use libspl.Serialization.Output.{Output, locked, flush}

-- `_write` appends to what has been written, or throws
abbrev pub IsSink : {D : Type 0} → (D → List ℕ → Run D) → (D → List ℕ) → Type 0
IsSink {D} write written =
    (d : D) (bs : List ℕ) → Returns (λ d'. written d' ≡ written d ++ bs) (write d bs)

module _ {D : Type 0} where
  pub record IsOutput (o : Output D) : Type 0 where
    pub fits : length o.buf + o.remaining ≡ o.buf_size
    pub lock_le : (l : ℕ) → o.locked_cursor ≡ some l → l ≤ length o.buf

  locked_le : (o : Output D) → locked o ≤ length o.buf
  locked_le o = ground arith

module _ {D : Type 0} (write : D → List ℕ → Run D) (written : D → List ℕ) where
  abbrev pub content : Output D → List ℕ
  content o = written o.sink ++ o.buf

  -- the same bytes in the same order, the locked ones still in the buffer
  pub record Kept (o o' : Output D) : Type 0 where
    pub well : IsOutput o'
    pub same : content o' ≡ content o
    pub kept : locked o' ≡ locked o
    pub size : o'.buf_size ≡ o.buf_size
    pub total : o'.total_byte_count ≡ o.total_byte_count
    pub open_ : o.locked_cursor ≡ none → o'.locked_cursor ≡ none
    pub shut : (l : ℕ) → o.locked_cursor ≡ some l → (l' : ℕ) × (o'.locked_cursor ≡ some l')

  abbrev pub Flushed : Output D → Output D → Type 0
  Flushed o o' = Kept o o' × (length o'.buf ≡ locked o)

  pub unflushed : (o : Output D) → IsOutput o → Kept o o
  unflushed o w = record {
    well = w;
    same = refl;
    kept = refl;
    size = refl;
    total = refl;
    open_ = λ e. e;
    shut = λ l e. (l, e);
  }

  -- the serializer after a flush that has left the sink at `d`
  abbrev flushed_to : Output D → D → Output D
  flushed_to o d = record o {
    sink = d;
    buf = drop (length o.buf - locked o) o.buf;
    locked_cursor = elim o.locked_cursor [ none ↦ none | some l ↦ some 0 ];
    remaining = o.buf_size - locked o;
  }

  flushed_to-Flushed :
      (o : Output D) (d : D)
      → IsOutput o
      → written d ≡ written o.sink ++ take (length o.buf - locked o) o.buf
      → Flushed o (flushed_to o d)
  flushed_to-Flushed o d w e =
      let rest : length (drop (length o.buf - locked o) o.buf) ≡ locked o =
        omega (arith, length-drop (length o.buf - locked o) o.buf, locked_le o) in
      (
        record {
          well = record {
            fits = omega (arith, rest, locked_le o, w.fits);
            lock_le = λ l q. ground (arith, q);
          };
          same =
              ap (λ x. x ++ drop (length o.buf - locked o) o.buf) e
              ∙ append_assoc (written o.sink) (take (length o.buf - locked o) o.buf)
                  (drop (length o.buf - locked o) o.buf)
              ∙ ap (λ x. written o.sink ++ x) (take-drop (length o.buf - locked o) o.buf);
          kept = ground (arith, rest);
          size = refl;
          total = refl;
          open_ = λ e. ground (arith, e);
          shut = λ l e. (0, ground (arith, e));
        },
        rest,
      )

  module _ (sink : IsSink write written) where
    pub flush-Flushed : (o : Output D) → IsOutput o → Returns (Flushed o) (flush write o)
    unfolding flush
    flush-Flushed o w = elim (Bool-cases (ltb 0 (length o.buf - locked o))) [
      | inl some_ ↦ rw some_ (
          Returns-bind (λ d. written d ≡ written o.sink ++ take (length o.buf - locked o) o.buf)
            (Flushed o) (write o.sink (take (length o.buf - locked o) o.buf))
            (λ d. ok (flushed_to o d)) (sink o.sink (take (length o.buf - locked o) o.buf))
            (λ d e. flushed_to-Flushed o d w e))
      | inr none_ ↦ rw none_ (unflushed o w, ground (arith, none_, locked_le o))
    ]
