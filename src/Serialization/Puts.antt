-- ===== src/Serialization/Puts.antt =====
-- `put` of the output serializer: every byte is written or buffered, in the order of the calls.
use libspl.Common.{
  ℕ, zero, suc, ◌+◌, ◌-◌, ◌%◌, ◌≤◌, ◌<◌, ◌≡◌, refl, sym, ◌∙◌, ap, subst, Bool, true, false, ◌&&◌,
  Option, none, some, List, [], ◌∷◌, ◌++◌, Run, ok, leb, ltb, ◌==◌, if◌then◌else◌, ◌>>=◌, length,
  take, drop, arith, Returns, Returns-bind, Returns-map, take-drop, length-take, length-drop,
  length-append, append_assoc, append-nil, Bool-cases, inl, inr,
}
use libspl.Serialization.Output.{Output, locked, count, copy, flush, fit, put_loop, put}
use libspl.Serialization.Written.{
  IsSink, IsOutput, content, Kept, unflushed, Flushed, flush-Flushed,
}

pub empty : (xs : List ℕ) → length xs ≡ 0 → xs ≡ []
empty [] e = refl
empty (x ∷ xs) e = absurd (omega (arith, e))

held_more :
    (c : Option ℕ) (buf bs : List ℕ)
    → ((l : ℕ) → c ≡ some l → l ≤ length buf)
    → ◌≡◌ {A = ℕ}
        (elim c [ none ↦ 0 | some l ↦ length (buf ++ bs) - l ])
        (elim c [ none ↦ 0 | some l ↦ length buf - l + length bs ])
held_more none buf bs le = refl
held_more (some l) buf bs le = omega (arith, length-append buf bs, le l refl)

module _ {D : Type 0} (write : D → List ℕ → Run D) (written : D → List ℕ) where
  -- the bytes are put behind the others
  pub record Put (bs : List ℕ) (o o' : Output D) : Type 0 where
    pub well : IsOutput o'
    pub holds : content write written o' ≡ content write written o ++ bs
    pub size : o'.buf_size ≡ o.buf_size
    pub total : o'.total_byte_count ≡ o.total_byte_count
    pub open_ : o.locked_cursor ≡ none → o'.locked_cursor ≡ none

  pub record Copied (bs : List ℕ) (o o' : Output D) : Type 0 where
    pub is_put : Put bs o o'
    pub held :
        locked o' ≡ (elim o.locked_cursor [ none ↦ 0 | some l ↦ length o.buf - l + length bs ])
    pub left : o'.remaining ≡ o.remaining - length bs

  pub copy-Copied :
      (o : Output D) (bs : List ℕ)
      → IsOutput o
      → length bs ≤ o.remaining
      → Returns (Copied bs o) (copy o bs)
  unfolding copy
  copy-Copied o bs w le =
      let yes_ : leb (length bs) o.remaining ≡ true = ground (arith, le) in
      rw yes_ (record {
        is_put = record {
          well = record {
            fits = omega (arith, w.fits, length-append o.buf bs, le);
            lock_le = λ l q. omega (arith, w.lock_le l q, length-append o.buf bs);
          };
          holds = sym (append_assoc (written o.sink) o.buf bs);
          size = refl;
          total = refl;
          open_ = λ e. e;
        };
        held = held_more o.locked_cursor o.buf bs w.lock_le;
        left = refl;
      })

  record Fit (n : ℕ) (o : Output D) (r : Output D × Bool) : Type 0 where
    pub kept : Kept write written o r.0
    pub room : r.1 ≡ true → n ≤ r.0.remaining

  leb-le : (a b : ℕ) → leb a b ≡ true → a ≤ b
  leb-le a b e = ground (arith, e)

  pub record Accepts (bs : List ℕ) (o o' : Output D) : Type 0 where
    pub well : IsOutput o'
    pub holds : content write written o' ≡ content write written o ++ bs
    pub unlocked : o'.locked_cursor ≡ none
    pub total : o'.total_byte_count ≡ o.total_byte_count + length bs
    pub size : o'.buf_size ≡ o.buf_size

  counted :
      (o o' p : Output D) (bs : List ℕ)
      → Kept write written o o'
      → Put bs o' p
      → o.locked_cursor ≡ none
      → Accepts bs o (count (length bs) p)
  counted o o' p bs k h e = record {
    well = record { fits = h.well.fits; lock_le = h.well.lock_le };
    holds = h.holds ∙ ap (λ x. x ++ bs) k.same;
    unlocked = h.open_ (k.open_ e);
    total = ap (λ x. x + length bs) (h.total ∙ k.total);
    size = h.size ∙ k.size;
  }

  module _ (sink : IsSink write written) where
    fit-Fit : (o : Output D) (n : ℕ) → IsOutput o → Returns (Fit n o) (fit write o n)
    unfolding fit
    fit-Fit o n w = elim (Bool-cases (leb n o.remaining)) [
      | inl le ↦
          rw le (record { kept = unflushed write written o w; room = λ e. leb-le n o.remaining le })
      | inr gt ↦ rw gt (elim (Bool-cases (length o.buf % o.alignment == 0)) [
        | inl even ↦ rw even (
            Returns-bind (Flushed write written o) (Fit n o) (flush write o)
              (λ o'. ok (o', leb n o'.remaining)) (flush-Flushed write written sink o w)
              (λ o' f. record { kept = f.0; room = leb-le n o'.remaining }))
        | inr odd ↦ rw odd (record { kept = unflushed write written o w; room = λ e. absurd cc })
      ])
    ]

    -- one round of `_put` copies what fits and goes on behind it
    step :
        (o o' p q : Output D) (n : ℕ) (bs : List ℕ)
        → Kept write written o o'
        → Put (take n bs) o' p
        → Put (drop n bs) p q
        → Put bs o q
    step o o' p q n bs k h g = record {
      well = g.well;
      holds =
          g.holds
          ∙ ap (λ x. x ++ drop n bs) (h.holds ∙ ap (λ x. x ++ take n bs) k.same)
          ∙ append_assoc (content write written o) (take n bs) (drop n bs)
          ∙ ap (λ x. content write written o ++ x) (take-drop n bs);
      size = g.size ∙ h.size ∙ k.size;
      total = g.total ∙ h.total ∙ k.total;
      open_ = λ e. g.open_ (h.open_ (k.open_ e));
    }

    direct :
        (o o' : Output D) (d : D) (bs : List ℕ)
        → Kept write written o o'
        → length o'.buf ≡ 0
        → written d ≡ written o'.sink ++ bs
        → Put bs o (record o' { sink = d })
    direct o o' d bs k e w =
        let none_ = empty o'.buf e in
        record {
          well = record { fits = k.well.fits; lock_le = k.well.lock_le };
          holds =
              ap (λ x. written d ++ x) none_
              ∙ append-nil (written d)
              ∙ w
              ∙ ap (λ x. x ++ bs)
                  (sym (ap (λ x. written o'.sink ++ x) none_ ∙ append-nil (written o'.sink))
                    ∙ k.same);
          size = k.size;
          total = k.total;
          open_ = k.open_;
        }

    -- a flush where the test holds
    flush_if :
        (b : Bool) (o : Output D)
        → IsOutput o
        → o.locked_cursor ≡ none
        → Returns
            (λ o'. Kept write written o o' × (b ≡ true → length o'.buf ≡ 0) × (b ≡ false → o' ≡ o))
            (if b then flush write o else ok o)
    flush_if true o w e =
        Returns-map (Flushed write written o) _ (flush write o)
          (flush-Flushed write written sink o w)
          (λ o' f. (f.0, (λ q. ground (arith, f.1, e)), (λ q. absurd cc)))
    flush_if false o w e = (unflushed write written o w, (λ q. absurd cc), (λ q. refl))

    nothing : (o : Output D) (bs : List ℕ) → IsOutput o → length bs ≡ 0 → Put bs o o
    nothing o bs w z = record {
      well = w;
      holds = sym (
          ap (λ x. content write written o ++ x) (empty bs z)
          ∙ append-nil (content write written o));
      size = refl;
      total = refl;
      open_ = λ q. q;
    }

    write_all :
        (o o' : Output D) (bs : List ℕ)
        → Kept write written o o'
        → length o'.buf ≡ 0
        → Returns (Put bs o) (write o'.sink bs >>= λ d. ok (record o' { sink = d }))
    write_all o o' bs k e =
        Returns-bind (λ d. written d ≡ written o'.sink ++ bs) (Put bs o) (write o'.sink bs)
          (λ d. ok (record o' { sink = d })) (sink o'.sink bs) (λ d q. direct o o' d bs k e q)

    -- the bytes that fit: at least one, where there is one
    abbrev portion : Output D → List ℕ → ℕ
    portion o bs = if leb o.remaining (length bs) then o.remaining else length bs

    portion-le :
        (o : Output D) (bs : List ℕ) → (portion o bs ≤ o.remaining) × (portion o bs ≤ length bs)
    portion-le o bs = (ground arith, ground arith)

    fits_taken : (o : Output D) (bs : List ℕ) → length (take (portion o bs) bs) ≤ o.remaining
    fits_taken o bs =
        let le = portion-le o bs in omega (arith, length-take (portion o bs) bs le.1, le.0)

    emptied :
        (o o' : Output D)
        → (ltb 0 (length o.buf) ≡ true → length o'.buf ≡ 0)
        → (ltb 0 (length o.buf) ≡ false → o' ≡ o)
        → length o'.buf ≡ 0
    emptied o o' z nz = elim (Bool-cases (ltb 0 (length o.buf))) [
      | inl e ↦ z e
      | inr e ↦ subst (λ x. length x.buf ≡ 0) (sym (nz e)) (ground (arith, e))
    ]

    shorter :
        (o : Output D) (bs : List ℕ) (f : ℕ)
        → 1 ≤ o.remaining
        → 1 ≤ length bs
        → length bs < suc f
        → length (drop (portion o bs) bs) < f
    shorter o bs f r n lt = ground (arith, length-drop (portion o bs) bs, r, n, lt)

    roomy :
        (o o' : Output D)
        → Kept write written o o'
        → 1 ≤ o.buf_size
        → ((o.remaining == 0) ≡ true → length o'.buf ≡ 0)
        → ((o.remaining == 0) ≡ false → o' ≡ o)
        → 1 ≤ o'.remaining
    roomy o o' k room z nz = elim (Bool-cases (o.remaining == 0)) [
      | inl e ↦ omega (arith, k.well.fits, k.size, room, z e)
      | inr e ↦ subst (λ x. 1 ≤ x.remaining) (sym (nz e)) (ground (arith, e))
    ]

    put_loop-Put :
        (f : ℕ) (o : Output D) (addr : ℕ) (bs : List ℕ)
        → IsOutput o
        → o.locked_cursor ≡ none
        → 1 ≤ o.buf_size
        → length bs < f
        → Returns (Put bs o) (put_loop write f o addr bs)
    unfolding put_loop
    put_loop-Put zero o addr bs w e room lt = absurd (omega (arith, lt))
    put_loop-Put (suc f) o addr bs w e room lt = elim (Bool-cases (length bs == 0)) [
      | inl z ↦ rw z (nothing o bs w (ground (arith, z)))
      | inr nz ↦
          rw nz
            (elim (Bool-cases (
              length o.buf % o.alignment == 0
              && (addr % o.alignment == 0)
              && (length bs % o.alignment == 0))) [
                | inl al ↦ rw al (
                    Returns-bind _ (Put bs o) (if ltb 0 (length o.buf) then flush write o else ok o)
                      _ (flush_if (ltb 0 (length o.buf)) o w e)
                      (λ o' (k, y, n). write_all o o' bs k (emptied o o' y n)))
                | inr na ↦ rw na (
                    Returns-bind _ (Put bs o) (if o.remaining == 0 then flush write o else ok o) _
                      (flush_if (o.remaining == 0) o w e)
                      (λ o' (k, y, n).
                        Returns-bind (Copied (take (portion o' bs) bs) o') (Put bs o)
                          (copy o' (take (portion o' bs) bs)) _
                          (copy-Copied o' (take (portion o' bs) bs) k.well (fits_taken o' bs))
                          (λ p c.
                            Returns-map (Put (drop (portion o' bs) bs) p) (Put bs o)
                              (put_loop write f p (addr + portion o' bs) (drop (portion o' bs) bs))
                              (put_loop-Put f p (addr + portion o' bs) (drop (portion o' bs) bs)
                                c.is_put.well (c.is_put.open_ (k.open_ e))
                                (let z = c.is_put.size in
                                  let y = k.size in omega (arith, z, y, room))
                                (shorter o' bs f (roomy o o' k room y n) (ground (arith, nz)) lt))
                              (λ q g. step o o' p q (portion o' bs) bs k c.is_put g))))
              ])
    ]

    -- `_put`, or the copy where the bytes fit
    placed :
        (fits : Bool) (o : Output D) (addr : ℕ) (bs : List ℕ)
        → IsOutput o
        → (fits ≡ true → length bs ≤ o.remaining)
        → o.locked_cursor ≡ none
        → 1 ≤ o.buf_size
        → Returns
            (Put bs o)
            (if fits then copy o bs else put_loop write (suc (length bs)) o addr bs)
    placed true o addr bs w le e room =
        Returns-map (Copied bs o) (Put bs o) (copy o bs) (copy-Copied o bs w (le refl))
          (λ p c. c.is_put)
    placed false o addr bs w le e room =
        put_loop-Put (suc (length bs)) o addr bs w e room (omega arith)

    -- `put` on a serializer that is not locked ends, and never leaves its buffer: what is written and
    -- buffered is what was, with the bytes behind it, and the count grows by their number.
    pub put-content :
        (o : Output D) (addr : ℕ) (bs : List ℕ)
        → IsOutput o
        → o.locked_cursor ≡ none
        → 1 ≤ o.buf_size
        → Returns (Accepts bs o) (put write o addr bs)
    unfolding put
    put-content o addr bs w e room =
        Returns-bind (Fit (length bs) o) (Accepts bs o) (fit write o (length bs)) _
          (fit-Fit o (length bs) w)
          (λ r c.
            let k = c.kept in
            Returns-bind (Put bs r.0) (Accepts bs o)
              (if r.1 then copy r.0 bs else put_loop write (suc (length bs)) r.0 addr bs)
              (λ p. ok (count (length bs) p))
              (placed r.1 r.0 addr bs k.well c.room (k.open_ e)
                (let z = k.size in omega (arith, z, room)))
              (λ p h. counted o r.0 p bs k h e))
