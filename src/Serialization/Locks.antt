-- ===== src/Serialization/Locks.antt =====
-- `lock` of the output serializer: what it holds back, and what it does not.
use native.Mathlib.Nat.{mod-one}
use libspl.Common.{
  ℕ, suc, ◌+◌, ◌-◌, ◌%◌, ◌≤◌, ◌<◌, ◌≡◌, refl, sym, ◌∙◌, ap, Bool, true, false, some, List, ◌++◌,
  Run, ok, leb, ltb, ◌==◌, ◌>>=◌, if◌then◌else◌, length, take, drop, arith, Returns, Returns-bind,
  append-nil, Bool-cases, inl, inr, le→leb, lt→leb,
}
use libspl.Serialization.Output.{Output, locked, count, copy, flush, fit, put_loop, put}
use libspl.Serialization.Written.{
  IsSink, IsOutput, content, Kept, unflushed, Flushed, flush-Flushed,
}
use libspl.Serialization.Puts.{Copied, copy-Copied}

if_same : {A : Type 0} (b : Bool) (x y : A) → x ≡ y → (if b then x else y) ≡ y
if_same true x y e = e
if_same false x y e = refl

module _ {D : Type 0} (write : D → List ℕ → Run D) (written : D → List ℕ) where
  pub record Holds (bs : List ℕ) (o o' : Output D) : Type 0 where
    pub holds : content write written o' ≡ content write written o ++ bs
    pub held : locked o' ≡ locked o + length bs

  -- what a flush of a locked serializer writes
  pub record Split (l : ℕ) (o o' : Output D) : Type 0 where
    pub before : written o'.sink ≡ written o.sink ++ take l o.buf
    pub after : o'.buf ≡ drop l o.buf
    pub lock_at : o'.locked_cursor ≡ some 0
    pub aligned : o'.alignment ≡ o.alignment
    pub room : o'.remaining ≡ o.buf_size - (length o.buf - l)

  -- the locked bytes are behind the written ones in the buffer, and `bs` is written
  pub record Overtaken (l : ℕ) (bs : List ℕ) (o o' : Output D) : Type 0 where
    pub on_sink : written o'.sink ≡ written o.sink ++ take l o.buf ++ bs
    pub in_buffer : o'.buf ≡ drop l o.buf

module _ {D : Type 0} (write : D → List ℕ → Run D) (written : D → List ℕ)
    (sink : IsSink write written) where
  held_copy :
      (o o' : Output D) (l : ℕ) (bs : List ℕ)
      → o.locked_cursor ≡ some l
      → Kept write written o o'
      → length bs ≤ o'.remaining
      → Returns (Holds write written bs o) (copy o' bs >>= λ p. ok (count (length bs) p))
  held_copy o o' l bs e k le =
      let (l', e') = k.shut l e in
      Returns-bind (Copied write written bs o') (Holds write written bs o) (copy o' bs)
        (λ p. ok (count (length bs) p)) (copy-Copied write written o' bs k.well le)
        (λ p c. record {
          holds = c.is_put.holds ∙ ap (λ x. x ++ bs) k.same;
          held = ground (arith, c.held, e', k.kept);
        })

  abbrev split_at : Output D → ℕ → D → Output D
  split_at o l d = record o {
    sink = d;
    buf = drop l o.buf;
    locked_cursor = some 0;
    remaining = o.buf_size - (length o.buf - l);
  }

  flush-split_at :
      (o : Output D) (l : ℕ)
      → l ≤ length o.buf
      → o.locked_cursor ≡ some l
      → flush write o
        ≡ (if ltb 0 l then (write o.sink (take l o.buf) >>= λ d. ok (split_at o l d)) else ok o)
  unfolding flush
  flush-split_at o l le e =
      let n : length o.buf - (length o.buf - l) ≡ l = omega (arith, le) in rw e (rw n refl)

  flush-Split :
      (o : Output D) (l : ℕ)
      → IsOutput o
      → o.locked_cursor ≡ some l
      → Returns (Split write written l o) (flush write o)
  flush-Split o l w e = rw (flush-split_at o l (w.lock_le l e) e) (elim (Bool-cases (ltb 0 l)) [
    | inl some_ ↦ rw some_ (
        Returns-bind (λ d. written d ≡ written o.sink ++ take l o.buf) (Split write written l o)
          (write o.sink (take l o.buf)) (λ d. ok (split_at o l d)) (sink o.sink (take l o.buf))
          (λ d q. record { before = q; after = refl; lock_at = refl; aligned = refl; room = refl }))
    | inr none_ ↦
        let z : l ≡ 0 = ground (arith, none_) in
        rw none_ (record {
          before =
              sym (append-nil (written o.sink)) ∙ ap (λ n. written o.sink ++ take n o.buf) (sym z);
          after = ap (λ n. drop n o.buf) (sym z);
          lock_at = e ∙ ap some z;
          aligned = refl;
          room = omega (arith, z, w.fits);
        })
  ])

  -- `_fit` after its flush
  abbrev FlushedFit : ℕ → Output D → Output D × Bool → Type 0
  FlushedFit n o r = Flushed write written o r.0 × (r.1 ≡ leb n r.0.remaining)

  flush_fit :
      (o : Output D) (n : ℕ)
      → IsOutput o
      → Returns (FlushedFit n o) (flush write o >>= λ o'. ok (o', leb n o'.remaining))
  flush_fit o n w =
      Returns-bind (Flushed write written o) (FlushedFit n o) (flush write o)
        (λ o'. ok (o', leb n o'.remaining)) (flush-Flushed write written sink o w)
        (λ o' f. (f, refl))

  -- A put on a well-formed locked serializer, where the number of buffered bytes is a multiple of the
  -- alignment, and the put bytes fit into the buffer with the ones behind the lock, keeps all of these in
  -- the buffer, behind what is written; or the device throws.
  pub put-Holds :
      (o : Output D) (l addr : ℕ) (bs : List ℕ)
      → IsOutput o
      → o.locked_cursor ≡ some l
      → length o.buf % o.alignment ≡ 0
      → locked o + length bs ≤ o.buf_size
      → Returns (Holds write written bs o) (put write o addr bs)
  unfolding put fit
  put-Holds o l addr bs w e even room = elim (Bool-cases (leb (length bs) o.remaining)) [
    | inl le ↦ rw le (held_copy o o l bs e (unflushed write written o w) (ground (arith, le)))
    | inr gt ↦ rw gt (
        rw even (
          Returns-bind {B = Output D} (FlushedFit (length bs) o) (Holds write written bs o)
            (flush write o >>= λ o'. ok (o', leb (length bs) o'.remaining)) _
            (flush_fit o (length bs) w)
            (λ r ((f, z), q).
              let le : length bs ≤ r.0.remaining = omega (arith, f.well.fits, f.size, z, room) in
              let yes_ : r.1 ≡ true = q ∙ le→leb (length bs) r.0.remaining le in
              rw yes_ (held_copy o r.0 l bs e f le))))
  ]

  aligned_at_one : (n a : ℕ) → a ≡ 1 → (n % a == 0) ≡ true
  aligned_at_one n a one = rw one (rw (mod-one n) refl)

  overtaken :
      (o p : Output D) (l : ℕ) (bs : List ℕ) (addr : ℕ)
      → o.alignment ≡ 1
      → 1 ≤ length bs
      → Split write written l o p
      → Returns (Overtaken write written l bs o) (put_loop write (suc (length bs)) p addr bs)
  unfolding put_loop
  overtaken o p l bs addr one some_ sp =
      let a = sp.aligned ∙ one in
      let nz : (length bs == 0) ≡ false = ground (arith, some_) in
      let unmoved : (if ltb 0 (length p.buf) then flush write p else ok p) ≡ ok p =
        if_same (ltb 0 (length p.buf)) (flush write p) (ok p)
          (flush-split_at p 0 (omega arith) sp.lock_at) in
      rw nz (
        rw (aligned_at_one (length p.buf) p.alignment a) (
          rw (aligned_at_one addr p.alignment a) (
            rw (aligned_at_one (length bs) p.alignment a) (
              rw unmoved (
                Returns-bind (λ d. written d ≡ written p.sink ++ bs)
                  (Overtaken write written l bs o) (write p.sink bs)
                  (λ d. ok (record p { sink = d })) (sink p.sink bs)
                  (λ d q. record {
                    on_sink = q ∙ ap (λ x. x ++ bs) sp.before;
                    in_buffer = sp.after;
                  }))))))

  -- A put on a locked serializer of alignment 1, whose bytes do not fit into the buffer with the ones
  -- behind the lock, writes its bytes and leaves those before them in the buffer.
  pub put-Overtaken :
      (o : Output D) (l addr : ℕ) (bs : List ℕ)
      → IsOutput o
      → o.locked_cursor ≡ some l
      → o.alignment ≡ 1
      → o.buf_size < locked o + length bs
      → Returns (Overtaken write written l bs o) (put write o addr bs)
  unfolding put fit
  put-Overtaken o l addr bs w e one over =
      let le = w.lock_le l e in
      let held : locked o ≡ length o.buf - l = rw e refl in
      let long : leb (length bs) o.remaining ≡ false =
        lt→leb (length bs) o.remaining (omega (arith, w.fits, over, held)) in
      rw long (
        rw (aligned_at_one (length o.buf) o.alignment one) (
          Returns-bind {B = Output D}
            (λ r. Split write written l o r.0 × (r.1 ≡ leb (length bs) r.0.remaining))
            (Overtaken write written l bs o)
            (flush write o >>= λ o'. ok (o', leb (length bs) o'.remaining)) _
            (Returns-bind (Split write written l o)
              (λ r. Split write written l o r.0 × (r.1 ≡ leb (length bs) r.0.remaining))
              (flush write o) (λ o'. ok (o', leb (length bs) o'.remaining)) (flush-Split o l w e)
              (λ p sp. (sp, refl)))
            (λ r (sp, q).
              let no_ : r.1 ≡ false =
                q
                ∙ lt→leb (length bs) r.0.remaining
                    (omega (arith, sp.room, over, held, w.fits, le)) in
              rw no_ (
                Returns-bind (Overtaken write written l bs o) (Overtaken write written l bs o)
                  (put_loop write (suc (length bs)) r.0 addr bs) (λ p. ok (count (length bs) p))
                  (overtaken o r.0 l bs addr one (omega (arith, over, held, w.fits, le)) sp)
                  (λ p v. record { on_sink = v.on_sink; in_buffer = v.in_buffer })))))
