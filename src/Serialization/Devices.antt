-- ===== src/Serialization/Devices.antt =====
-- What every `_write` keeps true of what it writes to, the output serializer keeps true of it.
use libspl.Common.{
  ℕ, zero, suc, ◌+◌, ◌-◌, ◌%◌, Bool, true, List, [], ◌∷◌, Run, ok, leb, ltb, ◌==◌, if◌then◌else◌,
  ◌>>=◌, length, take, drop, Ensures, Ensures-if, Ensures-next, fault,
}
use libspl.Serialization.Output.{Output, locked, copy, flush, fit, put_loop, put}
use libspl.Serialization.Sequences.{Blocks, put_all}

module _ {D : Type 0} (write : D → List ℕ → Run D) (I : D → Type 0)
    (keeps : (d : D) (bs : List ℕ) → I d → Ensures I (write d bs)) where
  abbrev pub On : Output D → Type 0
  On o = I o.sink

  pub flush-On : (o : Output D) → On o → Ensures On (flush write o)
  unfolding flush
  flush-On o h =
      Ensures-if On (ltb 0 (length o.buf - locked o)) _ (ok o)
        (Ensures-next I On (write o.sink (take (length o.buf - locked o) o.buf)) _
          (keeps o.sink (take (length o.buf - locked o) o.buf) h) (λ d q. q))
        h

  copy-On : (o : Output D) (bs : List ℕ) → On o → Ensures On (copy o bs)
  unfolding copy
  copy-On o bs h = Ensures-if On (leb (length bs) o.remaining) _ fault h tt

  flush_if-On : (b : Bool) (o : Output D) → On o → Ensures On (if b then flush write o else ok o)
  flush_if-On b o h = Ensures-if On b (flush write o) (ok o) (flush-On o h) h

  write_all-On :
      (o : Output D) (bs : List ℕ)
      → On o
      → Ensures On (write o.sink bs >>= λ d. ok (record o { sink = d }))
  write_all-On o bs h = Ensures-next I On (write o.sink bs) _ (keeps o.sink bs h) (λ d q. q)

  put_loop-On :
      (f : ℕ) (o : Output D) (addr : ℕ) (bs : List ℕ)
      → On o
      → Ensures On (put_loop write f o addr bs)
  unfolding put_loop
  put_loop-On zero o addr bs h = tt
  put_loop-On (suc f) o addr bs h = Ensures-if On (length bs == 0) (ok o) _ h (
      Ensures-if On _ _ _
        (Ensures-next On On (if ltb 0 (length o.buf) then flush write o else ok o) _
          (flush_if-On (ltb 0 (length o.buf)) o h) (λ p q. write_all-On p bs q))
        (Ensures-next On On (if o.remaining == 0 then flush write o else ok o) _
          (flush_if-On (o.remaining == 0) o h)
          (λ p q.
            let l = if leb p.remaining (length bs) then p.remaining else length bs in
            Ensures-next On On (copy p (take l bs)) _ (copy-On p (take l bs) q)
              (λ r t. put_loop-On f r (addr + l) (drop l bs) t))))

  fit-On : (o : Output D) (n : ℕ) → On o → Ensures (λ r. On r.0) (fit write o n)
  unfolding fit
  fit-On o n h =
      Ensures-if (λ r. On r.0) (leb n o.remaining) (ok (o, true)) _ h
        (Ensures-if (λ r. On r.0) (length o.buf % o.alignment == 0) _ (ok (o, leb n o.remaining))
          (Ensures-next On (λ r. On r.0) (flush write o) _ (flush-On o h) (λ p q. q)) h)

  pub put-On : (o : Output D) (addr : ℕ) (bs : List ℕ) → On o → Ensures On (put write o addr bs)
  unfolding put
  put-On o addr bs h =
      Ensures-next (λ r. On r.0) On (fit write o (length bs)) _ (fit-On o (length bs) h)
        (λ r q.
          Ensures-next On On
            (if r.1 then copy r.0 bs else put_loop write (suc (length bs)) r.0 addr bs) _
            (Ensures-if On r.1 (copy r.0 bs) (put_loop write (suc (length bs)) r.0 addr bs)
              (copy-On r.0 bs q) (put_loop-On (suc (length bs)) r.0 addr bs q))
            (λ p t. t))

  pub put_all-On : (blocks : Blocks) (o : Output D) → On o → Ensures On (put_all write o blocks)
  unfolding put_all
  put_all-On [] o h = h
  put_all-On ((addr, bs) ∷ rest) o h =
      Ensures-next On On (put write o addr bs) _ (put-On o addr bs h) (λ p q. put_all-On rest p q)
