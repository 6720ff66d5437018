-- ===== src/Serialization/Gets.antt =====
-- `get` of the input serializer: it returns the bytes of the stream in their order.
use libspl.Common.{
  ℕ, zero, suc, ◌+◌, ◌-◌, ◌%◌, ◌≤◌, ◌<◌, ◌≡◌, refl, sym, ◌∙◌, ap, ◌&&◌, List, ◌++◌, Run, ok, leb,
  ◌==◌, if◌then◌else◌, length, take, drop, arith, Returns, Returns-bind, take-drop, length-take,
  length-append, append_assoc, Bool-cases, inl, inr,
}
use libspl.Serialization.Input.{Input, available, advance, fill_buffer, get_loop, get}
use libspl.Serialization.Puts.{empty}

-- `_read` returns the bytes that come next, as many as it is asked for, or throws; and
-- keeps what it asks of what it reads from
abbrev pub IsSource :
    {D : Type 0} → (D → ℕ → ℕ → Run (D × List ℕ)) → (D → List ℕ) → (D → Type 0) → Type 0
IsSource {D} read stream I =
    (d : D) (least most : ℕ)
    → I d
    → least ≤ most
    → Returns
        (λ r. (stream d ≡ r.1 ++ stream r.0) × (least ≤ length r.1) × (length r.1 ≤ most) × I r.0)
        (read d least most)

module _ {D : Type 0} (read : D → ℕ → ℕ → Run (D × List ℕ)) (stream : D → List ℕ)
    (I : D → Type 0) where
  -- the bytes that are still to be returned
  abbrev pub pending : Input D → List ℕ
  pending i = i.buf ++ stream i.source

  pub record Got (len : ℕ) (i : Input D) (r : Input D × List ℕ) : Type 0 where
    pub bytes : pending i ≡ r.1 ++ pending r.0
    pub number : length r.1 ≡ len
    pub size : r.0.buf_size ≡ i.buf_size
    pub kept : I r.0.source

  taken :
      (i : Input D) (len : ℕ)
      → I i.source
      → len ≤ available i
      → Got len i (advance i len, take len i.buf)
  taken i len k le = record {
    bytes =
        ap (λ x. x ++ stream i.source) (sym (take-drop len i.buf))
        ∙ append_assoc (take len i.buf) (drop len i.buf) (stream i.source);
    number = length-take len i.buf le;
    size = refl;
    kept = k;
  }

  then_ :
      (i j : Input D) (l len : ℕ) (r : Input D × List ℕ)
      → pending i ≡ pending j
      → i.buf_size ≡ j.buf_size
      → I j.source
      → l ≤ available j
      → l ≤ len
      → Got (len - l) (advance j l) r
      → Got len i (r.0, take l j.buf ++ r.1)
  then_ i j l len r e s k le le' g =
      let t = taken j l k le in
      record {
        bytes =
            e
            ∙ t.bytes
            ∙ ap (λ x. take l j.buf ++ x) g.bytes
            ∙ sym (append_assoc (take l j.buf) r.1 (pending r.0));
        number = omega (arith, length-append (take l j.buf) r.1, t.number, g.number, le');
        size = g.size ∙ sym s;
        kept = g.kept;
      }

  module _ (source : IsSource read stream I) where
    fill_buffer-pending :
        (i : Input D)
        → I i.source
        → available i ≡ 0
        → 1 ≤ i.buf_size
        → Returns
            (λ j.
              (pending i ≡ pending j) × (i.buf_size ≡ j.buf_size) × (1 ≤ available j) × I j.source)
            (fill_buffer read i 1)
    unfolding fill_buffer
    fill_buffer-pending i k z room =
        Returns-bind _
          (λ j.
            (pending i ≡ pending j) × (i.buf_size ≡ j.buf_size) × (1 ≤ available j) × I j.source)
          (read i.source 1 i.buf_size) _ (source i.source 1 i.buf_size k room)
          (λ r (e, least, most, kept).
            (ap (λ x. x ++ stream i.source) (empty i.buf z) ∙ e, refl, least, kept))

    filled :
        (i : Input D)
        → I i.source
        → 1 ≤ i.buf_size
        → Returns
            (λ j.
              (pending i ≡ pending j) × (i.buf_size ≡ j.buf_size) × (1 ≤ available j) × I j.source)
            (if available i == 0 then fill_buffer read i 1 else ok i)
    filled i k room = elim (Bool-cases (available i == 0)) [
      | inl z ↦ rw z (fill_buffer-pending i k (ground (arith, z)) room)
      | inr nz ↦ rw nz (refl, refl, ground (arith, nz), k)
    ]

    get_loop-Got :
        (f : ℕ) (i : Input D) (addr len : ℕ)
        → I i.source
        → 1 ≤ i.buf_size
        → len < f
        → Returns (Got len i) (get_loop read f i addr len)
    unfolding get_loop
    get_loop-Got zero i addr len k room lt = absurd (omega (arith, lt))
    get_loop-Got (suc f) i addr len k room lt = elim (Bool-cases (len == 0)) [
      | inl z ↦ rw z (record { bytes = refl; number = ground (arith, z); size = refl; kept = k })
      | inr nz ↦
          rw nz
            (elim (Bool-cases (
              leb i.buf_size len
              && (available i == 0)
              && (addr % i.alignment == 0)
              && (len % i.alignment == 0))) [
                | inl al ↦ rw al (
                    Returns-bind _ (Got len i) (read i.source len len) _
                      (source i.source len len k (omega arith))
                      (λ r (e, least, most, kept). record {
                        bytes =
                            let z = empty i.buf (ground (arith, al)) in
                            ap (λ x. x ++ stream i.source) z
                            ∙ e
                            ∙ ap (λ x. r.1 ++ (x ++ stream r.0)) (sym z);
                        number = omega (arith, least, most);
                        size = refl;
                        kept = kept;
                      }))
                | inr na ↦ rw na (
                    Returns-bind _ (Got len i)
                      (if available i == 0 then fill_buffer read i 1 else ok i) _ (filled i k room)
                      (λ j (e, s, some_, kept).
                        let l = if leb (available j) len then available j else len in
                        Returns-bind (Got (len - l) (advance j l)) (Got len i)
                          (get_loop read f (advance j l) (addr + l) (len - l)) _
                          (get_loop-Got f (advance j l) (addr + l) (len - l) kept
                            (omega (arith, room, s)) (ground (arith, lt, nz, some_)))
                          (λ r g. then_ i j l len r e s kept (ground arith) (ground arith) g)))
              ])
    ]

    -- `get` ends with the next `len` bytes of the stream, buffered or not, and leaves those behind them;
    -- or `_read` throws.
    pub get-Got :
        (i : Input D) (addr len : ℕ)
        → I i.source
        → 1 ≤ i.buf_size
        → Returns (Got len i) (get read i addr len)
    unfolding get
    get-Got i addr len k room = elim (Bool-cases (leb len (available i))) [
      | inl le ↦ rw le (taken i len k (ground (arith, le)))
      | inr gt ↦ rw gt (get_loop-Got (suc len) i addr len k room (omega arith))
    ]
