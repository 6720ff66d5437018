-- ===== src/Base64/RoundTrip.antt =====
-- `decode` of what `encode` writes.
use libspl.Common.{
  ℕ, ◌+◌, ◌-◌, ◌*◌, ◌/◌, ◌%◌, ◌^◌, ◌≤◌, ◌<◌, ◌≡◌, refl, ◌∙◌, ap, subst, some, List, [], ◌∷◌, ◌++◌,
  ok, length, get_elem?, ◌==◌, if◌then◌else◌, All, arith, take, take-append,
}
use libspl.Base64.Codec.{pad, decoded, decode_loop, decode, drop_pad, triple_of, encode}
use libspl.Base64.Encode.{digit, text, decoded-digit, length-text, encode-text}
use libspl.Base64.Padding.{text-Ends, text-size}

abbrev pub IsByte : ℕ → Type 0
IsByte x = x < 256

-- the zero bytes that the padding decodes to
abbrev pub filler : List ℕ → List ℕ
filler [] = []
filler (x ∷ []) = 0 ∷ 0 ∷ []
filler (x ∷ y ∷ []) = 0 ∷ []
filler (x ∷ y ∷ z ∷ rest) = filler rest

decoded-pad : decoded pad ≡ ok 0
unfolding decoded
decoded-pad = refl

decode_loop-nil : decode_loop [] ≡ ok []
unfolding decode_loop
decode_loop-nil = refl

-- the three bytes of a group, from its four indices
triple-bytes :
    (x y z : ℕ)
    → IsByte x
    → IsByte y
    → IsByte z
    → triple_of (x / 4 % 64) (x % 4 * 16 + y / 16 % 16) (y % 16 * 4 + z / 64 % 4) (z % 64)
      ≡ x * 2 ^ 16 + y * 2 ^ 8 + z
triple-bytes x y z hx hy hz = omega arith

bytes-of :
    (t x y z : ℕ)
    → IsByte x
    → IsByte y
    → IsByte z
    → t ≡ x * 2 ^ 16 + y * 2 ^ 8 + z
    → (rest : List ℕ) → (t / 2 ^ 16 % 256 ∷ t / 2 ^ 8 % 256 ∷ t % 256 ∷ rest) ≡ x ∷ y ∷ z ∷ rest
bytes-of t x y z hx hy hz e rest =
    let e₁ : t / 2 ^ 16 % 256 ≡ x = omega arith in
    let e₂ : t / 2 ^ 8 % 256 ≡ y = omega arith in
    let e₃ : t % 256 ≡ z = omega arith in rw e₁ (rw e₂ (rw e₃ refl))

group-runs :
    (p q r s a b c d x y z : ℕ) (rest out : List ℕ)
    → decoded p ≡ ok a
    → decoded q ≡ ok b
    → decoded r ≡ ok c
    → decoded s ≡ ok d
    → decode_loop rest ≡ ok out
    → IsByte x
    → IsByte y
    → IsByte z
    → triple_of a b c d ≡ x * 2 ^ 16 + y * 2 ^ 8 + z
    → decode_loop (p ∷ q ∷ r ∷ s ∷ rest) ≡ ok (x ∷ y ∷ z ∷ out)
unfolding decode_loop
group-runs p q r s a b c d x y z rest out ea eb ec ed er hx hy hz e =
    rw ea
      (rw eb (rw ec (rw ed (rw er (ap ok (bytes-of (triple_of a b c d) x y z hx hy hz e out))))))

loop-text : (xs : List ℕ) → All IsByte xs → decode_loop (text xs) ≡ ok (xs ++ filler xs)
loop-text [] h = decode_loop-nil
loop-text (x ∷ []) h =
    group-runs (digit (x / 4 % 64)) (digit (x % 4 * 16)) pad pad (x / 4 % 64) (x % 4 * 16) 0 0 x 0 0
      [] [] (decoded-digit _ (omega arith)) (decoded-digit _ (omega arith)) decoded-pad decoded-pad
      decode_loop-nil h.0 (omega arith) (omega arith) (omega (arith, h.0))
loop-text (x ∷ y ∷ []) h =
    group-runs (digit (x / 4 % 64)) (digit (x % 4 * 16 + y / 16 % 16)) (digit (y % 16 * 4)) pad
      (x / 4 % 64) (x % 4 * 16 + y / 16 % 16) (y % 16 * 4) 0 x y 0 [] []
      (decoded-digit _ (omega arith)) (decoded-digit _ (omega arith))
      (decoded-digit _ (omega arith)) decoded-pad decode_loop-nil h.0 h.1.0 (omega arith)
      (omega (arith, h.0, h.1.0))
loop-text (x ∷ y ∷ z ∷ rest) h =
    group-runs (digit (x / 4 % 64)) (digit (x % 4 * 16 + y / 16 % 16))
      (digit (y % 16 * 4 + z / 64 % 4)) (digit (z % 64)) (x / 4 % 64) (x % 4 * 16 + y / 16 % 16)
      (y % 16 * 4 + z / 64 % 4) (z % 64) x y z (text rest) (rest ++ filler rest)
      (decoded-digit _ (omega arith)) (decoded-digit _ (omega arith))
      (decoded-digit _ (omega arith)) (decoded-digit _ (omega arith)) (loop-text rest h.1.1.1) h.0
      h.1.0 h.1.1.0 (triple-bytes x y z h.0 h.1.0 h.1.1.0)

drop_pad-runs :
    (t : List ℕ) (i n c : ℕ)
    → get_elem? t i ≡ some c
    → drop_pad t i n ≡ ok (if c == pad then n - 1 else n)
unfolding drop_pad
drop_pad-runs t i n c e = rw e refl

decode-runs :
    (t : List ℕ) (c d : ℕ) (out : List ℕ)
    → length t % 4 ≡ 0
    → get_elem? t (length t - 1) ≡ some d
    → get_elem? t (length t - 2) ≡ some c
    → decode_loop t ≡ ok out
    → decode t
      ≡ ok (
        out,
        if c == pad
            then (if d == pad then length t / 4 * 3 - 1 else length t / 4 * 3) - 1
            else (if d == pad then length t / 4 * 3 - 1 else length t / 4 * 3),
      )
unfolding decode
decode-runs t c d out e ed ec er = rw e (
    rw (drop_pad-runs t (length t - 1) (length t / 4 * 3) d ed) (
      rw
        (drop_pad-runs t (length t - 2)
          (if d == pad then length t / 4 * 3 - 1 else length t / 4 * 3) c ec)
        (rw er refl)))

decode-text :
    (xs : List ℕ)
    → All IsByte xs
    → 1 ≤ length xs
    → decode (text xs) ≡ ok (xs ++ filler xs, length xs)
decode-text [] h le = absurd (omega arith)
decode-text (x ∷ xs) h le =
    let r = text-Ends x xs in
    let t = text (x ∷ xs) in
    let n = length (x ∷ xs) in
    let e : length t ≡ 4 * ((n + 2) / 3) = length-text (x ∷ xs) in
    decode-runs t r.before_last r.last (x ∷ xs ++ filler (x ∷ xs)) (omega (arith, e)) r.at_last
      r.at_before_last (loop-text (x ∷ xs) h)
    ∙ ap (λ k. ok (x ∷ xs ++ filler (x ∷ xs), k))
        (rw e (text-size n r.before_last r.last r.before_last_pad r.last_pad))

-- Decoding the text that encoding two bytes or more gives, without its terminating zero, gives the
-- bytes back.
pub decode-encode :
    (xs : List ℕ)
    → All IsByte xs
    → 2 ≤ length xs
    → length xs < 2 ^ 64
    → (t : List ℕ) × (n : ℕ) × (out : List ℕ) × (encode xs ≡ ok (t, n))
      × (decode (take n t) ≡ ok (out, length xs))
      × (take (length xs) out ≡ xs)
decode-encode xs h le lt =
    let (e, l) = encode-text xs le lt in
    (
      _,
      _,
      xs ++ filler xs,
      e,
      ap decode
            (subst (λ k. take k (text xs ++ 0 ∷ []) ≡ text xs) l (take-append (text xs) (0 ∷ [])))
          ∙ decode-text xs h (omega arith),
      take-append xs (filler xs),
    )
