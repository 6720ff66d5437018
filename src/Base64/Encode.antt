-- ===== src/Base64/Encode.antt =====
-- `encode` against a definition of base64 by groups of three bytes.
use libspl.Common.{
  ℕ, ◌+◌, ◌-◌, ◌*◌, ◌/◌, ◌%◌, ◌^◌, ◌≤◌, ◌<◌, ◌≡◌, refl, ap, Bool, true, false, ◌&&◌, List, [], ◌∷◌,
  ◌++◌, Run, ok, throw, fault, length, ltb, ◌==◌, if◌then◌else◌, All, passes, passed, arith, map,
  le→ltb, lt→ltb,
}
use libspl.Base64.Codec.{
  pad, encoding_table, encoded, put, encode_end, encode_loop, encode, decoding_table, decoded,
}

-- the character of an index: letters, digits, '+' and '/'
abbrev pub digit : ℕ → ℕ
digit i =
    if ltb i 26
    then i + 65
    else if ltb i 52
    then i + 71
    else if ltb i 62
    then i - 4
    else if i == 62
    then 43
    else 47

-- four characters for three bytes
abbrev pub quad : ℕ → ℕ → ℕ → List ℕ → List ℕ
quad x y z rest =
    digit (x / 4 % 64)
    ∷ digit (x % 4 * 16 + y / 16 % 16)
    ∷ digit (y % 16 * 4 + z / 64 % 4)
    ∷ digit (z % 64)
    ∷ rest

-- the base64 text of some bytes
abbrev pub text : List ℕ → List ℕ
text [] = []
text (x ∷ []) = digit (x / 4 % 64) ∷ digit (x % 4 * 16) ∷ pad ∷ pad ∷ []
text (x ∷ y ∷ []) =
    digit (x / 4 % 64) ∷ digit (x % 4 * 16 + y / 16 % 16) ∷ digit (y % 16 * 4) ∷ pad ∷ []
text (x ∷ y ∷ z ∷ rest) = quad x y z (text rest)

abbrev runs_to : Run ℕ → ℕ → Bool
runs_to (ok a) b = a == b
runs_to r b = false

runs_to-≡ : (r : Run ℕ) (b : ℕ) → runs_to r b ≡ true → r ≡ ok b
runs_to-≡ (ok a) b h = ap ok (ground arith)
runs_to-≡ (throw e) b h = absurd cc
runs_to-≡ fault b h = absurd cc

abbrev agrees : ℕ → Bool
agrees i = runs_to (encoded i) (digit i) && runs_to (decoded (digit i)) i

all-agree : passes agrees 64 ≡ true
unfolding passes encoded encoding_table decoded decoding_table
all-agree = refl

pub encoded-digit : (i : ℕ) → i < 64 → encoded i ≡ ok (digit i)
encoded-digit i lt =
    let h = passed agrees 64 i lt all-agree in runs_to-≡ (encoded i) (digit i) (ground arith)

pub decoded-digit : (i : ℕ) → i < 64 → decoded (digit i) ≡ ok i
decoded-digit i lt =
    let h = passed agrees 64 i lt all-agree in runs_to-≡ (decoded (digit i)) i (ground arith)

pub put-digits : (is rest : List ℕ) → All (λ i. i < 64) is → put is rest ≡ ok (map digit is ++ rest)
unfolding put
put-digits [] rest h = refl
put-digits (i ∷ is) rest h = rw (encoded-digit i h.0) (rw (put-digits is rest h.1) refl)

eq→== : (a b : ℕ) → a ≡ b → (a == b) ≡ true
eq→== a b h = ground arith

ne→== : (a b : ℕ) → a < b → (a == b) ≡ false
ne→== a b h = ground arith

end-text :
    (size i x : ℕ) (rest : List ℕ)
    → i + length (x ∷ rest) ≡ size
    → length rest < 2
    → encode_end size i (x ∷ rest) ≡ ok (text (x ∷ rest) ++ 0 ∷ [])
unfolding encode_end
end-text size i x [] e lt = rw (lt→ltb i size (omega arith)) (
    rw (eq→== i (size - 1) (omega arith))
      (put-digits (x / 4 % 64 ∷ x % 4 * 16 ∷ []) _ (omega arith, (omega arith, tt))))
end-text size i x (y ∷ []) e lt = rw (lt→ltb i size (omega arith)) (
    rw (ne→== i (size - 1) (omega arith)) (
      put-digits (x / 4 % 64 ∷ (x % 4 * 16 + y / 16 % 16) ∷ y % 16 * 4 ∷ []) _
        (omega arith, (omega arith, (omega arith, tt)))))
end-text size i x (y ∷ z ∷ rest) e lt = absurd (omega arith)

loop-text :
    (size limit i : ℕ) (s : List ℕ)
    → i + length s ≡ size
    → limit + 2 ≡ size
    → encode_loop size limit i s ≡ ok (text s ++ 0 ∷ [])
unfolding encode_loop
loop-text size limit i [] e l =
    rw (le→ltb i limit (omega arith)) (rw (le→ltb i size (omega arith)) refl)
loop-text size limit i (x ∷ []) e l =
    rw (le→ltb i limit (omega arith)) (end-text size i x [] e (omega arith))
loop-text size limit i (x ∷ y ∷ []) e l =
    rw (le→ltb i limit (omega arith)) (end-text size i x (y ∷ []) e (omega arith))
loop-text size limit i (x ∷ y ∷ z ∷ rest) e l = rw (lt→ltb i limit (omega arith)) (
    rw (loop-text size limit (i + 3) rest (omega arith) l) (
      put-digits (x / 4 % 64 ∷ (x % 4 * 16 + y / 16 % 16) ∷ (y % 16 * 4 + z / 64 % 4) ∷ z % 64 ∷ [])
        _ (omega arith, (omega arith, (omega arith, (omega arith, tt))))))

pub length-text : (xs : List ℕ) → length (text xs) ≡ 4 * ((length xs + 2) / 3)
length-text [] = refl
length-text (x ∷ []) = refl
length-text (x ∷ y ∷ []) = refl
length-text (x ∷ y ∷ z ∷ rest) = omega (arith, length-text rest)

-- Two bytes or more encode to their base64 text, four characters for each group of three bytes, and
-- a zero behind it that `outputLength` does not count.
pub encode-text :
    (xs : List ℕ)
    → 2 ≤ length xs
    → length xs < 2 ^ 64
    → (encode xs ≡ ok (text xs ++ 0 ∷ [], 4 * ((length xs + 2) / 3)))
      × (length (text xs) ≡ 4 * ((length xs + 2) / 3))
unfolding encode
encode-text xs le lt = (
  rw (loop-text (length xs) ((length xs + 2 ^ 64 - 2) % 2 ^ 64) 0 xs (omega arith) (omega arith))
      refl,
  length-text xs,
)

-- With less than two bytes `inputLength - 2` is a huge number, and the loop reads behind the data.
pub encode-short : (xs : List ℕ) → length xs < 2 → encode xs ≡ fault
unfolding encode encode_loop
encode-short [] lt = refl
encode-short (x ∷ []) lt = refl
encode-short (x ∷ y ∷ xs) lt = absurd (omega arith)
