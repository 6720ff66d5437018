-- ===== src/Base64/Codec.antt =====
-- `Base64::encode` and `Base64::decode`. A byte is a number below 256; a mask of low bits is a
-- remainder, a shift is a division or a product, and `|` of numbers without a common bit is a sum.
use libspl.Common.{
  ℕ, zero, suc, ◌+◌, ◌-◌, ◌*◌, ◌/◌, ◌%◌, ◌^◌, List, [], ◌∷◌, Run, ok, throw, fault,
  invalid_argument, or_fault, ◌>>=◌, length, get_elem?, ltb, ◌==◌, if◌then◌else◌,
}

-- '='
abbrev pub pad : ℕ
pad = 61

-- `sEncodingTable`
unfoldable pub encoding_table : List ℕ
encoding_table =
    65 ∷ 66 ∷ 67 ∷ 68 ∷ 69 ∷ 70 ∷ 71 ∷ 72 ∷ 73 ∷ 74 ∷ 75 ∷ 76 ∷ 77 ∷ 78 ∷ 79 ∷ 80 ∷ 81 ∷ 82 ∷ 83
    ∷ 84 ∷ 85 ∷ 86 ∷ 87 ∷ 88 ∷ 89 ∷ 90 ∷ 97 ∷ 98 ∷ 99 ∷ 100 ∷ 101 ∷ 102 ∷ 103 ∷ 104 ∷ 105 ∷ 106
    ∷ 107 ∷ 108 ∷ 109 ∷ 110 ∷ 111 ∷ 112 ∷ 113 ∷ 114 ∷ 115 ∷ 116 ∷ 117 ∷ 118 ∷ 119 ∷ 120 ∷ 121 ∷ 122
    ∷ 48 ∷ 49 ∷ 50 ∷ 51 ∷ 52 ∷ 53 ∷ 54 ∷ 55 ∷ 56 ∷ 57 ∷ 43 ∷ 47 ∷ []

-- `n` times 64 in front of a row of the table
abbrev pub blanks : ℕ → List ℕ → List ℕ
blanks zero xs = xs
blanks (suc n) xs = 64 ∷ blanks n xs

-- the numbers from `a` on, in front of a row of the table
abbrev pub counting : ℕ → ℕ → List ℕ → List ℕ
counting zero a xs = xs
counting (suc n) a xs = a ∷ counting n (a + 1) xs

-- `kDecodingTable`
unfoldable pub decoding_table : List ℕ
decoding_table = blanks 43 (
    62
    ∷ blanks 3 (
        63 ∷ counting 10 52 (blanks 7 (counting 26 0 (blanks 6 (counting 26 26 (blanks 133 [])))))))

-- `sEncodingTable[i]`
unfoldable pub encoded : ℕ → Run ℕ
encoded i = or_fault (get_elem? encoding_table i)

-- the characters that `encode` writes for the indices, one after the other
unfoldable pub put : List ℕ → List ℕ → Run (List ℕ)
put [] rest = ok rest
put (i ∷ is) rest = encoded i >>= λ c. put is rest >>= λ cs. ok (c ∷ cs)

-- what follows the loop, with the data from `i` on
unfoldable pub encode_end : ℕ → ℕ → List ℕ → Run (List ℕ)
encode_end size i [] = if ltb i size then fault else ok (0 ∷ [])
encode_end size i (x ∷ []) =
    if ltb i size
    then (if i == size - 1 then put (x / 4 % 64 ∷ x % 4 * 16 ∷ []) (pad ∷ pad ∷ 0 ∷ []) else fault)
    else ok (0 ∷ [])
encode_end size i (x ∷ y ∷ rest) =
    if ltb i size
    then (if i == size - 1
        then put (x / 4 % 64 ∷ x % 4 * 16 ∷ []) (pad ∷ pad ∷ 0 ∷ [])
        else put (x / 4 % 64 ∷ (x % 4 * 16 + y / 16 % 16) ∷ y % 16 * 4 ∷ []) (pad ∷ 0 ∷ []))
    else ok (0 ∷ [])

-- the loop while `i < limit`, with the data from `i` on; it reads three bytes
unfoldable pub encode_loop : ℕ → ℕ → ℕ → List ℕ → Run (List ℕ)
unfolding put encode_end
encode_loop size limit i (x ∷ y ∷ z ∷ rest) =
    let next = encode_loop size limit (i + 3) rest in
    if ltb i limit
    then (next >>= λ cs.
        put (x / 4 % 64 ∷ (x % 4 * 16 + y / 16 % 16) ∷ (y % 16 * 4 + z / 64 % 4) ∷ z % 64 ∷ []) cs)
    else encode_end size i (x ∷ y ∷ z ∷ rest)
encode_loop size limit i rest = if ltb i limit then fault else encode_end size i rest

-- What `encode` writes, the terminating zero included, and `outputLength`. `inputLength - 2` is taken
-- in 64 bits.
unfoldable pub encode : List ℕ → Run (List ℕ × ℕ)
encode data_in =
    let size = length data_in in
    encode_loop size ((size + 2 ^ 64 - 2) % 2 ^ 64) 0 data_in >>= λ cs.
    ok (cs, 4 * ((size + 2) / 3))

-- `data[i] == '=' ? 0 & i++ : kDecodingTable[static_cast<int>(data[i++])]`; a character above 127 is a
-- negative index
unfoldable pub decoded : ℕ → Run ℕ
decoded c =
    if c == pad then ok 0 else if ltb c 128 then or_fault (get_elem? decoding_table c) else fault

abbrev pub triple_of : ℕ → ℕ → ℕ → ℕ → ℕ
triple_of a b c d = (a * 2 ^ 18 + b * 2 ^ 12 + c * 2 ^ 6 + d) % 2 ^ 32

unfoldable pub decode_loop : List ℕ → Run (List ℕ)
decode_loop [] = ok []
decode_loop (p ∷ q ∷ r ∷ s ∷ rest) = do
  a ← decoded p
  b ← decoded q
  c ← decoded r
  d ← decoded s
  let t = triple_of a b c d
  out ← decode_loop rest
  ok (t / 2 ^ 16 % 256 ∷ t / 2 ^ 8 % 256 ∷ t % 256 ∷ out)
decode_loop rest = fault

-- `if (data[i] == '=') outputLength--`
unfoldable pub drop_pad : List ℕ → ℕ → ℕ → Run ℕ
drop_pad data_in i size =
    or_fault (get_elem? data_in i) >>= λ c. ok (if c == pad then size - 1 else size)

-- The buffer that `decode` fills, and `outputLength`. With no data the first read is in front of it,
-- a fault.
unfoldable pub decode : List ℕ → Run (List ℕ × ℕ)
decode data_in =
    let size = length data_in in
    if size % 4 == 0
    then (do
      n ← drop_pad data_in (size - 1) (size / 4 * 3)
      m ← drop_pad data_in (size - 2) n
      out ← decode_loop data_in
      ok (out, m))
    else throw invalid_argument
