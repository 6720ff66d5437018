-- ===== src/Base64/Tests.antt =====
-- Runs of the codec and instances of its theorems.
use mathlib.Core.Path.{◌≡◌, refl}
use libspl.Common.{
  ℕ, ◌+◌, ◌*◌, ◌/◌, ◌≤◌, List, [], ◌∷◌, ◌++◌, ok, throw, fault, invalid_argument, length, take,
  arith,
}
use libspl.Base64.Codec.{
  encoding_table, decoding_table, encoded, put, encode_end, encode_loop, encode, decoded,
  decode_loop, drop_pad, decode,
}
use libspl.Base64.Encode.{text, encode-text, encode-short}
use libspl.Base64.RoundTrip.{decode-encode}
use libspl.Base64.Bounds.{decode-bounds}

program : Unit {0}
unfolding encoding_table decoding_table encoded put encode_end encode_loop encode decoded
    decode_loop drop_pad decode
program = tt

-- "spl!" and its text, "c3BsIQ=="
abbrev word : List ℕ
word = 115 ∷ 112 ∷ 108 ∷ 33 ∷ []

abbrev word_text : List ℕ
word_text = 99 ∷ 51 ∷ 66 ∷ 115 ∷ 73 ∷ 81 ∷ 61 ∷ 61 ∷ []

encode_runs : encode word ≡ ok (word_text ++ 0 ∷ [], 8)
unfolding program
encode_runs = refl

decode_runs : decode word_text ≡ ok (word ++ 0 ∷ 0 ∷ [], 4)
unfolding program
decode_runs = refl

decode_odd : decode (99 ∷ 51 ∷ []) ≡ throw invalid_argument
unfolding program
decode_odd = refl

encode-text_example :
    (encode word ≡ ok (text word ++ 0 ∷ [], 4 * ((length word + 2) / 3)))
    × (length (text word) ≡ 4 * ((length word + 2) / 3))
encode-text_example = encode-text word (omega arith) (omega arith)

encode-short_example : encode (7 ∷ []) ≡ fault
encode-short_example = encode-short (7 ∷ []) (omega arith)

decode-encode_example :
    (t : List ℕ) × (n : ℕ) × (out : List ℕ) × (encode word ≡ ok (t, n))
    × (decode (take n t) ≡ ok (out, length word))
    × (take (length word) out ≡ word)
decode-encode_example =
    decode-encode word (omega arith, (omega arith, (omega arith, (omega arith, tt)))) (omega arith)
      (omega arith)

decode-bounds_example :
    (length (word ++ 0 ∷ 0 ∷ []) ≡ length word_text / 4 * 3) × (4 ≤ length (word ++ 0 ∷ 0 ∷ []))
decode-bounds_example = decode-bounds word_text (word ++ 0 ∷ 0 ∷ []) 4 decode_runs
