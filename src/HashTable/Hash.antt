-- ===== src/HashTable/Hash.antt =====
-- `hash_combine`, both `hash` functions and `short_hash` of include/hash.h. `size_t` has 64 bits;
-- characters are given as bytes, and `char` is signed.
use libspl.Common.{
  ℕ, zero, suc, ◌+◌, ◌-◌, ◌*◌, ◌/◌, ◌%◌, ◌^◌, ◌≡◌, refl, false, List, [], ◌∷◌, ◌++◌, ltb, ◌==◌,
  if◌then◌else◌, length, All, Run, ok, fault,
}
use Prim.Native.Nat.{bit_xor}

-- `x << n`, `x + y` and `x ^ y` of 64 bits
abbrev pub shift_left : ℕ → ℕ → ℕ
shift_left x n = x * 2 ^ n % 2 ^ 64

abbrev pub add : ℕ → ℕ → ℕ
add x y = (x + y) % 2 ^ 64

-- `hash_combine(hash1, hash...)`
unfoldable pub hash_combine : ℕ → List ℕ → ℕ
hash_combine hash1 [] = hash1
hash_combine hash1 (hash2 ∷ rest) =
    hash_combine
      (bit_xor hash1 (add (add (add hash2 2654435769) (shift_left hash1 6)) (hash1 / 2 ^ 2))) rest

-- `c = *s++`: a char as an int, then added to a `size_t`
abbrev pub char_value : ℕ → ℕ
char_value c = if ltb c 128 then c else 2 ^ 64 + c - 256

abbrev pub hash_step : ℕ → ℕ → ℕ
hash_step h c = add (add (shift_left h 5) h) (char_value c)

-- the loop of `hash(data, len)`; reading behind the data is undefined
unfoldable pub hash_bytes : ℕ → List ℕ → ℕ → Run ℕ
hash_bytes zero data_in h = ok h
hash_bytes (suc len) [] h = fault
hash_bytes (suc len) (c ∷ data_in) h = hash_bytes len data_in (hash_step h c)

unfoldable pub hash : List ℕ → ℕ → Run ℕ
hash data_in len = hash_bytes len data_in 5381

-- the loop of `hash(str)`; without a terminating zero it reads behind the string
unfoldable pub hash_chars : List ℕ → ℕ → Run ℕ
hash_chars [] h = fault
hash_chars (c ∷ s) h = let rest = hash_chars s (hash_step h c) in if c == 0 then ok h else rest

unfoldable pub hash_str : List ℕ → Run ℕ
hash_str s = hash_chars s 5381

-- `short_hash`, where `size_t` has eight bytes
unfoldable pub short_hash : ℕ → ℕ
short_hash h = bit_xor (h % 2 ^ 32) (h / 2 ^ 32 % 2 ^ 32)

chars-bytes :
    (s rest : List ℕ) (h : ℕ)
    → All (λ c. (c == 0) ≡ false) s
    → hash_chars (s ++ 0 ∷ rest) h ≡ hash_bytes (length s) s h
unfolding hash_chars hash_bytes
chars-bytes [] rest h n = refl
chars-bytes (c ∷ s) rest h n = rw n.0 (chars-bytes s rest (hash_step h c) n.1)

-- Hashing a terminated string and hashing its bytes with their number give the same value.
pub hash_str-hash :
    (s rest : List ℕ) → All (λ c. (c == 0) ≡ false) s → hash_str (s ++ 0 ∷ rest) ≡ hash s (length s)
unfolding hash_str hash
hash_str-hash s rest n = chars-bytes s rest 5381 n
