-- ===== src/Json/RoundTrip.antt =====
-- Reading a string that `encode` wrote.
use libspl.Common.{
  ℕ, ◌<◌, ◌≡◌, refl, ap, Bool, true, false, none, some, List, [], ◌∷◌, ◌++◌, ok, ◌>>=◌, ◌==◌, All,
  arith, inl, inr, Bool-cases,
}
use libspl.Json.Text.{
  quote, backslash, escape, unescape_code, unescape, extract_loop, extract_string, onto, prefixed,
  is_white, skip_whitespaces, consume_token, encode_string, decode_string, decode_whole,
  decode_bool, encode_bool, after_word,
}
use libspl.Json.Codes.{letter, code, escape_char-code, read-letter, plain}

-- a character of a C string that a table can be indexed by
abbrev pub IsChar : ℕ → Type 0
IsChar c = (0 < c) × (c < 128)

abbrev pub codes : List ℕ → List ℕ
codes [] = []
codes (c ∷ s) = code c ++ codes s

pub escape-codes : (s : List ℕ) → All IsChar s → escape s ≡ ok (codes s)
unfolding escape
escape-codes [] h = refl
escape-codes (c ∷ s) h = rw (escape_char-code c h.0.1) (rw (escape-codes s h.1) refl)

unescape-plain :
    (c : ℕ) (t r : List ℕ)
    → (c == backslash) ≡ false
    → unescape t ≡ ok (some r)
    → unescape (c ∷ t) ≡ ok (some (c ∷ r))
unfolding unescape
unescape-plain c [] r n e = rw n (ap (λ x. prefixed c x) e)
unescape-plain c (d ∷ t) r n e = rw n (ap (λ x. prefixed c x) e)

unescape-letter :
    (c : ℕ) (t r : List ℕ)
    → IsChar c
    → (letter c == 0) ≡ false
    → unescape t ≡ ok (some r)
    → unescape (backslash ∷ letter c ∷ t) ≡ ok (some (c ∷ r))
unfolding unescape unescape_code
unescape-letter c t r h n e =
    let nz : (c == 0) ≡ false = ground (arith, h.0) in
    rw (read-letter c h.1 n) (rw nz (ap (λ x. prefixed c x) e))

unescape-codes : (s : List ℕ) → All IsChar s → unescape (codes s) ≡ ok (some s)
unfolding unescape
unescape-codes [] h = refl
unescape-codes (c ∷ s) h = elim (Bool-cases (letter c == 0)) [
  | inl e ↦ rw e (unescape-plain c (codes s) s (plain c e).1 (unescape-codes s h.1))
  | inr e ↦ rw e (unescape-letter c (codes s) s h.0 e (unescape-codes s h.1))
]

extract-plain :
    (c : ℕ) (t token rest : List ℕ)
    → (c == quote) ≡ false
    → (c == backslash) ≡ false
    → extract_loop t ≡ some (token, rest)
    → extract_loop (c ∷ t) ≡ some (c ∷ token, rest)
unfolding extract_loop
extract-plain c [] token rest q n e = rw q (rw n (ap (onto (c ∷ [])) e))
extract-plain c (d ∷ t) token rest q n e = rw q (rw n (ap (onto (c ∷ [])) e))

extract-codes :
    (s rest : List ℕ) → extract_loop (codes s ++ quote ∷ rest) ≡ some (codes s, quote ∷ rest)
unfolding extract_loop
extract-codes [] [] = refl
extract-codes [] (c ∷ rest) = refl
extract-codes (c ∷ s) rest = elim (Bool-cases (letter c == 0)) [
  | inl e ↦ rw e (
      extract-plain c (codes s ++ quote ∷ rest) (codes s) (quote ∷ rest) (plain c e).0 (plain c e).1
        (extract-codes s rest))
  | inr e ↦ rw e (ap (onto (backslash ∷ letter c ∷ [])) (extract-codes s rest))
]

skip-white :
    (ws : List ℕ) (s : List ℕ)
    → All (λ c. is_white c ≡ true) ws
    → skip_whitespaces (ws ++ s) ≡ skip_whitespaces s
unfolding skip_whitespaces
skip-white [] s h = refl
skip-white (c ∷ ws) s h = rw h.0 (skip-white ws s h.1)

consume-quote :
    (ws rest : List ℕ)
    → All (λ c. is_white c ≡ true) ws
    → consume_token quote (ws ++ quote ∷ rest) ≡ (true, rest)
unfolding consume_token skip_whitespaces
consume-quote ws rest h = rw (skip-white ws (quote ∷ rest) h) refl

extract-whole :
    (s rest : List ℕ) → extract_string (codes s ++ quote ∷ rest) ≡ (codes s, quote ∷ rest)
unfolding extract_string
extract-whole s rest = ap (λ o. elim o [ none ↦ ([], []) | some r ↦ r ]) (extract-codes s rest)

decode_string-runs :
    (s inner token behind rest val : List ℕ)
    → consume_token quote s ≡ (true, inner)
    → extract_string inner ≡ (token, behind)
    → consume_token quote behind ≡ (true, rest)
    → unescape token ≡ ok (some val)
    → decode_string s ≡ ok (some val, rest)
unfolding decode_string
decode_string-runs s inner token behind rest val e₁ e₂ e₃ e₄ = ground (arith, e₁, e₂, e₃, e₄)

-- A string of characters from 1 to 127 is encoded, and the code, behind any whitespace and in front
-- of any text, is decoded to the string and leaves that text.
pub decode_string-encode_string :
    (s ws rest : List ℕ)
    → All IsChar s
    → All (λ c. is_white c ≡ true) ws
    → (encode_string s ≡ ok (quote ∷ codes s ++ quote ∷ []))
      × (decode_string (ws ++ (quote ∷ codes s ++ quote ∷ rest)) ≡ ok (some s, rest))
unfolding encode_string
decode_string-encode_string s ws rest h w = (
  rw (escape-codes s h) refl,
  decode_string-runs (ws ++ (quote ∷ codes s ++ quote ∷ rest)) (codes s ++ quote ∷ rest) (codes s)
      (quote ∷ rest) rest s (consume-quote ws (codes s ++ quote ∷ rest) w) (extract-whole s rest)
      (consume-quote [] rest tt) (unescape-codes s h),
)

-- `decode<std::string>` returns every string of characters from 1 to 127 that `encode` wrote.
pub decode_whole-encode_string :
    (s : List ℕ) → All IsChar s → (encode_string s >>= decode_whole) ≡ ok s
unfolding decode_whole
decode_whole-encode_string s h =
    let (e, d) = decode_string-encode_string s [] [] h tt in rw e (rw d refl)

-- A Boolean is encoded and decoded, in front of any text, to itself.
pub decode_bool-encode_bool :
    (b : Bool) (rest : List ℕ) → decode_bool (encode_bool b ++ rest) ≡ some (b, rest)
unfolding decode_bool encode_bool after_word
decode_bool-encode_bool true rest = refl
decode_bool-encode_bool false rest = refl
