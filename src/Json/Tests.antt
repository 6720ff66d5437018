-- ===== src/Json/Tests.antt =====
-- Runs of the coding of strings and instances of its theorems.
use mathlib.Core.Path.{◌≡◌, refl}
use libspl.Common.{ℕ, true, none, some, List, [], ◌∷◌, ◌++◌, ok, throw, json_decode, arith}
use libspl.Json.Text.{
  quote, unescaped_table, escaped_table, at_char, escape_char, escape, unescape_code, unescape,
  extract_loop, extract_string, skip_whitespaces, consume_token, encode_string, decode_string,
  decode_whole, encode_bool, after_word, decode_bool, indent,
}
use libspl.Json.RoundTrip.{codes, decode_string-encode_string}

program : Unit {0}
unfolding unescaped_table escaped_table at_char escape_char escape unescape_code unescape
    extract_loop extract_string skip_whitespaces consume_token encode_string decode_string
    decode_whole encode_bool after_word decode_bool indent
program = tt

-- a, a quote, a new line and a backslash
abbrev word : List ℕ
word = 97 ∷ 34 ∷ 10 ∷ 92 ∷ []

encode_runs : encode_string word ≡ ok (34 ∷ 97 ∷ 92 ∷ 34 ∷ 92 ∷ 110 ∷ 92 ∷ 92 ∷ 34 ∷ [])
unfolding program
encode_runs = refl

-- "\/" is no escape for `_unescape`
decode_slash : decode_string (34 ∷ 92 ∷ 47 ∷ 34 ∷ []) ≡ ok (none, 34 ∷ [])
unfolding program
decode_slash = refl

decode_open : decode_whole (34 ∷ 97 ∷ []) ≡ throw json_decode
unfolding program
decode_open = refl

decode_bool_any_case : decode_bool (84 ∷ 114 ∷ 85 ∷ 101 ∷ 44 ∷ []) ≡ some (true, 44 ∷ [])
unfolding program
decode_bool_any_case = refl

indent_lines : indent 2 (97 ∷ 10 ∷ 98 ∷ 10 ∷ []) ≡ 97 ∷ 10 ∷ 32 ∷ 32 ∷ 98 ∷ 10 ∷ []
unfolding program
indent_lines = refl

decode_string-encode_string_example :
    (encode_string word ≡ ok (quote ∷ codes word ++ quote ∷ []))
    × (decode_string (32 ∷ quote ∷ codes word ++ quote ∷ 44 ∷ []) ≡ ok (some word, 44 ∷ []))
decode_string-encode_string_example =
    decode_string-encode_string word (32 ∷ []) (44 ∷ [])
      (
        (omega arith, omega arith),
        (
          (omega arith, omega arith),
          ((omega arith, omega arith), ((omega arith, omega arith), tt)),
        ),
      )
      (refl, tt)
