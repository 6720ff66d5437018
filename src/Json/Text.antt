-- ===== src/Json/Text.antt =====
-- `JSON::_escape`, `_unescape`, `_extractString`, `_consumeToken`, and the coding of strings. A C
-- string is the list of its characters without the terminating zero; an index of a character above
-- 127 is negative before its cast, and so is out of range.
use libspl.Common.{
  ℕ, zero, suc, ◌+◌, Bool, true, false, ◌&&◌, ◌||◌, Option, none, some, List, [], ◌∷◌, ◌++◌, Run,
  ok, throw, fault, json_decode, or_fault, ◌>>=◌, get_elem?, ltb, leb, ◌==◌, if◌then◌else◌,
}

abbrev pub quote : ℕ
quote = 34

abbrev pub backslash : ℕ
backslash = 92

abbrev pub repeated : {A : Type 0} → ℕ → A → List A → List A
repeated zero a xs = xs
repeated (suc n) a xs = a ∷ repeated n a xs

-- `_UNESCAPED`
unfoldable pub unescaped_table : List ℕ
unescaped_table = repeated 34 0 (
    34
    ∷ repeated 57 0 (
        92
        ∷ repeated 5 0 (
            8
            ∷ repeated 3 0
                (12 ∷ repeated 7 0 (10 ∷ repeated 3 0 (13 ∷ 0 ∷ 9 ∷ repeated 139 0 []))))))

abbrev pub escape_pair : ℕ → Option (List ℕ)
escape_pair c = some (backslash ∷ c ∷ [])

-- `_ESCAPED`
unfoldable pub escaped_table : List (Option (List ℕ))
escaped_table = repeated 8 none (
    escape_pair 98
    ∷ escape_pair 116
    ∷ escape_pair 110
    ∷ none
    ∷ escape_pair 102
    ∷ escape_pair 114
    ∷ repeated 20 none (escape_pair 34 ∷ repeated 57 none (escape_pair 92 ∷ repeated 163 none [])))

-- `table[(size_t) c]` for a `char`
unfoldable pub at_char : {A : Type 0} → List A → ℕ → Run A
at_char table c = if ltb c 128 then or_fault (get_elem? table c) else fault

-- what `_escape` writes for one character
unfoldable pub escape_char : ℕ → Run (List ℕ)
escape_char c = at_char escaped_table c >>= λ e. elim e [ none ↦ ok (c ∷ []) | some code ↦ ok code ]

unfoldable pub escape : List ℕ → Run (List ℕ)
escape [] = ok []
escape (c ∷ s) = escape_char c >>= λ code. escape s >>= λ rest. ok (code ++ rest)

-- one character of the result, in front of the rest; none is `return false`
abbrev pub prefixed : ℕ → Run (Option (List ℕ)) → Run (Option (List ℕ))
prefixed c r = r >>= λ o. elim o [ none ↦ ok none | some s ↦ ok (some (c ∷ s)) ]

-- the character behind a backslash
unfoldable pub unescape_code : ℕ → Run (Option (List ℕ)) → Run (Option (List ℕ))
unescape_code d rest =
    at_char unescaped_table d >>= λ c. if c == 0 then ok none else prefixed c rest

unfoldable pub unescape : List ℕ → Run (Option (List ℕ))
unescape [] = ok (some [])
unescape (c ∷ []) = if c == backslash then unescape_code 0 (ok (some [])) else ok (some (c ∷ []))
unescape (c ∷ d ∷ s) =
    let behind = unescape s in
    let next = unescape (d ∷ s) in
    if c == backslash then unescape_code d behind else prefixed c next

abbrev pub onto : List ℕ → Option (List ℕ × List ℕ) → Option (List ℕ × List ℕ)
onto cs none = none
onto cs (some (token, rest)) = some (cs ++ token, rest)

-- the loop of `_extractString`: the token and what follows; none where a backslash ends the string
unfoldable pub extract_loop : List ℕ → Option (List ℕ × List ℕ)
extract_loop [] = some ([], [])
extract_loop (c ∷ []) =
    if c == quote then some ([], c ∷ []) else if c == backslash then none else some (c ∷ [], [])
extract_loop (c ∷ d ∷ s) =
    let behind = extract_loop s in
    let next = extract_loop (d ∷ s) in
    if c == quote
    then some ([], c ∷ d ∷ s)
    else if c == backslash
    then onto (c ∷ d ∷ []) behind
    else onto (c ∷ []) next

unfoldable pub extract_string : List ℕ → List ℕ × List ℕ
extract_string s = elim (extract_loop s) [ none ↦ ([], []) | some r ↦ r ]

-- `_WHITE_SPACE`
abbrev pub is_white : ℕ → Bool
is_white c = (c == 32) || (c == 10) || (c == 9)

unfoldable pub skip_whitespaces : List ℕ → List ℕ
skip_whitespaces [] = []
skip_whitespaces (c ∷ s) = let rest = skip_whitespaces s in if is_white c then rest else c ∷ s

abbrev pub starts_with : ℕ → List ℕ → Bool × List ℕ
starts_with token [] = (false, [])
starts_with token (c ∷ s) = if c == token then (true, s) else (false, c ∷ s)

-- whether the token was there, and where `str` is after it
unfoldable pub consume_token : ℕ → List ℕ → Bool × List ℕ
consume_token token s = starts_with token (skip_whitespaces s)

-- `encode(const char *)`
unfoldable pub encode_string : List ℕ → Run (List ℕ)
encode_string s = escape s >>= λ e. ok (quote ∷ e ++ quote ∷ [])

-- `_decode(str, std::string &)`: none is `false`; with it where `str` is left
unfoldable pub decode_string : List ℕ → Run (Option (List ℕ) × List ℕ)
decode_string s =
    let (opened, inner) = consume_token quote s in
    let (token, behind) = extract_string inner in
    let (closed, rest) = consume_token quote behind in
    if opened
    then (unescape token >>= λ o. elim o [
      | none ↦ ok (none, behind)
      | some val ↦ if closed then ok (some val, rest) else ok (none, rest)
    ])
    else ok (none, inner)

-- `encode(const bool &)`
unfoldable pub encode_bool : Bool → List ℕ
encode_bool val = if val then 116 ∷ 114 ∷ 117 ∷ 101 ∷ [] else 102 ∷ 97 ∷ 108 ∷ 115 ∷ 101 ∷ []

-- a letter in lower case
abbrev pub lower : ℕ → ℕ
lower c = if leb 65 c && leb c 90 then c + 32 else c

-- `strncasecmp(str, word, strlen(word)) == 0`, for a word in lower case, and `str += strlen(word)`
unfoldable pub after_word : List ℕ → List ℕ → Option (List ℕ)
after_word [] s = some s
after_word (w ∷ word) [] = none
after_word (w ∷ word) (c ∷ s) = let rest = after_word word s in if lower c == w then rest else none

-- `_decode(str, bool &)`
unfoldable pub decode_bool : List ℕ → Option (Bool × List ℕ)
decode_bool s = elim (after_word (116 ∷ 114 ∷ 117 ∷ 101 ∷ []) s) [
  | some rest ↦ some (true, rest)
  | none ↦ elim (after_word (102 ∷ 97 ∷ 108 ∷ 115 ∷ 101 ∷ []) s) [
    | some rest ↦ some (false, rest)
    | none ↦ none
  ]
]

-- `_indent(str, spaces)`
unfoldable pub indent : ℕ → List ℕ → List ℕ
indent spaces [] = []
indent spaces (c ∷ []) = c ∷ []
indent spaces (c ∷ d ∷ s) =
    let rest = indent spaces (d ∷ s) in if c == 10 then c ∷ repeated spaces 32 rest else c ∷ rest

-- `decode<std::string>(const char *)`: the whole text must be read
unfoldable pub decode_whole : List ℕ → Run (List ℕ)
decode_whole s = decode_string s >>= λ r. elim r.0 [
  | none ↦ throw json_decode
  | some val ↦ elim r.1 [ [] ↦ ok val | c ∷ rest ↦ throw json_decode ]
]
