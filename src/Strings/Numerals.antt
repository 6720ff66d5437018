-- ===== src/Strings/Numerals.antt =====
-- What the checked parsers compute, against the plain meaning of a numeral.
use native.Mathlib.Nat.{zero-mod, div-add-mod, mul-add-mod_self_left}
use libspl.Common.{
  ℕ, ◌+◌, ◌-◌, ◌*◌, ◌/◌, ◌%◌, ◌^◌, ◌≤◌, ◌<◌, ◌≡◌, refl, sym, ap, ◌∙◌, Bool, true, false, ◌&&◌,
  Option, none, some, List, [], ◌∷◌, Run, ok, throw, fault, string_not_numeric, arith, ◌==◌, ltb,
  leb, Option-cases, inl, inr, length, All, if◌then◌else◌, lt_or_le, lt→ltb, le→ltb, passes, passed,
}
use libspl.Strings.Tables.{nval, digit_to_val}
use libspl.Strings.Unsigned.{
  scan_len, checked_table, checked_small, unsigned_step, accumulate, str_to_unsigned_int_len,
}

-- the value of a character: decimal digits, then letters of either case
abbrev pub char_value : ℕ → Option ℕ
char_value c =
    if leb b'0' c && leb c b'9'
    then some (c - b'0')
    else if leb b'A' c && leb c b'Z'
    then some (c - b'A' + 10)
    else if leb b'a' c && leb c b'z'
    then some (c - b'a' + 10)
    else none

-- the digit, if the character is one in this base
unfoldable pub digit_in : ℕ → ℕ → Option ℕ
digit_in base c = elim (char_value c) [ none ↦ none | some v ↦ if ltb v base then some v else none ]

-- the number that `str` continues from `x`, or none where a character is no digit
unfoldable pub numeral : ℕ → ℕ → List ℕ → Option ℕ
numeral base x [] = some x
numeral base x (c ∷ str) = elim (digit_in base c) [
  | none ↦ none
  | some d ↦ numeral base (x * base + d) str
]

-- a number as the type stores it, and the exception otherwise
abbrev pub stored : ℕ → Option ℕ → Run ℕ
stored w none = throw string_not_numeric
stored w (some n) = ok (n % 2 ^ w)

abbrev digit_or_throw : Option ℕ → Run ℕ
digit_or_throw none = throw string_not_numeric
digit_or_throw (some d) = ok d

abbrev pub IsAscii : List ℕ → Type 0
IsAscii = All (λ c. c < 128)

same_value : ℕ → Bool
same_value c = elim (digit_to_val c) [
  | ok v ↦ elim (char_value c) [ none ↦ v == nval | some u ↦ (v == u) && ltb u 36 ]
  | throw _ ↦ false
  | fault ↦ false
]

same_values : passes same_value 128 ≡ true
unfolding passes same_value digit_to_val
same_values = refl

checked_table-digit_in :
    (base c : ℕ) → base ≤ 36 → c < 128 → checked_table base c ≡ digit_or_throw (digit_in base c)
unfolding checked_table same_value digit_in
checked_table-digit_in base c small h =
    let t = passed same_value 128 c h same_values in ground arith

checked_small-digit_in :
    (base c : ℕ) → base ≤ 10 → c < 128 → checked_small base c ≡ digit_or_throw (digit_in base c)
unfolding checked_small digit_in
checked_small-digit_in base c small h = ground arith

zero_mod : (w : ℕ) → 0 % 2 ^ w ≡ 0
zero_mod w = zero-mod (2 ^ w)

accumulate-mod : (w base x d : ℕ) → accumulate w base (x % 2 ^ w) d ≡ (x * base + d) % 2 ^ w
accumulate-mod w base x d =
    let m = 2 ^ w in
    let e : x * base + d ≡ m * (x / m * base) + (x % m * base + d) =
      omega (arith, ap (λ (t : ℕ). t * base) (div-add-mod x m)) in
    sym (ap (λ t. t % m) e ∙ mul-add-mod_self_left m (x / m * base) (x % m * base + d))

module _ (w base : ℕ) (read : ℕ → Run ℕ)
    (reads : (c : ℕ) → c < 128 → read c ≡ digit_or_throw (digit_in base c)) where
  scan_len-numeral :
      (str : List ℕ) (x : ℕ)
      → IsAscii str
      → scan_len read (unsigned_step w base) (x % 2 ^ w) (length str) str
        ≡ stored w (numeral base x str)
  unfolding scan_len numeral
  scan_len-numeral [] x a = refl
  scan_len-numeral (c ∷ str) x a = elim (Option-cases (digit_in base c)) [
    | inl e ↦ rw (reads c a.0, numeral, e)
    | inr (d, e) ↦
        rw (reads c a.0, numeral, e, accumulate-mod w base x d)
          (scan_len-numeral str (x * base + d) a.1)
  ]

-- On ASCII text the checked parser returns the number modulo the size of the type, and throws
-- where a character is no digit of the base.
pub str_to_unsigned_int_len-numeral :
    (w base : ℕ) (str : List ℕ)
    → base ≤ 36
    → IsAscii str
    → str_to_unsigned_int_len w base str (length str) ≡ stored w (numeral base 0 str)
unfolding str_to_unsigned_int_len
str_to_unsigned_int_len-numeral w base str small a = elim (lt_or_le 10 base) [
  | inl large ↦ rw (lt→ltb 10 base large) (
      rw (zero_mod w) at (
        scan_len-numeral w base (checked_table base) (λ c h. checked_table-digit_in base c small h)
          str 0 a))
  | inr tiny ↦ rw (le→ltb 10 base tiny) (
      rw (zero_mod w) at (
        scan_len-numeral w base (checked_small base) (λ c h. checked_small-digit_in base c tiny h)
          str 0 a))
]
