-- ===== src/Strings/Unsigned.antt =====
-- The parsers of unsigned integers. `w` is the width of the type T; a string is the list of bytes
-- from the pointer to the end of its allocation, and a read past that end is a fault.
use libspl.Common.{
  ℕ, zero, suc, ◌+◌, ◌-◌, ◌*◌, ◌%◌, ◌^◌, ◌||◌, List, [], ◌∷◌, Run, ok, throw, fault, ◌>>=◌,
  string_not_numeric, ltb, leb, ◌==◌, if◌then◌else◌,
}
use libspl.Strings.Tables.{nval, digit_to_val}

-- `x = (x * (T) base) + (T) d`, stored into an unsigned T
abbrev pub accumulate : ℕ → ℕ → ℕ → ℕ → ℕ
accumulate w base x d = (x * base + d) % 2 ^ w

-- `while (*str != '\0')`, with `read` for what a round does with one character
unfoldable pub scan_nul : (ℕ → Run ℕ) → (ℕ → ℕ → Run ℕ) → ℕ → List ℕ → Run ℕ
scan_nul read step x [] = fault
scan_nul read step x (c ∷ str) =
    let rest = read c >>= step x >>= (λ y. scan_nul read step y str) in
    if c == 0 then ok x else rest

-- `while (str < end)`, with `len` bytes left
unfoldable pub scan_len : (ℕ → Run ℕ) → (ℕ → ℕ → Run ℕ) → ℕ → ℕ → List ℕ → Run ℕ
scan_len read step x zero str = ok x
scan_len read step x (suc len) [] = fault
scan_len read step x (suc len) (c ∷ str) = read c >>= step x >>= (λ y. scan_len read step y len str)

-- the test of the table-driven overloads, then the digit
unfoldable pub checked_table : ℕ → ℕ → Run ℕ
checked_table base c =
    digit_to_val c >>= λ v. if (v == nval) || leb base v then throw string_not_numeric else ok v

-- `*str < '0' || *str > '0' + base - 1` on a signed `char`, then `*str - '0'`
unfoldable pub checked_small : ℕ → ℕ → Run ℕ
checked_small base c =
    if leb 128 c || ltb c b'0' || ltb (b'0' + base - 1) c
    then throw string_not_numeric
    else ok (c - b'0')

-- `(T) (*str - '0')` with no test: a signed `char`, minus 48, wrapped to the width
unfoldable pub unchecked_small : ℕ → ℕ → Run ℕ
unchecked_small w c =
    ok ((if ltb c 128 then c + 2 * 2 ^ w - 48 else c + 2 * 2 ^ w - 48 - 256) % 2 ^ w)

abbrev pub unsigned_step : ℕ → ℕ → ℕ → ℕ → Run ℕ
unsigned_step w base x d = ok (accumulate w base x d)

module _ (w base : ℕ) where
  -- the overloads for base > 10
  unfoldable pub str_to_unsigned_int_unprotected_large : List ℕ → Run ℕ
  str_to_unsigned_int_unprotected_large = scan_nul digit_to_val (unsigned_step w base) 0

  unfoldable pub str_to_unsigned_int_unprotected_large_len : List ℕ → ℕ → Run ℕ
  str_to_unsigned_int_unprotected_large_len str len =
      scan_len digit_to_val (unsigned_step w base) 0 len str

  unfoldable pub str_to_unsigned_int_large : List ℕ → Run ℕ
  str_to_unsigned_int_large = scan_nul (checked_table base) (unsigned_step w base) 0

  unfoldable pub str_to_unsigned_int_large_len : List ℕ → ℕ → Run ℕ
  str_to_unsigned_int_large_len str len =
      scan_len (checked_table base) (unsigned_step w base) 0 len str

  -- the overloads for base <= 10
  unfoldable pub str_to_unsigned_int_unprotected_small : List ℕ → Run ℕ
  str_to_unsigned_int_unprotected_small = scan_nul (unchecked_small w) (unsigned_step w base) 0

  unfoldable pub str_to_unsigned_int_unprotected_small_len : List ℕ → ℕ → Run ℕ
  str_to_unsigned_int_unprotected_small_len str len =
      scan_len (unchecked_small w) (unsigned_step w base) 0 len str

  unfoldable pub str_to_unsigned_int_small : List ℕ → Run ℕ
  str_to_unsigned_int_small = scan_nul (checked_small base) (unsigned_step w base) 0

  unfoldable pub str_to_unsigned_int_small_len : List ℕ → ℕ → Run ℕ
  str_to_unsigned_int_small_len str len =
      scan_len (checked_small base) (unsigned_step w base) 0 len str

  -- overload resolution by `std::enable_if`
  unfoldable pub str_to_unsigned_int : List ℕ → Run ℕ
  unfolding str_to_unsigned_int_large str_to_unsigned_int_small
  str_to_unsigned_int str =
      if ltb 10 base then str_to_unsigned_int_large str else str_to_unsigned_int_small str

  unfoldable pub str_to_unsigned_int_len : List ℕ → ℕ → Run ℕ
  unfolding str_to_unsigned_int_large_len str_to_unsigned_int_small_len
  str_to_unsigned_int_len str len =
      if ltb 10 base
      then str_to_unsigned_int_large_len str len
      else str_to_unsigned_int_small_len str len
