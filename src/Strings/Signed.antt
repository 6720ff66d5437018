-- ===== src/Strings/Signed.antt =====
-- The parsers of signed integers. A value of the type T of width `w` is held as its bit pattern.
-- The sums are made in `int` or wider, so they overflow, a fault, only where T is that wide.
use libspl.Common.{
  ℕ, zero, suc, ◌+◌, ◌-◌, ◌*◌, ◌%◌, ◌^◌, Bool, true, false, List, [], ◌∷◌, Run, ok, fault, ◌>>=◌,
  ltb, ◌==◌, if◌then◌else◌,
}
use libspl.Strings.Tables.{digit_to_val}
use libspl.Strings.Unsigned.{scan_nul, scan_len, checked_table, checked_small}

-- `x = (x * (T) base) + (T) d` in a signed T: below 32 bits the `int` result is wrapped by the
-- store; from 32 bits on no value so far is negative, and a result from 2 ^ (w - 1) on overflows
unfoldable pub signed_step : ℕ → ℕ → ℕ → ℕ → Run ℕ
signed_step w base x d =
    let y = x * base + d in
    if ltb w 32 then ok (y % 2 ^ w) else if ltb y (2 ^ (w - 1)) then ok y else fault

-- `if (neg) x = -x;`
unfoldable pub negate_if : ℕ → Bool → ℕ → Run ℕ
negate_if w neg x = ok (if neg then (2 ^ w - x) % 2 ^ w else x)

-- `if (*str == '-') { neg = true; ++str; }` and the loop
unfoldable pub parse_nul : ℕ → ℕ → (ℕ → Run ℕ) → List ℕ → Run ℕ
unfolding negate_if
parse_nul w base read [] = fault
parse_nul w base read (c ∷ str) =
    if c == b'-'
    then scan_nul read (signed_step w base) 0 str >>= negate_if w true
    else scan_nul read (signed_step w base) 0 (c ∷ str) >>= negate_if w false

unfoldable pub parse_len : ℕ → ℕ → (ℕ → Run ℕ) → List ℕ → ℕ → Run ℕ
unfolding negate_if
parse_len w base read str zero = ok 0
parse_len w base read [] (suc len) = fault
parse_len w base read (c ∷ str) (suc len) =
    if c == b'-'
    then scan_len read (signed_step w base) 0 len str >>= negate_if w true
    else scan_len read (signed_step w base) 0 (suc len) (c ∷ str) >>= negate_if w false

module _ (w base : ℕ) where
  unfoldable pub str_to_int_unprotected_large : List ℕ → Run ℕ
  str_to_int_unprotected_large = parse_nul w base digit_to_val

  unfoldable pub str_to_int_unprotected_large_len : List ℕ → ℕ → Run ℕ
  str_to_int_unprotected_large_len = parse_len w base digit_to_val

  unfoldable pub str_to_int_large : List ℕ → Run ℕ
  str_to_int_large = parse_nul w base (checked_table base)

  unfoldable pub str_to_int_large_len : List ℕ → ℕ → Run ℕ
  str_to_int_large_len = parse_len w base (checked_table base)

  unfoldable pub str_to_int_small : List ℕ → Run ℕ
  str_to_int_small = parse_nul w base (checked_small base)

  unfoldable pub str_to_int_small_len : List ℕ → ℕ → Run ℕ
  str_to_int_small_len = parse_len w base (checked_small base)

  unfoldable pub str_to_int : List ℕ → Run ℕ
  unfolding str_to_int_large str_to_int_small
  str_to_int str = if ltb 10 base then str_to_int_large str else str_to_int_small str

  unfoldable pub str_to_int_len : List ℕ → ℕ → Run ℕ
  unfolding str_to_int_large_len str_to_int_small_len
  str_to_int_len str len =
      if ltb 10 base then str_to_int_large_len str len else str_to_int_small_len str len
