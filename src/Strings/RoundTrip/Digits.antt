-- ===== src/Strings/RoundTrip/Digits.antt =====
-- Each digit below the base is written as a character that both parsers read back.
use libspl.Common.{
  ℕ, ◌+◌, ◌≤◌, ◌<◌, ◌≡◌, ◌≢◌, refl, Bool, true, false, ◌&&◌, Run, ok, throw, fault, arith, ◌==◌,
  not, passes, passed,
}
use libspl.Strings.Tables.{digit_to_val, val_to_digit}
use libspl.Strings.Unsigned.{checked_table, checked_small}
use libspl.Strings.Print.{small_digit}

-- `show` and `read` are inverse on the digits below `base`, and no digit is written as NUL or '-'.
pub record Codec (base : ℕ) (show read : ℕ → Run ℕ) (d : ℕ) : Type 0 where
  pub char : ℕ
  pub shows : show d ≡ ok char
  pub reads : read char ≡ ok d
  pub ne_nul : char ≢ 0
  pub ne_minus : char ≢ b'-'

-- Both tables at one digit.
inverse_at : ℕ → Bool
inverse_at d = elim (val_to_digit d) [
  | ok c ↦ elim (digit_to_val c) [
    | ok v ↦ (v == d) && not (c == 0) && not (c == b'-')
    | throw _ ↦ false
    | fault ↦ false
  ]
  | throw _ ↦ false
  | fault ↦ false
]

tables_inverse : passes inverse_at 36 ≡ true
unfolding passes inverse_at val_to_digit digit_to_val
tables_inverse = refl

-- The character of a digit, where there is one.
abbrev char_of : Run ℕ → ℕ
char_of (ok c) = c
char_of r = 0

inverse_at-Codec :
    (base d : ℕ)
    → base ≤ 36
    → d < base
    → inverse_at d ≡ true
    → Codec base val_to_digit (checked_table base) d
unfolding inverse_at checked_table
inverse_at-Codec base d small h t = record {
  char = char_of (val_to_digit d);
  shows = ground arith;
  reads = ground arith;
  ne_nul = ground arith;
  ne_minus = ground arith;
}

pub large-Codec :
    (base d : ℕ) → base ≤ 36 → d < base → Codec base val_to_digit (checked_table base) d
large-Codec base d small h =
    inverse_at-Codec base d small h (passed inverse_at 36 d (omega arith) tables_inverse)

pub small-Codec :
    (base d : ℕ) → base ≤ 10 → d < base → Codec base small_digit (checked_small base) d
unfolding small_digit checked_small
small-Codec base d small h = record {
  char = d + b'0';
  shows = refl;
  reads = ground arith;
  ne_nul = omega arith;
  ne_minus = omega arith;
}
