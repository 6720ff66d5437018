-- ===== src/Strings/Tests.antt =====
-- Runs of the conversions and instances of their theorems.
use libspl.Common.{
  ℕ, ◌-◌, ◌^◌, ◌≡◌, refl, inl, List, [], ◌∷◌, ◌++◌, ok, throw, fault, string_not_numeric, arith,
}
use libspl.Strings.Tables.{digit_to_val, val_to_digit}
use libspl.Strings.Unsigned.{
  scan_nul, scan_len, checked_table, checked_small, unchecked_small, str_to_unsigned_int,
  str_to_unsigned_int_len, str_to_unsigned_int_unprotected_small,
  str_to_unsigned_int_unprotected_large, str_to_unsigned_int_unprotected_large_len,
  str_to_unsigned_int_unprotected_small_len,
}
use libspl.Strings.Signed.{
  signed_step, negate_if, parse_nul, str_to_int, str_to_int_len, str_to_int_unprotected_large,
  str_to_int_unprotected_large_len,
}
use libspl.Strings.Print.{
  small_digit, digits_loop, put_sign, magnitude, is_negative, unsigned_int_to_str, int_to_str,
}
use libspl.Strings.Overloads.{overloads_agree}
use libspl.Strings.Numerals.{stored, numeral, str_to_unsigned_int_len-numeral}
use libspl.Strings.RoundTrip.Unsigned as UnsignedTrip
use libspl.Strings.RoundTrip.Unsigned.{unsigned_int_round_trip}
use libspl.Strings.RoundTrip.Signed as SignedTrip
use libspl.Strings.RoundTrip.Signed.{signed_int_round_trip}
use libspl.Strings.RoundTrip.Limits.{unsigned_int_to_str-fault, IsLost, least_IsLost}

program : Unit {0}
unfolding digit_to_val val_to_digit scan_nul scan_len checked_table checked_small unchecked_small
    str_to_unsigned_int str_to_unsigned_int_len str_to_unsigned_int_unprotected_small signed_step
    negate_if parse_nul str_to_int small_digit digits_loop put_sign magnitude is_negative
    unsigned_int_to_str int_to_str
program = tt

-- "ff" and "FF" are 255 in base 16, and "1a" is no decimal number
parse_hex : str_to_unsigned_int 32 16 (b'f' ∷ b'F' ∷ 0 ∷ []) ≡ ok 255
unfolding program
parse_hex = refl

parse_bad : str_to_unsigned_int 32 10 (b'1' ∷ b'a' ∷ 0 ∷ []) ≡ throw string_not_numeric
unfolding program
parse_bad = refl

-- the parsers do not report overflow: 256 wraps to 0 in eight bits
parse_wraps : str_to_unsigned_int 8 10 (b'2' ∷ b'5' ∷ b'6' ∷ 0 ∷ []) ≡ ok 0
unfolding program
parse_wraps = refl

unprotected_garbage : str_to_unsigned_int_unprotected_small 8 10 (b'1' ∷ b'/' ∷ 0 ∷ []) ≡ ok 9
unfolding program
unprotected_garbage = refl

-- a byte from 128 on indexes the table with a huge number
high_byte : str_to_unsigned_int 32 16 (200 ∷ 0 ∷ []) ≡ fault
unfolding program
high_byte = refl

print_minus : int_to_str 32 10 (2 ^ 32 - 128) ≡ ok (b'-' ∷ b'1' ∷ b'2' ∷ b'8' ∷ 0 ∷ [])
unfolding program
print_minus = refl

parse_minus : str_to_int 32 10 (b'-' ∷ b'1' ∷ b'2' ∷ b'8' ∷ 0 ∷ []) ≡ ok (2 ^ 32 - 128)
unfolding program
parse_minus = refl

unsigned_int_round_trip_example : UnsignedTrip.ReadsBack 64 36 (2 ^ 64 - 1)
unsigned_int_round_trip_example =
    unsigned_int_round_trip 64 36 (2 ^ 64 - 1) (omega arith) (omega arith) (omega arith)
      (omega arith)

signed_int_round_trip_example : SignedTrip.ReadsBack 8 10 128
unfolding magnitude
signed_int_round_trip_example =
    signed_int_round_trip 8 10 128 (omega arith) (omega arith) (omega arith) (inl (omega arith))
      (omega arith) (omega arith)

least_IsLost_example : IsLost 64 10
least_IsLost_example = least_IsLost 64 10 (omega arith) (omega arith) (omega arith) (omega arith)

unsigned_int_to_str-fault_example : unsigned_int_to_str 2 (2 ^ 64 - 1) ≡ fault
unsigned_int_to_str-fault_example =
    unsigned_int_to_str-fault 2 (2 ^ 64 - 1) (omega arith) (omega arith) (omega arith)

abbrev digits : List ℕ
digits = b'-' ∷ b'7' ∷ b'f' ∷ []

overloads_agree_example :
    (str_to_unsigned_int_unprotected_large 16 16 (digits ++ 0 ∷ [])
      ≡ str_to_unsigned_int_unprotected_large_len 16 16 (digits ++ b'9' ∷ []) 3)
    × (str_to_unsigned_int_unprotected_small 16 16 (digits ++ 0 ∷ [])
        ≡ str_to_unsigned_int_unprotected_small_len 16 16 (digits ++ b'9' ∷ []) 3)
    × (str_to_unsigned_int 16 16 (digits ++ 0 ∷ [])
        ≡ str_to_unsigned_int_len 16 16 (digits ++ b'9' ∷ []) 3)
    × (str_to_int_unprotected_large 16 16 (digits ++ 0 ∷ [])
        ≡ str_to_int_unprotected_large_len 16 16 (digits ++ b'9' ∷ []) 3)
    × (str_to_int 16 16 (digits ++ 0 ∷ []) ≡ str_to_int_len 16 16 (digits ++ b'9' ∷ []) 3)
overloads_agree_example = overloads_agree 16 16 digits [] (b'9' ∷ []) (omega arith)

str_to_unsigned_int_len-numeral_example :
    str_to_unsigned_int_len 8 16 (b'1' ∷ b'f' ∷ b'E' ∷ []) 3
    ≡ stored 8 (numeral 16 0 (b'1' ∷ b'f' ∷ b'E' ∷ []))
str_to_unsigned_int_len-numeral_example =
    str_to_unsigned_int_len-numeral 8 16 (b'1' ∷ b'f' ∷ b'E' ∷ []) (omega arith) (omega arith)
