-- ===== src/Strings/RoundTrip/Unsigned.antt =====
-- `unsigned_int_to_str`, then `str_to_unsigned_int`.
use native.Mathlib.Nat.{mod-eq_of_lt}
use libspl.Common.{
  ℕ, ◌+◌, ◌^◌, ◌≤◌, ◌<◌, ◌≡◌, List, [], ◌∷◌, ok, arith, inl, inr, length, lt_or_le, lt→ltb, le→ltb,
}
use libspl.Strings.Tables.{val_to_digit}
use libspl.Strings.Unsigned.{
  scan_nul, scan_len, unsigned_step, checked_table, checked_small, str_to_unsigned_int,
  str_to_unsigned_int_len,
}
use libspl.Strings.Print.{integer_start, small_digit, unsigned_int_to_str}
use libspl.Strings.RoundTrip.Digits.{large-Codec, small-Codec}
use libspl.Strings.RoundTrip.Loops.{digits_loop-Reads}

-- `val` is printed as some string, which both forms of the parser read back as `val`.
pub record ReadsBack (w base val : ℕ) : Type 0 where
  pub str : List ℕ
  pub prints : unsigned_int_to_str base val ≡ ok str
  pub nul : str_to_unsigned_int w base str ≡ ok val
  pub len : (n : ℕ) → length str ≡ n + 1 → str_to_unsigned_int_len w base str n ≡ ok val

module _ (w base val : ℕ) (two : 2 ≤ base) (fits : val < 2 ^ w)
    (room : val < base ^ integer_start) where
  large-ReadsBack : 10 < base → base ≤ 36 → ReadsBack w base val
  unfolding unsigned_int_to_str str_to_unsigned_int str_to_unsigned_int_len scan_nul scan_len
  large-ReadsBack large small =
      let r =
        digits_loop-Reads base val_to_digit (checked_table base) (unsigned_step w base) (2 ^ w) two
          (λ d. large-Codec base d small) (λ x d h. rw (mod-eq_of_lt h)) 49 50 val (0 ∷ [])
          (omega arith) room fits in
      record {
        str = r.head ∷ r.tail;
        prints = rw (lt→ltb 10 base large, r.prints);
        nul = rw (lt→ltb 10 base large) r.nul;
        len = λ n e. rw (lt→ltb 10 base large) (r.len n 0 (omega (arith, r.size)));
      }

  small-ReadsBack : base ≤ 10 → ReadsBack w base val
  unfolding unsigned_int_to_str str_to_unsigned_int str_to_unsigned_int_len scan_nul scan_len
  small-ReadsBack small =
      let r =
        digits_loop-Reads base small_digit (checked_small base) (unsigned_step w base) (2 ^ w) two
          (λ d. small-Codec base d small) (λ x d h. rw (mod-eq_of_lt h)) 49 50 val (0 ∷ [])
          (omega arith) room fits in
      record {
        str = r.head ∷ r.tail;
        prints = rw (le→ltb 10 base small, r.prints);
        nul = rw (le→ltb 10 base small) r.nul;
        len = λ n e. rw (le→ltb 10 base small) (r.len n 0 (omega (arith, r.size)));
      }

  -- An unsigned value that the type and the buffer hold is printed, and both parsers read it back.
  pub unsigned_int_round_trip : base ≤ 36 → ReadsBack w base val
  unsigned_int_round_trip h = elim (lt_or_le 10 base) [
    | inl large ↦ large-ReadsBack large h
    | inr small ↦ small-ReadsBack small
  ]
