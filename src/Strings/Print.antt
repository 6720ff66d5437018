-- ===== src/Strings/Print.antt =====
-- The printers of integers. They fill `_numBuf` backwards from `__INTEGER_START`, so the number of
-- characters left in front of the pointer bounds the loop, and a write before the buffer is a fault.
-- The result is the list of bytes from the returned pointer on, with the final NUL.
use libspl.Common.{
  ℕ, zero, suc, ◌+◌, ◌-◌, ◌/◌, ◌%◌, ◌^◌, Bool, true, false, List, [], ◌∷◌, Run, ok, fault, ◌>>=◌,
  ltb, ◌==◌, if◌then◌else◌,
}
use libspl.Strings.Tables.{val_to_digit}

-- `__INTEGER_START`
abbrev pub integer_start : ℕ
integer_start = 50

-- `(char) (val % base) + '0'`
unfoldable pub small_digit : ℕ → Run ℕ
small_digit v = ok (v + b'0')

-- `do { *--str = digit(val % base); val /= base; } while (val);` with `room` bytes before `str`
unfoldable pub digits_loop : ℕ → (ℕ → Run ℕ) → ℕ → ℕ → List ℕ → Run (ℕ × List ℕ)
digits_loop base show zero val str = fault
digits_loop base show (suc room) val str = show (val % base) >>= λ c.
    let rest = digits_loop base show room (val / base) (c ∷ str) in
    if val / base == 0 then ok (room, c ∷ str) else rest

-- drops the room that is left
abbrev pub printed : Run (ℕ × List ℕ) → Run (List ℕ)
printed r = r >>= λ (room, str). ok str

module _ (base : ℕ) where
  unfoldable pub unsigned_int_to_str_large : ℕ → Run (List ℕ)
  unsigned_int_to_str_large val = printed (digits_loop base val_to_digit integer_start val (0 ∷ []))

  unfoldable pub unsigned_int_to_str_small : ℕ → Run (List ℕ)
  unsigned_int_to_str_small val = printed (digits_loop base small_digit integer_start val (0 ∷ []))

  unfoldable pub unsigned_int_to_str : ℕ → Run (List ℕ)
  unfolding unsigned_int_to_str_large unsigned_int_to_str_small
  unsigned_int_to_str val =
      if ltb 10 base then unsigned_int_to_str_large val else unsigned_int_to_str_small val

-- `if (neg) { --str; *str = '-'; }`
unfoldable pub put_sign : Bool → ℕ × List ℕ → Run (List ℕ)
put_sign false (room, str) = ok str
put_sign true (zero, str) = fault
put_sign true (suc room, str) = ok (b'-' ∷ str)

-- `if (val >= 0) val = -val; else neg = true;` on a bit pattern: the sign, and minus the new value.
-- The remainders and quotients of C++ round towards 0, so the loop runs on minus its `val`.
unfoldable pub is_negative : ℕ → ℕ → Bool
is_negative w val = ltb (2 ^ (w - 1) - 1) val

unfoldable pub magnitude : ℕ → ℕ → ℕ
magnitude w val = if ltb (2 ^ (w - 1) - 1) val then 2 ^ w - val else val

module _ (w base : ℕ) where
  unfoldable pub int_to_str_large : ℕ → Run (List ℕ)
  int_to_str_large val =
      digits_loop base val_to_digit integer_start (magnitude w val) (0 ∷ [])
      >>= put_sign (is_negative w val)

  unfoldable pub int_to_str_small : ℕ → Run (List ℕ)
  int_to_str_small val =
      digits_loop base small_digit integer_start (magnitude w val) (0 ∷ [])
      >>= put_sign (is_negative w val)

  unfoldable pub int_to_str : ℕ → Run (List ℕ)
  unfolding int_to_str_large int_to_str_small
  int_to_str val = if ltb 10 base then int_to_str_large val else int_to_str_small val
