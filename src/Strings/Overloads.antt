-- ===== src/Strings/Overloads.antt =====
-- The overloads against each other and against the plain meaning of a numeral.
use mathlib.Core.Path.{fun_ext}
use libspl.Common.{
  ℕ, ◌≡◌, ◌≢◌, refl, false, List, [], ◌∷◌, ◌++◌, Run, ok, arith, length, All, ◌>>=◌,
}
use libspl.Strings.Tables.{digit_to_val}
use libspl.Strings.Unsigned.{
  scan_nul, scan_len, checked_table, checked_small, unchecked_small, unsigned_step,
  str_to_unsigned_int_unprotected_large, str_to_unsigned_int_unprotected_large_len,
  str_to_unsigned_int_unprotected_small, str_to_unsigned_int_unprotected_small_len,
  str_to_unsigned_int, str_to_unsigned_int_len,
}
use libspl.Strings.Signed.{
  signed_step, negate_if, parse_nul, parse_len, str_to_int_unprotected_large,
  str_to_int_unprotected_large_len, str_to_int, str_to_int_len,
}

-- a string with no NUL inside
abbrev pub IsText : List ℕ → Type 0
IsText = All (λ c. c ≢ 0)

module _ (read : ℕ → Run ℕ) (step : ℕ → ℕ → Run ℕ) (after after' : List ℕ) where
  scan_nul-scan_len :
      (str : List ℕ) (x : ℕ)
      → IsText str
      → scan_nul read step x (str ++ 0 ∷ after) ≡ scan_len read step x (length str) (str ++ after')
  unfolding scan_nul scan_len
  scan_nul-scan_len [] x t = refl
  scan_nul-scan_len (c ∷ str) x t = rw (fun_ext (λ y. scan_nul-scan_len str y t.1)) (ground arith)

empty_nul :
    (w : ℕ) (read : ℕ → Run ℕ) (step : ℕ → ℕ → Run ℕ) (after : List ℕ)
    → scan_nul read step 0 (0 ∷ after) >>= negate_if w false ≡ ok 0
unfolding scan_nul negate_if
empty_nul w read step after = refl

module _ (w base : ℕ) (read : ℕ → Run ℕ) (after after' : List ℕ) where
  parse_nul-parse_len :
      (str : List ℕ)
      → IsText str
      → parse_nul w base read (str ++ 0 ∷ after)
        ≡ parse_len w base read (str ++ after') (length str)
  unfolding parse_nul parse_len
  parse_nul-parse_len [] t = empty_nul w read (signed_step w base) after
  parse_nul-parse_len (c ∷ str) t =
      let loop = scan_nul-scan_len read (signed_step w base) after after' in
      rw (loop str 0 t.1, loop (c ∷ str) 0 t)

module _ (w base : ℕ) (str after after' : List ℕ) (text : IsText str) where
  -- Each parser of a NUL-terminated string agrees with its overload that takes the length.
  pub overloads_agree :
      (str_to_unsigned_int_unprotected_large w base (str ++ 0 ∷ after)
        ≡ str_to_unsigned_int_unprotected_large_len w base (str ++ after') (length str))
      × (str_to_unsigned_int_unprotected_small w base (str ++ 0 ∷ after)
          ≡ str_to_unsigned_int_unprotected_small_len w base (str ++ after') (length str))
      × (str_to_unsigned_int w base (str ++ 0 ∷ after)
          ≡ str_to_unsigned_int_len w base (str ++ after') (length str))
      × (str_to_int_unprotected_large w base (str ++ 0 ∷ after)
          ≡ str_to_int_unprotected_large_len w base (str ++ after') (length str))
      × (str_to_int w base (str ++ 0 ∷ after) ≡ str_to_int_len w base (str ++ after') (length str))
  unfolding str_to_unsigned_int_unprotected_large str_to_unsigned_int_unprotected_large_len
      str_to_unsigned_int_unprotected_small str_to_unsigned_int_unprotected_small_len
      str_to_unsigned_int str_to_unsigned_int_len str_to_int_unprotected_large
      str_to_int_unprotected_large_len str_to_int str_to_int_len
  overloads_agree =
      let loop = λ (read : ℕ → Run ℕ).
        scan_nul-scan_len read (unsigned_step w base) after after' str 0 text in
      let signed = λ (read : ℕ → Run ℕ). parse_nul-parse_len w base read after after' str text in
      (
        loop digit_to_val,
        loop (unchecked_small w),
        rw (loop (checked_table base), loop (checked_small base)),
        signed digit_to_val,
        rw (signed (checked_table base), signed (checked_small base)),
      )
