-- ===== src/Strings/RoundTrip/Signed.antt =====
-- `int_to_str`, then `str_to_int`, and the one value that does not come back.
use native.Mathlib.Nat.{mod-eq_of_lt, pow-suc}
use libspl.Common.{
  ℕ, suc, ◌+◌, ◌-◌, ◌*◌, ◌^◌, ◌≤◌, ◌<◌, ◌≡◌, ◌≢◌, ◌⊎◌, ap, ◌∙◌, Bool, true, false, List, [], ◌∷◌,
  Run, ok, arith, ltb, Bool-cases, inl, inr, if◌then◌else◌, ◌>>=◌, lt_or_le, lt→ltb, le→ltb,
}
use libspl.Strings.Tables.{val_to_digit}
use libspl.Strings.Unsigned.{scan_nul, checked_table, checked_small}
use libspl.Strings.Signed.{signed_step, negate_if, parse_nul, str_to_int}
use libspl.Strings.Print.{
  digits_loop, integer_start, small_digit, put_sign, is_negative, magnitude, int_to_str,
}
use libspl.Strings.RoundTrip.Digits.{Codec, large-Codec, small-Codec}
use libspl.Strings.RoundTrip.Loops.{digits_loop-Reads}

pub half_pow : (w : ℕ) → 0 < w → 2 ^ w ≡ 2 * 2 ^ (w - 1)
half_pow w h =
    let e : w ≡ suc (w - 1) = omega arith in ap (λ n. 2 ^ n) e ∙ omega (arith, pow-suc 2 (w - 1))

-- the values that `signed_step` stores unchanged
unfoldable pub bound : ℕ → ℕ
bound w = if ltb w 32 then 2 ^ w else 2 ^ (w - 1)

pub signed_step-ok :
    (w base x d : ℕ) → x * base + d < bound w → signed_step w base x d ≡ ok (x * base + d)
unfolding bound signed_step
signed_step-ok w base x d h = elim (Bool-cases (ltb w 32)) [
  | inl e ↦ rw e (rw (mod-eq_of_lt (rw e at h)))
  | inr e ↦ rw e (rw (lt→ltb _ _ (rw e at h)))
]

module _ (w val : ℕ) (pos : 0 < w) (fits : val < 2 ^ w) where
  magnitude-lt : (w < 32) ⊎ (val ≢ 2 ^ (w - 1)) → magnitude w val < bound w
  unfolding magnitude bound
  magnitude-lt h = ground (arith, half_pow w pos)

  -- negating the magnitude of a negative value gives it back
  negate-magnitude : negate_if w (is_negative w val) (magnitude w val) ≡ ok val
  unfolding negate_if is_negative magnitude
  negate-magnitude = ground (arith, half_pow w pos, mod-eq_of_lt fits)

-- `val`, a bit pattern of `w` bits, is printed as some string, which is parsed as `val`.
pub record ReadsBack (w base val : ℕ) : Type 0 where
  pub str : List ℕ
  pub prints : int_to_str w base val ≡ ok str
  pub nul : str_to_int w base str ≡ ok val

module _ (w base : ℕ) (read : ℕ → Run ℕ) where
  parse_nul-minus :
      (str : List ℕ) (m : ℕ)
      → scan_nul read (signed_step w base) 0 str ≡ ok m
      → parse_nul w base read (b'-' ∷ str) ≡ negate_if w true m
  unfolding parse_nul
  parse_nul-minus str m e = rw e

  parse_nul-digit :
      (c : ℕ) (str : List ℕ) (m : ℕ)
      → c ≢ b'-'
      → scan_nul read (signed_step w base) 0 (c ∷ str) ≡ ok m
      → parse_nul w base read (c ∷ str) ≡ negate_if w false m
  unfolding parse_nul
  parse_nul-digit c str m n e = ground arith

-- printing a sign, then parsing
record Signs (w base : ℕ) (read : ℕ → Run ℕ) (neg : Bool) (m : ℕ) (r : Run (List ℕ)) : Type 0 where
  str : List ℕ
  prints : r ≡ ok str
  parses : parse_nul w base read str ≡ negate_if w neg m

module _ (w base : ℕ) (show read : ℕ → Run ℕ) (two : 2 ≤ base)
    (codec : (d : ℕ) → d < base → Codec base show read d) where
  put_sign-Signs :
      (neg : Bool) (m : ℕ)
      → m < base ^ 49
      → m < bound w
      → Signs w base read neg m (digits_loop base show integer_start m (0 ∷ []) >>= put_sign neg)
  unfolding put_sign scan_nul
  put_sign-Signs false m room fits =
      let r =
        digits_loop-Reads base show read (signed_step w base) (bound w) two codec
          (signed_step-ok w base) 48 50 m (0 ∷ []) (omega arith) room fits in
      record {
        str = r.head ∷ r.tail;
        prints = rw r.prints;
        parses = parse_nul-digit w base read r.head r.tail m r.digit r.nul;
      }
  put_sign-Signs true m room fits =
      let r =
        digits_loop-Reads base show read (signed_step w base) (bound w) two codec
          (signed_step-ok w base) 48 50 m (0 ∷ []) (omega arith) room fits in
      let e : r.left ≡ suc (r.left - 1) = omega (arith, r.space) in
      record {
        str = b'-' ∷ r.head ∷ r.tail;
        prints = rw (r.prints, ◌>>=◌) (ap (λ n. put_sign true (n, r.head ∷ r.tail)) e);
        parses = parse_nul-minus w base read (r.head ∷ r.tail) m r.nul;
      }

module _ (w base val : ℕ) (pos : 0 < w) (two : 2 ≤ base) (fits : val < 2 ^ w)
    (range : (w < 32) ⊎ (val ≢ 2 ^ (w - 1))) (room : magnitude w val < base ^ 49) where
  -- A signed value that the type and the buffer hold is printed, and the parser reads it back. The
  -- least value of a type of 32 or more bits is left out.
  pub signed_int_round_trip : base ≤ 36 → ReadsBack w base val
  unfolding int_to_str str_to_int
  signed_int_round_trip h = elim (lt_or_le 10 base) [
    | inl large ↦
        let s =
          put_sign-Signs w base val_to_digit (checked_table base) two (λ d. large-Codec base d h)
            (is_negative w val) (magnitude w val) room (magnitude-lt w val pos fits range) in
        record {
          str = s.str;
          prints = rw (lt→ltb 10 base large) s.prints;
          nul = rw (lt→ltb 10 base large) (s.parses ∙ negate-magnitude w val pos fits);
        }
    | inr small ↦
        let s =
          put_sign-Signs w base small_digit (checked_small base) two (λ d. small-Codec base d small)
            (is_negative w val) (magnitude w val) room (magnitude-lt w val pos fits range) in
        record {
          str = s.str;
          prints = rw (le→ltb 10 base small) s.prints;
          nul = rw (le→ltb 10 base small) (s.parses ∙ negate-magnitude w val pos fits);
        }
  ]
