-- ===== src/Strings/RoundTrip/Limits.antt =====
-- Where printing and parsing end in undefined behaviour: digits before the start of the buffer, and
-- the least value of a wide signed type.
use native.Mathlib.Nat.{
  div-add-mod, mod-lt, le-div_iff_mul-le, pow-suc, one-le-pow, pow-le-pow_right, div-lt_self,
}
use libspl.Common.{
  ℕ, zero, suc, ◌+◌, ◌-◌, ◌*◌, ◌/◌, ◌%◌, ◌^◌, ◌≤◌, ◌<◌, ◌≡◌, refl, ap, true, false, List, [], ◌∷◌,
  Run, ok, fault, arith, ◌==◌, inl, inr, ◌>>=◌, lt_or_le, lt→ltb, le→ltb,
}
use libspl.Strings.Tables.{val_to_digit}
use libspl.Strings.Unsigned.{scan_nul, checked_table, checked_small}
use libspl.Strings.Signed.{signed_step, parse_nul, str_to_int}
use libspl.Strings.Print.{
  digits_loop, integer_start, small_digit, put_sign, is_negative, magnitude, int_to_str,
  unsigned_int_to_str,
}
use libspl.Strings.RoundTrip.Digits.{Codec, large-Codec, small-Codec}
use libspl.Strings.RoundTrip.Loops.{digits_loop-Reads, quotient_lt}
use libspl.Strings.RoundTrip.Signed.{bound, signed_step-ok, half_pow}

module _ (base : ℕ) (show read : ℕ → Run ℕ) (two : 2 ≤ base)
    (codec : (d : ℕ) → d < base → Codec base show read d) where
  digits_loop-fault :
      (room val : ℕ) (str : List ℕ) → base ^ room ≤ val → digits_loop base show room val str ≡ fault
  unfolding digits_loop
  digits_loop-fault zero val str h = refl
  digits_loop-fault (suc room) val str h =
      let cd = codec (val % base) (mod-lt val (omega arith)) in
      let q : base ^ room ≤ val / base =
        (le-div_iff_mul-le {k = base} {x = base ^ room} {y = val} (omega arith)).1
          (rw (pow-suc base room) at h) in
      let p : 1 ≤ base ^ room = one-le-pow room base (omega arith) in
      rw (cd.shows, digits_loop-fault room (val / base) (cd.char ∷ str) q) (ground arith)

-- A value of more than fifty digits is written before the start of `_numBuf`.
pub unsigned_int_to_str-fault :
    (base val : ℕ)
    → 2 ≤ base
    → base ≤ 36
    → base ^ integer_start ≤ val
    → unsigned_int_to_str base val ≡ fault
unfolding unsigned_int_to_str
unsigned_int_to_str-fault base val two h long = elim (lt_or_le 10 base) [
  | inl large ↦ rw (
    lt→ltb 10 base large,
    digits_loop-fault base val_to_digit (checked_table base) two (λ d. large-Codec base d h) 50 val
        (0 ∷ []) long,
  )
  | inr small ↦ rw (
    le→ltb 10 base small,
    digits_loop-fault base small_digit (checked_small base) two (λ d. small-Codec base d small) 50
        val (0 ∷ []) long,
  )
]

-- The least value is printed as `str`, and parsing `str` overflows.
pub record IsLost (w base : ℕ) : Type 0 where
  pub str : List ℕ
  pub prints : int_to_str w base (2 ^ (w - 1)) ≡ ok str
  pub overflows : str_to_int w base str ≡ fault

module _ (w base : ℕ) (show read : ℕ → Run ℕ) (wide : 32 ≤ w) (two : 2 ≤ base) (small : base ≤ 36)
    (codec : (d : ℕ) → d < base → Codec base show read d) where
  abbrev least : ℕ
  least = 2 ^ (w - 1)

  base_lt : base < least
  base_lt = omega (arith, pow-le-pow_right {n = 2} (omega arith) {i = 31} {j = w - 1} (omega arith))

  bound-eq : bound w ≡ least
  unfolding bound
  bound-eq = rw (le→ltb w 32 wide)

  scan-overflow :
      (cd : Codec base show read (least % base)) (str : List ℕ)
      → scan_nul read (signed_step w base) (least / base) (cd.char ∷ str) ≡ fault
  unfolding scan_nul signed_step
  scan-overflow cd str =
      let n = cd.ne_nul in
      let e : least / base * base + least % base ≡ least = omega (arith, div-add-mod least base) in
      rw (cd.reads, e) (ground arith)

  least-overflows :
      least < base ^ 49
      → (str : List ℕ) × (digits_loop base show integer_start least (0 ∷ []) >>= put_sign true
          ≡ ok str)
        × (parse_nul w base read str ≡ fault)
  unfolding digits_loop put_sign parse_nul
  least-overflows room =
      let cd = codec (least % base) (mod-lt least (omega arith)) in
      let q : least / base < base ^ 48 =
        quotient_lt base show read (signed_step w base) (bound w) two codec (signed_step-ok w base)
          48 least room in
      let b : least / base < bound w =
        rw bound-eq (div-lt_self (omega (arith, base_lt)) (omega arith)) in
      let r =
        digits_loop-Reads base show read (signed_step w base) (bound w) two codec
          (signed_step-ok w base) 47 49 (least / base) (cd.char ∷ 0 ∷ []) (omega arith) q b in
      let e : r.left ≡ suc (r.left - 1) = omega (arith, r.space) in
      let many : (least / base == 0) ≡ false =
        ground
          (arith, (le-div_iff_mul-le {k = base} {x = 1} {y = least} (omega arith)).1, base_lt) in
      (
        b'-' ∷ r.head ∷ r.tail,
        rw (cd.shows, many, r.prints) (ap (λ n. put_sign true (n, r.head ∷ r.tail)) e),
        rw (r.nul, scan-overflow cd (0 ∷ [])),
      )

least_negative : (w : ℕ) → 1 ≤ 2 ^ (w - 1) → is_negative w (2 ^ (w - 1)) ≡ true
unfolding is_negative
least_negative w h = ground arith

magnitude-least : (w : ℕ) → 0 < w → 1 ≤ 2 ^ (w - 1) → magnitude w (2 ^ (w - 1)) ≡ 2 ^ (w - 1)
unfolding magnitude
magnitude-least w h p = ground (arith, half_pow w h)

module _ (w base : ℕ) (wide : 32 ≤ w) (two : 2 ≤ base) (small : base ≤ 36)
    (room : 2 ^ (w - 1) < base ^ 49) where
  -- For a signed type of w bits, 32 or more, and a base from 2 to 36 where 2^(w-1) is less than base^49,
  -- so that the buffer has room for it, the least value is printed, and parsing the printed string is a
  -- signed overflow.
  pub least_IsLost : IsLost w base
  unfolding int_to_str str_to_int
  least_IsLost =
      let one = one-le-pow (w - 1) 2 (omega arith) in
      elim (lt_or_le 10 base) [
        | inl large ↦
            let (str, prints, overflows) =
              least-overflows w base val_to_digit (checked_table base) wide two small
                (λ d. large-Codec base d small) room in
            record {
              str = str;
              prints =
                  rw
                    (
                      lt→ltb 10 base large,
                      magnitude-least w (omega arith) one,
                      least_negative w one,
                    )
                    prints;
              overflows = rw (lt→ltb 10 base large) overflows;
            }
        | inr tiny ↦
            let (str, prints, overflows) =
              least-overflows w base small_digit (checked_small base) wide two small
                (λ d. small-Codec base d tiny) room in
            record {
              str = str;
              prints =
                  rw
                    (le→ltb 10 base tiny, magnitude-least w (omega arith) one, least_negative w one)
                    prints;
              overflows = rw (le→ltb 10 base tiny) overflows;
            }
      ]
