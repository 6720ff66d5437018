-- ===== src/Strings/RoundTrip/Loops.antt =====
-- The digit loop against the scanning loops, for any digits and any step that does not overflow.
use native.Mathlib.Nat.{div-add-mod, mod-lt, div-lt_iff_lt-mul, pow-suc, pow-zero}
use libspl.Common.{
  ℕ, zero, suc, ◌+◌, ◌*◌, ◌/◌, ◌%◌, ◌^◌, ◌≤◌, ◌<◌, ◌≡◌, ◌≢◌, refl, ◌∙◌, List, ◌∷◌, Run, ok, arith,
  ◌==◌, Bool-cases, inl, inr, length,
}
use libspl.Strings.Unsigned.{scan_nul, scan_len}
use libspl.Strings.Print.{digits_loop}
use libspl.Strings.RoundTrip.Digits.{Codec}

module _ (base : ℕ) (show read : ℕ → Run ℕ) (step : ℕ → ℕ → Run ℕ) (bound : ℕ) (two : 2 ≤ base)
    (codec : (d : ℕ) → d < base → Codec base show read d)
    (steps : (x d : ℕ) → x * base + d < bound → step x d ≡ ok (x * base + d)) where
  -- `k` digits were put in front of `str`, and scanning them turns 0 into `val`
  pub record Reads (room val : ℕ) (str : List ℕ) (k : ℕ) (r : Run (ℕ × List ℕ)) : Type 0 where
    pub left : ℕ
    pub head : ℕ
    pub tail : List ℕ
    pub prints : r ≡ ok (left, head ∷ tail)
    pub digit : head ≢ b'-'
    pub space : room ≤ left + k
    pub count : ℕ
    pub size : suc (length tail) ≡ count + length str
    pub nul : scan_nul read step 0 (head ∷ tail) ≡ scan_nul read step val str
    pub len :
        (n m : ℕ)
        → n ≡ count + m
        → scan_len read step 0 n (head ∷ tail) ≡ scan_len read step val m str

  one_step : (val : ℕ) → val < bound → step (val / base) (val % base) ≡ ok val
  one_step val h =
      let e : val / base * base + val % base ≡ val = omega (arith, div-add-mod val base) in
      rw e at (steps (val / base) (val % base) (rw e h))

  module _ (val : ℕ) (h : val < bound) (cd : Codec base show read (val % base)) where
    scan_nul_digit :
        (str : List ℕ)
        → scan_nul read step (val / base) (cd.char ∷ str) ≡ scan_nul read step val str
    unfolding scan_nul
    scan_nul_digit str = let n = cd.ne_nul in rw (cd.reads, one_step val h) (ground arith)

    scan_len_digit :
        (m : ℕ) (str : List ℕ)
        → scan_len read step (val / base) (suc m) (cd.char ∷ str) ≡ scan_len read step val m str
    unfolding scan_len
    scan_len_digit m str = rw (cd.reads, one_step val h)

  pub quotient_lt : (k val : ℕ) → val < base ^ suc k → val / base < base ^ k
  quotient_lt k val h = (div-lt_iff_lt-mul (omega arith)).1 (rw (pow-suc base k) at h)

  last_digit :
      (k room val : ℕ) (str : List ℕ) (h : val < bound) (cd : Codec base show read (val % base))
      → val / base ≡ 0
      → Reads (suc room) val str (suc k) (ok (room, cd.char ∷ str))
  last_digit k room val str h cd e = record {
    left = room;
    head = cd.char;
    tail = str;
    prints = refl;
    digit = cd.ne_minus;
    space = omega arith;
    count = 1;
    size = omega arith;
    nul = rw e at (scan_nul_digit val h cd str);
    len = λ n m q.
        let q' : n ≡ suc m = omega arith in rw q' (rw e at (scan_len_digit val h cd m str));
  }

  more_digits :
      (k room val : ℕ) (str : List ℕ) (h : val < bound) (cd : Codec base show read (val % base))
      → (r : Run (ℕ × List ℕ)) → Reads room (val / base) (cd.char ∷ str) k r
      → Reads (suc room) val str (suc k) r
  more_digits k room val str h cd r ih = record {
    left = ih.left;
    head = ih.head;
    tail = ih.tail;
    prints = ih.prints;
    digit = ih.digit;
    space = omega (arith, ih.space);
    count = ih.count + 1;
    size = omega (arith, ih.size);
    nul = ih.nul ∙ scan_nul_digit val h cd str;
    len = λ n m q. ih.len n (suc m) (omega arith) ∙ scan_len_digit val h cd m str;
  }

  pub digits_loop-Reads :
      (k room val : ℕ) (str : List ℕ)
      → k < room
      → val < base ^ suc k
      → val < bound
      → Reads room val str (suc k) (digits_loop base show room val str)
  unfolding digits_loop
  digits_loop-Reads k zero val str r h b = absurd (omega arith)
  digits_loop-Reads zero (suc room) val str r h b =
      let cd = codec (val % base) (mod-lt val (omega arith)) in
      let q : val / base < 1 = rw (pow-zero base) at (quotient_lt 0 val h) in
      let e : val / base ≡ 0 = omega arith in rw (cd.shows, e) (last_digit 0 room val str b cd e)
  digits_loop-Reads (suc k) (suc room) val str r h b =
      let cd = codec (val % base) (mod-lt val (omega arith)) in
      let q = quotient_lt (suc k) val h in
      elim (Bool-cases (val / base == 0)) [
        | inl e ↦ rw (cd.shows, e) (last_digit (suc k) room val str b cd (ground arith))
        | inr e ↦
            rw (cd.shows, e)
              (more_digits (suc k) room val str b cd _ (
                digits_loop-Reads k room (val / base) (cd.char ∷ str) (omega arith) q
                  (grind arith)))
      ]
