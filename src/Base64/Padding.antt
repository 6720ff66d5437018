-- ===== src/Base64/Padding.antt =====
-- The padding at the end of a base64 text, and the length that `decode` reads from it.
use libspl.Common.{
  ℕ, suc, ◌+◌, ◌-◌, ◌*◌, ◌/◌, ◌%◌, ◌≤◌, ◌≡◌, refl, sym, ◌∙◌, ap, false, some, List, [], ◌∷◌, length,
  get_elem?, ◌==◌, if◌then◌else◌, arith, not,
}
use libspl.Base64.Codec.{pad}
use libspl.Base64.Encode.{digit, text, length-text}

digit-not_pad : (i : ℕ) → (digit i == pad) ≡ false
digit-not_pad i = ground arith

-- the last two characters of a text, and which of them are padding
pub record Ends (t : List ℕ) (n : ℕ) : Type 0 where
  pub before_last : ℕ
  pub last : ℕ
  pub at_before_last : get_elem? t (length t - 2) ≡ some before_last
  pub at_last : get_elem? t (length t - 1) ≡ some last
  pub before_last_pad : (before_last == pad) ≡ (n % 3 == 1)
  pub last_pad : (last == pad) ≡ not (n % 3 == 0)

get_elem?-behind_four :
    (a b c d : ℕ) (t : List ℕ) (k i : ℕ)
    → i ≡ k + 4
    → get_elem? (a ∷ b ∷ c ∷ d ∷ t) i ≡ get_elem? t k
get_elem?-behind_four a b c d t k i e =
    let e' : i ≡ suc (suc (suc (suc k))) = omega (arith, e) in rw e' refl

pub text-Ends : (x : ℕ) (xs : List ℕ) → Ends (text (x ∷ xs)) (length (x ∷ xs))
text-Ends x [] = record {
  before_last = pad;
  last = pad;
  at_before_last = refl;
  at_last = refl;
  before_last_pad = refl;
  last_pad = refl;
}
text-Ends x (y ∷ []) = record {
  before_last = digit (y % 16 * 4);
  last = pad;
  at_before_last = refl;
  at_last = refl;
  before_last_pad = digit-not_pad (y % 16 * 4);
  last_pad = refl;
}
text-Ends x (y ∷ z ∷ []) = record {
  before_last = digit (y % 16 * 4 + z / 64 % 4);
  last = digit (z % 64);
  at_before_last = refl;
  at_last = refl;
  before_last_pad = digit-not_pad (y % 16 * 4 + z / 64 % 4);
  last_pad = digit-not_pad (z % 64);
}
text-Ends x (y ∷ z ∷ u ∷ rest) =
    let r = text-Ends u rest in
    let t = text (u ∷ rest) in
    let le : 2 ≤ length t = omega (arith, length-text (u ∷ rest)) in
    let e : length (x ∷ y ∷ z ∷ u ∷ rest) % 3 ≡ length (u ∷ rest) % 3 = omega arith in
    record {
      before_last = r.before_last;
      last = r.last;
      at_before_last =
          get_elem?-behind_four _ _ _ _ t (length t - 2) (length (text (x ∷ y ∷ z ∷ u ∷ rest)) - 2)
            (omega (arith, le))
          ∙ r.at_before_last;
      at_last =
          get_elem?-behind_four _ _ _ _ t (length t - 1) (length (text (x ∷ y ∷ z ∷ u ∷ rest)) - 1)
            (omega (arith, le))
          ∙ r.at_last;
      before_last_pad = r.before_last_pad ∙ ap (λ k. k == 1) (sym e);
      last_pad = r.last_pad ∙ ap (λ k. not (k == 0)) (sym e);
    }

sizes :
    (n : ℕ)
    → (if n % 3 == 1
        then (if not (n % 3 == 0) then 4 * ((n + 2) / 3) / 4 * 3 - 1 else 4 * ((n + 2) / 3) / 4 * 3)
          - 1
        else (if not (n % 3 == 0)
            then 4 * ((n + 2) / 3) / 4 * 3 - 1
            else 4 * ((n + 2) / 3) / 4 * 3))
      ≡ n
sizes n = ground arith

-- `outputLength` after the two tests
pub text-size :
    (n c d : ℕ)
    → (c == pad) ≡ (n % 3 == 1)
    → (d == pad) ≡ not (n % 3 == 0)
    → (if c == pad
        then (if d == pad then 4 * ((n + 2) / 3) / 4 * 3 - 1 else 4 * ((n + 2) / 3) / 4 * 3) - 1
        else (if d == pad then 4 * ((n + 2) / 3) / 4 * 3 - 1 else 4 * ((n + 2) / 3) / 4 * 3))
      ≡ n
text-size n c d ec ed = rw ec (rw ed (sizes n))
