-- ===== src/Base64/Bounds.antt =====
-- What `decode` writes stays in the memory that it allocates.
use libspl.Common.{
  ℕ, ◌-◌, ◌*◌, ◌/◌, ◌%◌, ◌≤◌, ◌≡◌, refl, List, [], ◌∷◌, ok, or_fault, Ensures, Ensures-bind, length,
  get_elem?, ◌==◌, subst, Bool-cases, inl, inr, arith, true,
}
use libspl.Base64.Codec.{decoded, decode_loop, decode, drop_pad}

loop-length : (t : List ℕ) → Ensures (λ out. 4 * length out ≡ 3 * length t) (decode_loop t)
unfolding decode_loop
loop-length [] = refl
loop-length (p ∷ []) = tt
loop-length (p ∷ q ∷ []) = tt
loop-length (p ∷ q ∷ r ∷ []) = tt
loop-length (p ∷ q ∷ r ∷ s ∷ rest) = Ensures-bind _ (decoded p) _ λ a ea.
    Ensures-bind _ (decoded q) _ λ b eb. Ensures-bind _ (decoded r) _ λ c ec.
      Ensures-bind _ (decoded s) _ λ d ed. Ensures-bind _ (decode_loop rest) _ λ out eo.
        let h : 4 * length out ≡ 3 * length rest =
          subst (Ensures (λ o. 4 * length o ≡ 3 * length rest)) eo (loop-length rest) in
        omega (arith, h)

drop_pad-le : (t : List ℕ) (i n : ℕ) → Ensures (λ m. m ≤ n) (drop_pad t i n)
unfolding drop_pad
drop_pad-le t i n = Ensures-bind _ (or_fault (get_elem? t i)) _ λ c e. ground arith

size_exact : (n k : ℕ) → (n % 4 == 0) ≡ true → 4 * k ≡ 3 * n → k ≡ n / 4 * 3
size_exact n k e h = ground arith

decode-Ensures :
    (t : List ℕ) → Ensures (λ r. (length r.0 ≡ length t / 4 * 3) × (r.1 ≤ length r.0)) (decode t)
unfolding decode
decode-Ensures t = elim (Bool-cases (length t % 4 == 0)) [
  | inl e ↦ rw e (
      Ensures-bind _ (drop_pad t (length t - 1) (length t / 4 * 3)) _ λ n en.
        Ensures-bind _ (drop_pad t (length t - 2) n) _ λ m em.
          Ensures-bind _ (decode_loop t) _ λ out eo.
            let h = subst (Ensures (λ o. 4 * length o ≡ 3 * length t)) eo (loop-length t) in
            let hn =
              subst (Ensures (λ k. k ≤ length t / 4 * 3)) en
                (drop_pad-le t (length t - 1) (length t / 4 * 3)) in
            let hm = subst (Ensures (λ k. k ≤ n)) em (drop_pad-le t (length t - 2) n) in
            let exact : length out ≡ length t / 4 * 3 = size_exact (length t) (length out) e h in
            (exact, omega (arith, exact, hn, hm)))
  | inr e ↦ rw e tt
]

-- Where `decode` returns, it has written the whole of the buffer of three bytes for each four
-- characters and no more, and `outputLength` does not exceed it.
pub decode-bounds :
    (t out : List ℕ) (m : ℕ)
    → decode t ≡ ok (out, m)
    → (length out ≡ length t / 4 * 3) × (m ≤ length out)
decode-bounds t out m e =
    subst (Ensures (λ r. (length r.0 ≡ length t / 4 * 3) × (r.1 ≤ length r.0))) e (decode-Ensures t)
