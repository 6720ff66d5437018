-- ===== src/Json/Codes.antt =====
-- How one character is escaped and read again.
use libspl.Common.{
  ℕ, ◌<◌, ◌≡◌, refl, ap, Bool, true, false, ◌&&◌, ◌||◌, List, [], ◌∷◌, Run, ok, throw, fault, ◌==◌,
  if◌then◌else◌, passes, passed, arith,
}
use libspl.Json.Text.{quote, backslash, unescaped_table, escaped_table, at_char, escape_char}

-- the letter behind the backslash, 0 for a character that stands for itself
abbrev pub letter : ℕ → ℕ
letter c =
    if c == 8
    then 98
    else if c == 9
    then 116
    else if c == 10
    then 110
    else if c == 12
    then 102
    else if c == 13
    then 114
    else if c == 34
    then 34
    else if c == 92
    then 92
    else 0

-- the JSON code of a character
abbrev pub code : ℕ → List ℕ
code c = if letter c == 0 then c ∷ [] else backslash ∷ letter c ∷ []

abbrev same_list : List ℕ → List ℕ → Bool
same_list [] [] = true
same_list (x ∷ xs) (y ∷ ys) = (x == y) && same_list xs ys
same_list xs ys = false

same_list-≡ : (xs ys : List ℕ) → same_list xs ys ≡ true → xs ≡ ys
same_list-≡ [] [] h = refl
same_list-≡ [] (y ∷ ys) h = absurd cc
same_list-≡ (x ∷ xs) [] h = absurd cc
same_list-≡ (x ∷ xs) (y ∷ ys) h =
    let e : x ≡ y = ground arith in let e' = same_list-≡ xs ys (ground arith) in rw e (rw e' refl)

abbrev writes : Run (List ℕ) → List ℕ → Bool
writes (ok xs) ys = same_list xs ys
writes r ys = false

writes-≡ : (r : Run (List ℕ)) (ys : List ℕ) → writes r ys ≡ true → r ≡ ok ys
writes-≡ (ok xs) ys h = ap ok (same_list-≡ xs ys h)
writes-≡ (throw e) ys h = absurd cc
writes-≡ fault ys h = absurd cc

abbrev reads : Run ℕ → ℕ → Bool
reads (ok a) b = a == b
reads r b = false

reads-≡ : (r : Run ℕ) (b : ℕ) → reads r b ≡ true → r ≡ ok b
reads-≡ (ok a) b h = ap ok (ground arith)
reads-≡ (throw e) b h = absurd cc
reads-≡ fault b h = absurd cc

abbrev agrees : ℕ → Bool
agrees c =
    writes (escape_char c) (code c)
    && ((letter c == 0) || reads (at_char unescaped_table (letter c)) c)

all-agree : passes agrees 128 ≡ true
unfolding passes escape_char at_char escaped_table unescaped_table
all-agree = refl

pub escape_char-code : (c : ℕ) → c < 128 → escape_char c ≡ ok (code c)
escape_char-code c lt =
    let h = passed agrees 128 c lt all-agree in writes-≡ (escape_char c) (code c) (ground arith)

pub read-letter :
    (c : ℕ) → c < 128 → (letter c == 0) ≡ false → at_char unescaped_table (letter c) ≡ ok c
read-letter c lt n =
    let h = passed agrees 128 c lt all-agree in
    reads-≡ (at_char unescaped_table (letter c)) c (ground arith)

-- a character that stands for itself is no quote and no backslash
pub plain : (c : ℕ) → (letter c == 0) ≡ true → ((c == quote) ≡ false) × ((c == backslash) ≡ false)
plain c h = (ground arith, ground arith)
