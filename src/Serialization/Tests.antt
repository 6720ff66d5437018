-- ===== src/Serialization/Tests.antt =====
-- Runs of the serializers on a device that is a list of bytes, and instances of their theorems.
use mathlib.Core.Path.{◌≡◌, refl}
use libspl.Common.{
  ℕ, suc, zero, ap, sym, ◌∙◌, take-drop, Bool-cases, ◌+◌, ◌≤◌, ◌<◌, some, List, [], ◌∷◌, ◌++◌, Run,
  ok, throw, out_of_range, ltb, if◌then◌else◌, ◌>>=◌, ◌==◌, length, take, drop, arith, Returns, inl,
  inr, ◌⊎◌,
}
use libspl.Serialization.Output.{Output, new_output, lock, copy, flush, fit, put_loop, put}
use libspl.Serialization.Written.{IsSink, IsOutput}
use libspl.Serialization.Sequences.{Blocks, bytes_of, put_all, put_all-flush}
use libspl.Serialization.Locks.{Holds, put-Holds, Overtaken, put-Overtaken}
use libspl.Serialization.Region.{
  Region, write, new_region_output, tell, seek_to, seek, align_forward, align_backward,
}
use libspl.Serialization.Positions.{span, IsStore, put_all-region}
use libspl.Serialization.Input.{Input, new_input, fill_buffer, get_loop, get}
use libspl.Serialization.Gets.{IsSource}
use libspl.Serialization.InputRegion
use libspl.Serialization.InputRegion.{InputRegion, size_minus, read, new_region_input}
use libspl.Serialization.RoundTrip.{contents, get_all, get_all-put_all}
use libspl.Serialization.InputPositions.{IsReader, seek_to-get}

program : Unit {0}
unfolding copy flush fit put_loop put put_all write seek_to seek align_forward align_backward
    fill_buffer get_loop get size_minus read InputRegion.tell InputRegion.remaining
    InputRegion.seek_to InputRegion.seek get_all
program = tt

-- a device that is the list of the bytes that were written
abbrev append_to : List ℕ → List ℕ → Run (List ℕ)
append_to d bs = ok (d ++ bs)

append_to-IsSink : IsSink append_to (λ d. d)
append_to-IsSink d bs = refl

abbrev ten : List ℕ
ten = 1 ∷ 2 ∷ 3 ∷ 4 ∷ 5 ∷ 6 ∷ 7 ∷ 8 ∷ 9 ∷ 10 ∷ []

abbrev blocks : Blocks
blocks = (16, 1 ∷ 2 ∷ 3 ∷ []) ∷ (32, ten) ∷ (7, 4 ∷ []) ∷ []

-- four bytes of buffer
abbrev out : Output (List ℕ)
out = new_output [] 4

out-IsOutput : IsOutput out
out-IsOutput = record { fits = refl; lock_le = λ l q. absurd cc }

put_all_runs :
    ◌>>=◌ {C = List ℕ × List ℕ} (put_all append_to out blocks) (λ o. ok (o.sink, o.buf))
    ≡ ok (1 ∷ 2 ∷ 3 ∷ [] ++ ten, 4 ∷ [])
unfolding program
put_all_runs = refl

-- 9 is locked, and the ten bytes that are put behind it are written
locked_runs :
    ◌>>=◌ {C = List ℕ × List ℕ}
      (put append_to (lock out) 0 (9 ∷ []) >>= λ o. put append_to o 0 ten)
      (λ o. ok (o.sink, o.buf))
    ≡ ok (ten, 9 ∷ [])
unfolding program
locked_runs = refl

put_all-flush_example :
    Returns
      (λ o'. o'.sink ≡ [] ++ [] ++ bytes_of blocks)
      (put_all append_to out blocks >>= flush append_to)
put_all-flush_example =
    put_all-flush append_to (λ d. d) append_to-IsSink blocks out out-IsOutput refl (omega arith)

abbrev locked_one : Output (List ℕ)
locked_one = record out { buf = 8 ∷ 9 ∷ []; remaining = 2; locked_cursor = some 1 }

locked_one-IsOutput : IsOutput locked_one
locked_one-IsOutput = record { fits = refl; lock_le = λ l q. ground (arith, q) }

put-Holds_example :
    Returns
      (Holds append_to (λ d. d) (1 ∷ 2 ∷ 3 ∷ []) locked_one)
      (put append_to locked_one 0 (1 ∷ 2 ∷ 3 ∷ []))
put-Holds_example =
    put-Holds append_to (λ d. d) append_to-IsSink locked_one 1 0 (1 ∷ 2 ∷ 3 ∷ [])
      locked_one-IsOutput refl refl (omega arith)

put-Overtaken_example :
    Returns (Overtaken append_to (λ d. d) 1 ten locked_one) (put append_to locked_one 0 ten)
put-Overtaken_example =
    put-Overtaken append_to (λ d. d) append_to-IsSink locked_one 1 0 ten locked_one-IsOutput refl
      refl (omega arith)

-- a region of sixteen bytes
abbrev Memory : Type 0
Memory = ℕ → ℕ

unfoldable overlay : Memory → ℕ → List ℕ → Memory
overlay s p [] j = s j
overlay s p (b ∷ bs) j = if j == p then b else overlay s (p + 1) bs j

abbrev write_at : Memory → ℕ → List ℕ → Run Memory
write_at s p bs = ok (overlay s p bs)

overlay-outside :
    (s : Memory) (p : ℕ) (bs : List ℕ) (j : ℕ)
    → (j < p) ⊎ (p + length bs ≤ j)
    → overlay s p bs j ≡ s j
unfolding overlay
overlay-outside s p [] j out_ = refl
overlay-outside s p (b ∷ bs) j out_ =
    let rest = overlay-outside s (p + 1) bs j in ground (arith, rest, out_)

span-above : (f g : Memory) (p n : ℕ) → ((j : ℕ) → p ≤ j → g j ≡ f j) → span g p n ≡ span f p n
span-above f g p zero same = refl
span-above f g p (suc n) same =
    ap (λ x. x ∷ span g (p + 1) n) (same p (omega arith))
    ∙ ap (λ x. f p ∷ x) (span-above f g (p + 1) n (λ j le. same j (omega (arith, le))))

span-overlay : (s : Memory) (p : ℕ) (bs : List ℕ) → span (overlay s p bs) p (length bs) ≡ bs
unfolding overlay
span-overlay s p [] = refl
span-overlay s p (b ∷ bs) =
    let here : overlay s p (b ∷ bs) p ≡ b = ground arith in
    ap (λ x. x ∷ span (overlay s p (b ∷ bs)) (p + 1) (length bs)) here
    ∙ ap (λ x. b ∷ x)
        (span-above (overlay s (p + 1) bs) (overlay s p (b ∷ bs)) (p + 1) (length bs)
            (λ j le. ground (arith, le))
          ∙ span-overlay s (p + 1) bs)

write_at-IsStore : IsStore (λ s. s) write_at
write_at-IsStore s p bs = (span-overlay s p bs, overlay-outside s p bs)

abbrev sixteen : Memory → ℕ
sixteen s = 16

abbrev blank : Memory
blank j = 0

abbrev region_out : Output (Region Memory)
region_out = new_region_output write_at sixteen blank 4

region_out-IsOutput : IsOutput region_out
region_out-IsOutput = record { fits = refl; lock_le = λ l q. absurd cc }

put_all-region_example :
    Returns
      (λ o'. (span o'.sink.store 0 14 ≡ bytes_of blocks) × (o'.sink.position ≡ 14) × (14 ≤ 16))
      (put_all (write write_at sixteen) region_out blocks >>= flush (write write_at sixteen))
put_all-region_example =
    put_all-region (λ s. s) write_at sixteen write_at-IsStore blank 4 blocks (omega arith)

-- seventeen bytes do not fit into sixteen
beyond_runs :
    (put (write write_at sixteen) region_out 0 (ten ++ ten) >>= flush (write write_at sixteen))
    ≡ throw out_of_range
unfolding program overlay
beyond_runs = refl

-- three bytes are buffered at position 0: `seek_to` 0 leaves `tell` at 3
seek_to_runs :
    ◌>>=◌ {C = ℕ}
      (put (write write_at sixteen) region_out 0 (1 ∷ 2 ∷ 3 ∷ []) >>= λ o.
        seek_to write_at sixteen o 0)
      (λ o. ok (tell write_at sixteen o))
    ≡ ok 3
unfolding program
seek_to_runs = refl

-- a source that is the list of the bytes to come
abbrev next_bytes : List ℕ → ℕ → ℕ → Run (List ℕ × List ℕ)
next_bytes d least most =
    if ltb (length d) least then throw out_of_range else ok (drop most d, take most d)

take-le : (n : ℕ) (xs : List ℕ) → length (take n xs) ≤ n
take-le zero xs = omega arith
take-le (suc n) [] = omega arith
take-le (suc n) (x ∷ xs) = omega (arith, take-le n xs)

take-ge : (n : ℕ) (xs : List ℕ) (m : ℕ) → m ≤ n → m ≤ length xs → m ≤ length (take n xs)
take-ge zero xs m le le' = omega (arith, le)
take-ge (suc n) [] m le le' = omega (arith, le')
take-ge (suc n) (x ∷ xs) zero le le' = omega arith
take-ge (suc n) (x ∷ xs) (suc m) le le' =
    omega (arith, take-ge n xs m (omega (arith, le)) (omega (arith, le')))

next_bytes-IsSource : IsSource next_bytes (λ d. d) (λ d. Unit)
next_bytes-IsSource d least most u le = elim (Bool-cases (ltb (length d) least)) [
  | inl short ↦ rw short tt
  | inr enough ↦
      rw enough (
        sym (take-drop most d),
        take-ge most d least le (ground (arith, enough)),
        take-le most d,
        tt,
      )
]

abbrev in_ : Input (List ℕ)
in_ = new_input ten 4

get_runs :
    ◌>>=◌ {C = List ℕ × ℕ}
      (get next_bytes in_ 0 3 >>= λ r. get next_bytes r.0 0 5)
      (λ r. ok (r.1, r.0.total_byte_count))
    ≡ ok (4 ∷ 5 ∷ 6 ∷ 7 ∷ 8 ∷ [], 8)
unfolding program
get_runs = refl

get_all-put_all_example :
    Returns
      (λ bss. bss ≡ contents blocks)
      (put_all append_to (new_output [] 4) blocks >>= flush append_to >>= λ o.
        get_all next_bytes (new_input o.sink 3) blocks)
get_all-put_all_example =
    get_all-put_all next_bytes (λ d. d) (λ d. Unit) next_bytes-IsSource append_to (λ d. d)
      append_to-IsSink (λ d. d) (λ d. refl) (λ d. tt) blocks [] 4 3 refl (omega arith) (omega arith)

abbrev read_at : Memory → ℕ → ℕ → Run (Memory × List ℕ)
read_at s p n = ok (s, span s p n)

read_at-IsReader : IsReader (λ s. s) read_at
read_at-IsReader s p n = (refl, λ j. refl)

seek_to-get_example :
    Returns
      (λ r. r.1 ≡ 5 ∷ 6 ∷ [])
      (InputRegion.seek_to read_at sixteen (new_region_input read_at sixteen (λ j. j) 4) 5 >>= λ j.
        get (read read_at sixteen) j 0 2)
seek_to-get_example =
    seek_to-get (λ s. s) read_at sixteen read_at-IsReader
      (new_region_input read_at sixteen (λ j. j) 4) 5 0 2 (omega arith)
