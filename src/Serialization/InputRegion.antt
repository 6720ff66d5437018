-- ===== src/Serialization/InputRegion.antt =====
-- `InputRandomAccessSerializer` of include/serialization.h: `_read` over `_readAt` and `_getLength`,
-- which are arguments, and the positions. The difference of two `size_t` wraps in 64 bits.
use libspl.Common.{
  ℕ, ◌+◌, ◌-◌, ◌*◌, ◌/◌, ◌%◌, ◌^◌, Option, none, some, List, Run, ok, throw, out_of_range, ltb, leb,
  ◌==◌, if◌then◌else◌, ◌>>=◌,
}
use libspl.Serialization.Region.{Displacement, forward, backward}
use libspl.Serialization.Input.{Input, new_input, available, empty_buffer}

-- `length_` is none where `_length` is -1
pub record InputRegion (S : Type 0) : Type 0 where
  pub store : S
  pub position : ℕ
  pub length_ : Option ℕ

unfoldable pub size_minus : ℕ → ℕ → ℕ
size_minus a b = if ltb a b then 2 ^ 64 + a - b else a - b

module _ {S : Type 0} (read_at : S → ℕ → ℕ → Run (S × List ℕ)) (get_length : S → ℕ) where
  abbrev pub known : InputRegion S → InputRegion S
  known r = elim r.length_ [ none ↦ record r { length_ = some (get_length r.store) } | some n ↦ r ]

  abbrev pub region_length : InputRegion S → ℕ
  region_length r = elim r.length_ [ none ↦ get_length r.store | some n ↦ n ]

  unfoldable pub read : InputRegion S → ℕ → ℕ → Run (InputRegion S × List ℕ)
  read r min_len max_len =
      let rest = size_minus (region_length r) r.position in
      if ltb rest min_len
      then throw out_of_range
      else (let l = if leb max_len rest then max_len else rest in
          read_at r.store r.position l >>= λ t.
          ok (record (known r) { store = t.0; position = r.position + l }, t.1))

  abbrev pub new_region_input : S → ℕ → Input (InputRegion S)
  new_region_input s size = new_input (record { store = s; position = 0; length_ = none }) size

  unfoldable pub tell : Input (InputRegion S) → ℕ
  tell i = size_minus i.source.position (available i)

  unfoldable pub remaining : Input (InputRegion S) → ℕ
  remaining i = size_minus (region_length i.source) (tell i)

  unfoldable pub seek_to : Input (InputRegion S) → ℕ → Run (Input (InputRegion S))
  seek_to i position =
      if ltb (region_length i.source) position
      then throw out_of_range
      else ok record (empty_buffer i) { source = record (known i.source) { position = position } }

  unfoldable pub seek : Input (InputRegion S) → Displacement → Run (Input (InputRegion S))
  seek i (forward n) = seek_to i (i.source.position + n)
  seek i (backward n) =
      if ltb i.source.position n then throw out_of_range else seek_to i (i.source.position - n)

  unfoldable pub align_forward : Input (InputRegion S) → Run (Input (InputRegion S))
  align_forward i =
      let p = i.source.position in
      if p % i.alignment == 0 then ok i else seek_to i (p / i.alignment * i.alignment + i.alignment)

  unfoldable pub align_backward : Input (InputRegion S) → Run (Input (InputRegion S))
  align_backward i =
      let p = i.source.position in
      if p % i.alignment == 0 then ok i else seek_to i (p / i.alignment * i.alignment)
