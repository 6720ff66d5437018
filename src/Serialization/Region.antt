-- ===== src/Serialization/Region.antt =====
-- `OutputRandomAccessSerializer` of include/serialization.h: `_write` over `_writeAt` and `_getLength`,
-- which are arguments, and the positions. Positions and displacements do not overflow.
use libspl.Common.{
  ℕ, ◌+◌, ◌-◌, ◌*◌, ◌/◌, ◌%◌, Option, none, some, List, Run, ok, throw, out_of_range, ltb, ◌==◌,
  if◌then◌else◌, ◌>>=◌, length,
}
use libspl.Serialization.Output.{Output, new_output, flush}

-- `length_` is none where `_length` is -1
pub record Region (S : Type 0) : Type 0 where
  pub store : S
  pub position : ℕ
  pub length_ : Option ℕ

-- `ssize_t`
pub data Displacement : Type 0 where
  forward backward : ℕ → Displacement

module _ {S : Type 0} (write_at : S → ℕ → List ℕ → Run S) (get_length : S → ℕ) where
  -- `length()`, which keeps what `_getLength()` returned
  abbrev pub known : Region S → Region S
  known r = elim r.length_ [ none ↦ record r { length_ = some (get_length r.store) } | some n ↦ r ]

  abbrev pub region_length : Region S → ℕ
  region_length r = elim r.length_ [ none ↦ get_length r.store | some n ↦ n ]

  unfoldable pub write : Region S → List ℕ → Run (Region S)
  write r bs =
      if ltb (region_length r) (r.position + length bs)
      then throw out_of_range
      else (write_at r.store r.position bs >>= λ s.
          ok (record (known r) { store = s; position = r.position + length bs }))

  abbrev pub new_region_output : S → ℕ → Output (Region S)
  new_region_output s size = new_output (record { store = s; position = 0; length_ = none }) size

  abbrev pub tell : Output (Region S) → ℕ
  tell o = o.sink.position + length o.buf

  abbrev pub remaining : Output (Region S) → ℕ
  remaining o = region_length o.sink - tell o

  unfoldable pub seek_to : Output (Region S) → ℕ → Run (Output (Region S))
  seek_to o position =
      if position == o.sink.position
      then ok o
      else if ltb (region_length o.sink) position
      then throw out_of_range
      else (flush write (record o { sink = known o.sink }) >>= λ o'.
          ok (record o' { sink = record o'.sink { position = position } }))

  unfoldable pub seek : Output (Region S) → Displacement → Run (Output (Region S))
  seek o (forward n) = seek_to o (o.sink.position + n)
  seek o (backward n) =
      if ltb o.sink.position n then throw out_of_range else seek_to o (o.sink.position - n)

  unfoldable pub align_forward : Output (Region S) → Run (Output (Region S))
  align_forward o =
      let p = o.sink.position in
      if p % o.alignment == 0 then ok o else seek_to o (p / o.alignment * o.alignment + o.alignment)

  unfoldable pub align_backward : Output (Region S) → Run (Output (Region S))
  align_backward o =
      let p = o.sink.position in
      if p % o.alignment == 0 then ok o else seek_to o (p / o.alignment * o.alignment)
