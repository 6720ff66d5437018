-- ===== src/Serialization/Output.antt =====
-- `OutputStreamSerializer` of include/serialization.h. What `_write` writes to is a parameter `D`, and
-- `_write` an argument of the methods that call it. Byte counts do not overflow.
use libspl.Common.{
  ℕ, zero, suc, ◌+◌, ◌-◌, ◌%◌, Bool, true, ◌&&◌, Option, none, some, List, [], ◌++◌, Run, ok, fault,
  leb, ltb, ◌==◌, if◌then◌else◌, ◌>>=◌, length, take, drop,
}

pub data SerializationLevel : Type 0 where
  plain compacted compressed compressed_2 : SerializationLevel

-- `buf` holds the bytes from `_buf` to `_cursor`; `locked_cursor` is an offset from `_buf`
pub record Output (D : Type 0) : Type 0 where
  pub sink : D
  pub buf : List ℕ
  pub buf_size : ℕ
  pub locked_cursor : Option ℕ
  pub remaining : ℕ
  pub level : SerializationLevel
  pub total_byte_count : ℕ
  pub alignment : ℕ

module _ {D : Type 0} where
  abbrev pub new_output : D → ℕ → Output D
  new_output d size = record {
    sink = d;
    buf = [];
    buf_size = size;
    locked_cursor = none;
    remaining = size;
    level = plain;
    total_byte_count = 0;
    alignment = 1;
  }

  abbrev pub locked : Output D → ℕ
  locked o = elim o.locked_cursor [ none ↦ 0 | some l ↦ length o.buf - l ]

  abbrev pub lock : Output D → Output D
  lock o = record o { locked_cursor = some (length o.buf) }

  abbrev pub commit : Output D → Output D
  commit o = record o { locked_cursor = none }

  abbrev pub set_level : Output D → SerializationLevel → Output D
  set_level o l = record o { level = l }

  -- `memcpy(_cursor, data, l)` with the steps of `_cursor` and `_remaining`; undefined where the bytes
  -- do not fit
  unfoldable pub copy : Output D → List ℕ → Run (Output D)
  copy o bs =
      if leb (length bs) o.remaining
      then ok (record o { buf = o.buf ++ bs; remaining = o.remaining - length bs })
      else fault

  abbrev pub count : ℕ → Output D → Output D
  count n o = record o { total_byte_count = o.total_byte_count + n }

  module _ (write : D → List ℕ → Run D) where
    unfoldable pub flush : Output D → Run (Output D)
    flush o =
        let len = length o.buf - locked o in
        if ltb 0 len
        then (write o.sink (take len o.buf) >>= λ d. ok record o {
          sink = d;
          buf = drop len o.buf;
          locked_cursor = elim o.locked_cursor [ none ↦ none | some l ↦ some 0 ];
          remaining = o.buf_size - locked o;
        })
        else ok o

    unfoldable pub fit : Output D → ℕ → Run (Output D × Bool)
    fit o sz =
        if leb sz o.remaining
        then ok (o, true)
        else if length o.buf % o.alignment == 0
        then (flush o >>= λ o'. ok (o', leb sz o'.remaining))
        else ok (o, leb sz o.remaining)

    -- `_put(data, len)` with `data` at the address `addr`, on fuel
    unfoldable pub put_loop : ℕ → Output D → ℕ → List ℕ → Run (Output D)
    put_loop zero o addr bs = fault
    put_loop (suc f) o addr bs =
        if length bs == 0
        then ok o
        else if length o.buf % o.alignment == 0
            && (addr % o.alignment == 0)
            && (length bs % o.alignment == 0)
        then ((if ltb 0 (length o.buf) then flush o else ok o) >>= λ o'.
            write o'.sink bs >>= λ d. ok record o' { sink = d })
        else ((if o.remaining == 0 then flush o else ok o) >>= λ o'.
            let l = if leb o'.remaining (length bs) then o'.remaining else length bs in
            copy o' (take l bs) >>= λ o''. put_loop f o'' (addr + l) (drop l bs))

    unfoldable pub put : Output D → ℕ → List ℕ → Run (Output D)
    put o addr bs = fit o (length bs) >>= λ r.
        let (o', fits) = r in
        (if fits then copy o' bs else put_loop (suc (length bs)) o' addr bs) >>= λ o''.
        ok (count (length bs) o'')
