-- ===== src/Serialization/Input.antt =====
-- `InputStreamSerializer` of include/serialization.h. What `_read` reads from is a parameter `D`, and
-- `_read`, which takes the least and the greatest number of bytes, an argument.
use libspl.Common.{
  ℕ, zero, suc, ◌+◌, ◌-◌, ◌%◌, ◌&&◌, Option, none, some, List, [], ◌++◌, Run, ok, fault, leb, ◌==◌,
  if◌then◌else◌, ◌>>=◌, length, take, drop,
}
use libspl.Serialization.Output.{SerializationLevel, plain}

-- `buf` holds the `_available` bytes from `_cursor` on
pub record Input (D : Type 0) : Type 0 where
  pub source : D
  pub buf : List ℕ
  pub buf_size : ℕ
  pub level : SerializationLevel
  pub total_byte_count : ℕ
  pub alignment : ℕ

module _ {D : Type 0} where
  abbrev pub new_input : D → ℕ → Input D
  new_input d size = record {
    source = d;
    buf = [];
    buf_size = size;
    level = plain;
    total_byte_count = 0;
    alignment = 1;
  }

  abbrev pub available : Input D → ℕ
  available i = length i.buf

  abbrev pub empty_buffer : Input D → Input D
  empty_buffer i = record i { buf = [] }

  abbrev pub set_level : Input D → SerializationLevel → Input D
  set_level i l = record i { level = l }

  -- `memcpy` from `_cursor` with the steps of `_cursor` and `_available`
  abbrev pub advance : Input D → ℕ → Input D
  advance i l = record i { buf = drop l i.buf }

  abbrev pub peek : Input D → ℕ → Option (List ℕ)
  peek i len = if leb len (available i) then some (take len i.buf) else none

  module _ (read : D → ℕ → ℕ → Run (D × List ℕ)) where
    unfoldable pub fill_buffer : Input D → ℕ → Run (Input D)
    fill_buffer i min_len = read i.source min_len i.buf_size >>= λ r.
        ok record i { source = r.0; buf = r.1; total_byte_count = i.total_byte_count + length r.1 }

    -- `_get(data, len)` with `data` at the address `addr`, on fuel: the bytes that it writes to `data`
    unfoldable pub get_loop : ℕ → Input D → ℕ → ℕ → Run (Input D × List ℕ)
    get_loop zero i addr len = fault
    get_loop (suc f) i addr len =
        if len == 0
        then ok (i, [])
        else if leb i.buf_size len
            && (available i == 0)
            && (addr % i.alignment == 0)
            && (len % i.alignment == 0)
        then (read i.source len len >>= λ r.
            ok (record i { source = r.0; total_byte_count = i.total_byte_count + len }, r.1))
        else ((if available i == 0 then fill_buffer i 1 else ok i) >>= λ i'.
            let l = if leb (available i') len then available i' else len in
            get_loop f (advance i' l) (addr + l) (len - l) >>= λ r. ok (r.0, take l i'.buf ++ r.1))

    unfoldable pub get : Input D → ℕ → ℕ → Run (Input D × List ℕ)
    get i addr len =
        if leb len (available i)
        then ok (advance i len, take len i.buf)
        else get_loop (suc len) i addr len
