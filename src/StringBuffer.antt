-- ===== src/StringBuffer.antt =====
-- src/string_buffer.c: text in a growing block, always ended by a NUL.
pub mod Chars
pub mod Contents
mod Tests
use fsfuse.Base.{
  ℕ, zero, suc, ◌+◌, ◌-◌, ◌^◌, ◌&&◌, Bool, true, false, Option, none, some, List, [], ◌∷◌, ltb, leb,
  ◌==◌, if◌then◌else◌, length, take, Run, fault, ok, ◌>>=◌, ◌>>◌, or_fault, check,
}
use fsfuse.Base.Bytes.{Str}
use fsfuse.Base.Heap.{Heap, Pointer, text, free}

-- The bytes of an allocation. A byte that was never written is none.
abbrev pub Cells : Type 0
Cells = ℕ → Option ℕ

-- struct _string_buffer_t
pub record StringBuffer : Type 0 where
  pub capacity : ℕ
  pub length : ℕ
  pub s : Cells

pub write : ℕ → ℕ → Cells → Cells
write i c m j = if j == i then some c else m j

-- strcpy to an offset of an allocation of `cap` bytes.
pub strcpy : ℕ → ℕ → Str → Cells → Run Cells
strcpy cap i [] m = if ltb i cap then ok (write i 0 m) else fault
strcpy cap i (c ∷ s) m =
    let rest = strcpy cap (i + 1) s (write i c m) in if ltb i cap then rest else fault

-- `n` bytes from an offset on, as memcpy reads them.
pub read : ℕ → ℕ → ℕ → Cells → Run (List ℕ)
read cap zero i m = ok []
read cap (suc n) i m = do
  c ← (if ltb i cap then or_fault (m i) else fault)
  rest ← read cap n (i + 1) m
  ok (c ∷ rest)

unwritten : Cells
unwritten i = none

-- The argument's own text; both callers then free it.
from_text : Str → Run StringBuffer
from_text string = do
  m ← strcpy (length string + 1) 0 string unwritten
  ok (record { capacity = length string + 1; length = length string; s = m })

pub string_buffer_from_chars : Pointer → Heap → Run (StringBuffer × Heap)
unfolding from_text unwritten strcpy write
string_buffer_from_chars string h = do
  chars ← text string h
  sb ← from_text chars
  h' ← free string h
  ok (sb, h')

pub string_buffer_new : Run StringBuffer
unfolding from_text
string_buffer_new = from_text []

-- realloc keeps what fits of the old cells.
pub string_buffer_ensure_capacity : ℕ → StringBuffer → StringBuffer
string_buffer_ensure_capacity cap sb =
    if ltb sb.capacity (cap + 1) then record sb { capacity = cap + 1 } else sb

append_text : Str → StringBuffer → Run StringBuffer
unfolding string_buffer_ensure_capacity strcpy
append_text chars sb =
    let grown = string_buffer_ensure_capacity (sb.length + length chars) sb in
    do
      m ← strcpy grown.capacity sb.length chars grown.s
      ok (record grown { length = sb.length + length chars; s = m })

pub string_buffer_append : Pointer → StringBuffer → Heap → Run (StringBuffer × Heap)
unfolding append_text
string_buffer_append string sb h = do
  chars ← text string h
  sb' ← append_text chars sb
  h' ← free string h
  ok (sb', h')

-- vsnprintf of a formatted text: at most `cap` bytes with the NUL.
pub vsnprintf : ℕ → Str → Cells → Run Cells
unfolding strcpy
vsnprintf zero output m = ok m
vsnprintf (suc n) output m = strcpy (suc n) 0 (take n output) m

-- `output` is what the format and its arguments come to. Where its length is no int, vsnprintf gives a
-- negative number, and the assert on it fails.
pub string_buffer_printf : Str → StringBuffer → Run StringBuffer
unfolding vsnprintf string_buffer_ensure_capacity
string_buffer_printf output sb = do
  m ← vsnprintf sb.capacity output sb.s
  check (ltb (length output) (2 ^ 31))
  if leb sb.capacity (length output)
      then (do
        let grown = string_buffer_ensure_capacity (length output) (record sb { s = m })
        again ← vsnprintf grown.capacity output grown.s
        check (ltb (length output) (2 ^ 31) && ltb (length output) grown.capacity)
            >> ok (record grown { length = length output; s = again }))
      else ok (record sb { length = length output; s = m })

-- The bytes of the new block.
pub string_buffer_commit : StringBuffer → Run (List ℕ)
unfolding read
string_buffer_commit sb = read sb.capacity (sb.length + 1) 0 sb.s
