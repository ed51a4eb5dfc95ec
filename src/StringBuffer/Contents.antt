-- ===== src/StringBuffer/Contents.antt =====
-- src/string_buffer.c against the text that a buffer holds.
use fsfuse.Base.{
  ℕ, zero, suc, ◌+◌, ◌^◌, ◌≤◌, ◌<◌, ◌≡◌, refl, sym, ap, ◌∙◌, inl, inr, some, [], ◌∷◌, ◌++◌, ltb,
  leb, length, length-append, take, length-take_le, take_all, Returns-fault, fault, Returns,
  returns, Returns-bind, Returns-map, arith, lt→ltb, Bool-cases,
}
use fsfuse.Base.Bytes.{Str}
use fsfuse.Base.Heap.{Heap, address, literal, text, free, Freed, free_allocated, text_allocated}
use fsfuse.StringBuffer.{
  Cells, StringBuffer, strcpy, from_text, append_text, string_buffer_new, string_buffer_from_chars,
  string_buffer_ensure_capacity, string_buffer_append, vsnprintf, string_buffer_printf,
  string_buffer_commit,
}
use fsfuse.StringBuffer.Chars.{
  Chars, Chars-of_Kept, Chars-append, at_offset, Copied, strcpy-Copied, read-Chars,
}

-- The buffer holds a text: with its NUL it lies within the allocation.
pub record Holds (content : Str) (sb : StringBuffer) : Type 0 where
  pub length : sb.length ≡ length content
  pub room : sb.length < sb.capacity
  pub chars : Chars sb.s 0 content
  pub nul : sb.s sb.length ≡ some 0

from_text-Holds : (string : Str) → Returns (Holds string) (from_text string)
unfolding from_text
from_text-Holds string =
    Returns-bind (strcpy-Copied (length string + 1) 0 string _ (omega arith)) (λ m c.
      returns (record {
        length = refl;
        room = omega arith;
        chars = c.chars;
        nul = ap m (omega arith) ∙ c.nul;
      }))

pub string_buffer_new-Holds : Returns (Holds []) string_buffer_new
unfolding string_buffer_new
string_buffer_new-Holds = from_text-Holds []

-- What a call leaves that takes over a string at an address.
pub record Appended (content : Str) (p : ℕ) (h : Heap) (r : StringBuffer × Heap) : Type 0 where
  pub buffer : Holds content r.0
  pub heap : Freed p h r.1

-- Given a string at an allocated address, string_buffer_from_chars ends with a buffer that holds
-- its text, and has freed the string.
pub string_buffer_from_chars-Appended :
    (string : Str) (p : ℕ) (h : Heap)
    → h.block p ≡ some string
    → Returns (Appended string p h) (string_buffer_from_chars (address p) h)
unfolding string_buffer_from_chars
string_buffer_from_chars-Appended string p h e = rw (text_allocated p h string e) (
    Returns-bind (from_text-Holds string) (λ sb holds.
      Returns-bind (free_allocated p h e)
        (λ h' freed. returns (record { buffer = holds; heap = freed }))))

-- Growth keeps the text and gives the room asked for.
pub record Grown (cap : ℕ) (sb sb' : StringBuffer) : Type 0 where
  pub length : sb'.length ≡ sb.length
  pub s : sb'.s ≡ sb.s
  pub room : cap < sb'.capacity
  pub no_less : sb.capacity ≤ sb'.capacity

string_buffer_ensure_capacity-Grown :
    (cap : ℕ) (sb : StringBuffer) → Grown cap sb (string_buffer_ensure_capacity cap sb)
unfolding string_buffer_ensure_capacity
string_buffer_ensure_capacity-Grown cap sb = elim (Bool-cases (ltb sb.capacity (cap + 1))) [
  | inl h ↦ rw h (record { length = refl; s = refl; room = omega arith; no_less = ground arith })
  | inr h ↦ rw h (record { length = refl; s = refl; room = ground arith; no_less = omega arith })
]

append_text-Holds :
    (content chars : Str) (sb : StringBuffer)
    → Holds content sb
    → Returns (Holds (content ++ chars)) (append_text chars sb)
unfolding append_text
append_text-Holds content chars sb x =
    let g = string_buffer_ensure_capacity-Grown (sb.length + length chars) sb in
    Returns-bind
      (strcpy-Copied (string_buffer_ensure_capacity (sb.length + length chars) sb).capacity
        sb.length chars (string_buffer_ensure_capacity (sb.length + length chars) sb).s
        (omega (arith, g.room)))
      (λ m c. returns (record {
        length = omega (arith, x.length, length-append content chars);
        room = omega (arith, g.room);
        chars =
            Chars-append m 0 content chars
              (Chars-of_Kept sb.s m sb.length 0 content (omega (arith, x.length))
                (λ j lt. c.kept j lt ∙ ap (λ f. f j) g.s) x.chars)
              (at_offset m chars (omega (arith, x.length)) c.chars);
        nul = c.nul;
      }))

-- Given a buffer that holds a text and a string at an allocated address, string_buffer_append ends
-- with the string's text behind the buffer's, and has freed the string.
pub string_buffer_append-Appended :
    (content chars : Str) (p : ℕ) (sb : StringBuffer) (h : Heap)
    → Holds content sb
    → h.block p ≡ some chars
    → Returns (Appended (content ++ chars) p h) (string_buffer_append (address p) sb h)
unfolding string_buffer_append
string_buffer_append-Appended content chars p sb h x e = rw (text_allocated p h chars e) (
    Returns-bind (append_text-Holds content chars sb x) (λ sb' holds.
      Returns-bind (free_allocated p h e)
        (λ h' freed. returns (record { buffer = holds; heap = freed }))))

-- A literal handed to string_buffer_append is freed, which is undefined.
pub string_buffer_append_literal :
    (content chars : Str) (sb : StringBuffer) (h : Heap)
    → Holds content sb
    → string_buffer_append (literal chars) sb h ≡ fault
unfolding string_buffer_append text free
string_buffer_append_literal content chars sb h x =
    Returns-fault (append_text-Holds content chars sb x) (λ sb' holds. refl)

strcpy_all :
    (n : ℕ) (output : Str) (m : Cells)
    → length output ≤ n
    → Returns (Copied 0 output m) (strcpy (suc n) 0 (take n output) m)
strcpy_all n output m le =
    rw (take_all n output le) (strcpy-Copied (suc n) 0 output m (omega (arith, le)))

-- A text that fits is written whole.
vsnprintf_fits :
    (cap : ℕ) (output : Str) (m : Cells)
    → length output < cap
    → Returns (Copied 0 output m) (vsnprintf cap output m)
unfolding vsnprintf
vsnprintf_fits zero output m lt = ground arith
vsnprintf_fits (suc n) output m lt = strcpy_all n output m (omega (arith, lt))

vsnprintf-Returns :
    (cap : ℕ) (output : Str) (m : Cells) → Returns (λ m'. Unit {0}) (vsnprintf cap output m)
unfolding vsnprintf
vsnprintf-Returns zero output m = returns tt
vsnprintf-Returns (suc n) output m =
    Returns-map (strcpy-Copied (suc n) 0 (take n output) m (omega (arith, length-take_le n output)))
      (λ m' c. tt)

written :
    {output : Str} {before m : Cells} {cap : ℕ}
    → Copied 0 output before m
    → length output < cap
    → Holds output (record { capacity = cap; length = length output; s = m })
written {output} {before} {m} c room = record {
  length = refl;
  room = room;
  chars = c.chars;
  nul = ap m (omega arith) ∙ c.nul;
}

-- Given an output whose length is an int, string_buffer_printf ends, and the buffer then holds the
-- output in place of what it held, however little room it had.
pub string_buffer_printf-Holds :
    (content output : Str) (sb : StringBuffer)
    → Holds content sb
    → length output < 2 ^ 31
    → Returns (Holds output) (string_buffer_printf output sb)
unfolding string_buffer_printf
string_buffer_printf-Holds content output sb x lt =
    elim (Bool-cases (leb sb.capacity (length output))) [
      | inl h ↦ rw h (
          Returns-bind (vsnprintf-Returns sb.capacity output sb.s) (λ m done. rw (lt→ltb _ _ lt) (
            let g = string_buffer_ensure_capacity-Grown (length output) (record sb { s = m }) in
            Returns-bind (vsnprintf_fits _ output _ g.room)
              (λ again c. rw (lt→ltb _ _ g.room) (returns (written c g.room))))))
      | inr h ↦ rw h (
          Returns-bind (vsnprintf_fits sb.capacity output sb.s (ground arith))
            (λ m c. rw (lt→ltb _ _ lt) (returns (written c (ground arith)))))
    ]

-- string_buffer_commit on a buffer that holds a text gives a block of the text and its NUL.
pub string_buffer_commit_lem :
    (content : Str) (sb : StringBuffer)
    → Holds content sb
    → Returns (λ block. block ≡ content ++ (0 ∷ [])) (string_buffer_commit sb)
unfolding string_buffer_commit Chars
string_buffer_commit_lem content sb x =
    rw (ap (λ n. n + 1) x.length ∙ sym (length-append content (0 ∷ []))) (
      read-Chars sb.capacity (content ++ (0 ∷ [])) 0 sb.s
        (omega (arith, length-append content (0 ∷ []), x.length, x.room))
        (Chars-append sb.s 0 content (0 ∷ []) x.chars
          (ap sb.s (omega (arith, x.length)) ∙ x.nul, tt)))
