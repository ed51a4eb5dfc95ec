-- ===== src/StringBuffer/Tests.antt =====
-- String buffers at concrete texts.
use fsfuse.Base.{◌++◌, none, some, Returns, fault, ◌≡◌, refl, arith, if◌then◌else◌, ◌==◌}
use fsfuse.Base.Bytes.{chars}
use fsfuse.Base.Heap.{Heap, address, literal}
use fsfuse.StringBuffer.{StringBuffer, Cells, string_buffer_append, string_buffer_printf}
use fsfuse.StringBuffer.Contents.{
  Holds, Appended, string_buffer_append-Appended, string_buffer_append_literal,
  string_buffer_printf-Holds,
}
use fsfuse.StringBuffer.Chars.{Chars}

abbrev cells_ab : Cells
cells_ab i =
    if i == 0 then some b'a' else if i == 1 then some b'b' else if i == 2 then some 0 else none

abbrev buffer_ab : StringBuffer
buffer_ab = record { capacity = 3; length = 2; s = cells_ab }

buffer_ab-Holds : Holds (chars "ab") buffer_ab
unfolding Chars
buffer_ab-Holds = record {
  length = refl;
  room = omega arith;
  chars = (refl, (refl, tt));
  nul = refl;
}

abbrev one_string : Heap
one_string = record { next = 1; block = λ p. if p == 0 then some (chars "cde") else none }

string_buffer_append-Appended_example :
    Returns
      (Appended (chars "ab" ++ chars "cde") 0 one_string)
      (string_buffer_append (address 0) buffer_ab one_string)
string_buffer_append-Appended_example =
    string_buffer_append-Appended (chars "ab") (chars "cde") 0 buffer_ab one_string buffer_ab-Holds
      refl

string_buffer_append_literal_example :
    string_buffer_append (literal (chars ":")) buffer_ab one_string ≡ fault
string_buffer_append_literal_example =
    string_buffer_append_literal (chars "ab") (chars ":") buffer_ab one_string buffer_ab-Holds

string_buffer_printf-Holds_example :
    Returns
      (Holds (chars "longer than it was"))
      (string_buffer_printf (chars "longer than it was") buffer_ab)
string_buffer_printf-Holds_example =
    string_buffer_printf-Holds (chars "ab") (chars "longer than it was") buffer_ab buffer_ab-Holds
      (omega arith)
