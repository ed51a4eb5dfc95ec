-- ===== src/Uri.antt =====
-- src/uri.c: the parts of a URI as strings on the heap.
pub mod Owned
pub mod Delete
pub mod Faults
mod Tests
use fsfuse.Base.{
  ℕ, Bool, true, false, Option, none, some, List, [], ◌∷◌, ◌==◌, if◌then◌else◌, Run, fault, ok,
  ◌>>=◌,
}
use fsfuse.Base.Bytes.{Str, chars}
use fsfuse.Base.Heap.{Heap, Pointer, literal, address, strdup, text, free}
use fsfuse.StringBuffer.{
  StringBuffer, string_buffer_new, string_buffer_append, string_buffer_commit,
}

-- The seven members of struct _uri_t.
pub data Field : Type 0 where
  scheme userinfo host port path query fragment : Field

pub index : Field → ℕ
index scheme = 0
index userinfo = 1
index host = 2
index port = 3
index path = 4
index query = 5
index fragment = 6

-- The address that each member points to, none where it is NULL.
abbrev pub Uri : Type 0
Uri = Field → Option ℕ

pub uri_new : Uri
uri_new field = none

pub release : Option ℕ → Heap → Run Heap
release none h = ok h
release (some p) h = free (address p) h

pub set_member : Field → ℕ → Uri → Uri
unfolding index
set_member field p uri g = if index g == index field then some p else uri g

-- uri_set_scheme and the six calls like it.
pub uri_set : Field → Str → Uri → Heap → Run (Uri × Heap)
unfolding release set_member
uri_set field value uri h = do
  h' ← release (uri field) h
  let fresh = strdup value h'
  ok (set_member field fresh.0 uri, fresh.1)

pub release_all : List Field → Uri → Heap → Run Heap
unfolding release
release_all [] uri h = ok h
release_all (field ∷ fields) uri h = do h' ← release (uri field) h; release_all fields uri h'

abbrev all_fields : List Field
all_fields = scheme ∷ userinfo ∷ host ∷ port ∷ path ∷ query ∷ fragment ∷ []

pub uri_delete : Uri → Heap → Run Heap
unfolding release_all
uri_delete uri h = release_all all_fields uri h

-- strdup(NULL) is undefined.
copied : Option ℕ → Heap → Run (ℕ × Heap)
copied none h = fault
copied (some p) h = do value ← text (address p) h; ok (strdup value h)

-- uri_get_scheme and the calls like it.
pub uri_get_member : Field → Uri → Heap → Run (ℕ × Heap)
unfolding copied
uri_get_member field uri h = copied (uri field) h

abbrev State : Type 0
State = StringBuffer × Heap

append : Pointer → State → Run State
append string s = string_buffer_append string s.0 s.1

-- A member, if it is set, with a literal before or behind it.
with_before : Str → Option ℕ → State → Run State
unfolding append
with_before mark none s = ok s
with_before mark (some p) s = append (literal mark) s >>= append (address p)

with_behind : Str → Option ℕ → State → Run State
unfolding append
with_behind mark none s = ok s
with_behind mark (some p) s = append (address p) s >>= append (literal mark)

alone : Option ℕ → State → Run State
unfolding append
alone none s = ok s
alone (some p) s = append (address p) s

-- assert, then the path.
required : Option ℕ → State → Run State
unfolding append
required none s = fault
required (some p) s = append (address p) s

-- The string that a committed block is.
before_nul : List ℕ → Str
before_nul [] = []
before_nul (c ∷ bytes) = if c == 0 then [] else c ∷ before_nul bytes

commit : State → Run (ℕ × Heap)
unfolding before_nul
commit s = do bytes ← string_buffer_commit s.0; ok (strdup (before_nul bytes) s.1)

pub uri_get_authority : Uri → Heap → Run (ℕ × Heap)
unfolding with_before with_behind alone commit
uri_get_authority uri h = do
  sb ← string_buffer_new
  s1 ← with_behind (chars "@") (uri userinfo) (sb, h)
  s2 ← alone (uri host) s1
  s3 ← with_before (chars ":") (uri port) s2
  commit s3

-- string_buffer_commit never gives NULL, so the authority is always appended. Both that and the
-- call after it free the block.
pub uri_get : Uri → Heap → Run (ℕ × Heap)
unfolding with_before with_behind required append commit
uri_get uri h = do
  sb ← string_buffer_new
  s1 ← with_behind (chars ":") (uri scheme) (sb, h)
  auth ← uri_get_authority uri s1.1
  s2 ← append (literal (chars "//")) (s1.0, auth.1)
  s3 ← append (address auth.0) s2
  h4 ← free (address auth.0) s3.1
  s5 ← required (uri path) (s3.0, h4)
  s6 ← with_before (chars "?") (uri query) s5
  s7 ← with_before (chars "#") (uri fragment) s6
  commit s7
