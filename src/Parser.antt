-- ===== src/Parser.antt =====
-- src/parser/parser_xml.c and src/parser/parser_filelist.c: the events of libxml2 turned into events of
-- tags, attributes and texts, and those into the entries of a directory.
pub mod Events
pub mod Attributes
pub mod FileList
mod Tests
use fsfuse.Base.{
  ℕ, zero, suc, ◌+◌, ◌-◌, ◌*◌, ◌%◌, ◌^◌, Bool, true, false, ◌&&◌, ◌||◌, Option, none, some, List,
  [], ◌∷◌, ◌++◌, ltb, leb, ◌==◌, if◌then◌else◌, min, take, Run, ok, ◌>>=◌, or_fault,
}
use fsfuse.Base.Bytes.{Str, chars, str_eq}
use fsfuse.Base.Int.{ℤ, pos, negsuc}
use fsfuse.Versions.{skip_spaces, signed}

-- A call of libxml2: the attributes by local name and value; the characters by their number and the
-- bytes of the buffer from the first on.
pub data Sax : Type 0 where
  start_element : Str → List (Str × Str) → Sax
  end_element : Str → Sax
  characters : ℕ → Str → Sax

pub data XmlEvent : Type 0 where
  tag_start text tag_end attribute : XmlEvent

-- A call of the callback, with its event.
pub record Call : Type 0 where
  pub event : XmlEvent
  pub name : Str
  pub value : Option Str

-- The last attribute of that name.
unfoldable pub id_of : Option Str → List (Str × Str) → Option Str
id_of id [] = id
id_of id (a ∷ attrs) = id_of (if str_eq a.0 (chars "id") then some a.1 else id) attrs

unfoldable pub attribute_calls : List (Str × Str) → List Call
attribute_calls [] = []
attribute_calls (a ∷ attrs) =
    let rest = attribute_calls attrs in
    if str_eq a.0 (chars "id")
    then rest
    else record { event = attribute; name = a.0; value = some a.1 } ∷ rest

unfoldable pub on_start_element_ns : Str → List (Str × Str) → List Call
unfolding id_of attribute_calls
on_start_element_ns localname attrs =
    record { event = tag_start; name = localname; value = id_of none attrs } ∷ attribute_calls attrs

unfoldable pub on_end_element_ns : Str → List Call
on_end_element_ns localname = record { event = tag_end; name = localname; value = none } ∷ []

is_blank : ℕ → Bool
is_blank c = c == 32 || c == 9 || c == 10 || c == 13

-- strspn of the white space.
unfoldable pub blanks : Str → ℕ
unfolding is_blank
blanks [] = 0
blanks (c ∷ s) = let more = blanks s in if is_blank c then suc more else 0

unfoldable pub on_characters : ℕ → Str → List Call
unfolding blanks
on_characters len ch =
    if blanks ch == len then [] else record { event = text; name = take len ch; value = none } ∷ []

unfoldable pub sax_calls : Sax → List Call
unfolding on_start_element_ns on_end_element_ns on_characters
sax_calls (start_element localname attrs) = on_start_element_ns localname attrs
sax_calls (end_element localname) = on_end_element_ns localname
sax_calls (characters len ch) = on_characters len ch

decimal : ℕ → Str → ℕ
decimal acc [] = acc
decimal acc (c ∷ s) =
    let more = decimal (acc * 10 + (c - b'0')) s in if leb b'0' c && leb c b'9' then more else acc

long_of : Bool → ℕ → ℤ
long_of false value = pos (min value (2 ^ 63 - 1))
long_of true zero = pos 0
long_of true (suc value) = negsuc (min value (2 ^ 63 - 1))

-- atoll and atol of the standard library, for 64 bits.
pub atoll : Str → ℤ
unfolding decimal long_of
atoll s = let t = signed (skip_spaces s) in long_of t.0 (decimal 0 t.1)

-- Converted to an unsigned long.
pub unsigned_long : ℤ → ℕ
unsigned_long (pos n) = n % 2 ^ 64
unsigned_long (negsuc n) = 2 ^ 64 - 1 - n % 2 ^ 64

pub data FilelistState : Type 0 where
  waiting_for_div_filelist waiting_for_a consuming_a : FilelistState

-- What the callback for an entry is called with. A text that was never set is none.
pub record Found : Type 0 where
  pub hash : Option Str
  pub name : Option Str
  pub type : Option Str
  pub size : ℤ
  pub link_count : ℕ
  pub href : Option Str
  pub client : Option Str

-- struct _parser_filelist_t: the members for the entry in hand, and the calls made so far.
pub record ParserFilelist : Type 0 where
  pub state : FilelistState
  pub entry : Found
  pub found : List Found

-- calloc
pub parser_filelist_new : ParserFilelist
parser_filelist_new = record {
  state = waiting_for_div_filelist;
  entry = record {
    hash = none;
    name = none;
    type = none;
    size = pos 0;
    link_count = 0;
    href = none;
    client = none;
  };
  found = [];
}

-- The branches on the attribute's name. The path is ignored.
unfoldable pub set_attribute : Str → Str → Found → Found
set_attribute name value e =
    if str_eq name (chars "fs2-name")
    then record e { name = some value }
    else if str_eq name (chars "fs2-hash")
    then record e { hash = some value }
    else if str_eq name (chars "fs2-type")
    then record e { type = some value }
    else if str_eq name (chars "fs2-size")
    then record e { size = atoll value }
    else if str_eq name (chars "fs2-linkcount") || str_eq name (chars "fs2-alternativescount")
    then record e { link_count = unsigned_long (atoll value) }
    else if str_eq name (chars "href")
    then record e { href = some value }
    else if str_eq name (chars "fs2-clientalias")
    then record e { client = some value }
    else e

-- value != NULL && !strcmp(value, s)
unfoldable pub value_is : Str → Option Str → Bool
value_is s none = false
value_is s (some value) = str_eq value s

unfoldable pub in_prelude : Call → ParserFilelist → ParserFilelist
unfolding value_is
in_prelude c p = elim c.event [
  | tag_start ↦
      if str_eq c.name (chars "div") && value_is (chars "fs2-filelist") c.value
      then record p { state = waiting_for_a }
      else p
  | text ↦ p
  | tag_end ↦ p
  | attribute ↦ p
]

unfoldable pub between : Call → ParserFilelist → ParserFilelist
between c p = elim c.event [
  | tag_start ↦ if str_eq c.name (chars "a") then record p { state = consuming_a } else p
  | text ↦ p
  | tag_end ↦ p
  | attribute ↦ p
]

unfoldable pub in_anchor : Call → ParserFilelist → Run ParserFilelist
unfolding set_attribute
in_anchor c p = elim c.event [
  | tag_start ↦ ok p
  | text ↦ ok p
  | tag_end ↦ ok (
      if str_eq c.name (chars "a")
      then record p { state = waiting_for_a; found = p.found ++ (p.entry ∷ []) }
      else p)
  | attribute ↦ (do
    value ← or_fault c.value
    ok (record p { entry = set_attribute c.name value p.entry }))
]

unfoldable pub filelist_xml_cb : Call → ParserFilelist → Run ParserFilelist
unfolding in_prelude between in_anchor
filelist_xml_cb c p = elim p.state [
  | waiting_for_div_filelist ↦ ok (in_prelude c p)
  | waiting_for_a ↦ ok (between c p)
  | consuming_a ↦ in_anchor c p
]

-- The calls one after the other.
unfoldable pub filelist_calls : List Call → ParserFilelist → Run ParserFilelist
unfolding filelist_xml_cb
filelist_calls [] p = ok p
filelist_calls (c ∷ cs) p = do p' ← filelist_xml_cb c p; filelist_calls cs p'

-- What libxml2 makes of the data that it is given.
pub parser_filelist_consume : List Sax → ParserFilelist → Run ParserFilelist
unfolding filelist_calls sax_calls
parser_filelist_consume [] p = ok p
parser_filelist_consume (x ∷ xs) p = do
  p' ← filelist_calls (sax_calls x) p
  parser_filelist_consume xs p'
