-- ===== src/Parser/Events.antt =====
-- The states of src/parser/parser_filelist.c over the calls that one event of libxml2 makes.
use fsfuse.Base.{
  ℕ, ◌≡◌, refl, inl, inr, Bool, true, false, ◌&&◌, none, List, [], ◌∷◌, ◌++◌, ◌==◌, if◌then◌else◌,
  Bool-cases, ok,
}
use fsfuse.Base.Bytes.{Str, chars, str_eq}
use fsfuse.Parser.{
  Sax, start_element, end_element, characters, id_of, attribute_calls, on_start_element_ns,
  on_end_element_ns, on_characters, sax_calls, blanks, FilelistState, waiting_for_div_filelist,
  waiting_for_a, consuming_a, Found, ParserFilelist, in_prelude, between, in_anchor, value_is,
  filelist_xml_cb, filelist_calls, set_attribute,
}

-- The parser with its members.
abbrev pub parser : FilelistState → Found → List Found → ParserFilelist
parser state entry found = record { state = state; entry = entry; found = found }

-- The attributes of an element but its id, set one after the other.
unfoldable pub set_attributes : List (Str × Str) → Found → Found
set_attributes [] e = e
set_attributes (a ∷ attrs) e =
    if str_eq a.0 (chars "id")
    then set_attributes attrs e
    else set_attributes attrs (set_attribute a.0 a.1 e)

prelude_attributes :
    (attrs : List (Str × Str)) (e : Found) (found : List Found)
    → filelist_calls (attribute_calls attrs) (parser waiting_for_div_filelist e found)
      ≡ ok (parser waiting_for_div_filelist e found)
unfolding attribute_calls filelist_calls filelist_xml_cb in_prelude
prelude_attributes [] e found = refl
prelude_attributes (a ∷ attrs) e found = elim (Bool-cases (str_eq a.0 (chars "id"))) [
  | inl h ↦ rw h (prelude_attributes attrs e found)
  | inr h ↦ rw h (prelude_attributes attrs e found)
]

between_attributes :
    (attrs : List (Str × Str)) (e : Found) (found : List Found)
    → filelist_calls (attribute_calls attrs) (parser waiting_for_a e found)
      ≡ ok (parser waiting_for_a e found)
unfolding attribute_calls filelist_calls filelist_xml_cb between
between_attributes [] e found = refl
between_attributes (a ∷ attrs) e found = elim (Bool-cases (str_eq a.0 (chars "id"))) [
  | inl h ↦ rw h (between_attributes attrs e found)
  | inr h ↦ rw h (between_attributes attrs e found)
]

anchor_attributes :
    (attrs : List (Str × Str)) (e : Found) (found : List Found)
    → filelist_calls (attribute_calls attrs) (parser consuming_a e found)
      ≡ ok (parser consuming_a (set_attributes attrs e) found)
unfolding attribute_calls filelist_calls filelist_xml_cb in_anchor set_attributes
anchor_attributes [] e found = refl
anchor_attributes (a ∷ attrs) e found = elim (Bool-cases (str_eq a.0 (chars "id"))) [
  | inl h ↦ rw h (anchor_attributes attrs e found)
  | inr h ↦ rw h (anchor_attributes attrs (set_attribute a.0 a.1 e) found)
]

-- The element that the list of entries stands in.
unfoldable pub opens_filelist : Sax → Bool
unfolding value_is
opens_filelist (start_element name attrs) =
    str_eq name (chars "div") && value_is (chars "fs2-filelist") (id_of none attrs)
opens_filelist (end_element name) = false
opens_filelist (characters len ch) = false

unfoldable pub opens_anchor : Sax → Bool
opens_anchor (start_element name attrs) = str_eq name (chars "a")
opens_anchor (end_element name) = false
opens_anchor (characters len ch) = false

pub prelude_lem :
    (x : Sax) (e : Found) (found : List Found)
    → opens_filelist x ≡ false
    → filelist_calls (sax_calls x) (parser waiting_for_div_filelist e found)
      ≡ ok (parser waiting_for_div_filelist e found)
unfolding opens_filelist value_is sax_calls on_start_element_ns on_end_element_ns on_characters
    filelist_calls filelist_xml_cb in_prelude id_of
prelude_lem (start_element name attrs) e found h = rw h (prelude_attributes attrs e found)
prelude_lem (end_element name) e found h = refl
prelude_lem (characters len ch) e found h = elim (Bool-cases (blanks ch == len)) [
  | inl b ↦ rw b refl
  | inr b ↦ rw b refl
]

pub filelist_lem :
    (x : Sax) (e : Found) (found : List Found)
    → opens_filelist x ≡ true
    → filelist_calls (sax_calls x) (parser waiting_for_div_filelist e found)
      ≡ ok (parser waiting_for_a e found)
unfolding opens_filelist value_is sax_calls on_start_element_ns on_end_element_ns on_characters
    filelist_calls filelist_xml_cb in_prelude id_of
filelist_lem (start_element name attrs) e found h = rw h (between_attributes attrs e found)
filelist_lem (end_element name) e found h = cc
filelist_lem (characters len ch) e found h = cc

pub between_lem :
    (x : Sax) (e : Found) (found : List Found)
    → opens_anchor x ≡ false
    → filelist_calls (sax_calls x) (parser waiting_for_a e found)
      ≡ ok (parser waiting_for_a e found)
unfolding opens_anchor sax_calls on_start_element_ns on_end_element_ns on_characters filelist_calls
    filelist_xml_cb between id_of
between_lem (start_element name attrs) e found h = rw h (between_attributes attrs e found)
between_lem (end_element name) e found h = refl
between_lem (characters len ch) e found h = elim (Bool-cases (blanks ch == len)) [
  | inl b ↦ rw b refl
  | inr b ↦ rw b refl
]

pub anchor_lem :
    (attrs : List (Str × Str)) (e : Found) (found : List Found)
    → filelist_calls (sax_calls (start_element (chars "a") attrs)) (parser waiting_for_a e found)
      ≡ ok (parser consuming_a (set_attributes attrs e) found)
unfolding sax_calls on_start_element_ns filelist_calls filelist_xml_cb between str_eq
anchor_lem attrs e found = anchor_attributes attrs e found

pub inside_lem :
    (len : ℕ) (ch : Str) (e : Found) (found : List Found)
    → filelist_calls (sax_calls (characters len ch)) (parser consuming_a e found)
      ≡ ok (parser consuming_a e found)
unfolding sax_calls on_characters filelist_calls filelist_xml_cb in_anchor
inside_lem len ch e found = elim (Bool-cases (blanks ch == len)) [
  | inl b ↦ rw b refl
  | inr b ↦ rw b refl
]

pub anchor_end_lem :
    (e : Found) (found : List Found)
    → filelist_calls (sax_calls (end_element (chars "a"))) (parser consuming_a e found)
      ≡ ok (parser waiting_for_a e (found ++ (e ∷ [])))
unfolding sax_calls on_end_element_ns filelist_calls filelist_xml_cb in_anchor str_eq
anchor_end_lem e found = refl
