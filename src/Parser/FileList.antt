-- ===== src/Parser/FileList.antt =====
-- The entries that src/parser/parser_filelist.c finds in a document.
use fsfuse.Base.{
  ℕ, ◌≡◌, refl, sym, ap, ◌∙◌, true, false, List, [], ◌∷◌, ◌++◌, map, Returns, returns, Returns-map,
  Returns-map,
}
use mathlib.Core.List.{append_assoc, append-nil}
use fsfuse.Base.Bytes.{Str, chars}
use fsfuse.Parser.{
  Sax, start_element, end_element, characters, waiting_for_a, waiting_for_div_filelist, consuming_a,
  Found, ParserFilelist, parser_filelist_new, parser_filelist_consume,
}
use fsfuse.Parser.Attributes.{Shared, Says, found_of, attributes_found}
use fsfuse.Parser.Events.{
  parser, set_attributes, opens_filelist, opens_anchor, prelude_lem, filelist_lem, between_lem,
  anchor_lem, inside_lem, anchor_end_lem,
}

-- What stands in the list: an anchor with its attributes and the texts in it, or anything else.
pub data Item : Type 0 where
  anchor : List (Str × Str) → List (ℕ × Str) → Item
  other : Sax → Item

texts_sax : List (ℕ × Str) → List Sax → List Sax
texts_sax [] rest = rest
texts_sax (t ∷ ts) rest = characters t.0 t.1 ∷ texts_sax ts rest

pub items_sax : List Item → List Sax
unfolding texts_sax
items_sax [] = []
items_sax (anchor attrs texts ∷ items) =
    start_element (chars "a") attrs ∷ texts_sax texts (end_element (chars "a") ∷ items_sax items)
items_sax (other x ∷ items) = x ∷ items_sax items

-- What is not an anchor does not open one.
unfoldable pub Separate : List Item → Type 0
Separate [] = Unit
Separate (anchor attrs texts ∷ items) = Separate items
Separate (other x ∷ items) = (opens_anchor x ≡ false) × Separate items

-- The events before the list: none opens it.
unfoldable pub Before : List Sax → Type 0
Before [] = Unit
Before (x ∷ xs) = (opens_filelist x ≡ false) × Before xs

-- Each anchor is an entry. What its attributes do not say is as in the entry before.
pub entries_of : Found → List Item → List Found
entries_of e [] = []
entries_of e (anchor attrs texts ∷ items) =
    let e' = set_attributes attrs e in e' ∷ entries_of e' items
entries_of e (other x ∷ items) = entries_of e items

texts_lem :
    (ts : List (ℕ × Str)) (rest : List Sax) (e : Found) (found : List Found)
    → parser_filelist_consume (texts_sax ts rest) (parser consuming_a e found)
      ≡ parser_filelist_consume rest (parser consuming_a e found)
unfolding texts_sax parser_filelist_consume
texts_lem [] rest e found = refl
texts_lem (t ∷ ts) rest e found = rw (inside_lem t.0 t.1 e found) (texts_lem ts rest e found)

-- The call ends with these entries found.
pub FoundAll : List Found → ParserFilelist → Type 0
FoundAll found p = p.found ≡ found

items-FoundAll :
    (items : List Item) (e : Found) (found : List Found)
    → Separate items
    → Returns
        (FoundAll (found ++ entries_of e items))
        (parser_filelist_consume (items_sax items) (parser waiting_for_a e found))
unfolding parser_filelist_consume items_sax Separate entries_of FoundAll
items-FoundAll [] e found s = returns (sym (append-nil found))
items-FoundAll (anchor attrs texts ∷ items) e found s =
    let e' = set_attributes attrs e in
    rw
      (
        anchor_lem attrs e found,
        texts_lem texts (end_element (chars "a") ∷ items_sax items) e' found,
        anchor_end_lem e' found,
        sym (append_assoc found (e' ∷ []) (entries_of e' items)),
      )
      (items-FoundAll items e' (found ++ (e' ∷ [])) s)
items-FoundAll (other x ∷ items) e found (h, s) =
    rw (between_lem x e found h) (items-FoundAll items e found s)

document-FoundAll :
    (before : List Sax) (opening : Sax) (items : List Item) (e : Found)
    → Before before
    → opens_filelist opening ≡ true
    → Separate items
    → Returns (FoundAll (entries_of e items)) (
        parser_filelist_consume
          (before ++ (opening ∷ items_sax items))
          (parser waiting_for_div_filelist e []))
unfolding parser_filelist_consume Before
document-FoundAll [] opening items e b o s =
    rw (filelist_lem opening e [] o) (items-FoundAll items e [] s)
document-FoundAll (x ∷ before) opening items e (h, b) o s =
    rw (prelude_lem x e [] h) (document-FoundAll before opening items e b o s)

-- Entries with their attributes and texts, and what else stands between them.
pub data Shown : Type 0 where
  entry : Shared → List (Str × Str) → List (ℕ × Str) → Shown
  aside : Sax → Shown

unfoldable pub items_of : List Shown → List Item
items_of [] = []
items_of (entry e attrs texts ∷ shown) = anchor attrs texts ∷ items_of shown
items_of (aside x ∷ shown) = other x ∷ items_of shown

pub shared_of : List Shown → List Shared
shared_of [] = []
shared_of (entry e attrs texts ∷ shown) = e ∷ shared_of shown
shared_of (aside x ∷ shown) = shared_of shown

-- The attributes of each anchor say all of its entry.
unfoldable pub AllSay : List Shown → Type 0
AllSay [] = Unit
AllSay (entry e attrs texts ∷ shown) = Says attrs e × AllSay shown
AllSay (aside x ∷ shown) = AllSay shown

entries_found_of :
    (shown : List Shown) (e : Found)
    → AllSay shown
    → entries_of e (items_of shown) ≡ map found_of (shared_of shown)
unfolding entries_of items_of shared_of AllSay
entries_found_of [] e s = refl
entries_found_of (entry x attrs texts ∷ shown) e (says, s) =
    rw (attributes_found attrs x e says)
      (ap (◌∷◌ (found_of x)) (entries_found_of shown (found_of x) s))
entries_found_of (aside x ∷ shown) e s = entries_found_of shown e s

-- A new parser that is given a document with a list of entries ends with exactly these entries, in
-- order, whatever stands before the list, between its entries that opens no anchor, and as text in
-- them. Each anchor has an attribute for everything that is said of its entry, in any order and beside
-- any other attributes, with the number of links under either of its two names.
pub parser_filelist_consume-found :
    (before : List Sax) (opening : Sax) (shown : List Shown)
    → Before before
    → opens_filelist opening ≡ true
    → Separate (items_of shown)
    → AllSay shown
    → Returns (FoundAll (map found_of (shared_of shown))) (
        parser_filelist_consume
          (before ++ (opening ∷ items_sax (items_of shown)))
          parser_filelist_new)
unfolding parser_filelist_new FoundAll
parser_filelist_consume-found before opening shown b o s says =
    Returns-map (document-FoundAll before opening (items_of shown) _ b o s)
      (λ p e. e ∙ entries_found_of shown _ says)

-- An anchor without attributes is taken for the entry before it once more.
pub parser_filelist_consume_stale :
    (before : List Sax) (opening : Sax) (e : Shared) (attrs : List (Str × Str))
    → Before before
    → opens_filelist opening ≡ true
    → Says attrs e
    → Returns (FoundAll (found_of e ∷ found_of e ∷ [])) (
        parser_filelist_consume
          (before ++ (opening ∷ items_sax (anchor attrs [] ∷ anchor [] [] ∷ [])))
          parser_filelist_new)
unfolding parser_filelist_new FoundAll entries_of set_attributes Separate
parser_filelist_consume_stale before opening e attrs b o says =
    Returns-map (document-FoundAll before opening (anchor attrs [] ∷ anchor [] [] ∷ []) _ b o tt)
      (λ p found. found ∙ rw (attributes_found attrs e parser_filelist_new.entry says) refl)
