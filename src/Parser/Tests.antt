-- ===== src/Parser/Tests.antt =====
-- A page with a list of one file, and one with an anchor that says nothing.
use fsfuse.Base.{true, [], ◌∷◌, ◌++◌, ◌≡◌, refl, map, Returns, List}
use fsfuse.Base.Bytes.{Str, chars, str_eq}
use fsfuse.Parser.{
  Sax, start_element, end_element, parser_filelist_consume, parser_filelist_new, id_of, value_is,
}
use fsfuse.Parser.Events.{opens_filelist, opens_anchor}
use fsfuse.Parser.Attributes.{Shared, Says, found_of, last_of, is_key, counts_links}
use fsfuse.Parser.FileList.{
  Shown, entry, aside, items_sax, items_of, shared_of, AllSay, FoundAll, Before, Separate,
  parser_filelist_consume-found,
}

abbrev song : Shared
song = record {
  name = chars "a.mp3";
  hash = chars "12ab";
  type = chars "file";
  size = chars "4096";
  link_count = chars "1";
  href = chars "http://a/b";
  client = chars "ann";
}

-- As in src/tests/unit/testdata/filelist.xml, and with the other name for the number of links.
abbrev song_attributes : Str → List (Str × Str)
song_attributes links =
    (links, chars "1")
    ∷ (chars "fs2-clientalias", chars "ann")
    ∷ (chars "fs2-hash", chars "12ab")
    ∷ (chars "fs2-name", chars "a.mp3")
    ∷ (chars "fs2-size", chars "4096")
    ∷ (chars "fs2-type", chars "file")
    ∷ (chars "href", chars "http://a/b")
    ∷ []

song-Says : Says (song_attributes (chars "fs2-alternativescount")) song
unfolding last_of is_key counts_links str_eq
song-Says = record {
  name = refl;
  hash = refl;
  type = refl;
  size = refl;
  link_count = refl;
  href = refl;
  client = refl;
}

song-Says_linkcount : Says (song_attributes (chars "fs2-linkcount")) song
unfolding last_of is_key counts_links str_eq
song-Says_linkcount = record {
  name = refl;
  hash = refl;
  type = refl;
  size = refl;
  link_count = refl;
  href = refl;
  client = refl;
}

abbrev html : List Sax
html = start_element (chars "html") [] ∷ start_element (chars "div") [] ∷ []

abbrev opening : Sax
opening = start_element (chars "div") ((chars "id", chars "fs2-filelist") ∷ [])

abbrev shown : List Shown
shown =
    aside (start_element (chars "br") [])
    ∷ entry song (song_attributes (chars "fs2-alternativescount")) ((5, chars "a.mp3</a>") ∷ [])
    ∷ entry song (song_attributes (chars "fs2-linkcount")) []
    ∷ aside (end_element (chars "div"))
    ∷ []

html-Before : Before html
unfolding Before opens_filelist str_eq value_is id_of
html-Before = (refl, (refl, tt))

opening_opens : opens_filelist opening ≡ true
unfolding opens_filelist str_eq value_is id_of
opening_opens = refl

shown-Separate : Separate (items_of shown)
unfolding Separate items_of opens_anchor str_eq
shown-Separate = (refl, (refl, tt))

shown-AllSay : AllSay shown
unfolding AllSay
shown-AllSay = (song-Says, (song-Says_linkcount, tt))

parser_filelist_consume-found_example :
    Returns
      (FoundAll (map found_of (shared_of shown)))
      (parser_filelist_consume (html ++ (opening ∷ items_sax (items_of shown))) parser_filelist_new)
parser_filelist_consume-found_example =
    parser_filelist_consume-found html opening shown html-Before opening_opens shown-Separate
      shown-AllSay
