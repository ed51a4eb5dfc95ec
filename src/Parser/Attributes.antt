-- ===== src/Parser/Attributes.antt =====
-- What the attributes of an anchor of src/parser/parser_filelist.c say, in whatever order they stand.
use mathlib.Core.Path.{subst}
use fsfuse.Base.{
  ◌≡◌, refl, sym, ap, ◌∙◌, inl, inr, Bool, false, ◌||◌, Bool-cases, Option, none, some, List, [],
  ◌∷◌, if◌then◌else◌,
}
use fsfuse.Base.Bytes.{Str, chars, str_eq, eq_of_str_eq}
use fsfuse.Parser.{Found, set_attribute, atoll, unsigned_long}
use fsfuse.Parser.Events.{set_attributes}

-- A value by the last attribute whose name passes the test, or `acc` where none does.
unfoldable pub last_of : {A : Type 0} → (Str → Bool) → (Str → A) → A → List (Str × Str) → A
last_of test f acc [] = acc
last_of test f acc (a ∷ attrs) = last_of test f (if test a.0 then f a.1 else acc) attrs

unfoldable pub is_key : Str → Str → Bool
is_key key name = str_eq name key

-- Either name holds the number of links.
unfoldable pub counts_links : Str → Bool
counts_links name =
    str_eq name (chars "fs2-linkcount") || str_eq name (chars "fs2-alternativescount")

-- What the last attribute of each kind says, over what stood there before.
latest : List (Str × Str) → Found → Found
unfolding is_key counts_links
latest attrs e = record {
  hash = last_of (is_key (chars "fs2-hash")) some e.hash attrs;
  name = last_of (is_key (chars "fs2-name")) some e.name attrs;
  type = last_of (is_key (chars "fs2-type")) some e.type attrs;
  size = last_of (is_key (chars "fs2-size")) atoll e.size attrs;
  link_count = last_of counts_links (λ v. unsigned_long (atoll v)) e.link_count attrs;
  href = last_of (is_key (chars "href")) some e.href attrs;
  client = last_of (is_key (chars "fs2-clientalias")) some e.client attrs;
}

-- The names that the parser knows.
data Key : Str → Type 0 where
  name_key : Key (chars "fs2-name")
  hash_key : Key (chars "fs2-hash")
  type_key : Key (chars "fs2-type")
  size_key : Key (chars "fs2-size")
  linkcount_key : Key (chars "fs2-linkcount")
  alternativescount_key : Key (chars "fs2-alternativescount")
  href_key : Key (chars "href")
  clientalias_key : Key (chars "fs2-clientalias")
  id_key : Key (chars "id")
  other_key :
      {name : Str}
      → str_eq name (chars "fs2-name") ≡ false
      → str_eq name (chars "fs2-hash") ≡ false
      → str_eq name (chars "fs2-type") ≡ false
      → str_eq name (chars "fs2-size") ≡ false
      → str_eq name (chars "fs2-linkcount") ≡ false
      → str_eq name (chars "fs2-alternativescount") ≡ false
      → str_eq name (chars "href") ≡ false
      → str_eq name (chars "fs2-clientalias") ≡ false
      → str_eq name (chars "id") ≡ false
      → Key name

-- A name is the key, or differs from it.
known : (name key : Str) → Key key → (str_eq name key ≡ false → Key name) → Key name
known name key k otherwise = elim (Bool-cases (str_eq name key)) [
  | inl same ↦ subst Key (sym (eq_of_str_eq name key same)) k
  | inr differs ↦ otherwise differs
]

Key-of_name : (name : Str) → Key name
Key-of_name name = known name (chars "fs2-name") name_key (λ e1.
    known name (chars "fs2-hash") hash_key (λ e2. known name (chars "fs2-type") type_key (λ e3.
      known name (chars "fs2-size") size_key (λ e4.
        known name (chars "fs2-linkcount") linkcount_key (λ e5.
          known name (chars "fs2-alternativescount") alternativescount_key (λ e6.
            known name (chars "href") href_key (λ e7.
              known name (chars "fs2-clientalias") clientalias_key (λ e8.
                known name (chars "id") id_key (λ e9. other_key e1 e2 e3 e4 e5 e6 e7 e8 e9)))))))))

-- One attribute, as the callback takes it.
one_attribute : Str → Str → Found → Found
one_attribute name value e = if str_eq name (chars "id") then e else set_attribute name value e

latest_step :
    (name value : Str) (attrs : List (Str × Str)) (e : Found)
    → Key name
    → latest attrs (one_attribute name value e) ≡ latest ((name, value) ∷ attrs) e
unfolding latest one_attribute set_attribute last_of is_key counts_links str_eq
latest_step _ value attrs e name_key = refl
latest_step _ value attrs e hash_key = refl
latest_step _ value attrs e type_key = refl
latest_step _ value attrs e size_key = refl
latest_step _ value attrs e linkcount_key = refl
latest_step _ value attrs e alternativescount_key = refl
latest_step _ value attrs e href_key = refl
latest_step _ value attrs e clientalias_key = refl
latest_step _ value attrs e id_key = refl
latest_step name value attrs e (other_key e1 e2 e3 e4 e5 e6 e7 e8 e9) =
    rw (e1, e2, e3, e4, e5, e6, e7, e8, e9) refl

set_attributes_step :
    (a : Str × Str) (attrs : List (Str × Str)) (e : Found)
    → set_attributes (a ∷ attrs) e ≡ set_attributes attrs (one_attribute a.0 a.1 e)
unfolding set_attributes one_attribute
set_attributes_step a attrs e = elim (Bool-cases (str_eq a.0 (chars "id"))) [
  | inl h ↦ rw h refl
  | inr h ↦ rw h refl
]

set_attributes-latest :
    (attrs : List (Str × Str)) (e : Found) → set_attributes attrs e ≡ latest attrs e
unfolding set_attributes latest last_of
set_attributes-latest [] e = refl
set_attributes-latest (a ∷ attrs) e =
    set_attributes_step a attrs e
    ∙ set_attributes-latest attrs (one_attribute a.0 a.1 e)
    ∙ latest_step a.0 a.1 attrs e (Key-of_name a.0)

last_given : {A : Type 0} → (Str → A) → A → Option Str → A
last_given f acc none = acc
last_given f acc (some value) = f value

last_of_lem :
    {A : Type 0} (test : Str → Bool) (f : Str → A) (acc : A) (value : Option Str)
    (attrs : List (Str × Str))
    → last_of test f (last_given f acc value) attrs
      ≡ last_given f acc (last_of test some value attrs)
unfolding last_of last_given
last_of_lem test f acc value [] = refl
last_of_lem test f acc value (a ∷ attrs) = elim (Bool-cases (test a.0)) [
  | inl h ↦ rw h (last_of_lem test f acc (some a.1) attrs)
  | inr h ↦ rw h (last_of_lem test f acc value attrs)
]

-- Where an attribute passes the test, it does not matter what stood there before.
last_lem :
    {A : Type 0} (test : Str → Bool) (f : Str → A) (acc : A) (value : Str)
    (attrs : List (Str × Str))
    → last_of test some none attrs ≡ some value
    → last_of test f acc attrs ≡ f value
unfolding last_given
last_lem test f acc value attrs e = last_of_lem test f acc none attrs ∙ ap (last_given f acc) e

-- An entry as an indexnode writes it: its attributes as texts.
pub record Shared : Type 0 where
  pub name : Str
  pub hash : Str
  pub type : Str
  pub size : Str
  pub link_count : Str
  pub href : Str
  pub client : Str

-- The attributes say all of the entry, in any order and beside any others. The number of links stands
-- under either of its names.
pub record Says (attrs : List (Str × Str)) (e : Shared) : Type 0 where
  pub name : last_of (is_key (chars "fs2-name")) some none attrs ≡ some e.name
  pub hash : last_of (is_key (chars "fs2-hash")) some none attrs ≡ some e.hash
  pub type : last_of (is_key (chars "fs2-type")) some none attrs ≡ some e.type
  pub size : last_of (is_key (chars "fs2-size")) some none attrs ≡ some e.size
  pub link_count : last_of counts_links some none attrs ≡ some e.link_count
  pub href : last_of (is_key (chars "href")) some none attrs ≡ some e.href
  pub client : last_of (is_key (chars "fs2-clientalias")) some none attrs ≡ some e.client

pub found_of : Shared → Found
found_of e = record {
  hash = some e.hash;
  name = some e.name;
  type = some e.type;
  size = atoll e.size;
  link_count = unsigned_long (atoll e.link_count);
  href = some e.href;
  client = some e.client;
}

pub attributes_found :
    (attrs : List (Str × Str)) (e : Shared) (before : Found)
    → Says attrs e
    → set_attributes attrs before ≡ found_of e
unfolding latest found_of
attributes_found attrs e before s =
    set_attributes-latest attrs before
    ∙ rw
        (
          last_lem (is_key (chars "fs2-hash")) some before.hash e.hash attrs s.hash,
          last_lem (is_key (chars "fs2-name")) some before.name e.name attrs s.name,
          last_lem (is_key (chars "fs2-type")) some before.type e.type attrs s.type,
          last_lem (is_key (chars "fs2-size")) atoll before.size e.size attrs s.size,
          last_lem counts_links (λ v. unsigned_long (atoll v)) before.link_count e.link_count attrs
              s.link_count,
          last_lem (is_key (chars "href")) some before.href e.href attrs s.href,
          last_lem (is_key (chars "fs2-clientalias")) some before.client e.client attrs s.client,
        )
        refl
