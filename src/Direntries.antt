-- ===== src/Direntries.antt =====
-- src/nativefs/direntry.c: the tree of direntries, their paths, and the children that an indexnode
-- lists.
pub mod Above
pub mod Siblings
pub mod Children
mod Tests
use fsfuse.Base.{
  ℕ, zero, suc, ◌+◌, ◌-◌, ◌*◌, ◌^◌, Bool, true, false, Option, none, some, List, [], ◌∷◌, drop, ltb,
  leb, ◌==◌, if◌then◌else◌, length, Run, fault, out_of_fuel, ok, ◌>>=◌, ◌>>◌, or_fault, check,
}
use fsfuse.Base.Bytes.{Str, chars, str_eq}
use fsfuse.Base.Heap.{Heap, address, strdup}
use fsfuse.Base.Errno.{enoent, eio}
use fsfuse.Listing.{
  Listing, ListingType, file, directory, Store, ListingList, put, listing_copy, listing_delete,
  listing_list_new, listing_list_resize, listing_list_set_item, listing_list_get_item,
  listing_list_delete,
}
use fsfuse.StringBuffer.{
  StringBuffer, string_buffer_new, string_buffer_append, string_buffer_commit,
}
use fsfuse.FuseMethods.{Fs, inode_map_add, inode_next, direntry_get_by_inode, direntry_delete}

-- The members of struct _direntry_t behind the listing, and whether the listing's pointer to its
-- indexnode is set. The counts of indexnodes are not modelled.
pub record Links : Type 0 where
  pub inode : ℕ
  pub next : Option ℕ
  pub parent : Option ℕ
  pub children : Option ℕ
  pub looked_for_children : Bool
  pub has_in : Bool

-- A direntry is its listing in `fs` and its links at the same address.
pub record Tree : Type 0 where
  pub fs : Fs
  pub links : ℕ → Option Links

unfoldable pub with_store : Store → Tree → Tree
with_store store t = record t { fs = record (t.fs) { store = store } }

-- The links of a direntry that is allocated.
unfoldable pub linked : ℕ → Tree → Run Links
linked de t = do li ← or_fault (t.fs.store de); or_fault (t.links de)

-- direntry_copy, unless the pointer is NULL.
unfoldable pub copied : Option ℕ → Tree → Run (Option ℕ × Tree)
unfolding with_store
copied none t = ok (none, t)
copied (some de) t = do store ← listing_copy de t.fs.store; ok (some de, with_store store t)

unfoldable pub deleted : ℕ → Tree → Run Tree
unfolding with_store
deleted de t = do store ← listing_delete de t.fs.store; ok (with_store store t)

unfoldable pub direntry_get_parent : ℕ → Tree → Run (Option ℕ × Tree)
unfolding linked copied
direntry_get_parent de t = do l ← linked de t; copied l.parent t

unfoldable pub direntry_get_first_child : ℕ → Tree → Run (Option ℕ × Tree)
unfolding linked copied
direntry_get_first_child de t = do l ← linked de t; copied l.children t

unfoldable pub direntry_get_next_sibling : ℕ → Tree → Run (Option ℕ × Tree)
unfolding linked copied
direntry_get_next_sibling de t = do l ← linked de t; copied l.next t

-- The text that the caller gets a copy of.
unfoldable pub direntry_get_name : ℕ → Tree → Run Str
direntry_get_name de t = do li ← or_fault (t.fs.store de); ok li.name

-- A loop's step to the next sibling, which gives the last one back.
unfoldable pub step_sibling : ℕ → Tree → Run (Option ℕ × Tree)
unfolding direntry_get_next_sibling deleted
step_sibling de t = do
  (next, t1) ← direntry_get_next_sibling de t
  t2 ← deleted de t1
  ok (next, t2)

pub direntry_delete_list : ℕ → Option ℕ → Tree → Run Tree
unfolding step_sibling
direntry_delete_list k none t = ok t
direntry_delete_list zero (some de) t = out_of_fuel
direntry_delete_list (suc k) (some de) t = do
  (next, t1) ← step_sibling de t
  direntry_delete_list k next t1

-- string_buffer_append of a fresh copy of a text.
unfoldable pub append_copy : Str → StringBuffer → Heap → Run (StringBuffer × Heap)
append_copy s path h = let (p, h') = strdup s h in string_buffer_append (address p) path h'

-- A path in the making, and the memory beside it.
abbrev pub PathState : Type 0
PathState = StringBuffer × Heap × Tree

-- `above` is the call for the parent.
unfoldable pub parent_path : (ℕ → PathState → Run PathState) → Option ℕ → PathState → Run PathState
unfolding deleted
parent_path above none s = ok s
parent_path above (some parent) s = do
  (path, h, t) ← above parent s
  t' ← deleted parent t
  ok (path, h, t')

unfoldable pub direntry_get_path_inner : ℕ → ℕ → PathState → Run PathState
unfolding direntry_get_parent parent_path direntry_get_name append_copy
direntry_get_path_inner zero de s = out_of_fuel
direntry_get_path_inner (suc k) de (path, h, t) = do
  (parent, t1) ← direntry_get_parent de t
  (path1, h1, t2) ← parent_path (direntry_get_path_inner k) parent (path, h, t1)
  name ← direntry_get_name de t2
  (path2, h2) ← append_copy name path1 h1
  (path3, h3) ← append_copy (chars "/") path2 h2
  ok (path3, h3, t2)

-- The fuel is for the directories on the way up. The text comes with its NUL.
pub direntry_get_path : ℕ → ℕ → Heap → Tree → Run (List ℕ × Heap × Tree)
direntry_get_path fuel de h t = do
  path ← string_buffer_new
  (path', h', t') ← direntry_get_path_inner fuel de (path, h, t)
  text ← string_buffer_commit path'
  ok (text, h', t')

-- What the parser found of an entry, with the address that malloc has for its listing.
pub record Entry : Type 0 where
  pub address : ℕ
  pub name : Str
  pub hash : Str
  pub type : Str
  pub size : ℕ
  pub link_count : ℕ
  pub href : Str
  pub client : Str

pub listing_type_from_string : Str → Run ListingType
listing_type_from_string s =
    if str_eq s (chars "file")
    then ok file
    else if str_eq s (chars "directory")
    then ok directory
    else fault

pub listing_new : Entry → Store → Run (ℕ × Store)
unfolding listing_type_from_string
listing_new e st = do
  type ← listing_type_from_string e.type
  ok (
    e.address,
    put e.address
        (some (record {
          ref_count = 1;
          name = e.name;
          hash = e.hash;
          type = type;
          size = e.size;
          link_count = e.link_count;
          href = e.href;
          client = e.client;
        }))
        st,
  )

-- The index of the context is the number of entries before.
pub entry_found : Entry → ListingList × Store → Run (ListingList × Store)
unfolding listing_new
entry_found e (lis, st) = do
  (li, st1) ← listing_new e st
  listing_list_set_item (length lis) li (listing_list_resize (length lis + 1) lis) st1

-- The calls that the parser makes.
pub entries_found : List Entry → ListingList × Store → Run (ListingList × Store)
unfolding entry_found
entries_found [] s = ok s
entries_found (e ∷ es) s = do s' ← entry_found e s; entries_found es s'

abbrev pub sizeof_listing : ℕ
sizeof_listing = 72

abbrev pub sizeof_direntry : ℕ
sizeof_direntry = 112

-- bzero of `count` bytes from an offset on into an allocation.
unfoldable pub bzero : ℕ → ℕ → ℕ → Run (Unit {0})
bzero allocated offset count = check (leb (offset + count) allocated)

-- The new direntry is where the listing was. The offset is counted in direntries. inode_map.h
-- declares inode_map_add with the direntry alone; it gets here the inode too that inode_map.c takes.
-- A listing is made with a copy of a pointer to an indexnode, which is set.
pub direntry_from_listing : ℕ → Tree → Run Tree
unfolding bzero
direntry_from_listing li t =
    bzero sizeof_direntry (sizeof_listing * sizeof_direntry) (sizeof_direntry - sizeof_listing)
    >> (do
      let (inode, fs) = inode_next t.fs
      fs' ← inode_map_add inode li fs
      let l : Links = record {
        inode = inode;
        next = none;
        parent = none;
        children = none;
        looked_for_children = false;
        has_in = true;
      }
      ok (record { fs = fs'; links = λ p. if p == li then some l else t.links p }))

set_links : ℕ → Option ℕ → Option ℕ → Tree → Run Tree
unfolding linked
set_links de parent next t = do
  l ← linked de t
  ok (record t {
    links = λ p. if p == de then some (record l { parent = parent; next = next }) else t.links p;
  })

-- From the item `i` on, with `prev` the last direntry made.
pub direntries_from : ℕ → ℕ → ListingList → ℕ → Option ℕ → Tree → Run (Option ℕ × Tree)
unfolding direntry_from_listing set_links
direntries_from zero i lis parent prev t = ok (prev, t)
direntries_from (suc left) i lis parent prev t = do
  (li, store) ← listing_list_get_item i lis t.fs.store
  t1 ← direntry_from_listing li (with_store store t)
  t2 ← deleted li t1
  t3 ← set_links li (some parent) prev t2
  direntries_from left (i + 1) lis parent (some li) t3

pub direntries_from_listing_list : ListingList → ℕ → Tree → Run (Option ℕ × Tree)
unfolding direntries_from
direntries_from_listing_list lis parent t = direntries_from (length lis) 0 lis parent none t

-- What an indexnode answers to the path of a directory, with its NUL: the return code of
-- indexnode_tryget_listing, and the entries that the parser found.
abbrev pub Indexnode : Type 0
Indexnode = Str → ℕ × List Entry

set_children : ℕ → Option ℕ → Tree → Run Tree
unfolding linked
set_children de children t = do
  l ← linked de t
  ok (record t {
    links = λ p.
        if p == de
        then some (record l { children = children; looked_for_children = true })
        else t.links p;
  })

-- A code other than 0 is taken for success.
children_listed : ℕ → ListingList → ℕ → Tree → Run (ℕ × Option ℕ × Tree)
unfolding direntries_from_listing_list
children_listed zero lis de t = ok (eio, none, t)
children_listed (suc rc) lis de t = do
  (dirents, t1) ← direntries_from_listing_list lis de t
  store ← listing_list_delete lis t1.fs.store
  ok (0, dirents, with_store store t1)

-- indexnode_copy reads through the pointer.
look_for_children : ℕ → Indexnode → ℕ → Heap → Tree → Run (ℕ × Heap × Tree)
unfolding direntry_get_path entries_found children_listed set_children
look_for_children fuel indexnode de h t = do
  (path, h1, t1) ← direntry_get_path fuel de h t
  l ← linked de t1
  check l.has_in
  let (rc, es) = indexnode (drop 1 path)
  (lis, store) ← entries_found es (listing_list_new 0, t1.fs.store)
  (code, dirents, t2) ← children_listed rc lis de (with_store store t1)
  t3 ← set_children de dirents t2
  ok (code, h1, t3)

pub direntry_ensure_children : ℕ → Indexnode → ℕ → Heap → Tree → Run (ℕ × Heap × Tree)
unfolding linked look_for_children
direntry_ensure_children fuel indexnode de h t = do
  l ← linked de t
  if l.looked_for_children then ok (eio, h, t) else look_for_children fuel indexnode de h t

-- The name is compared before the next sibling is asked for.
pub find_child : ℕ → Option ℕ → Str → Tree → Run (Option ℕ × Tree)
unfolding step_sibling direntry_get_name
find_child k none name t = ok (none, t)
find_child zero (some child) name t = out_of_fuel
find_child (suc k) (some child) name t = do
  other ← direntry_get_name child t
  let later = (do (next, t1) ← step_sibling child t; find_child k next name t1)
  if str_eq other name then ok (some child, t) else later

-- None is ENOENT.
child_by_name : ℕ → Indexnode → Option ℕ → Str → Heap → Tree → Run (Option ℕ × Heap × Tree)
unfolding direntry_ensure_children direntry_get_first_child find_child deleted
child_by_name fuel indexnode none name h t = ok (none, h, t)
child_by_name fuel indexnode (some de) name h t = do
  (rc, h1, t1) ← direntry_ensure_children fuel indexnode de h t
  (first, t2) ← direntry_get_first_child de t1
  (child, t3) ← find_child fuel first name t2
  t4 ← deleted de t3
  ok (child, h1, t4)

pub direntry_get_child_by_name :
    ℕ → Indexnode → ℕ → Str → Heap → Tree → Run (Option ℕ × Heap × Tree)
unfolding child_by_name
direntry_get_child_by_name fuel indexnode parent name h t = do
  (found, fs) ← direntry_get_by_inode parent t.fs
  child_by_name fuel indexnode found name h (record t { fs = fs })

abbrev pub root_inode : ℕ
root_inode = 1

-- calloc leaves the pointer to the count NULL, which is the count 0 here: every use of it faults.
abbrev pub root_listing : Listing
root_listing = record {
  ref_count = 0;
  name = [];
  hash = [];
  type = directory;
  size = 0;
  link_count = 1;
  href = [];
  client = [];
}

abbrev pub root_links : Links
root_links = record {
  inode = root_inode;
  next = none;
  parent = none;
  children = none;
  looked_for_children = false;
  has_in = false;
}

-- `de` is the address that calloc has.
pub direntry_new_root : ℕ → Tree → Run Tree
direntry_new_root de t = do
  fs ← inode_map_add root_inode de (with_store (put de (some root_listing) t.fs.store) t).fs
  ok (record { fs = fs; links = λ p. if p == de then some root_links else t.links p })

pub direntry_init : ℕ → Tree → Run Tree
unfolding direntry_new_root
direntry_init de t = do t1 ← direntry_new_root de t; deleted de t1
