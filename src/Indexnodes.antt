-- ===== src/Indexnodes.antt =====
-- src/indexnodes/indexnodes_list.c and src/indexnodes/indexnodes.c: the indexnodes that adverts have
-- shown, and when each was last seen.
pub mod Unique
pub mod Get
pub mod Protocol
pub mod Threads
mod Tests
use fsfuse.Base.{
  ℕ, zero, suc, ◌+◌, ◌-◌, Bool, true, false, Option, none, some, List, [], ◌∷◌, ltb, ◌==◌,
  if◌then◌else◌, Run, fault, ok, ◌>>=◌, ◌>>◌, check, drop, length,
}
use fsfuse.Base.Bytes.{Str, chars, str_eq, some_text}
use fsfuse.Base.Heap.{Heap, Pointer, address, text, free, strdup}
use fsfuse.Versions.{check_version, is_space, skip_spaces}

-- What struct _indexnode_t says, its strings as texts.
pub record Indexnode : Type 0 where
  pub host : Str
  pub port : Str
  pub version : Str
  pub id : Str
  pub last_seen : ℕ

-- TAILQ_INSERT_HEAD
pub indexnodes_list_add : Indexnode → List Indexnode → List Indexnode
indexnodes_list_add node nodes = node ∷ nodes

pub indexnodes_list_find : Str → List Indexnode → Option Indexnode
indexnodes_list_find id [] = none
indexnodes_list_find id (node ∷ nodes) =
    if str_eq node.id id then some node else indexnodes_list_find id nodes

copy_onto : List Indexnode → List Indexnode → List Indexnode
unfolding indexnodes_list_add
copy_onto done [] = done
copy_onto done (node ∷ nodes) = copy_onto (indexnodes_list_add node done) nodes

pub indexnodes_list_copy : List Indexnode → List Indexnode
unfolding copy_onto
indexnodes_list_copy nodes = copy_onto [] nodes

-- ( time( NULL ) - in->last_seen ) < timeout, where the clock gives `now`.
pub indexnode_still_valid : ℕ → ℕ → Indexnode → Bool
indexnode_still_valid now timeout node = ltb now (node.last_seen + timeout)

valid_onto : ℕ → ℕ → List Indexnode → List Indexnode → List Indexnode
unfolding indexnode_still_valid indexnodes_list_add
valid_onto now timeout done [] = done
valid_onto now timeout done (node ∷ nodes) =
    valid_onto now timeout
      (if indexnode_still_valid now timeout node then indexnodes_list_add node done else done) nodes

pub indexnodes_list_remove_expired : ℕ → ℕ → List Indexnode → List Indexnode
unfolding valid_onto
indexnodes_list_remove_expired now timeout nodes = valid_onto now timeout [] nodes

-- What is returned, and the new list.
pub indexnodes_get : ℕ → ℕ → List Indexnode → List Indexnode × List Indexnode
unfolding indexnodes_list_copy indexnodes_list_remove_expired
indexnodes_get now timeout nodes =
    let kept = indexnodes_list_remove_expired now timeout nodes in (indexnodes_list_copy kept, kept)

-- indexnode_seen on the node that indexnodes_list_find gives.
seen : ℕ → Str → List Indexnode → List Indexnode
seen now id [] = []
seen now id (node ∷ nodes) =
    if str_eq node.id id then record node { last_seen = now } ∷ nodes else node ∷ seen now id nodes

-- indexnode_new behind check_version: the node, with the asserts of proto_indexnode_init, or NULL.
init_if_supported : ℕ → Str → Str → Str → Str → Bool → Run (Option Indexnode)
init_if_supported now host port version id false = ok none
init_if_supported now host port version id true = do
  check (some_text host)
  check (some_text port)
  ok (some (record { host = host; port = port; version = version; id = id; last_seen = now }))

pub indexnode_new : ℕ → Str → Str → Str → Str → Run (Option Indexnode)
unfolding init_if_supported
indexnode_new now host port version id = do
  check (some_text version)
  check (some_text id)
  supported ← check_version version
  init_if_supported now host port version id supported

with_new : Option Indexnode → List Indexnode → List Indexnode
unfolding indexnodes_list_add
with_new none nodes = nodes
with_new (some node) nodes = indexnodes_list_add node nodes

-- new_indexnode_event behind parse_fs2protocol.
pub advertised :
    ℕ → Str → Str → Str → Str → List Indexnode → Option Indexnode → Run (List Indexnode)
unfolding seen with_new indexnode_new
advertised now host port version id nodes (some found) = ok (seen now id nodes)
advertised now host port version id nodes none = do
  new_in ← indexnode_new now host port version id
  ok (with_new new_in nodes)

abbrev pub prefix : Str
prefix = chars "fs2protocol-"

unfoldable pub starts_with : Str → Str → Bool
starts_with [] s = true
starts_with (c ∷ p) [] = false
starts_with (c ∷ p) (d ∷ s) = if c == d then starts_with p s else false

-- sscanf's %s: the bytes up to a space, behind any spaces. It converts nothing where that is empty.
word : Str → Str
word [] = []
word (c ∷ s) = if is_space c then [] else c ∷ word s

converted_one : Str → Run Str
converted_one [] = fault
converted_one (c ∷ s) = ok (c ∷ s)

-- None for the result 1.
version_of : Str → Bool → Run (Option Str)
unfolding word converted_one
version_of fs2protocol false = ok none
version_of fs2protocol true = do
  v ← converted_one (word (skip_spaces (drop (length prefix) fs2protocol)))
  ok (some v)

pub parse_fs2protocol : Pointer → Heap → Run (Option Str × Heap)
unfolding version_of starts_with
parse_fs2protocol fs2protocol h = do
  chars ← text fs2protocol h
  version ← version_of chars (starts_with prefix chars)
  h1 ← free fs2protocol h
  ok (version, h1)

-- The outcome of the parse decides; in the other case the argument is freed here.
event :
    ℕ → Str → Str → Pointer → Str → List Indexnode → Option Str → Heap → Run (List Indexnode × Heap)
unfolding advertised
event now host port fs2protocol id nodes (some version) h = do
  nodes1 ← advertised now host port version id nodes (indexnodes_list_find id nodes)
  ok (nodes1, h)
event now host port fs2protocol id nodes none h = do h1 ← free fs2protocol h; ok (nodes, h1)

-- The strings other than fs2protocol are taken as texts.
pub new_indexnode_event :
    ℕ → Str → Str → Pointer → Str → List Indexnode → Heap → Run (List Indexnode × Heap)
unfolding event
new_indexnode_event now host port fs2protocol id nodes h = do
  (version, h1) ← parse_fs2protocol fs2protocol h
  event now host port fs2protocol id nodes version h1
