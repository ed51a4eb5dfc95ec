-- ===== src/Directories/Lookup.antt =====
-- What lookup of src/fuse_methods/lookup.c answers for a name in a directory.
use fsfuse.Base.{
  ℕ, ◌<◌, ◌≡◌, refl, inl, inr, Option, some, List, [], ◌∷◌, if◌then◌else◌, length, Bool-cases, ok,
  Returns, returns, Returns-bind,
}
use fsfuse.Base.Bytes.{Str, str_eq}
use fsfuse.Base.Errno.{enoent}
use fsfuse.Base.Heap.{Heap}
use fsfuse.Listing.Counts.{counted}
use fsfuse.Direntries.{Tree, Indexnode}
use fsfuse.Direntries.Above.{Node, Held, linked_lem}
use fsfuse.Direntries.Siblings.{
  Siblings, Directory, named, more_found, direntry_get_child_by_name-FoundIn,
}
use fsfuse.Directories.{
  Config, FuseEntry, Answer, reply_entry, reply_err, listing_li2stat, direntry_de2stat,
  direntry_de2fuse_entry, lookup_answer, fsfuse_lookup,
}
use fsfuse.Directories.Listed.{stat_of}

-- The entry of a direntry, to be trusted for a second.
pub entry_of : {n p : ℕ} {t : Tree} → Config → Node n t p → FuseEntry
entry_of config node = record {
  ino = node.l.inode;
  generation = 0;
  attr = stat_of config node;
  attr_timeout = 1;
  entry_timeout = 1;
}

-- The entry of the first sibling with the name, or ENOENT.
pub answer_of :
    Config
    → (n : ℕ) (t : Tree) (first : Option ℕ) (ps : List ℕ) → Siblings n t first ps
    → Str
    → Answer
unfolding Siblings
answer_of config n t first [] s name = reply_err enoent
answer_of config n t first (p ∷ ps) (e, (node, later)) name =
    if str_eq node.roomy.li.name name
    then reply_entry (entry_of config node)
    else answer_of config n t node.l.next ps later name

direntry_de2fuse_entry_lem :
    (f : ℕ → ℕ) {n p : ℕ} {t0 t : Tree} (config : Config)
    → Held f t0 t
    → (node : Node n t0 p)
    → direntry_de2fuse_entry config p t
      ≡ ok (record (entry_of config node) { attr_timeout = 0; entry_timeout = 0 })
unfolding direntry_de2fuse_entry direntry_de2stat stat_of listing_li2stat entry_of
direntry_de2fuse_entry_lem f {n} {p} {t0} {t} config h node =
    rw (linked_lem f h node, counted f t.fs.store h.store node.roomy) refl

lookup_answer_lem :
    (f : ℕ → ℕ) (n : ℕ) (config : Config) (name : Str) (t0 t : Tree) (first : Option ℕ)
    (ps : List ℕ)
    → (s : Siblings n t0 first ps) → Held f t0 t
    → lookup_answer config (named n t0 first ps s name) t
      ≡ ok (answer_of config n t0 first ps s name)
unfolding lookup_answer named answer_of entry_of Siblings
lookup_answer_lem f n config name t0 t first [] s h = refl
lookup_answer_lem f n config name t0 t first (p ∷ ps) (e, (node, later)) h =
    elim (Bool-cases (str_eq node.roomy.li.name name)) [
      | inl same ↦ rw (same, direntry_de2fuse_entry_lem f config h node) refl
      | inr differs ↦ rw differs (lookup_answer_lem f n config name t0 t node.l.next ps later h)
    ]

-- What a lookup leaves.
pub record LookedUp (answer : Answer) (found : Option ℕ) (t0 : Tree) (r : Answer × Heap × Tree)
    : Type 0 where
  pub reply : r.0 ≡ answer
  pub tree : Held (more_found found (λ x. 0)) t0 r.2

-- lookup in a directory whose children were looked for ends: it answers the attributes of the first
-- child with the name, or ENOENT where there is none. The child keeps one reference more for the
-- kernel, and every other count and all links are as before. The counts have room for two references
-- more.
pub fsfuse_lookup-LookedUp :
    (n ino de : ℕ) (ps : List ℕ) (config : Config) (indexnode : Indexnode) (name : Str) (h : Heap)
    (t : Tree)
    → t.fs.inode_map ino ≡ some de
    → ino < t.fs.inode_map_used
    → (d : Directory n t de ps) → 2 < n
    → Returns
        (LookedUp
          (answer_of config n t d.node.l.children ps d.children name)
          (named n t d.node.l.children ps d.children name)
          t)
        (fsfuse_lookup config (length ps) indexnode ino name h t)
unfolding fsfuse_lookup
fsfuse_lookup-LookedUp n ino de ps config indexnode name h t e used d lt =
    Returns-bind (direntry_get_child_by_name-FoundIn n ino de ps indexnode name h t e used d lt)
      (λ r f.
        rw
          (
            f.child,
            lookup_answer_lem (more_found (named n t d.node.l.children ps d.children name) (λ x. 0))
                n config name t r.2 d.node.l.children ps d.children f.tree,
          )
          (returns (record { reply = refl; tree = f.tree })))
