-- ===== src/Directories/Tests.antt =====
-- readdir and lookup in the root with a file and a directory in it, and an entry of its name's bytes.
use fsfuse.Base.{
  ◌+◌, none, some, [], ◌∷◌, ◌++◌, ◌≡◌, refl, arith, Returns, if◌then◌else◌, ◌==◌, true, length,
  length-append, take, drop,
}
use fsfuse.Base.Bytes.{chars}
use fsfuse.Listing.{Listing, file, directory}
use fsfuse.Direntries.{Tree, root_links, Indexnode}
use fsfuse.Direntries.Above.{Node}
use fsfuse.Direntries.Siblings.{Siblings, Directory, named}
use fsfuse.Directories.{Config, Libfuse, fsfuse_readdir, fsfuse_lookup}
use fsfuse.Directories.Listed.{Sized, dirents, directory_entries, Parent, listed}
use fsfuse.Directories.Lookup.{answer_of, LookedUp, fsfuse_lookup-LookedUp}
use fsfuse.Directories.Readdir.{Answered, fsfuse_readdir-Answered}

abbrev named_dirents : Libfuse
named_dirents = record {
  entry_size = λ name. length name + 1;
  entry = λ name st next. name ++ (0 ∷ []);
}

abbrev config : Config
config = record {
  id_uid = none;
  id_gid = some 100;
  mode_file = 292;
  mode_dir = 365;
  getuid = 1000;
  getgid = 1000;
}

named_dirents-Sized : Sized named_dirents
named_dirents-Sized name st next = length-append name (0 ∷ [])

abbrev root : Listing
root = record {
  ref_count = 2;
  name = [];
  hash = [];
  type = directory;
  size = 0;
  link_count = 1;
  href = [];
  client = [];
}

abbrev tree : Tree
tree = record {
  fs = record {
    inode_map = λ i. if i == 1 then some 5 else none;
    inode_map_size = 32;
    inode_map_used = 2;
    inode_next = 3;
    store = λ p.
        if p == 5
        then some root
        else if p == 7
        then some (record root { name = chars "a"; type = file; size = 3 })
        else none;
  };
  links = λ p.
      if p == 5
      then some (record root_links { children = some 7; looked_for_children = true })
      else if p == 7
      then some (record root_links { inode = 2; parent = some 5 })
      else none;
}

abbrev root_node : Node 3 tree 5
root_node = record {
  roomy = record { li = root; there = refl; held = omega arith; room = omega arith };
  l = record root_links { children = some 7; looked_for_children = true };
  linked = refl;
}

abbrev a_node : Node 3 tree 7
a_node = record {
  roomy = record {
    li = record root { name = chars "a"; type = file; size = 3 };
    there = refl;
    held = omega arith;
    room = omega arith;
  };
  l = record root_links { inode = 2; parent = some 5 };
  linked = refl;
}

abbrev children : Siblings 3 tree (some 7) (7 ∷ [])
unfolding Siblings
children = (refl, (a_node, refl))

abbrev root_directory : Directory 3 tree 5 (7 ∷ [])
root_directory = record { node = root_node; looked = refl; children = children }

abbrev no_parent : Parent 3 tree root_directory.node.l.parent
unfolding Parent
no_parent = tt

abbrev silent : Indexnode
silent path = (5, [])

fsfuse_readdir-Answered_example :
    Returns
      (Answered tree (
        take 4
          (drop 2 (dirents named_dirents 0 (directory_entries config root_directory no_parent)))))
      (fsfuse_readdir named_dirents config 1 silent 5 4 2
        (record { next = 0; block = λ p. none })
        tree)
fsfuse_readdir-Answered_example =
    fsfuse_readdir-Answered named_dirents config named_dirents-Sized 3 5 (7 ∷ []) 4 2
      (record { next = 0; block = λ p. none }) tree silent root_directory no_parent (omega arith)
      (omega arith)

root_dirents :
    dirents named_dirents 0 (directory_entries config root_directory no_parent)
    ≡ (b'.' ∷ 0 ∷ b'.' ∷ b'.' ∷ 0 ∷ b'a' ∷ 0 ∷ [])
unfolding dirents directory_entries Siblings Parent listed
root_dirents = refl

fsfuse_lookup-LookedUp_example :
    Returns
      (LookedUp
        (answer_of config 3 tree (some 7) (7 ∷ []) children (chars "a"))
        (named 3 tree (some 7) (7 ∷ []) children (chars "a"))
        tree)
      (fsfuse_lookup config 1 silent 1 (chars "a") (record { next = 0; block = λ p. none }) tree)
fsfuse_lookup-LookedUp_example =
    fsfuse_lookup-LookedUp 3 1 5 (7 ∷ []) config silent (chars "a")
      (record { next = 0; block = λ p. none }) tree refl (omega arith) root_directory (omega arith)
