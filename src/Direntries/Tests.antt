-- ===== src/Direntries/Tests.antt =====
-- The root with a file and a directory in it, and an indexnode that lists one file.
use fsfuse.Base.{
  ℕ, none, some, [], ◌∷◌, ◌≡◌, refl, arith, Returns, if◌then◌else◌, ◌==◌, ◌>>=◌, true, Bool,
}
use fsfuse.Base.Bytes.{Str, chars, str_eq}
use fsfuse.Base.Heap.{Heap}
use fsfuse.Listing.{Listing, file, directory}
use fsfuse.Direntries.{
  Tree, Entry, Indexnode, direntry_get_path, direntry_delete_list, direntry_get_first_child,
  root_links,
}
use fsfuse.Direntries.Above.{Node, Held, Above, path_text, PathOf, direntry_get_path-PathOf}
use fsfuse.Direntries.Siblings.{Siblings, named, Directory, direntry_delete_list-Held}

abbrev listing : Str → ℕ → Listing
listing name type_tag = record {
  ref_count = 2;
  name = name;
  hash = [];
  type = if type_tag == 0 then file else directory;
  size = 3;
  link_count = 1;
  href = [];
  client = [];
}

abbrev tree : Bool → Tree
tree looked = record {
  fs = record {
    inode_map = λ i. if i == 1 then some 5 else none;
    inode_map_size = 32;
    inode_map_used = 2;
    inode_next = 2;
    store = λ p.
        if p == 5
        then some (listing [] 1)
        else if p == 7
        then some (listing (chars "a") 0)
        else if p == 8
        then some (listing (chars "b") 1)
        else none;
  };
  links = λ p.
      if p == 5
      then some (record root_links { children = some 7; looked_for_children = looked })
      else if p == 7
      then some (record root_links { inode = 2; parent = some 5; next = some 8; has_in = true })
      else if p == 8
      then some (record root_links { inode = 3; parent = some 5; has_in = true })
      else none;
}

abbrev root_node : (looked : Bool) → Node 3 (tree looked) 5
root_node looked = record {
  roomy = record { li = listing [] 1; there = refl; held = omega arith; room = omega arith };
  l = record root_links { children = some 7; looked_for_children = looked };
  linked = refl;
}

abbrev a_node : (looked : Bool) → Node 3 (tree looked) 7
a_node looked = record {
  roomy = record {
    li = listing (chars "a") 0;
    there = refl;
    held = omega arith;
    room = omega arith;
  };
  l = record root_links { inode = 2; parent = some 5; next = some 8; has_in = true };
  linked = refl;
}

abbrev b_node : (looked : Bool) → Node 3 (tree looked) 8
b_node looked = record {
  roomy = record {
    li = listing (chars "b") 1;
    there = refl;
    held = omega arith;
    room = omega arith;
  };
  l = record root_links { inode = 3; parent = some 5; has_in = true };
  linked = refl;
}

abbrev b_Above : Above 3 (tree true) 8 (5 ∷ [])
unfolding Above
b_Above = ((b_node true, refl), (root_node true, refl))

direntry_get_path-PathOf_example :
    Returns
      (PathOf (tree true) (path_text 3 (tree true) 8 (5 ∷ []) b_Above))
      (direntry_get_path 2 8 (record { next = 0; block = λ p. none }) (tree true))
direntry_get_path-PathOf_example =
    direntry_get_path-PathOf 3 8 (5 ∷ []) (record { next = 0; block = λ p. none }) (tree true)
      b_Above (omega arith)

b_path : path_text 3 (tree true) 8 (5 ∷ []) b_Above ≡ chars "/b/"
unfolding path_text Above
b_path = refl

abbrev no_heap : Heap
no_heap = record { next = 0; block = λ p. none }

abbrev children : (looked : Bool) → Siblings 3 (tree looked) (some 7) (7 ∷ 8 ∷ [])
unfolding Siblings
children looked = (refl, (a_node looked, (refl, (b_node looked, refl))))

abbrev root_directory : Directory 3 (tree true) 5 (7 ∷ 8 ∷ [])
root_directory = record { node = root_node true; looked = refl; children = children true }

abbrev silent : Indexnode
silent path = (5, [])

b_found : named 3 (tree true) (some 7) (7 ∷ 8 ∷ []) (children true) (chars "b") ≡ some 8
unfolding named Siblings str_eq
b_found = refl

abbrev song : Entry
song = record {
  address = 9;
  name = chars "song";
  hash = chars "12";
  type = chars "file";
  size = 4;
  link_count = 1;
  href = [];
  client = [];
}

abbrev lists_song : ℕ → Indexnode
lists_song rc path = (rc, song ∷ [])

direntry_delete_list-Held_example :
    Returns
      (Held (λ x. 0) (tree true))
      (do (first, t1) ← direntry_get_first_child 5 (tree true); direntry_delete_list 2 first t1)
direntry_delete_list-Held_example =
    direntry_delete_list-Held 3 5 (7 ∷ 8 ∷ []) (tree true) root_directory (omega arith)
