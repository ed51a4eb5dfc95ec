-- ===== src/PeerStats.antt =====
-- src/peerstats.c: the choice among the alternatives of a file.
pub mod Filling
pub mod Split
pub mod Choice
mod Tests
use fsfuse.Base.{
  ℕ, zero, suc, ◌+◌, ◌%◌, Bool, true, false, ◌&&◌, ◌||◌, Option, none, some, List, [], ◌∷◌, ltb,
  ◌==◌, if◌then◌else◌, length, Run, fault, ok, ◌>>=◌, ◌>>◌, or_fault, check,
}
use fsfuse.Base.Bytes.{Str, str_eq}
use fsfuse.Listing.{
  Store, ListingList, listing_copy, listing_delete, listing_get_client, listing_list_new,
  listing_list_resize, listing_list_set_item, listing_list_get_item, listing_list_delete,
}

-- The scan of a list of clients that NULL ends. None where the list is NULL itself.
among : Str → List Str → Bool
among client [] = false
among client (c ∷ clients) = str_eq client c || among client clients

pub listed : Str → Option (List Str) → Bool
unfolding among
listed client none = false
listed client (some clients) = among client clients

-- The three lists with how many items each has so far.
pub record Lists : Type 0 where
  pub favs : ListingList
  pub fav_count : ℕ
  pub normals : ListingList
  pub normal_count : ℕ
  pub blocks : ListingList
  pub block_count : ℕ

-- One listing is put on the list that it belongs to.
pub place : Bool → Bool → ℕ → Lists → Store → Run (Lists × Store)
place true blocked p ls st = do
  r ← listing_list_set_item ls.fav_count p ls.favs st
  ok (record ls { favs = r.0; fav_count = ls.fav_count + 1 }, r.1)
place false true p ls st = do
  r ← listing_list_set_item ls.block_count p ls.blocks st
  ok (record ls { blocks = r.0; block_count = ls.block_count + 1 }, r.1)
place false false p ls st = do
  r ← listing_list_set_item ls.normal_count p ls.normals st
  ok (record ls { normals = r.0; normal_count = ls.normal_count + 1 }, r.1)

-- The loop over the alternatives from an item on.
pub split_loop :
    Option (List Str) → Option (List Str) → ListingList → Lists → Store → Run (Lists × Store)
unfolding place listed
split_loop favs blocks [] ls st = ok (ls, st)
split_loop favs blocks (item ∷ items) ls st = do
  p ← or_fault item
  st1 ← listing_copy p st
  client ← listing_get_client p st1
  r ← place (listed client favs) (listed client blocks) p ls st1
  st3 ← listing_delete p r.1
  split_loop favs blocks items r.0 st3

pub split_list :
    ListingList
    → Option (List Str)
    → Option (List Str)
    → Store
    → Run (ListingList × ListingList × ListingList × Store)
unfolding split_loop
split_list alts favs blocks st =
    let empty = listing_list_new (length alts) in
    do
      r ←
          split_loop favs blocks alts
            (record {
              favs = empty;
              fav_count = 0;
              normals = empty;
              normal_count = 0;
              blocks = empty;
              block_count = 0;
            })
            st
      check (((r.0).fav_count + (r.0).block_count + (r.0).normal_count) == length alts)
          >> ok (
            listing_list_resize (r.0).fav_count (r.0).favs,
            listing_list_resize (r.0).normal_count (r.0).normals,
            listing_list_resize (r.0).block_count (r.0).blocks,
            r.1,
          )

draw : ℕ → ListingList → Store → Run (Option ℕ × Store)
draw random lis st = do r ← listing_list_get_item (random % length lis) lis st; ok (some r.0, r.1)

-- A favourite if there is one, else one that is not blocked. `random` is what random() gives.
pick : ℕ → ListingList → ListingList → Store → Run (Option ℕ × Store)
unfolding draw
pick random [] [] st = ok (none, st)
pick random [] (x ∷ normals) st = draw random (x ∷ normals) st
pick random (x ∷ favs) normals st = draw random (x ∷ favs) st

pub peerstats_chose_alternative :
    ListingList → Option (List Str) → Option (List Str) → ℕ → Store → Run (Option ℕ × Store)
unfolding split_list pick
peerstats_chose_alternative alts favs blocks random st = do
  (fav_list, normal_list, block_list, st1) ← split_list alts favs blocks st
  (ret, st2) ← pick random fav_list normal_list st1
  st3 ← listing_list_delete fav_list st2
  st4 ← listing_list_delete normal_list st3
  st5 ← listing_list_delete block_list st4
  ok (ret, st5)
