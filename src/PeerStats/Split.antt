-- ===== src/PeerStats/Split.antt =====
-- split_list of src/peerstats.c puts every alternative on one list, in order.
use fsfuse.Base.{
  ℕ, ◌+◌, ◌<◌, ◌≡◌, ==_refl, Bool, not, ◌&&◌, Option, List, [], ◌∷◌, ◌++◌, length, arith, Returns,
  returns, Returns-bind,
}
use fsfuse.Base.Bytes.{Str}
use fsfuse.Listing.{Store, ListingList}
use fsfuse.Listing.Counts.{
  Shifted, Shifted-of_same, Shifted-refl, AllRoomy, one_more, one_more_here, copy-Shifted,
  delete-Shifted, pointers,
}
use fsfuse.PeerStats.{Lists, listed, split_loop, split_list}
use fsfuse.PeerStats.Filling.{
  client_of, keep, added_keep, counts, Filling, place-Filling, counts_le, get_client_lem,
  lengths-added, keep_nil, counts_added, start-Front, resize_items, none_counted, length-pointers,
}

module _ (favs blocks : Option (List Str)) (st0 : Store) where
  is_fav : ℕ → Bool
  is_fav p = listed (client_of (st0 p)) favs

  is_blocked : ℕ → Bool
  is_blocked p = listed (client_of (st0 p)) blocks

  pub is_favourite : ℕ → Bool
  unfolding is_fav
  is_favourite p = is_fav p

  pub is_normal : ℕ → Bool
  unfolding is_fav is_blocked
  is_normal p = not (is_fav p) && not (is_blocked p)

  pub is_block : ℕ → Bool
  unfolding is_fav is_blocked
  is_block p = not (is_fav p) && is_blocked p

  split_loop-Filling :
      (n : ℕ) (xs a b c : List ℕ) (ls : Lists) (st : Store)
      → Filling a b c (length xs) ls
      → Shifted (counts a b c) st0 st
      → AllRoomy n st0 xs
      → length a + length b + length c + length xs + 1 < n
      → Returns
          (λ r.
            Filling
              (a ++ keep is_favourite xs)
              (b ++ keep is_normal xs)
              (c ++ keep is_block xs)
              0
              r.0
            × Shifted
                (counts
                  (a ++ keep is_favourite xs)
                  (b ++ keep is_normal xs)
                  (c ++ keep is_block xs))
                st0
                r.1)
          (split_loop favs blocks (pointers xs) ls st)
  unfolding split_loop AllRoomy is_favourite is_normal is_block is_fav is_blocked
  split_loop-Filling n [] a b c ls st x s r lt =
      rw (keep_nil is_favourite a, keep_nil is_normal b, keep_nil is_block c) (returns (x, s))
  split_loop-Filling n (p ∷ xs) a b c ls st x s (here, later) lt =
      let near = counts_le a b c p in
      Returns-bind (copy-Shifted (counts a b c) n st0 st p s here (omega (arith, near, lt)))
        (λ st1 s1. rw (get_client_lem (one_more p (counts a b c)) st0 st1 s1 here) (
          Returns-bind
            (place-Filling (is_fav p) (is_blocked p) a b c (length xs) p ls
              (one_more p (counts a b c)) n st0 st1 x s1 here
              (omega (arith, near, lt, one_more_here p (counts a b c))))
            (λ out o.
              Returns-bind (delete-Shifted (one_more p (counts a b c)) n st0 out.1 p o.1 here)
                (λ st3 s3.
                  rw
                    (
                      added_keep is_favourite p xs a,
                      added_keep is_normal p xs b,
                      added_keep is_block p xs c,
                    )
                    (split_loop-Filling n xs _ _ _ out.0 st3 o.0
                      (Shifted-of_same _ _ st0 st3 (counts_added (is_fav p) (is_blocked p) a b c p)
                        s3)
                      later
                      (omega (arith, lt, lengths-added (is_fav p) (is_blocked p) p a b c)))))))

  -- The lists of split_list, and a reference more for every item of each.
  pub record Parted (xs : List ℕ) (r : ListingList × ListingList × ListingList × Store)
      : Type 0 where
    pub fav_list : r.0 ≡ pointers (keep is_favourite xs)
    pub normal_list : r.1 ≡ pointers (keep is_normal xs)
    pub block_list : r.2 ≡ pointers (keep is_block xs)
    pub references :
        Shifted (counts (keep is_favourite xs) (keep is_normal xs) (keep is_block xs)) st0 r.3

  pub length-keep :
      (xs : List ℕ)
      → length (keep is_favourite xs) + length (keep is_block xs) + length (keep is_normal xs)
        ≡ length xs
  unfolding keep is_favourite is_normal is_block
  length-keep [] = omega arith
  length-keep (p ∷ xs) = ground (arith, length-keep xs)

  -- split_list on alternatives that are there ends, and puts each on exactly one list, in order:
  -- with the favourites if its client is one, else with the blocked if its client is, else with the
  -- others. Every listing has a reference more for the list that it is on.
  pub split_list-Parted :
      (xs : List ℕ)
      → AllRoomy (length xs + 2) st0 xs
      → Returns (Parted xs) (split_list (pointers xs) favs blocks st0)
  unfolding split_list
  split_list-Parted xs r =
      let start = start-Front (length xs) in
      rw (length-pointers xs) (
        Returns-bind
          (split_loop-Filling (length xs + 2) xs [] [] [] _ st0
            (record { favs = start; normals = start; blocks = start })
            (Shifted-of_same _ _ st0 st0 none_counted (Shifted-refl st0)) r (omega arith))
          (λ out o.
            let x = o.0 in
            rw (x.favs.count, x.normals.count, x.blocks.count, length-keep xs, ==_refl (length xs))
              (returns (record {
                fav_list = resize_items (x.favs);
                normal_list = resize_items (x.normals);
                block_list = resize_items (x.blocks);
                references = o.1;
              }))))
