-- ===== src/PeerStats/Filling.antt =====
-- The lists of split_list in src/peerstats.c while they are filled.
use fsfuse.Base.{
  ℕ, zero, suc, ◌+◌, ◌≤◌, ◌<◌, ◌≡◌, refl, sym, ap, ◌∙◌, Bool, true, false, not, ◌&&◌, Option, none,
  some, List, [], ◌∷◌, ◌++◌, length, length-append, if◌then◌else◌, ok, arith, Returns, returns,
  Returns-bind, Returns-map,
}
use fsfuse.Base.Bytes.{Str}
use fsfuse.Listing.{
  Listing, Store, ListingList, listing_get_client, listing_list_new, listing_list_resize,
  listing_list_set_item,
}
use fsfuse.Listing.Counts.{Shifted, Roomy, one_more, listing_get_client_lem, tally, pointers}
use fsfuse.Listing.Fill.{filled, new_filled, set_item-Shifted, resize_filled}
use fsfuse.PeerStats.{Lists, place}

pub client_of : Option Listing → Str
client_of none = []
client_of (some li) = li.client

-- What the lists should hold.
unfoldable pub keep : (ℕ → Bool) → List ℕ → List ℕ
keep test [] = []
keep test (p ∷ xs) = if test p then p ∷ keep test xs else keep test xs

pub added : Bool → ℕ → List ℕ → List ℕ
added true p a = a ++ (p ∷ [])
added false p a = a

pub added_keep :
    (test : ℕ → Bool) (p : ℕ) (xs a : List ℕ)
    → a ++ keep test (p ∷ xs) ≡ added (test p) p a ++ keep test xs
unfolding keep added
added_keep test p xs a = by_test (test p) (keep test xs) a
  where
    by_test :
        (b : Bool) (rest a : List ℕ) → a ++ (if b then p ∷ rest else rest) ≡ added b p a ++ rest
    by_test true rest [] = refl
    by_test true rest (x ∷ a) = ap (◌∷◌ x) (by_test true rest a)
    by_test false rest a = refl

-- The references that three lists hold.
unfoldable pub counts : List ℕ → List ℕ → List ℕ → ℕ → ℕ
counts a b c q = tally q a + tally q b + tally q c

-- A list so far, with room for more.
pub record Front (xs : List ℕ) (room number : ℕ) (lis : ListingList) : Type 0 where
  pub free : ℕ
  pub items : lis ≡ filled xs free
  pub count : number ≡ length xs
  pub enough : room ≤ free

pub record Filling (a b c : List ℕ) (room : ℕ) (ls : Lists) : Type 0 where
  pub favs : Front a room ls.fav_count ls.favs
  pub normals : Front b room ls.normal_count ls.normals
  pub blocks : Front c room ls.block_count ls.blocks

pub less_room :
    {xs : List ℕ} {room count : ℕ} {lis : ListingList}
    → Front xs (suc room) count lis
    → Front xs room count lis
less_room x = record {
  free = x.free;
  items = x.items;
  count = x.count;
  enough = omega (arith, x.enough);
}

pub tally_snoc : (q p : ℕ) (a : List ℕ) → tally q (a ++ (p ∷ [])) ≡ one_more p (λ x. tally x a) q
unfolding tally one_more
tally_snoc q p [] = ground arith
tally_snoc q p (x ∷ a) = ground (arith, tally_snoc q p a)

pub tally_le : (q : ℕ) (a : List ℕ) → tally q a ≤ length a
unfolding tally
tally_le q [] = omega arith
tally_le q (x ∷ a) = ground (arith, tally_le q a)

pub set_at :
    (f : ℕ → ℕ) (n : ℕ) (st0 st : Store) (xs : List ℕ) (room p count free : ℕ) (lis : ListingList)
    → count ≡ length xs
    → lis ≡ filled xs free
    → suc room ≤ free
    → Shifted f st0 st
    → Roomy n st0 p
    → f p < n
    → Returns
        (λ r. Front (xs ++ (p ∷ [])) room (count + 1) r.0 × Shifted (one_more p f) st0 r.1)
        (listing_list_set_item count p lis st)
set_at f n st0 st xs room p count zero lis ec el enough s r lt = absurd (omega (arith, enough))
set_at f n st0 st xs room p count (suc free) lis ec el enough s r lt =
    rw (ec, el)
      (Returns-map (set_item-Shifted f n st0 st xs free p s r lt) (λ out o. (
        record {
          free = free;
          items = o.0;
          count = omega (arith, length-append xs (p ∷ []));
          enough = omega (arith, enough);
        },
        o.1,
      )))

pub place-Filling :
    (fav blocked : Bool) (a b c : List ℕ) (room p : ℕ) (ls : Lists) (f : ℕ → ℕ) (n : ℕ)
    (st0 st : Store)
    → Filling a b c (suc room) ls
    → Shifted f st0 st
    → Roomy n st0 p
    → f p < n
    → Returns
        (λ r.
          Filling
            (added fav p a)
            (added (not fav && not blocked) p b)
            (added (not fav && blocked) p c)
            room
            r.0
          × Shifted (one_more p f) st0 r.1)
        (place fav blocked p ls st)
unfolding place added
place-Filling true blocked a b c room p ls f n st0 st x s r lt =
    let y = x.favs in
    Returns-bind
      (set_at f n st0 st a room p ls.fav_count y.free ls.favs y.count y.items y.enough s r lt)
      (λ out o.
        returns
          (record { favs = o.0; normals = less_room x.normals; blocks = less_room x.blocks }, o.1))
place-Filling false true a b c room p ls f n st0 st x s r lt =
    let y = x.blocks in
    Returns-bind
      (set_at f n st0 st c room p ls.block_count y.free ls.blocks y.count y.items y.enough s r lt)
      (λ out o.
        returns
          (record { favs = less_room x.favs; normals = less_room x.normals; blocks = o.0 }, o.1))
place-Filling false false a b c room p ls f n st0 st x s r lt =
    let y = x.normals in
    Returns-bind
      (set_at f n st0 st b room p ls.normal_count y.free ls.normals y.count y.items y.enough s r lt)
      (λ out o.
        returns
          (record { favs = less_room x.favs; normals = o.0; blocks = less_room x.blocks }, o.1))

pub counts_le : (a b c : List ℕ) (q : ℕ) → counts a b c q ≤ length a + length b + length c
unfolding counts
counts_le a b c q = omega (arith, tally_le q a, tally_le q b, tally_le q c)

pub get_client_lem :
    (f : ℕ → ℕ) {n : ℕ} (st0 st : Store) {p : ℕ}
    → Shifted f st0 st
    → (r : Roomy n st0 p) → listing_get_client p st ≡ ok (client_of (st0 p))
unfolding client_of
get_client_lem f st0 st s r =
    listing_get_client_lem f st s r ∙ ap (λ o. ok (client_of o)) (sym r.there)

pub length-added :
    (b : Bool) (p : ℕ) (a : List ℕ) → length (added b p a) ≡ (if b then length a + 1 else length a)
unfolding added
length-added true p a = omega (arith, length-append a (p ∷ []))
length-added false p a = refl

pub lengths-added :
    (fav blocked : Bool) (p : ℕ) (a b c : List ℕ)
    → length (added fav p a)
        + length (added (not fav && not blocked) p b)
        + length (added (not fav && blocked) p c)
      ≡ length a + length b + length c + 1
lengths-added true blocked p a b c =
    omega (arith, length-added true p a, length-added false p b, length-added false p c)
lengths-added false true p a b c =
    omega (arith, length-added false p a, length-added false p b, length-added true p c)
lengths-added false false p a b c =
    omega (arith, length-added false p a, length-added true p b, length-added false p c)

pub keep_nil : (test : ℕ → Bool) (a : List ℕ) → a ++ keep test [] ≡ a
unfolding keep
keep_nil test [] = refl
keep_nil test (x ∷ a) = ap (◌∷◌ x) (keep_nil test a)

pub counts_added :
    (fav blocked : Bool) (a b c : List ℕ) (p q : ℕ)
    → one_more p (counts a b c) q
      ≡ counts
          (added fav p a)
          (added (not fav && not blocked) p b)
          (added (not fav && blocked) p c)
          q
unfolding counts added one_more
counts_added true blocked a b c p q = ground (arith, tally_snoc q p a)
counts_added false true a b c p q = ground (arith, tally_snoc q p c)
counts_added false false a b c p q = ground (arith, tally_snoc q p b)

pub start-Front : (n : ℕ) → Front [] n 0 (listing_list_new n)
start-Front n = record { free = n; items = new_filled n; count = refl; enough = omega arith }

pub resize_items :
    {xs : List ℕ} {room number : ℕ} {lis : ListingList}
    → Front xs room number lis
    → listing_list_resize (length xs) lis ≡ pointers xs
resize_items {xs} {room} {number} {lis} x = rw x.items (resize_filled xs x.free)

pub none_counted : (q : ℕ) → 0 ≡ counts [] [] [] q
unfolding counts tally
none_counted q = refl

pub length-pointers : (xs : List ℕ) → length (pointers xs) ≡ length xs
length-pointers [] = refl
length-pointers (x ∷ xs) = omega (arith, length-pointers xs)
