-- ===== src/Listing.antt =====
-- src/ref_count.c, src/nativefs/listing.c and src/nativefs/listing_list.c: listings counted by their
-- references, and arrays of them.
pub mod Counts
pub mod Fill
use fsfuse.Base.{
  ℕ, zero, suc, ◌+◌, ◌-◌, ◌%◌, ◌^◌, Bool, true, false, Option, none, some, List, [], ◌∷◌, ◌++◌, ltb,
  ◌==◌, if◌then◌else◌, length, take, Run, fault, ok, ◌>>=◌, ◌>>◌, or_fault, check,
}
use fsfuse.Base.Bytes.{Str}

pub data ListingType : Type 0 where
  file directory : ListingType

-- struct _listing_t, with the number of its ref_count_t. Its indexnode is not followed.
pub record Listing : Type 0 where
  pub ref_count : ℕ
  pub name : Str
  pub hash : Str
  pub type : ListingType
  pub size : ℕ
  pub link_count : ℕ
  pub href : Str
  pub client : Str

-- The listings that are allocated.
abbrev pub Store : Type 0
Store = ℕ → Option Listing

unfoldable pub put : ℕ → Option Listing → Store → Store
put p value st q = if q == p then value else st q

-- Under the mutex; the counter is unsigned.
unfoldable pub ref_count_inc : ℕ → Run ℕ
ref_count_inc count = if count == 0 then fault else ok ((count + 1) % 2 ^ 32)

unfoldable pub ref_count_dec : ℕ → Run ℕ
ref_count_dec count = if count == 0 then fault else ok (count - 1)

unfoldable pub listing_copy : ℕ → Store → Run Store
unfolding ref_count_inc
listing_copy p st = do
  li ← or_fault (st p)
  count ← ref_count_inc li.ref_count
  ok (put p (some (record li { ref_count = count })) st)

unfoldable pub listing_delete : ℕ → Store → Run Store
unfolding ref_count_dec
listing_delete p st = do
  li ← or_fault (st p)
  count ← ref_count_dec li.ref_count
  ok (put p (if count == 0 then none else some (record li { ref_count = count })) st)

pub listing_get_client : ℕ → Store → Run Str
listing_get_client p st = do li ← or_fault (st p); ok li.client

-- The items of struct _listing_list_t, none for NULL. Its count is their number.
abbrev pub ListingList : Type 0
ListingList = List (Option ℕ)

pub nulls : ℕ → ListingList
nulls zero = []
nulls (suc n) = none ∷ nulls n

pub listing_list_new : ℕ → ListingList
unfolding nulls
listing_list_new count = nulls count

pub listing_list_resize : ℕ → ListingList → ListingList
unfolding nulls
listing_list_resize new_count lis = take new_count lis ++ nulls (new_count - length lis)

set_nth : ℕ → ℕ → ListingList → Run ListingList
set_nth item p [] = fault
set_nth zero p (x ∷ lis) = ok (some p ∷ lis)
set_nth (suc item) p (x ∷ lis) = do rest ← set_nth item p lis; ok (x ∷ rest)

pub listing_list_set_item : ℕ → ℕ → ListingList → Store → Run (ListingList × Store)
unfolding set_nth listing_copy
listing_list_set_item item p lis st = do
  st' ← listing_copy p st
  lis' ← set_nth item p lis
  ok (lis', st')

unfoldable pub nth : ℕ → ListingList → Option ℕ
nth item [] = none
nth zero (x ∷ lis) = x
nth (suc item) (x ∷ lis) = nth item lis

unfoldable pub listing_list_get_item : ℕ → ListingList → Store → Run (ℕ × Store)
unfolding nth listing_copy
listing_list_get_item item lis st = do
  p ← or_fault (nth item lis)
  st' ← listing_copy p st
  ok (p, st')

pub listing_list_delete : ListingList → Store → Run Store
unfolding listing_delete
listing_list_delete [] st = ok st
listing_list_delete (x ∷ lis) st = do
  p ← or_fault x
  st' ← listing_delete p st
  listing_list_delete lis st'
