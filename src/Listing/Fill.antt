-- ===== src/Listing/Fill.antt =====
-- Arrays of src/nativefs/listing_list.c that are filled from the front.
use mathlib.Core.List.{append-nil}
use fsfuse.Base.{
  ℕ, suc, ◌+◌, ◌-◌, ◌≤◌, ◌<◌, ◌≡◌, refl, ap, ◌∙◌, some, List, [], ◌∷◌, ◌++◌, length, take, ok,
  arith, Returns, returns, Returns-bind,
}
use fsfuse.Listing.{
  Store, ListingList, nulls, set_nth, nth, listing_list_new, listing_list_resize,
  listing_list_set_item, listing_list_get_item,
}
use fsfuse.Listing.Counts.{Shifted, Roomy, one_more, copy-Shifted, pointers}

-- The items, and NULL from there on.
pub filled : List ℕ → ℕ → ListingList
filled xs free = pointers xs ++ nulls free

pub new_filled : (n : ℕ) → listing_list_new n ≡ filled [] n
unfolding listing_list_new filled
new_filled n = refl

set_next :
    (xs : List ℕ) (n p : ℕ)
    → set_nth (length xs) p (filled xs (suc n)) ≡ ok (filled (xs ++ (p ∷ [])) n)
unfolding set_nth filled nulls
set_next [] n p = refl
set_next (x ∷ xs) n p = rw (set_next xs n p) refl

-- The next item is set.
pub set_item-Shifted :
    (f : ℕ → ℕ) (n : ℕ) (st0 st : Store) (xs : List ℕ) (free p : ℕ)
    → Shifted f st0 st
    → Roomy n st0 p
    → f p < n
    → Returns
        (λ r. (r.0 ≡ filled (xs ++ (p ∷ [])) free) × Shifted (one_more p f) st0 r.1)
        (listing_list_set_item (length xs) p (filled xs (suc free)) st)
unfolding listing_list_set_item
set_item-Shifted f n st0 st xs free p s r lt =
    Returns-bind (copy-Shifted f n st0 st p s r lt)
      (λ st' s'. rw (set_next xs free p) (returns (refl, s')))

take-pointers : (xs : List ℕ) (free : ℕ) → take (length xs) (filled xs free) ≡ pointers xs
unfolding filled
take-pointers [] free = refl
take-pointers (x ∷ xs) free = ap (◌∷◌ (some x)) (take-pointers xs free)

length_filled : (xs : List ℕ) (free : ℕ) → length xs ≤ length (filled xs free)
unfolding filled
length_filled [] free = omega arith
length_filled (x ∷ xs) free = omega (arith, length_filled xs free)

append_nothing : (lis : ListingList) (n : ℕ) → n ≡ 0 → lis ++ nulls n ≡ lis
unfolding nulls
append_nothing [] n e = rw e refl
append_nothing (x ∷ lis) n e = ap (◌∷◌ x) (append_nothing lis n e)

pub resize_filled :
    (xs : List ℕ) (free : ℕ) → listing_list_resize (length xs) (filled xs free) ≡ pointers xs
unfolding listing_list_resize
resize_filled xs free =
    append_nothing (take (length xs) (filled xs free)) (length xs - length (filled xs free))
      (omega (arith, length_filled xs free))
    ∙ take-pointers xs free

-- An item is got.
pub get_item-Shifted :
    (f : ℕ → ℕ) (n : ℕ) (st0 st : Store) (xs : List ℕ) (i : ℕ) {p : ℕ}
    → nth i (pointers xs) ≡ some p
    → Shifted f st0 st
    → Roomy n st0 p
    → f p < n
    → Returns
        (λ r. (r.0 ≡ p) × Shifted (one_more p f) st0 r.1)
        (listing_list_get_item i (pointers xs) st)
unfolding listing_list_get_item
get_item-Shifted f n st0 st xs i {p} e s r lt =
    rw e (Returns-bind (copy-Shifted f n st0 st p s r lt) (λ st' s'. returns (refl, s')))

suc_plus_one : (n : ℕ) → suc n + 1 ≡ suc (n + 1)
suc_plus_one n = omega arith

suc_minus_suc : (m n : ℕ) → suc m - suc n ≡ m - n
suc_minus_suc m n = omega arith

-- An array that is full has room for one item more once it is resized.
pub resize_more : (xs : List ℕ) → listing_list_resize (length xs + 1) (filled xs 0) ≡ filled xs 1
unfolding listing_list_resize filled nulls
resize_more [] = refl
resize_more (x ∷ xs) =
    rw (suc_plus_one (length xs), suc_minus_suc (length xs + 1) (length (filled xs 0)))
      (ap (◌∷◌ (some x)) (resize_more xs))

pub length-filled : (xs : List ℕ) → length (filled xs 0) ≡ length xs
unfolding filled nulls
length-filled [] = refl
length-filled (x ∷ xs) = ap suc (length-filled xs)

pub filled-pointers : (xs : List ℕ) → filled xs 0 ≡ pointers xs
unfolding filled nulls
filled-pointers xs = append-nil (pointers xs)
