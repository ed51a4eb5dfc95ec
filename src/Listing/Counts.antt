-- ===== src/Listing/Counts.antt =====
-- Reference counts of src/ref_count.c, as numbers above those of an earlier store.
use fsfuse.Base.{
  ℕ, ◌+◌, ◌-◌, ◌^◌, ◌<◌, ◌≡◌, refl, sym, ap, ◌∙◌, ◌≢◌, ◌⊎◌, inl, inr, Option, none, some, List, [],
  ◌∷◌, map, ◌==◌, if◌then◌else◌, ok, arith, Returns, returns, Returns-bind,
}
use fsfuse.Listing.{
  Listing, Store, ListingList, put, listing_copy, listing_delete, listing_get_client, ref_count_inc,
  ref_count_dec, listing_list_delete,
}

raised : ℕ → Option Listing → Option Listing
raised n none = none
raised n (some li) = some (record li { ref_count = li.ref_count + n })

-- The store has the listings of an earlier one, with `f` more references to each.
unfoldable pub Shifted : (ℕ → ℕ) → Store → Store → Type 0
unfolding raised
Shifted f st0 st = (p : ℕ) → st p ≡ raised (f p) (st0 p)

-- The listing is there, and has room for `n` references more.
pub record Roomy (n : ℕ) (st : Store) (p : ℕ) : Type 0 where
  pub li : Listing
  pub there : st p ≡ some li
  pub held : 0 < li.ref_count
  pub room : li.ref_count + n < 2 ^ 32

unfoldable pub one_more : ℕ → (ℕ → ℕ) → ℕ → ℕ
one_more p f q = if q == p then f q + 1 else f q

pub Shifted-of_same :
    (f g : ℕ → ℕ) (st0 st : Store) → ((q : ℕ) → f q ≡ g q) → Shifted f st0 st → Shifted g st0 st
unfolding Shifted raised
Shifted-of_same f g st0 st same s q = s q ∙ ap (λ n. raised n (st0 q)) (same q)

pub Shifted-refl : (st : Store) → Shifted (λ q. 0) st st
unfolding Shifted
Shifted-refl st q = unraised (st q)
  where
    unraised : (value : Option Listing) → value ≡ raised 0 value
    unraised none = refl
    unraised (some li) = ap (λ n. some (record li { ref_count = n })) (omega arith)

same_address : (q p : ℕ) → (q ≡ p) ⊎ (q ≢ p)
same_address q p = ground arith

pub put_here : (p q : ℕ) (value : Option Listing) (st : Store) → q ≡ p → put p value st q ≡ value
unfolding put
put_here p q value st e = ground arith

pub put_elsewhere :
    (p q : ℕ) (value : Option Listing) (st : Store) → q ≢ p → put p value st q ≡ st q
unfolding put
put_elsewhere p q value st ne = ground arith

pub one_more_here : (p : ℕ) (f : ℕ → ℕ) → one_more p f p ≡ f p + 1
unfolding one_more
one_more_here p f = ground arith

one_more_elsewhere : (p q : ℕ) (f : ℕ → ℕ) → q ≢ p → one_more p f q ≡ f q
unfolding one_more
one_more_elsewhere p q f ne = ground arith

inc_held : (c : ℕ) → 0 < c → c + 1 < 2 ^ 32 → ref_count_inc c ≡ ok (c + 1)
unfolding ref_count_inc
inc_held c held room = ground arith

dec_held : (c : ℕ) → 0 < c → ref_count_dec c ≡ ok (c - 1)
unfolding ref_count_dec
dec_held c held = ground arith

still_held : (c : ℕ) (li : Listing) → 0 < c → (if c == 0 then none else some li) ≡ some li
still_held c li held = ground arith

put-Shifted :
    (f g : ℕ → ℕ) (st0 st : Store) (p : ℕ) (value : Option Listing)
    → Shifted f st0 st
    → value ≡ raised (g p) (st0 p)
    → ((q : ℕ) → q ≢ p → f q ≡ g q)
    → Shifted g st0 (put p value st)
unfolding Shifted
put-Shifted f g st0 st p value s e same q = elim (same_address q p) [
  | inl here ↦ put_here p q value st here ∙ e ∙ ap (λ x. raised (g x) (st0 x)) (sym here)
  | inr ne ↦ put_elsewhere p q value st ne ∙ s q ∙ ap (λ n. raised n (st0 q)) (same q ne)
]

pub counted :
    (f : ℕ → ℕ) {n : ℕ} {st0 : Store} (st : Store) {p : ℕ}
    → Shifted f st0 st
    → (r : Roomy n st0 p) → st p ≡ some (record r.li { ref_count = r.li.ref_count + f p })
unfolding Shifted raised
counted f {n} {st0} st {p} s r = s p ∙ ap (raised (f p)) r.there

pub still_there :
    (f : ℕ → ℕ) (st0 st : Store) (p : ℕ) (li : Listing)
    → Shifted f st0 st
    → st0 p ≡ some li
    → st p ≡ some (record li { ref_count = li.ref_count + f p })
unfolding Shifted raised
still_there f st0 st p li s e = s p ∙ ap (raised (f p)) e

pub listing_get_client_lem :
    (f : ℕ → ℕ) {n : ℕ} {st0 : Store} (st : Store) {p : ℕ}
    → Shifted f st0 st
    → (r : Roomy n st0 p) → listing_get_client p st ≡ ok r.li.client
unfolding listing_get_client
listing_get_client_lem f st s r = rw (counted f st s r) refl

pub copy-Shifted :
    (f : ℕ → ℕ) (n : ℕ) (st0 st : Store) (p : ℕ)
    → Shifted f st0 st
    → Roomy n st0 p
    → f p < n
    → Returns (Shifted (one_more p f) st0) (listing_copy p st)
unfolding listing_copy raised
copy-Shifted f n st0 st p s r lt =
    rw
      (
        counted f st s r,
        inc_held (r.li.ref_count + f p) (omega (arith, r.held)) (omega (arith, r.room, lt)),
      )
      (returns (
        put-Shifted f (one_more p f) st0 st p _ s
          (sym (
            ap (λ v. raised (one_more p f p) v) r.there
            ∙ ap (λ n. some (record r.li { ref_count = n })) (omega (arith, one_more_here p f))))
          (λ q ne. sym (one_more_elsewhere p q f ne))))

pub delete-Shifted :
    (f : ℕ → ℕ) (n : ℕ) (st0 st : Store) (p : ℕ)
    → Shifted (one_more p f) st0 st
    → Roomy n st0 p
    → Returns (Shifted f st0) (listing_delete p st)
unfolding listing_delete raised
delete-Shifted f n st0 st p s r =
    rw
      (
        counted (one_more p f) st s r,
        one_more_here p f,
        dec_held (r.li.ref_count + (f p + 1)) (omega arith),
        still_held (r.li.ref_count + (f p + 1) - 1)
            (record r.li { ref_count = r.li.ref_count + (f p + 1) - 1 }) (omega (arith, r.held)),
      )
      (returns (
        put-Shifted (one_more p f) f st0 st p _ s
          (sym (
            ap (λ v. raised (f p) v) r.there
            ∙ ap (λ n. some (record r.li { ref_count = n })) (omega arith)))
          (λ q ne. one_more_elsewhere p q f ne)))

-- How often an address is on a list.
unfoldable pub tally : ℕ → List ℕ → ℕ
tally q [] = 0
tally q (x ∷ xs) = if q == x then tally q xs + 1 else tally q xs

unfoldable pub AllRoomy : ℕ → Store → List ℕ → Type 0
AllRoomy n st [] = Unit
AllRoomy n st (x ∷ xs) = Roomy n st x × AllRoomy n st xs

abbrev pub pointers : List ℕ → ListingList
pointers xs = map some xs

no_tally : (g : ℕ → ℕ) (q : ℕ) → tally q [] + g q ≡ g q
unfolding tally
no_tally g q = omega arith

pub more_tally :
    (g : ℕ → ℕ) (x : ℕ) (xs : List ℕ) (q : ℕ)
    → tally q (x ∷ xs) + g q ≡ one_more x (λ a. tally a xs + g a) q
unfolding tally one_more
more_tally g x xs q = ground arith

-- One reference of each item goes.
pub list_delete-Shifted :
    (g : ℕ → ℕ) (n : ℕ) (st0 : Store) (xs : List ℕ) (st : Store)
    → AllRoomy n st0 xs
    → Shifted (λ q. tally q xs + g q) st0 st
    → Returns (Shifted g st0) (listing_list_delete (pointers xs) st)
unfolding listing_list_delete AllRoomy
list_delete-Shifted g n st0 [] st r s = returns (Shifted-of_same _ g st0 st (no_tally g) s)
list_delete-Shifted g n st0 (x ∷ xs) st (here, later) s =
    Returns-bind
      (delete-Shifted (λ q. tally q xs + g q) n st0 st x
        (Shifted-of_same _ _ st0 st (more_tally g x xs) s) here)
      (λ st' s'. list_delete-Shifted g n st0 xs st' later s')
