-- ===== src/FuseMethods/Counts.antt =====
-- The references to a direntry that src/fuse_methods take and drop by direntry_copy and direntry_delete.
use fsfuse.Base.{
  ℕ, ◌+◌, ◌-◌, ◌^◌, ◌<◌, ◌≡◌, refl, sym, ◌∙◌, ◌≢◌, Option, none, some, ◌==◌, if◌then◌else◌, lt→ltb,
  ok, arith, Returns, returns,
}
use fsfuse.Listing.{Listing, Store, put, ref_count_inc, ref_count_dec, listing_copy, listing_delete}
use fsfuse.FuseMethods.{Fs, inode_map_get, direntry_get_by_inode, direntry_delete}

-- The inode map leads to a listing.
pub record Mapped (ino de : ℕ) (li : Listing) (fs : Fs) : Type 0 where
  pub inode : fs.inode_map ino ≡ some de
  pub used : ino < fs.inode_map_used
  pub there : fs.store de ≡ some li

-- The same listings, with another count at one address.
pub record Counted (de : ℕ) (li : Listing) (count : ℕ) (fs fs' : Fs) : Type 0 where
  pub inode_map : fs'.inode_map ≡ fs.inode_map
  pub inode_map_used : fs'.inode_map_used ≡ fs.inode_map_used
  pub here : fs'.store de ≡ some (record li { ref_count = count })
  pub others : (q : ℕ) → q ≢ de → fs'.store q ≡ fs.store q

pub put_at : (p : ℕ) (value : Option Listing) (st : Store) → put p value st p ≡ value
unfolding put
put_at p value st = ground arith

pub put_off : (p q : ℕ) (value : Option Listing) (st : Store) → q ≢ p → put p value st q ≡ st q
unfolding put
put_off p q value st ne = ground arith

pub inc_held : (c : ℕ) → 0 < c → c + 1 < 2 ^ 32 → ref_count_inc c ≡ ok (c + 1)
unfolding ref_count_inc
inc_held c held room = ground arith

pub dec_held : (c : ℕ) → 0 < c → ref_count_dec c ≡ ok (c - 1)
unfolding ref_count_dec
dec_held c held = ground arith

-- What is asked for by an inode comes with a reference.
pub get-Counted :
    (ino de : ℕ) (li : Listing) (fs : Fs)
    → Mapped ino de li fs
    → 0 < li.ref_count
    → li.ref_count + 1 < 2 ^ 32
    → Returns
        (λ r. (r.0 ≡ some de) × Counted de li (li.ref_count + 1) fs r.1)
        (direntry_get_by_inode ino fs)
unfolding direntry_get_by_inode inode_map_get listing_copy
get-Counted ino de li fs m held room =
    rw (lt→ltb ino fs.inode_map_used m.used, m.inode, m.there, inc_held li.ref_count held room)
      (returns (
        refl,
        record {
          inode_map = refl;
          inode_map_used = refl;
          here = put_at de _ fs.store;
          others = λ q ne. put_off de q _ fs.store ne;
        },
      ))

pub copied-Counted :
    (de : ℕ) (li : Listing) (fs : Fs) (count : ℕ) (fs1 : Fs)
    → Counted de li count fs fs1
    → 0 < count
    → count + 1 < 2 ^ 32
    → Returns
        (λ st. Counted de li (count + 1) fs (record fs1 { store = st }))
        (listing_copy de fs1.store)
unfolding listing_copy
copied-Counted de li fs count fs1 c held room =
    rw (c.here, inc_held count held room)
      (returns (record {
        inode_map = c.inode_map;
        inode_map_used = c.inode_map_used;
        here = put_at de _ fs1.store;
        others = λ q ne. put_off de q _ fs1.store ne ∙ c.others q ne;
      }))

kept_one : (c : ℕ) (x y : Option Listing) → 0 < c → (if c == 0 then x else y) ≡ y
kept_one c x y held = ground arith

pub delete-Counted :
    (de count : ℕ) (li : Listing) (fs : Fs)
    → fs.store de ≡ some (record li { ref_count = count })
    → 1 < count
    → Returns (Counted de li (count - 1) fs) (direntry_delete de fs)
unfolding direntry_delete listing_delete
delete-Counted de count li fs e held =
    rw
      (
        e,
        dec_held count (omega (arith, held)),
        kept_one (count - 1) none (some (record li { ref_count = count - 1 }))
            (omega (arith, held)),
      )
      (returns (record {
        inode_map = refl;
        inode_map_used = refl;
        here = put_at de _ fs.store;
        others = λ q ne. put_off de q _ fs.store ne;
      }))

pub then-Counted :
    {de c d : ℕ} {li : Listing} {fs fs1 fs2 : Fs}
    → Counted de li c fs fs1
    → Counted de li d fs1 fs2
    → Counted de li d fs fs2
then-Counted x y = record {
  inode_map = y.inode_map ∙ x.inode_map;
  inode_map_used = y.inode_map_used ∙ x.inode_map_used;
  here = y.here;
  others = λ q ne. y.others q ne ∙ x.others q ne;
}

pub at_count :
    {de c d : ℕ} {li : Listing} {fs fs1 : Fs}
    → c ≡ d
    → Counted de li c fs fs1
    → Counted de li d fs fs1
at_count {de} {c} {d} {li} {fs} {fs1} e x = rw (sym e) x
