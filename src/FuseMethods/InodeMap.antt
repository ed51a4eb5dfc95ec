-- ===== src/FuseMethods/InodeMap.antt =====
-- src/nativefs/inode_map.c: what is added is found, as long as inodes come in order.
use fsfuse.Base.{
  ℕ, ◌+◌, ◌^◌, ◌<◌, ◌≡◌, refl, ap, ◌∙◌, inl, inr, Option, some, leb, lt→ltb, Bool-cases, ok, fault,
  arith, Returns, returns,
}
use fsfuse.Listing.{Listing, Store, put, listing_copy, ref_count_inc}
use fsfuse.FuseMethods.{Fs, inode_map_add, grown, set_inode}
use fsfuse.FuseMethods.Counts.{put_at, inc_held}

-- What an addition leaves: the inode leads to the direntry, which has a reference more, and the
-- inodes before it lead where they did.
pub record AddedTo (inode de : ℕ) (li : Listing) (fs fs' : Fs) : Type 0 where
  pub here : fs'.inode_map inode ≡ some de
  pub before : (i : ℕ) → i < inode → fs'.inode_map i ≡ fs.inode_map i
  pub used : fs'.inode_map_used ≡ inode + 1
  pub room : inode < fs'.inode_map_size
  pub listing : fs'.store de ≡ some (record li { ref_count = li.ref_count + 1 })

set_here : (inode de : ℕ) (cells : ℕ → Option ℕ) → set_inode inode de cells inode ≡ some de
unfolding set_inode
set_here inode de cells = ground arith

set_before :
    (inode de i : ℕ) (cells : ℕ → Option ℕ) → i < inode → set_inode inode de cells i ≡ cells i
unfolding set_inode
set_before inode de i cells lt = ground arith

copy_lem :
    (de : ℕ) (li : Listing) (st : Store)
    → st de ≡ some li
    → 0 < li.ref_count
    → li.ref_count + 1 < 2 ^ 32
    → listing_copy de st ≡ ok (put de (some (record li { ref_count = li.ref_count + 1 })) st)
unfolding listing_copy
copy_lem de li st e held room = rw (e, inc_held li.ref_count held room) refl

-- Growth keeps all but the size, which then covers the next inode.
record Covers (inode : ℕ) (fs fs' : Fs) : Type 0 where
  map : fs'.inode_map ≡ fs.inode_map
  store : fs'.store ≡ fs.store
  size : inode < fs'.inode_map_size

grown-Covers :
    (inode : ℕ) (fs : Fs) → inode < fs.inode_map_size + 32 → Covers inode fs (grown inode fs)
unfolding grown
grown-Covers inode fs lt = elim (Bool-cases (leb fs.inode_map_size inode)) [
  | inl h ↦ rw h (record { map = refl; store = refl; size = lt })
  | inr h ↦ rw h (record { map = refl; store = refl; size = ground arith })
]

-- With an inode at most 32 behind the array, inode_map_add ends within the array: the inode leads to
-- the direntry, which has a reference more, and the inodes before it lead where they did.
pub inode_map_add-AddedTo :
    (inode de : ℕ) (li : Listing) (fs : Fs)
    → inode < fs.inode_map_size + 32
    → fs.store de ≡ some li
    → 0 < li.ref_count
    → li.ref_count + 1 < 2 ^ 32
    → Returns (AddedTo inode de li fs) (inode_map_add inode de fs)
unfolding inode_map_add
inode_map_add-AddedTo inode de li fs lt e held room =
    let c = grown-Covers inode fs lt in
    rw
      (
        copy_lem de li (grown inode fs).store (ap (λ st. st de) c.store ∙ e) held room,
        lt→ltb inode (grown inode fs).inode_map_size c.size,
      )
      (returns (record {
        here = set_here inode de (grown inode fs).inode_map;
        before = λ i before.
            set_before inode de i (grown inode fs).inode_map before ∙ ap (λ m. m i) c.map;
        used = refl;
        room = c.size;
        listing = put_at de _ (grown inode fs).store;
      }))

copy_uncounted :
    (p : ℕ) (li : Listing) (st : Store)
    → st p ≡ some li
    → li.ref_count ≡ 0
    → listing_copy p st ≡ fault
unfolding listing_copy ref_count_inc
copy_uncounted p li st e zero_count = rw (e, zero_count) refl

-- A direntry without a count cannot be added.
pub inode_map_add_uncounted :
    (inode de : ℕ) (li : Listing) (fs : Fs)
    → fs.store de ≡ some li
    → li.ref_count ≡ 0
    → inode_map_add inode de fs ≡ fault
unfolding inode_map_add grown
inode_map_add_uncounted inode de li fs e zero_count =
    elim (Bool-cases (leb fs.inode_map_size inode)) [
      | inl h ↦ rw (h, copy_uncounted de li fs.store e zero_count) refl
      | inr h ↦ rw (h, copy_uncounted de li fs.store e zero_count) refl
    ]
