-- ===== src/FuseMethods/References.antt =====
-- The references that release and forget of src/fuse_methods drop.
use fsfuse.Base.{
  ℕ, zero, suc, ◌+◌, ◌-◌, ◌^◌, ◌%◌, ◌<◌, true, ◌≡◌, refl, ◌∙◌, none, some, lt→ltb, fault, ◌>>=◌,
  arith, Returns, returns, Returns-bind, Returns-map, Returns-fault,
}
use fsfuse.Listing.{Listing, file, listing_copy, listing_delete}
use fsfuse.FuseMethods.{
  Fs, Reply, inode_map_get, direntry_get_by_inode, direntry_delete, fsfuse_open, fsfuse_opendir,
  fsfuse_release, fsfuse_releasedir, thread_delete, is_type, fsfuse_forget, forget_found,
  delete_times,
}
use fsfuse.FuseMethods.Counts.{
  Mapped, Counted, delete-Counted, then-Counted, at_count, put_at, get-Counted,
}
use fsfuse.FuseMethods.Open.{fsfuse_opendir-Answered, fsfuse_open-opened}

-- The listing is gone from an address, and the inode map is as it was.
pub record Freed (de : ℕ) (fs fs' : Fs) : Type 0 where
  pub inode_map : fs'.inode_map ≡ fs.inode_map
  pub inode_map_used : fs'.inode_map_used ≡ fs.inode_map_used
  pub gone : fs'.store de ≡ none

delete-Freed :
    (de : ℕ) (li : Listing) (fs : Fs)
    → fs.store de ≡ some (record li { ref_count = 1 })
    → Returns (Freed de fs) (direntry_delete de fs)
unfolding direntry_delete listing_delete
delete-Freed de li fs e =
    rw e (returns (record { inode_map = refl; inode_map_used = refl; gone = put_at de _ fs.store }))

minus_zero : (n : ℕ) → n - 0 ≡ n
minus_zero n = omega arith

minus_suc : (n k : ℕ) → n - suc k ≡ n - 1 - k
minus_suc n k = omega arith

plus_minus : (n : ℕ) → n + 1 - 1 ≡ n
plus_minus n = omega arith

delete_times-Counted :
    (n de count : ℕ) (li : Listing) (fs fs1 : Fs)
    → Counted de li count fs fs1
    → n < count
    → Returns (Counted de li (count - n) fs) (delete_times n de fs1)
unfolding delete_times
delete_times-Counted zero de count li fs fs1 c lt = rw (minus_zero count) (returns c)
delete_times-Counted (suc n) de count li fs fs1 c lt =
    Returns-bind (delete-Counted de count li fs1 c.here (omega (arith, lt))) (λ fs2 d.
      rw (minus_suc count n)
        (delete_times-Counted n de (count - 1) li fs fs2 (then-Counted c d) (omega (arith, lt))))

-- forget of an inode that is mapped ends: as long as something else refers to the direntry, exactly
-- the references of the lookups are dropped, and the inode map still leads to it.
pub fsfuse_forget-Counted :
    (ino de nlookup : ℕ) (li : Listing) (fs : Fs)
    → Mapped ino de li fs
    → nlookup < li.ref_count
    → li.ref_count + 1 < 2 ^ 32
    → Returns (Counted de li (li.ref_count - nlookup) fs) (fsfuse_forget ino nlookup fs)
unfolding fsfuse_forget forget_found
fsfuse_forget-Counted ino de nlookup li fs m held room =
    Returns-bind (get-Counted ino de li fs m (omega (arith, held)) room) (λ r c. rw c.0 (
      Returns-bind (delete-Counted de (li.ref_count + 1) li r.1 (c.1).here (omega (arith, held)))
        (λ fs2 d.
          Returns-map
            (delete_times-Counted nlookup de (li.ref_count + 1 - 1) li fs fs2 (then-Counted c.1 d)
              (omega (arith, held)))
            (λ fs3 f. at_count (omega arith) f))))

release-Counted :
    (de count : ℕ) (li : Listing) (fs fs1 : Fs)
    → Counted de li count fs fs1
    → 2 < count
    → Returns (λ (s : Reply × Fs). Counted de li (count - 2) fs s.1) (fsfuse_release de fs1)
unfolding fsfuse_release
release-Counted de count li fs fs1 c held =
    Returns-bind (delete-Counted de count li fs1 c.here (omega (arith, held))) (λ fs2 d.
      Returns-bind (delete-Counted de (count - 1) li fs2 d.here (omega (arith, held)))
        (λ fs3 g. returns (at_count (omega arith) (then-Counted c (then-Counted d g)))))

freed-after :
    {de c : ℕ} {li : Listing} {fs fs1 fs2 : Fs}
    → Counted de li c fs fs1
    → Freed de fs1 fs2
    → Freed de fs fs2
freed-after c g = record {
  inode_map = g.inode_map ∙ c.inode_map;
  inode_map_used = g.inode_map_used ∙ c.inode_map_used;
  gone = g.gone;
}

pub last-Freed :
    (de : ℕ) (li : Listing) (fs fs1 : Fs)
    → Counted de li 1 fs fs1
    → Returns (Freed de fs) (direntry_delete de fs1)
last-Freed de li fs fs1 c = Returns-map (delete-Freed de li fs1 c.here) (λ fs2 g. freed-after c g)

releasedir-Freed :
    (de : ℕ) (li : Listing) (fs fs1 : Fs)
    → Counted de li 2 fs fs1
    → Returns (λ (s : Reply × Fs). Freed de fs s.1) (fsfuse_releasedir de fs1)
unfolding fsfuse_releasedir
releasedir-Freed de li fs fs1 c =
    Returns-bind (delete-Counted de 2 li fs1 c.here (omega arith))
      (λ fs2 d. Returns-bind (last-Freed de li fs fs2 (then-Counted c d)) (λ fs3 g. returns g))

pub get-fault :
    (ino de : ℕ) (li : Listing) (fs fs1 : Fs)
    → Mapped ino de li fs
    → Freed de fs fs1
    → direntry_get_by_inode ino fs1 ≡ fault
unfolding direntry_get_by_inode inode_map_get listing_copy
get-fault ino de li fs fs1 m g =
    rw (g.inode_map_used, lt→ltb ino fs.inode_map_used m.used, g.inode_map, m.inode, g.gone) refl

-- releasedir drops two references, one more than opendir takes: after one opendir and releasedir of a
-- directory that only the inode map refers to, with any flags, the direntry is freed, and asking for its
-- inode reads freed memory.
pub opendir_releasedir_frees :
    (ino de flags : ℕ) (li : Listing) (fs : Fs)
    → Mapped ino de li fs
    → li.ref_count ≡ 1
    → (do
      r ← fsfuse_opendir ino flags fs
      s ← fsfuse_releasedir de r.1
      direntry_get_by_inode ino s.1)
      ≡ fault
opendir_releasedir_frees ino de flags li fs m one =
    Returns-fault
      (fsfuse_opendir-Answered ino de flags li fs m (omega (arith, one)) (omega (arith, one)))
      (λ r a.
        Returns-fault (releasedir-Freed de li fs r.1 (at_count (omega (arith, one)) a.1))
          (λ s g. get-fault ino de li fs s.1 m g))

-- A file that something refers to and that is opened to be read and released has the references that
-- it had, with the downloader's thread still to drop one.
pub open_release-Counted :
    (ino de flags : ℕ) (li : Listing) (fs : Fs)
    → Mapped ino de li fs
    → 0 < li.ref_count
    → li.ref_count + 2 < 2 ^ 32
    → is_type li.type file ≡ true
    → flags % 4 ≡ 0
    → Returns
        (λ (s : Reply × Fs). Counted de li li.ref_count fs s.1)
        (do r ← fsfuse_open ino flags fs; fsfuse_release de r.1)
open_release-Counted ino de flags li fs m held room is_file to_read =
    Returns-bind (fsfuse_open-opened ino de flags li fs m held room is_file to_read) (λ r a.
      Returns-map (release-Counted de (li.ref_count + 2) li fs r.1 a.1 (omega (arith, held)))
        (λ s c. at_count (omega arith) c))

-- Open takes two references, and release and the end of the downloader's thread drop three: after
-- these, a file that only the inode map referred to is freed, and asking for its inode reads freed
-- memory.
pub open_release_thread_frees :
    (ino de flags : ℕ) (li : Listing) (fs : Fs)
    → Mapped ino de li fs
    → li.ref_count ≡ 1
    → is_type li.type file ≡ true
    → flags % 4 ≡ 0
    → (do
      r ← fsfuse_open ino flags fs
      s ← fsfuse_release de r.1
      fs1 ← thread_delete de s.1
      direntry_get_by_inode ino fs1)
      ≡ fault
unfolding thread_delete
open_release_thread_frees ino de flags li fs m one is_file to_read =
    Returns-fault
      (fsfuse_open-opened ino de flags li fs m (omega (arith, one)) (omega (arith, one)) is_file
        to_read)
      (λ r a.
        Returns-fault (release-Counted de (li.ref_count + 2) li fs r.1 a.1 (omega (arith, one)))
          (λ s c.
            Returns-fault (last-Freed de li fs s.1 (at_count (omega (arith, one)) c))
              (λ fs1 g. get-fault ino de li fs fs1 m g)))
