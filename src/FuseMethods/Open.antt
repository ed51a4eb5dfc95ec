-- ===== src/FuseMethods/Open.antt =====
-- open and opendir of src/fuse_methods: the answers, and the references they leave.
use mathlib.Core.Path.{subst}
use fsfuse.Base.{
  ℕ, ◌+◌, ◌%◌, ◌^◌, ◌<◌, ◌≡◌, refl, ◌≢◌, ◌⊎◌, inl, inr, Bool, true, false, some, ◌==◌,
  if◌then◌else◌, ◌>>=◌, arith, Returns, returns, Returns-bind, Returns-map,
}
use fsfuse.Base.Errno.{enotdir, eisdir, erofs}
use fsfuse.Listing.{Listing, ListingType, file, directory}
use fsfuse.FuseMethods.Counts.{Mapped, Counted, at_count, get-Counted, copied-Counted}
use fsfuse.FuseMethods.{
  Fs, Reply, reply_open, reply_err, reply_attr, reply_buf, with_downloader, direntry_get_by_inode,
  is_type, code, answer, fsfuse_open, fsfuse_opendir,
}

-- What open and opendir answer: the type decides before the flags do.
pub data Answered (wanted : ListingType) (mismatch de flags : ℕ) (li : Listing)
    : Reply → Type 0 where
  opened :
      is_type li.type wanted ≡ true
      → flags % 4 ≡ 0
      → Answered wanted mismatch de flags li (reply_open de)
  read_only :
      is_type li.type wanted ≡ true
      → flags % 4 ≢ 0
      → Answered wanted mismatch de flags li (reply_err erofs)
  wrong_type :
      is_type li.type wanted ≡ false → Answered wanted mismatch de flags li (reply_err mismatch)

zero_or_not : (n : ℕ) → (n ≡ 0) ⊎ (n ≢ 0)
zero_or_not n = ground arith

code_opened :
    (wanted : ListingType) (mismatch flags : ℕ) (type : ListingType)
    → is_type type wanted ≡ true
    → flags % 4 ≡ 0
    → code wanted mismatch flags type ≡ 0
unfolding code
code_opened wanted mismatch flags type t f = rw (t, f) refl

code_read_only :
    (wanted : ListingType) (mismatch flags : ℕ) (type : ListingType)
    → is_type type wanted ≡ true
    → flags % 4 ≢ 0
    → code wanted mismatch flags type ≡ erofs
unfolding code
code_read_only wanted mismatch flags type t f = rw t (unset (flags % 4) f)
  where
    unset : (n : ℕ) → n ≢ 0 → (if n == 0 then 0 else erofs) ≡ erofs
    unset n ne = ground arith

code_wrong_type :
    (wanted : ListingType) (mismatch flags : ℕ) (type : ListingType)
    → is_type type wanted ≡ false
    → code wanted mismatch flags type ≡ mismatch
unfolding code
code_wrong_type wanted mismatch flags type t = rw t refl

nonzero : (c : ℕ) → c ≢ 0 → (c == 0) ≡ false
nonzero c ne = ground arith

reply-Answered :
    (wanted : ListingType) (mismatch de flags : ℕ) (li : Listing)
    → mismatch ≢ 0
    → (b : Bool) → is_type li.type wanted ≡ b
    → Answered wanted mismatch de flags li (
        if code wanted mismatch flags li.type == 0
        then reply_open de
        else reply_err (code wanted mismatch flags li.type))
reply-Answered wanted mismatch de flags li ne true t = elim (zero_or_not (flags % 4)) [
  | inl f ↦ rw (code_opened wanted mismatch flags li.type t f) (opened t f)
  | inr f ↦ rw (code_read_only wanted mismatch flags li.type t f) (read_only t f)
]
reply-Answered wanted mismatch de flags li ne false t =
    rw (code_wrong_type wanted mismatch flags li.type t) (by_code mismatch ne)
  where
    by_code :
        (c : ℕ)
        → c ≢ 0
        → Answered wanted c de flags li (if c == 0 then reply_open de else reply_err c)
    by_code c nz = rw (nonzero c nz) (wrong_type t)

-- The references that open takes.
unfoldable pub taken : Reply → ℕ
taken (reply_open de) = 2
taken (reply_err rc) = 1
taken (reply_attr li) = 1
taken (reply_buf bytes) = 1

module _ (ino de flags : ℕ) (li : Listing) (fs : Fs) where
  found-Answered :
      (wanted : ListingType) (mismatch : ℕ)
      → mismatch ≢ 0
      → (fs1 : Fs) → Counted de li (li.ref_count + 1) fs fs1
      → Returns
          (λ (r : Reply × Fs).
            Answered wanted mismatch de flags li r.0 × Counted de li (li.ref_count + 1) fs r.1)
          (answer wanted mismatch flags (some de) fs1)
  unfolding answer
  found-Answered wanted mismatch ne fs1 c =
      rw c.here (returns (reply-Answered wanted mismatch de flags li ne _ refl, c))

  answer-Answered :
      (wanted : ListingType) (mismatch : ℕ)
      → mismatch ≢ 0
      → Mapped ino de li fs
      → 0 < li.ref_count
      → li.ref_count + 1 < 2 ^ 32
      → Returns
          (λ (r : Reply × Fs).
            Answered wanted mismatch de flags li r.0 × Counted de li (li.ref_count + 1) fs r.1)
          (direntry_get_by_inode ino fs >>= λ r. answer wanted mismatch flags r.0 r.1)
  answer-Answered wanted mismatch ne m held room =
      Returns-bind (get-Counted ino de li fs m held room)
        (λ r c. rw c.0 (found-Answered wanted mismatch ne r.1 c.1))

  reply_of_file :
      (reply : Reply)
      → Answered file eisdir de flags li reply
      → is_type li.type file ≡ true
      → flags % 4 ≡ 0
      → reply ≡ reply_open de
  reply_of_file _ (opened t f) is_file to_read = refl
  reply_of_file _ (read_only t f) is_file to_read = elim (f to_read) [ ]
  reply_of_file _ (wrong_type t) is_file to_read = cc

  Taken : Reply × Fs → Type 0
  Taken r = Answered file eisdir de flags li r.0 × Counted de li (li.ref_count + taken r.0) fs r.1

  reply-Taken :
      (reply : Reply) (fs1 : Fs)
      → Answered file eisdir de flags li reply
      → Counted de li (li.ref_count + 1) fs fs1
      → 0 < li.ref_count
      → li.ref_count + 2 < 2 ^ 32
      → Returns Taken (with_downloader (reply, fs1))
  unfolding with_downloader taken Taken
  reply-Taken (reply_open _) fs1 (opened t f) c held room =
      Returns-bind
        (copied-Counted de li fs (li.ref_count + 1) fs1 c (omega arith) (omega (arith, room)))
        (λ st d. returns (opened t f, at_count (omega arith) d))
  reply-Taken (reply_err _) fs1 (read_only t f) c held room = returns (read_only t f, c)
  reply-Taken (reply_err _) fs1 (wrong_type t) c held room = returns (wrong_type t, c)
  reply-Taken (reply_attr _) fs1 a c held room = elim a [ ]
  reply-Taken (reply_buf _) fs1 a c held room = elim a [ ]

  -- open of an inode that is mapped ends: a directory is EISDIR whatever the flags, a file to be
  -- written is EROFS, a file to be read is opened. An opened direntry has two references more, one of
  -- them the downloader's, and any other has one more.
  pub fsfuse_open-Answered :
      Mapped ino de li fs
      → 0 < li.ref_count
      → li.ref_count + 2 < 2 ^ 32
      → Returns
          (λ (r : Reply × Fs).
            Answered file eisdir de flags li r.0 × Counted de li (li.ref_count + taken r.0) fs r.1)
          (fsfuse_open ino flags fs)
  unfolding fsfuse_open Taken
  fsfuse_open-Answered m held room =
      Returns-bind (get-Counted ino de li fs m held (omega (arith, room))) (λ r c. rw c.0 (
        Returns-bind (found-Answered file eisdir (omega arith) r.1 c.1)
          (λ s a. reply-Taken s.0 s.1 a.0 a.1 held room)))

  -- A file to be read is opened, with two references more.
  pub fsfuse_open-opened :
      Mapped ino de li fs
      → 0 < li.ref_count
      → li.ref_count + 2 < 2 ^ 32
      → is_type li.type file ≡ true
      → flags % 4 ≡ 0
      → Returns
          (λ (r : Reply × Fs). (r.0 ≡ reply_open de) × Counted de li (li.ref_count + 2) fs r.1)
          (fsfuse_open ino flags fs)
  unfolding taken
  fsfuse_open-opened m held room is_file to_read =
      Returns-map (fsfuse_open-Answered m held room) (λ r a.
        let e = reply_of_file r.0 a.0 is_file to_read in
        (e, subst (λ reply. Counted de li (li.ref_count + taken reply) fs r.1) e a.1))

  -- opendir of an inode that is mapped ends: a file is ENOTDIR whatever the flags, a directory to be
  -- written is EROFS, a directory to be read is opened. In each case the direntry has a reference
  -- more.
  pub fsfuse_opendir-Answered :
      Mapped ino de li fs
      → 0 < li.ref_count
      → li.ref_count + 1 < 2 ^ 32
      → Returns
          (λ (r : Reply × Fs).
            Answered directory enotdir de flags li r.0 × Counted de li (li.ref_count + 1) fs r.1)
          (fsfuse_opendir ino flags fs)
  unfolding fsfuse_opendir
  fsfuse_opendir-Answered = answer-Answered directory enotdir (omega arith)
