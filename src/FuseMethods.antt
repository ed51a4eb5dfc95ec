-- ===== src/FuseMethods.antt =====
-- src/nativefs/inode_map.c, and open, opendir, release, releasedir, getattr, forget and read of
-- src/fuse_methods, with what src/downloader/downloader.c does to the count of an open file. A direntry is the listing that it begins with.
pub mod InodeMap
pub mod Counts
pub mod Open
pub mod References
pub mod Read
pub mod Done
mod Tests
use fsfuse.Base.{
  ℕ, zero, suc, ◌+◌, ◌-◌, ◌%◌, ◌^◌, Bool, true, false, Option, none, some, List, [], ◌∷◌, ltb, leb,
  ◌==◌, if◌then◌else◌, take, Run, fault, ok, ◌>>=◌, ◌>>◌, or_fault, check,
}
use fsfuse.Base.Errno.{enoent, enotdir, eisdir, erofs}
use fsfuse.Downloader.{Downloader, Request, downloader_chunk_add}
use fsfuse.Listing.{Listing, ListingType, file, directory, Store, listing_copy, listing_delete}

-- The static variables of the inode map, and the direntries that are allocated.
pub record Fs : Type 0 where
  pub inode_map : ℕ → Option ℕ
  pub inode_map_size : ℕ
  pub inode_map_used : ℕ
  pub inode_next : ℕ
  pub store : Store

-- realloc leaves the new cells unset.
grown : ℕ → Fs → Fs
grown inode fs =
    if leb fs.inode_map_size inode
    then record fs { inode_map_size = fs.inode_map_size + 32 }
    else fs

set_inode : ℕ → ℕ → (ℕ → Option ℕ) → ℕ → Option ℕ
set_inode inode de cells i = if i == inode then some de else cells i

pub inode_map_add : ℕ → ℕ → Fs → Run Fs
unfolding grown set_inode
inode_map_add inode de fs =
    let fs1 = grown inode fs in
    do
      store ← listing_copy de fs1.store
      check (ltb inode fs1.inode_map_size)
          >> ok (record fs1 {
            inode_map = set_inode inode de fs1.inode_map;
            inode_map_used = inode + 1;
            store = store;
          })

unfoldable pub inode_map_get : ℕ → Fs → Run (Option ℕ × Fs)
inode_map_get inode fs =
    if ltb inode fs.inode_map_used
    then (do
      de ← or_fault (fs.inode_map inode)
      store ← listing_copy de fs.store
      ok (some de, record fs { store = store }))
    else ok (none, fs)

pub inode_next : Fs → ℕ × Fs
inode_next fs = (fs.inode_next, record fs { inode_next = fs.inode_next + 1 })

-- None for NULL, where the code is ENOENT.
unfoldable pub direntry_get_by_inode : ℕ → Fs → Run (Option ℕ × Fs)
unfolding inode_map_get
direntry_get_by_inode ino fs = inode_map_get ino fs

pub direntry_delete : ℕ → Fs → Run Fs
direntry_delete de fs = do store ← listing_delete de fs.store; ok (record fs { store = store })

pub data Reply : Type 0 where
  reply_open : ℕ → Reply
  reply_err : ℕ → Reply
  reply_attr : Listing → Reply
  reply_buf : List ℕ → Reply

unfoldable pub is_type : ListingType → ListingType → Bool
is_type file file = true
is_type file directory = false
is_type directory file = false
is_type directory directory = true

-- The flags with O_RDONLY, then the type: the second test has the last word.
pub code : ListingType → ℕ → ℕ → ListingType → ℕ
unfolding is_type
code wanted mismatch flags type =
    let rc = if flags % 4 == 0 then 0 else erofs in if is_type type wanted then rc else mismatch

answer : ListingType → ℕ → ℕ → Option ℕ → Fs → Run (Reply × Fs)
unfolding code
answer wanted mismatch flags none fs = ok (reply_err enoent, fs)
answer wanted mismatch flags (some de) fs = do
  li ← or_fault (fs.store de)
  let rc = code wanted mismatch flags li.type
  ok ((if rc == 0 then reply_open de else reply_err rc), fs)

-- downloader_new takes a reference of its own.
pub with_downloader : Reply × Fs → Run (Reply × Fs)
with_downloader (reply_open de, fs) = do
  store ← listing_copy de fs.store
  ok (reply_open de, record fs { store = store })
with_downloader (reply_err rc, fs) = ok (reply_err rc, fs)
with_downloader (reply_attr li, fs) = ok (reply_attr li, fs)
with_downloader (reply_buf bytes, fs) = ok (reply_buf bytes, fs)

pub fsfuse_open : ℕ → ℕ → Fs → Run (Reply × Fs)
unfolding answer with_downloader
fsfuse_open ino flags fs = do
  (found, fs1) ← direntry_get_by_inode ino fs
  r ← answer file eisdir flags found fs1
  with_downloader r

pub fsfuse_opendir : ℕ → ℕ → Fs → Run (Reply × Fs)
unfolding answer
fsfuse_opendir ino flags fs = do
  (found, fs1) ← direntry_get_by_inode ino fs
  answer directory enotdir flags found fs1

-- The direntry of the open file.
pub fsfuse_release : ℕ → Fs → Run (Reply × Fs)
unfolding direntry_delete
fsfuse_release de fs = do
  fs1 ← direntry_delete de fs
  fs2 ← direntry_delete de fs1
  ok (reply_err 0, fs2)

pub fsfuse_releasedir : ℕ → Fs → Run (Reply × Fs)
unfolding direntry_delete
fsfuse_releasedir de fs = do
  fs1 ← direntry_delete de fs
  fs2 ← direntry_delete de fs1
  ok (reply_err 0, fs2)

-- The reference of the downloader goes when its thread ends.
pub thread_delete : ℕ → Fs → Run Fs
unfolding direntry_delete
thread_delete de fs = direntry_delete de fs

-- The direntry and the buffer of the read, with the downloader's code and number of bytes.
pub chunk_done : ℕ → List ℕ → ℕ → ℕ → Fs → Run (Reply × Fs)
unfolding direntry_delete
chunk_done de buf rc size fs = do
  fs1 ← direntry_delete de fs
  ok ((if rc == 0 then reply_buf (take size buf) else reply_err rc), fs1)

pub fsfuse_getattr : ℕ → Fs → Run (Reply × Fs)
unfolding direntry_delete
fsfuse_getattr de fs = do
  li ← or_fault (fs.store de)
  fs1 ← direntry_delete de fs
  ok (reply_attr li, fs1)

delete_times : ℕ → ℕ → Fs → Run Fs
unfolding direntry_delete
delete_times zero de fs = ok fs
delete_times (suc n) de fs = do fs1 ← direntry_delete de fs; delete_times n de fs1

forget_found : ℕ → Option ℕ → Fs → Run Fs
unfolding delete_times
forget_found nlookup none fs = ok fs
forget_found nlookup (some de) fs = do fs1 ← direntry_delete de fs; delete_times nlookup de fs1

pub fsfuse_forget : ℕ → ℕ → Fs → Run Fs
unfolding forget_found
fsfuse_forget ino nlookup fs = do
  (found, fs1) ← direntry_get_by_inode ino fs
  forget_found nlookup found fs1

-- The size asked for, cut at the end of the file; the sum is cut to an unsigned int.
pub read_size : ℕ → ℕ → ℕ → ℕ
read_size size off file_size =
    if leb file_size off
    then 0
    else if leb file_size ((off + size) % 2 ^ 32)
    then file_size - off
    else size

-- The part of the method up to the call that queues the range, with the direntry's size as the
-- downloader has it. `ctxt` tells the reads apart.
pub fsfuse_read : ℕ → ℕ → ℕ → Downloader → Run Downloader
unfolding read_size
fsfuse_read size off ctxt d =
    downloader_chunk_add d
      (record { start = off; end = off + read_size size off d.size; ctxt = ctxt })
