-- ===== src/FuseMethods/Tests.antt =====
-- A file behind inode 2 and reads of ten bytes.
use fsfuse.Base.{
  ℕ, ◌+◌, none, some, ◌≡◌, refl, arith, Returns, fault, ◌>>=◌, if◌then◌else◌, ◌==◌, false, [], ◌∷◌,
}
use fsfuse.Base.Bytes.{chars}
use fsfuse.Base.Errno.{enoent, eisdir}
use fsfuse.Listing.{Listing, file}
use fsfuse.BinaryHeap.{new}
use fsfuse.BinaryHeap.Queue.{new-IsValid}
use fsfuse.Downloader.{Downloader}
use fsfuse.FuseMethods.{
  Fs, Reply, is_type, fsfuse_open, fsfuse_forget, fsfuse_read, direntry_get_by_inode, inode_map_add,
}
use fsfuse.FuseMethods.Counts.{Mapped, Counted}
use fsfuse.FuseMethods.Open.{taken, Answered, fsfuse_open-Answered}
use fsfuse.FuseMethods.References.{fsfuse_forget-Counted}
use fsfuse.FuseMethods.Done.{Completed, chunks_done, open_reads_free}
use fsfuse.FuseMethods.InodeMap.{AddedTo, inode_map_add-AddedTo}
use fsfuse.FuseMethods.Read.{Queued, fsfuse_read-Queued, fsfuse_read_large}

abbrev held_by : ℕ → Listing
held_by count = record {
  ref_count = count;
  name = chars "a.txt";
  hash = chars "1234";
  type = file;
  size = 10;
  link_count = 1;
  href = chars "http://a/";
  client = chars "ann";
}

abbrev one_file : ℕ → Fs
one_file count = record {
  inode_map = λ i. if i == 2 then some 7 else none;
  inode_map_size = 32;
  inode_map_used = 3;
  inode_next = 3;
  store = λ p. if p == 7 then some (held_by count) else none;
}

one_file-Mapped : (count : ℕ) → Mapped 2 7 (held_by count) (one_file count)
one_file-Mapped count = record { inode = refl; used = omega arith; there = refl }

fsfuse_open-Answered_example :
    Returns
      (λ (r : Reply × Fs).
        Answered file eisdir 7 0 (held_by 2) r.0
        × Counted 7 (held_by 2) (2 + taken r.0) (one_file 2) r.1)
      (fsfuse_open 2 0 (one_file 2))
fsfuse_open-Answered_example =
    fsfuse_open-Answered 2 7 0 (held_by 2) (one_file 2) (one_file-Mapped 2) (omega arith)
      (omega arith)

fsfuse_forget-Counted_example :
    Returns (Counted 7 (held_by 4) 1 (one_file 4)) (fsfuse_forget 2 3 (one_file 4))
fsfuse_forget-Counted_example =
    fsfuse_forget-Counted 2 7 3 (held_by 4) (one_file 4) (one_file-Mapped 4) (omega arith)
      (omega arith)

abbrev two_bytes : Completed
two_bytes = record { buf = 104 ∷ 105 ∷ []; rc = 0; size = 2 }

abbrev no_entry : Completed
no_entry = record { buf = []; rc = enoent; size = 0 }

open_reads_free_example :
    (do
      r ← fsfuse_open 2 0 (one_file 1)
      s ← chunks_done 7 (two_bytes ∷ no_entry ∷ two_bytes ∷ []) r.1
      direntry_get_by_inode 2 s.1)
    ≡ fault
unfolding is_type
open_reads_free_example =
    open_reads_free 2 7 0 two_bytes (no_entry ∷ two_bytes ∷ []) (held_by 1) (one_file 1)
      (one_file-Mapped 1) (omega arith) (omega arith) refl refl refl

inode_map_add-AddedTo_example :
    Returns (AddedTo 40 7 (held_by 1) (one_file 1)) (inode_map_add 40 7 (one_file 1))
inode_map_add-AddedTo_example =
    inode_map_add-AddedTo 40 7 (held_by 1) (one_file 1) (omega arith) refl (omega arith)
      (omega arith)

abbrev reader : ℕ → Downloader
reader size = record {
  size = size;
  chunks = new;
  download_offset = 0;
  current_chunk = none;
  seek = false;
  timed_out = false;
  signals = [];
}

fsfuse_read-Queued_example :
    Returns (Queued 10 95 1 (reader 100)) (fsfuse_read 10 95 1 (reader 100))
unfolding new
fsfuse_read-Queued_example =
    fsfuse_read-Queued 10 95 1 (reader 100) new-IsValid (omega arith) (omega arith) (omega arith)

fsfuse_read_large_example : fsfuse_read 10 4294967300 1 (reader 4294967305) ≡ fault
fsfuse_read_large_example =
    fsfuse_read_large 10 4294967300 1 (reader 4294967305) (omega arith) (omega arith) (omega arith)
