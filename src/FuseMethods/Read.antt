-- ===== src/FuseMethods/Read.antt =====
-- fsfuse_read of src/fuse_methods/read.c and the asserts of downloader_chunk_add.
use fsfuse.Base.{
  ℕ, ◌+◌, ◌-◌, ◌^◌, ◌≤◌, ◌<◌, ◌≡◌, refl, fault, arith, Returns, returns, Returns-bind, min, le→leb,
}
use native.Mathlib.Nat.{mod-eq_of_lt, mod-lt, zero-lt-suc}
use fsfuse.Base.Int.{to_int}
use fsfuse.BinaryHeap.Queue.{IsValid, Added, binary_heap_add_correct}
use fsfuse.Downloader.{Downloader, Request, chunk_new, downloader_chunk_add}
use fsfuse.FuseMethods.{read_size, fsfuse_read}

-- The range is cut at the end of the file, as long as its end fits an unsigned int.
read_size_lem :
    (size off file_size : ℕ)
    → off + size < 2 ^ 32
    → read_size size off file_size ≡ min size (file_size - off)
unfolding read_size
read_size_lem size off file_size lt = rw (mod-eq_of_lt lt) (ground arith)

uncut :
    (size off file_size : ℕ)
    → 2 ^ 32 ≤ file_size
    → off < file_size
    → read_size size off file_size ≡ size
unfolding read_size
uncut size off file_size large inside = ground (arith, mod-lt (off + size) (zero-lt-suc 4294967295))

chunk_add_fault :
    (d : Downloader) (r : Request) → d.size < r.start → downloader_chunk_add d r ≡ fault
unfolding downloader_chunk_add
chunk_add_fault d r lt = ground arith

chunk_add_fault_end :
    (d : Downloader) (r : Request) → d.size < r.end → downloader_chunk_add d r ≡ fault
unfolding downloader_chunk_add
chunk_add_fault_end d r lt = ground arith

-- What a read leaves: a chunk of its range, cut at the end of the file, is queued.
pub record Queued (size off ctxt : ℕ) (d d' : Downloader) : Type 0 where
  pub added :
      Added d.chunks
        (record {
          key = to_int off;
          value =
              chunk_new (record { start = off; end = off + min size (d.size - off); ctxt = ctxt });
        })
        d'.chunks
  pub same_size : d'.size ≡ d.size
  pub same_signals : d'.signals ≡ d.signals

chunk_add-Queued :
    (d : Downloader) (size off ctxt : ℕ)
    → IsValid d.chunks
    → d.chunks.used + 1 < 2 ^ 29
    → off ≤ d.size
    → Returns (Queued size off ctxt d) (
        downloader_chunk_add d
          (record { start = off; end = off + min size (d.size - off); ctxt = ctxt }))
unfolding downloader_chunk_add chunk_new
chunk_add-Queued d size off ctxt v small le =
    rw
      (
        le→leb off (off + min size (d.size - off)) (omega arith),
        le→leb off d.size le,
        le→leb (off + min size (d.size - off)) d.size (ground arith),
      )
      (Returns-bind (binary_heap_add_correct d.chunks v (to_int off) _ small)
        (λ heap a. returns (record { added = a; same_size = refl; same_signals = refl })))

-- A read from within the file, whose end fits an unsigned int, ends with its range queued, cut at
-- the end of the file, and no read answered.
pub fsfuse_read-Queued :
    (size off ctxt : ℕ) (d : Downloader)
    → IsValid d.chunks
    → d.chunks.used + 1 < 2 ^ 29
    → off ≤ d.size
    → off + size < 2 ^ 32
    → Returns (Queued size off ctxt d) (fsfuse_read size off ctxt d)
unfolding fsfuse_read
fsfuse_read-Queued size off ctxt d v small le lt =
    rw (read_size_lem size off d.size lt) (chunk_add-Queued d size off ctxt v small le)

-- A read from behind the end of the file fails an assert.
pub fsfuse_read_behind :
    (size off ctxt : ℕ) (d : Downloader) → d.size < off → fsfuse_read size off ctxt d ≡ fault
unfolding fsfuse_read
fsfuse_read_behind size off ctxt d lt = chunk_add_fault d _ lt

-- In a file of 4 GiB or more, a read that starts in the file and ends behind it fails an assert.
pub fsfuse_read_large :
    (size off ctxt : ℕ) (d : Downloader)
    → 2 ^ 32 ≤ d.size
    → off < d.size
    → d.size < off + size
    → fsfuse_read size off ctxt d ≡ fault
unfolding fsfuse_read
fsfuse_read_large size off ctxt d large inside over =
    chunk_add_fault_end d _ (rw (uncut size off d.size large inside) over)
