-- ===== src/FuseMethods/Done.antt =====
-- The reads of an open file that the downloader completes, by chunk_done of src/fuse_methods/read.c.
use fsfuse.Base.{
  ℕ, ◌+◌, ◌-◌, ◌^◌, ◌%◌, ◌<◌, ◌≡◌, refl, true, List, [], ◌∷◌, length, fault, ok, ◌>>=◌, arith, Run,
  Returns, returns, Returns-bind, Returns-fault,
}
use fsfuse.Listing.{Listing, file}
use fsfuse.FuseMethods.{Fs, Reply, is_type, direntry_get_by_inode, fsfuse_open, chunk_done}
use fsfuse.FuseMethods.Counts.{Mapped, Counted, delete-Counted, then-Counted, at_count}
use fsfuse.FuseMethods.Open.{fsfuse_open-opened}
use fsfuse.FuseMethods.References.{Freed, last-Freed, get-fault}

-- A read that is completed: its buffer, and the code and the number of bytes that come with it.
pub record Completed : Type 0 where
  pub buf : List ℕ
  pub rc : ℕ
  pub size : ℕ

-- The reads of a direntry are completed one after the other.
pub chunks_done : ℕ → List Completed → Fs → Run (List Reply × Fs)
chunks_done de [] fs = ok ([], fs)
chunks_done de (c ∷ cs) fs = do
  (reply, fs1) ← chunk_done de c.buf c.rc c.size fs
  (replies, fs2) ← chunks_done de cs fs1
  ok (reply ∷ replies, fs2)

-- What completed reads of a direntry with as many references leave: one answer each, and no direntry.
pub record AllDone (de : ℕ) (cs : List Completed) (fs : Fs) (r : List Reply × Fs) : Type 0 where
  pub freed : Freed de fs r.1
  pub replies : length r.0 ≡ length cs

chunk_done-last :
    (de : ℕ) (c : Completed) (li : Listing) (fs fs1 : Fs)
    → Counted de li 1 fs fs1
    → Returns (λ (r : Reply × Fs). Freed de fs r.1) (chunk_done de c.buf c.rc c.size fs1)
unfolding chunk_done
chunk_done-last de c li fs fs1 x = Returns-bind (last-Freed de li fs fs1 x) (λ fs2 g. returns g)

chunk_done-Counted :
    (de count : ℕ) (c : Completed) (li : Listing) (fs fs1 : Fs)
    → Counted de li count fs fs1
    → 1 < count
    → Returns
        (λ (r : Reply × Fs). Counted de li (count - 1) fs r.1)
        (chunk_done de c.buf c.rc c.size fs1)
unfolding chunk_done
chunk_done-Counted de count c li fs fs1 x held =
    Returns-bind (delete-Counted de count li fs1 x.here held) (λ fs2 d. returns (then-Counted x d))

chunks_done-AllDone :
    (de : ℕ) (c : Completed) (cs : List Completed) (li : Listing) (fs fs1 : Fs)
    → Counted de li (length (c ∷ cs)) fs fs1
    → Returns (AllDone de (c ∷ cs) fs) (chunks_done de (c ∷ cs) fs1)
unfolding chunks_done
chunks_done-AllDone de c [] li fs fs1 x =
    Returns-bind (chunk_done-last de c li fs fs1 (at_count refl x))
      (λ r g. returns (record { freed = g; replies = refl }))
chunks_done-AllDone de c (c' ∷ cs) li fs fs1 x =
    Returns-bind (chunk_done-Counted de (length (c ∷ c' ∷ cs)) c li fs fs1 x (omega arith)) (λ r d.
      Returns-bind (chunks_done-AllDone de c' cs li fs r.1 (at_count (omega arith) d))
        (λ s a. returns (record { freed = a.freed; replies = omega (arith, a.replies) })))

-- chunk_done drops a reference that fsfuse_read does not take: once a file that is open has had as many
-- reads completed as it had references when it was opened, and two more, it is freed while it is open,
-- and asking for its inode reads freed memory.
pub open_reads_free :
    (ino de flags : ℕ) (c : Completed) (cs : List Completed) (li : Listing) (fs : Fs)
    → Mapped ino de li fs
    → 0 < li.ref_count
    → li.ref_count + 2 < 2 ^ 32
    → is_type li.type file ≡ true
    → flags % 4 ≡ 0
    → length (c ∷ cs) ≡ li.ref_count + 2
    → (do
      r ← fsfuse_open ino flags fs
      s ← chunks_done de (c ∷ cs) r.1
      direntry_get_by_inode ino s.1)
      ≡ fault
open_reads_free ino de flags c cs li fs m held room is_file to_read as_many =
    Returns-fault (fsfuse_open-opened ino de flags li fs m held room is_file to_read) (λ r a.
      Returns-fault (chunks_done-AllDone de c cs li fs r.1 (at_count (omega (arith, as_many)) a.1))
        (λ s d. get-fault ino de li fs s.1 m d.freed))
