-- ===== src/Downloader.antt =====
-- src/downloader/downloader.c: one file's bytes arrive in blocks, and go to the reads that wait.
-- Offsets are file positions, never negative. A read is told apart by its `ctxt`.
pub mod Pending
pub mod Next
pub mod Stream
pub mod Drain
pub mod Thread
mod Tests
use fsfuse.Base.{
  ℕ, zero, suc, ◌+◌, ◌-◌, Bool, true, false, ◌&&◌, Option, none, some, List, [], ◌∷◌, ◌++◌, leb,
  ◌==◌, if◌then◌else◌, min, length, take, drop, Run, fault, ok, out_of_fuel, ◌>>=◌, ◌>>◌, check,
}
use fsfuse.Base.Int.{to_int}
use fsfuse.BinaryHeap.{BinaryHeap, Kvp, new, binary_heap_add, binary_heap_trypop}

-- chunk_t. `buf` points behind the bytes written so far, which are kept here.
pub record Chunk : Type 0 where
  pub start : ℕ
  pub end : ℕ
  pub bytes_used : ℕ
  pub buf : List ℕ
  pub ctxt : ℕ

-- A call of a chunk's `cb`: its arguments, and what the read's buffer holds then.
pub record Signal : Type 0 where
  pub ctxt : ℕ
  pub rc : ℕ
  pub size : ℕ
  pub bytes : List ℕ

-- struct _downloader_t, with the size of its direntry and the calls made so far, latest first.
pub record Downloader : Type 0 where
  pub size : ℕ
  pub chunks : BinaryHeap Chunk
  pub download_offset : ℕ
  pub current_chunk : Option Chunk
  pub seek : Bool
  pub timed_out : Bool
  pub signals : List Signal

-- The arguments of a call of downloader_chunk_add.
pub record Request : Type 0 where
  pub start : ℕ
  pub end : ℕ
  pub ctxt : ℕ

-- What happens while a thread waits on the condition with the mutex released: other threads add
-- chunks, and then the wait ends by a signal or by its time limit. Or pthread_cond_timedwait
-- refuses with another error, as for a time whose nanoseconds come to a whole second.
pub data Wake : Type 0 where
  woken : List Request → Wake
  expired : List Request → Wake
  wait_failed : Wake

pub downloader_new : ℕ → Downloader
downloader_new size = record {
  size = size;
  chunks = new;
  download_offset = 0;
  current_chunk = none;
  seek = false;
  timed_out = false;
  signals = [];
}

unfoldable pub chunk_new : Request → Chunk
chunk_new r = record { start = r.start; end = r.end; bytes_used = 0; buf = []; ctxt = r.ctxt }

unfoldable pub downloader_chunk_add : Downloader → Request → Run Downloader
unfolding chunk_new
downloader_chunk_add d r = do
  check (leb r.start r.end)
  check (leb r.start d.size)
  check (leb r.end d.size)
  let c = chunk_new r
  heap ← binary_heap_add d.chunks (to_int c.start) c
  ok (record d { chunks = heap })

pub arrive : List Request → Downloader → Run Downloader
arrive [] d = ok d
arrive (r ∷ rs) d = do d' ← downloader_chunk_add d r; arrive rs d'

-- binary_heap_trypop on the thread's heap.
pub trypop : Downloader → Run (Option Chunk × Downloader)
trypop d = do
  (found, heap) ← binary_heap_trypop d.chunks
  ok (elim found [ none ↦ none | some e ↦ some e.value ], record d { chunks = heap })

-- The loop's condition: a chunk that is popped ends the wait.
unfoldable pub or_wait :
    List Wake
    → Option Chunk
    → Downloader
    → Run (Option Chunk × Downloader × List Wake)
    → Run (Option Chunk × Downloader × List Wake)
or_wait ws (some c) d wait = ok (some c, d, ws)
or_wait ws none d wait = wait

-- The wait is bounded: when no wake is listed it ends by its time limit. After every wait the
-- loop's condition pops again before it looks at `rc`. On ETIMEDOUT the result is NULL, and on any
-- other error an assert fails.
pub chunk_get_next : List Wake → Downloader → Run (Option Chunk × Downloader × List Wake)
chunk_get_next [] d = do
  (found, d1) ← trypop d
  or_wait [] found d1 (do (popped, d2) ← trypop d1; ok (none, d2, []))
chunk_get_next (woken rs ∷ ws) d = do
  (found, d1) ← trypop d
  or_wait (woken rs ∷ ws) found d1 (do d2 ← arrive rs d1; chunk_get_next ws d2)
chunk_get_next (expired rs ∷ ws) d = do
  (found, d1) ← trypop d
  or_wait (expired rs ∷ ws) found d1
      (do d2 ← arrive rs d1; (popped, d3) ← trypop d2; ok (none, d3, ws))
chunk_get_next (wait_failed ∷ ws) d = do
  (found, d1) ← trypop d
  or_wait (wait_failed ∷ ws) found d1 (do (popped, d2) ← trypop d1; fault)

pub signal_read_thread : Chunk → ℕ → ℕ → Downloader → Downloader
signal_read_thread c rc size d = record d {
  signals = record { ctxt = c.ctxt; rc = rc; size = size; bytes = c.buf } ∷ d.signals;
}

-- memcpy and the steps of the two pointers.
pub copy : ℕ → List ℕ → Chunk → Chunk
copy n bytes c = record c {
  start = c.start + n;
  bytes_used = c.bytes_used + n;
  buf = c.buf ++ take n bytes;
}

-- The chunk that was waited for becomes the current one; without one, buf_consumer bails out.
unfoldable pub or_time_out :
    Option Chunk
    → Downloader
    → List Wake
    → (Chunk → Downloader → Run (ℕ × Downloader × List Wake))
    → Run (ℕ × Downloader × List Wake)
or_time_out none d ws run = ok (1, record d { current_chunk = none; timed_out = true }, ws)
or_time_out (some c) d ws run = run c (record d { current_chunk = some c })

-- The `while (1)` of buf_consumer. `start` and `end` are those of the block, whose bytes are left.
-- A round that does not return takes a chunk from the heap, so the chunks that are there or come
-- bound the rounds.
pub buf_loop :
    ℕ → List Wake → Downloader → Chunk → ℕ → ℕ → List ℕ → Run (ℕ × Downloader × List Wake)
buf_loop zero ws d chunk start end bytes = out_of_fuel
buf_loop (suc k) ws d chunk start end bytes =
    let n = min (end - start) (chunk.end - chunk.start) in
    let c = copy n bytes chunk in
    let d1 = record d { current_chunk = some c } in
    let next = chunk_get_next ws (signal_read_thread c 0 c.bytes_used d1) >>= λ (got, d2, ws').
    or_time_out got d2 ws' λ c' d3. buf_loop k ws' d3 c' (start + n) end (drop n bytes) in
    let again = buf_loop k ws d1 c (start + n) end (drop n bytes) in
    if chunk.start == start
    then if start + n == end && c.start == c.end
      then ok (
        0,
        record (signal_read_thread c 0 c.bytes_used d1) {
          current_chunk = none;
          download_offset = end;
        },
        ws,
      )
      else if start + n == end
      then ok (0, record d1 { download_offset = end }, ws)
      else if c.start == c.end
      then next
      else again
    else ok (1, record d { seek = true }, ws)

-- How many chunks may still arrive.
pub arrivals : List Wake → ℕ
arrivals [] = 0
arrivals (woken rs ∷ ws) = length rs + arrivals ws
arrivals (expired rs ∷ ws) = length rs + arrivals ws
arrivals (wait_failed ∷ ws) = arrivals ws

-- The loop on a block, with the fuel that it needs.
run_block : List Wake → List ℕ → Chunk → Downloader → Run (ℕ × Downloader × List Wake)
run_block ws bytes c d =
    buf_loop (d.chunks.used + arrivals ws + 1) ws d c d.download_offset
      (d.download_offset + length bytes) bytes

-- The first argument is the current chunk; without one the next is waited for.
consume : Option Chunk → List Wake → Downloader → List ℕ → Run (ℕ × Downloader × List Wake)
consume (some c) ws d bytes = run_block ws bytes c d
consume none ws d bytes = do
  (got, d1, ws1) ← chunk_get_next ws d
  or_time_out got d1 ws1 (run_block ws1 bytes)

pub buf_consumer : List Wake → Downloader → List ℕ → Run (ℕ × Downloader × List Wake)
unfolding consume run_block
buf_consumer ws d bytes = consume d.current_chunk ws d bytes

-- Every chunk on the heap is answered with the error.
pub chunks_empty : ℕ → ℕ → Downloader → Run Downloader
chunks_empty zero rc d = out_of_fuel
chunks_empty (suc k) rc d = do
  (found, d') ← trypop d
  elim found [ none ↦ ok d' | some c ↦ chunks_empty k rc (signal_read_thread c rc 0 d') ]
