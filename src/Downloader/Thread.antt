-- ===== src/Downloader/Thread.antt =====
-- downloaderead_main of src/downloader/downloader.c, the thread of a downloader. What the fetcher
-- and the indexnode do in a round is an input: whether an alternative was found, the blocks that
-- curl hands to buf_consumer for a start offset, and the code that the fetch then has.
pub mod Safety
use fsfuse.Base.{
  ℕ, zero, suc, ◌+◌, ◌≡◌, refl, Bool, true, false, not, Option, none, some, List, [], ◌∷◌, ◌==◌,
  if◌then◌else◌, Run, ok, fault, out_of_fuel, ◌>>=◌, ◌>>◌, check, or_fault, length,
}
use fsfuse.Base.Errno.{ebusy}
use fsfuse.BinaryHeap.{binary_heap_delete}
use fsfuse.Downloader.{
  Chunk, Downloader, Wake, chunk_get_next, buf_consumer, chunks_empty, signal_read_thread, trypop,
  expired,
}
use fsfuse.Downloader.Stream.{is_some}

pub record Round : Type 0 where
  pub alternative : Bool
  pub blocks : ℕ → List (List ℕ)
  pub fetch_rc : ℕ

-- curl delivers blocks until buf_consumer refuses one. The result says whether it did.
pub deliver : List Wake → Downloader → List (List ℕ) → Run (Bool × Downloader × List Wake)
deliver ws d [] = ok (false, d, ws)
deliver ws d (b ∷ bs) = do
  (rc, d1, ws1) ← buf_consumer ws d b
  let rest = deliver ws1 d1 bs
  if rc == 0 then rest else ok (true, d1, ws1)

-- One fetch from the current chunk's start. A refused block is curl's write error, which
-- process_curl_response takes for benign.
pub fetch : Round → Chunk → List Wake → Downloader → Run (ℕ × Downloader × List Wake)
fetch r c ws d =
    let d1 = record d { download_offset = c.start } in
    if r.alternative
    then (do
      (refused, d2, ws2) ← deliver ws d1 (r.blocks c.start)
      ok (if refused then 0 else r.fetch_rc, d2, ws2))
    else ok (ebusy, d1, ws)

-- The flag is cleared; where it is set there must be a chunk in hand.
clear_seek : Bool → Downloader → Run Downloader
clear_seek false d = ok d
clear_seek true d = do check (is_some d.current_chunk); ok (record d { seek = false })

-- The checks at the head of a round.
pub enter : Bool → Downloader → Run Downloader
enter first d = do
  d1 ← clear_seek d.seek d
  check (if first then not (is_some d1.current_chunk) else true)
  ok d1

-- The current chunk, or the next one. None ends the loop.
pub in_hand : Option Chunk → List Wake → Downloader → Run (Option Chunk × Downloader × List Wake)
in_hand (some c) ws d = ok (some c, d, ws)
in_hand none ws d = do
  (got, d1, ws1) ← chunk_get_next ws d
  ok (got, record d1 { current_chunk = got }, ws1)

-- A chunk is fetched, and the loop goes on while the fetch has no error.
fetch_in_hand :
    Option Chunk
    → Round
    → Option ℕ
    → List Wake
    → Downloader
    → (List Wake → Downloader → Run (Option ℕ × Downloader × List Wake))
    → Run (Option ℕ × Downloader × List Wake)
fetch_in_hand none r rc ws d again = ok (rc, d, ws)
fetch_in_hand (some c) r rc ws d again = do
  (rc1, d1, ws1) ← fetch r c ws d
  let more = again ws1 d1
  if rc1 == 0 then more else ok (some rc1, d1, ws1)

-- The do-while. `rc` is none until the first fetch sets it. Each round takes one of the list.
pub rounds :
    List Round → Bool → Option ℕ → List Wake → Downloader → Run (Option ℕ × Downloader × List Wake)
rounds [] first rc ws d = out_of_fuel
rounds (r ∷ rs) first rc ws d = do
  d1 ← enter first d
  (got, d2, ws2) ← in_hand d1.current_chunk ws d1
  fetch_in_hand got r rc ws2 d2 λ ws3 d3. rounds rs false (some 0) ws3 d3

-- After the loop. Reading `rc` where no fetch has set it is undefined. thread_delete has asserts.
pub finish_thread : Option ℕ → Downloader → Run Downloader
finish_thread none d = fault
finish_thread (some zero) d = do
  check (not (is_some d.current_chunk))
  (found, d1) ← trypop d
  check (not (is_some found))
  binary_heap_delete d1.chunks
  ok d1
finish_thread (some (suc n)) d = do
  d1 ← elim (d.current_chunk) [
    | none ↦ ok d
    | some c ↦
        chunks_empty (d.chunks.used + 1) (suc n)
          (record (signal_read_thread c (suc n) 0 d) { current_chunk = none })
  ]
  check (not (is_some d1.current_chunk))
  binary_heap_delete d1.chunks
  ok d1

pub downloaderead_main : List Round → List Wake → Downloader → Run Downloader
downloaderead_main rs ws d = do (rc, d1, ws1) ← rounds rs true none ws d; finish_thread rc d1
