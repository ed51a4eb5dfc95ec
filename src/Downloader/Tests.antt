-- ===== src/Downloader/Tests.antt =====
-- Runs of src/downloader/downloader.c, and its theorems at small downloads.
use fsfuse.Base.{
  ℕ, zero, suc, ◌+◌, ◌<◌, ◌≡◌, refl, false, true, Option, none, some, [], ◌∷◌, arith, Returns,
}
use fsfuse.Base.Int.{pos}
use fsfuse.BinaryHeap.{BinaryHeap, Kvp}
use fsfuse.BinaryHeap.Queue.{IsValid}
use fsfuse.BinaryHeap.Order.{tally}
use fsfuse.Downloader.{
  Chunk, Downloader, Request, woken, expired, chunk_get_next, buf_consumer, chunks_empty, arrivals,
}
use fsfuse.Downloader.Pending.{Inv}
use fsfuse.Downloader.Stream.{Streamed, buf_consumer_streams}
use fsfuse.Downloader.Drain.{Emptied, Lost, chunks_empty-Emptied, expired_loses}
use fsfuse.Downloader.Thread.{Round}

-- A file of ten bytes, 100, 101, ….
abbrev file : ℕ → ℕ
file i = 100 + i

-- Read 1 asks for the bytes 2 to 4, every other read for none.
abbrev origin : ℕ → ℕ
origin (suc zero) = 2
origin _ = 0

abbrev finish : ℕ → ℕ
finish (suc zero) = 5
finish _ = 0

abbrev request : Request
request = record { start = 2; end = 5; ctxt = 1 }

abbrev no_cells : ℕ → Option (Kvp Chunk)
no_cells i = none

abbrev no_chunks : BinaryHeap Chunk
no_chunks = record { allocated = 0; used = 0; array = no_cells }

-- Nothing waits.
abbrev idle : Downloader
idle = record {
  size = 10;
  chunks = no_chunks;
  download_offset = 2;
  current_chunk = none;
  seek = false;
  timed_out = false;
  signals = [];
}

no_chunks-IsValid : IsValid no_chunks
no_chunks-IsValid = record {
  room = omega arith;
  written = λ i p. absurd (omega arith);
  heap = λ c p q. absurd (omega arith);
}

idle-Inv : Inv file origin finish idle (woken (request ∷ []) ∷ [])
unfolding tally arrivals
idle-Inv = record {
  valid = no_chunks-IsValid;
  fit = refl;
  small = omega arith;
  asked = (((omega arith, omega arith, refl, refl), tt), tt);
  answered = tt;
}

buf_consumer_streams_example :
    Returns
      (Streamed file origin finish (2 + 4))
      (buf_consumer (woken (request ∷ []) ∷ []) idle (102 ∷ 103 ∷ 104 ∷ 105 ∷ []))
buf_consumer_streams_example =
    buf_consumer_streams file origin finish (woken (request ∷ []) ∷ []) idle
      (102 ∷ 103 ∷ 104 ∷ 105 ∷ []) refl idle-Inv tt refl

-- One chunk waits.
abbrev one_cell : ℕ → Option (Kvp Chunk)
one_cell zero = some (record {
  key = pos 2;
  value = record { start = 2; end = 5; bytes_used = 0; buf = []; ctxt = 1 };
})
one_cell (suc i) = none

abbrev one_waits : Downloader
one_waits = record idle { chunks = record { allocated = 1; used = 1; array = one_cell } }

one_waits-IsValid : IsValid one_waits.chunks
one_waits-IsValid = record {
  room = omega arith;
  written = written;
  heap = λ c p q. absurd (omega arith);
}
  where
    written : (i : ℕ) → i < 1 → (e : Kvp Chunk) × (one_cell i ≡ some e)
    written zero p = (_, refl)
    written (suc i) p = absurd (omega arith)

chunks_empty-Emptied_example : Returns (Emptied 5 one_waits) (chunks_empty 2 5 one_waits)
chunks_empty-Emptied_example =
    chunks_empty-Emptied 2 5 one_waits one_waits-IsValid (omega arith) (omega arith)

idle-Inv_expired : Inv file origin finish idle (expired (request ∷ []) ∷ [])
unfolding tally arrivals
idle-Inv_expired = record {
  valid = no_chunks-IsValid;
  fit = refl;
  small = omega arith;
  asked = (((omega arith, omega arith, refl, refl), tt), tt);
  answered = tt;
}

expired_loses_example : Returns (Lost idle) (chunk_get_next (expired (request ∷ []) ∷ []) idle)
expired_loses_example = expired_loses file origin finish idle request [] idle-Inv_expired refl

-- A round that sends nothing from any offset.
abbrev silent : Round
silent = record { alternative = true; blocks = λ off. []; fetch_rc = 0 }
