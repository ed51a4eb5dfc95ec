-- ===== src/Downloader/Stream.antt =====
-- buf_consumer of src/downloader/downloader.c: blocks of the file's bytes go to the reads.
use mathlib.Core.Path.{ap₂}
use fsfuse.Base.{
  ℕ, zero, suc, ◌+◌, ◌-◌, ◌≤◌, ◌<◌, ◌≡◌, refl, sym, ap, ◌∙◌, Bool, true, false, ◌⊎◌, inl, inr,
  Option, none, some, List, ◌++◌, arith, Run, Returns, returns, Returns-bind, Returns-map, length,
  take, drop, min, Bool-cases, ◌==◌,
}
use fsfuse.Downloader.{
  Chunk, Downloader, Wake, arrivals, copy, signal_read_thread, buf_loop, buf_consumer, consume,
  run_block, or_time_out,
}
use fsfuse.Downloader.Pending.{slice, take-slice, drop-slice, slice-append, Flight, Inv, InFlight}
use fsfuse.Downloader.Next.{Fetched, chunk_get_next-Fetched}

abbrev pub is_some : Option Chunk → Bool
is_some none = false
is_some (some c) = true

module _ (file origin finish : ℕ → ℕ) where
  -- How buf_consumer returns: the block was consumed, or curl is told to stop because the chunk in
  -- hand starts elsewhere or because no chunk came in time.
  pub record Streamed (end : ℕ) (r : ℕ × Downloader × List Wake) : Type 0 where
    pub inv : Inv file origin finish r.1 r.2
    pub current : Flight file origin finish (r.1).current_chunk
    pub outcome :
        ((r.0 ≡ 0) × ((r.1).download_offset ≡ end) × ((r.1).seek ≡ false))
        ⊎ ((r.0 ≡ 1) × ((r.1).seek ≡ true) × (is_some (r.1).current_chunk ≡ true))
        ⊎ ((r.0 ≡ 1)
            × ((r.1).timed_out ≡ true)
            × ((r.1).current_chunk ≡ none)
            × ((r.1).seek ≡ false))

  -- The bytes of a block from `start` to `end`.
  abbrev Block : ℕ → ℕ → List ℕ → Type 0
  Block start end bytes = (start ≤ end) × (bytes ≡ slice file start (end - start))

  module _ (c : Chunk) (start end n : ℕ) (bytes : List ℕ) (f : InFlight file origin finish c)
      (b : Block start end bytes) (here : c.start ≡ start) (fit : n ≤ end - start)
      (fit' : n ≤ c.end - c.start) where
    copy-InFlight : InFlight file origin finish (copy n bytes c)
    unfolding copy
    copy-InFlight = record {
      begun = omega (arith, f.begun);
      ordered = omega (arith, f.ordered);
      last = f.last;
      bytes =
          ap₂ ◌++◌ f.bytes (ap (take n) b.1 ∙ take-slice file start (end - start) n fit)
          ∙ ap (λ s. slice file (origin c.ctxt) c.bytes_used ++ slice file s n)
              (omega (arith, f.begun))
          ∙ slice-append file (origin c.ctxt) c.bytes_used n;
    }

    drop-Block : Block (start + n) end (drop n bytes)
    drop-Block = (
      omega (arith, b.0),
      ap (drop n) b.1
          ∙ drop-slice file start (end - start) n fit
          ∙ ap (slice file (start + n)) (omega arith),
    )

  -- Telling a read of success when its chunk is full keeps the invariant.
  signal-Inv :
      {d : Downloader} {ws : List Wake} {c : Chunk}
      → Inv file origin finish d ws
      → InFlight file origin finish c
      → c.start ≡ c.end
      → Inv file origin finish (signal_read_thread c 0 c.bytes_used d) ws
  unfolding signal_read_thread
  signal-Inv i f full = record {
    valid = i.valid;
    fit = i.fit;
    small = i.small;
    asked = i.asked;
    answered = (λ e. (omega (arith, f.begun, f.last), f.bytes), i.answered);
  }

  -- The invariant does not speak of the other fields.
  with_fields :
      {d : Downloader} {ws : List Wake} (off : ℕ) (cur : Option Chunk) (sk out : Bool)
      → Inv file origin finish d ws
      → Inv file origin finish
          (record d { download_offset = off; current_chunk = cur; seek = sk; timed_out = out })
          ws
  with_fields off cur sk out i = record {
    valid = i.valid;
    fit = i.fit;
    small = i.small;
    asked = i.asked;
    answered = i.answered;
  }

  -- What holds of a chunk that was waited for.
  or_time_out-Streamed :
      (end : ℕ) {d0 d : Downloader} {ws0 ws : List Wake} (got : Option Chunk)
      (run : Chunk → Downloader → Run (ℕ × Downloader × List Wake))
      → d0.seek ≡ false
      → Fetched file origin finish d0 ws0 (got, d, ws)
      → ((c : Chunk)
          → InFlight file origin finish c
            × Inv file origin finish (record d { current_chunk = some c }) ws
            × (d.chunks.used + arrivals ws < d0.chunks.used + arrivals ws0)
            × (d.seek ≡ false)
          → Returns (Streamed end) (run c (record d { current_chunk = some c })))
      → Returns (Streamed end) (or_time_out got d ws run)
  unfolding or_time_out
  or_time_out-Streamed end {d} none run calm f k = returns (record {
    inv = with_fields d.download_offset none d.seek true f.inv;
    current = tt;
    outcome = inr (inr (refl, refl, refl, f.rest.seek ∙ calm));
  })
  or_time_out-Streamed end {d} (some c) run calm f k = k c (
    f.flight,
    with_fields d.download_offset (some c) d.seek d.timed_out f.inv,
    omega (arith, f.fewer),
    f.rest.seek ∙ calm,
  )

  buf_loop_streams :
      (k : ℕ) (ws : List Wake) (d : Downloader) (chunk : Chunk) (start end : ℕ) (bytes : List ℕ)
      → d.current_chunk ≡ some chunk
      → d.seek ≡ false
      → Inv file origin finish d ws
      → InFlight file origin finish chunk
      → Block start end bytes
      → d.chunks.used + arrivals ws < k
      → Returns (Streamed end) (buf_loop k ws d chunk start end bytes)
  unfolding buf_loop signal_read_thread copy
  buf_loop_streams zero ws d chunk start end bytes cur calm i f b fuel = absurd (omega arith)
  buf_loop_streams (suc k) ws d chunk start end bytes cur calm i f b fuel =
      elim (Bool-cases (chunk.start == start)) [
        | inr elsewhere ↦ rw elsewhere (
            returns (record {
              inv = with_fields d.download_offset d.current_chunk true d.timed_out i;
              current = rw cur f;
              outcome = inr (inl (refl, refl, rw cur));
            }))
        | inl here ↦
            let n : ℕ = min (end - start) (chunk.end - chunk.start) in
            let c : Chunk = copy n bytes chunk in
            let g : InFlight file origin finish c =
              copy-InFlight chunk start end n bytes f b (ground arith) (ground arith)
                (ground arith) in
            let d1 : Downloader = record d { current_chunk = some c } in
            let i1 : Inv file origin finish d1 ws =
              with_fields d.download_offset (some c) d.seek d.timed_out i in
            rw here (elim (Bool-cases (start + n == end)) [
              | inl block_done ↦ rw block_done (elim (Bool-cases (c.start == c.end)) [
                | inl chunk_done ↦ rw chunk_done (
                    returns (record {
                      inv =
                          with_fields end none d.seek d.timed_out (signal-Inv i1 g (ground arith));
                      current = tt;
                      outcome = inl (refl, refl, calm);
                    }))
                | inr chunk_open ↦ rw chunk_open (
                    returns (record {
                      inv = with_fields end (some c) d.seek d.timed_out i;
                      current = g;
                      outcome = inl (refl, refl, calm);
                    }))
              ])
              | inr block_open ↦ rw block_open (elim (Bool-cases (c.start == c.end)) [
                | inl chunk_done ↦ rw chunk_done (
                    Returns-bind
                      (chunk_get_next-Fetched file origin finish ws
                        (signal_read_thread c 0 c.bytes_used d1) (signal-Inv i1 g (ground arith)))
                      λ (got, d2, ws2) fetched.
                        or_time_out-Streamed end got _ calm fetched λ c2 (f2, i2, fewer, calm2).
                          buf_loop_streams k ws2 _ c2 (start + n) end (drop n bytes) refl calm2 i2
                            f2
                            (drop-Block chunk start end n bytes f b (ground arith) (ground arith)
                              (ground arith))
                            (omega (arith, fewer)))
                | inr chunk_open ↦ absurd (ground arith)
              ])
            ])
      ]

  run_block_streams :
      (ws : List Wake) (bytes : List ℕ) (c : Chunk) (d : Downloader)
      → d.current_chunk ≡ some c
      → d.seek ≡ false
      → Inv file origin finish d ws
      → InFlight file origin finish c
      → bytes ≡ slice file d.download_offset (length bytes)
      → Returns (Streamed (d.download_offset + length bytes)) (run_block ws bytes c d)
  unfolding run_block
  run_block_streams ws bytes c d e calm i f data_ok =
      buf_loop_streams _ ws d c d.download_offset _ bytes e calm i f
        (omega arith, data_ok ∙ ap (slice file d.download_offset) (omega arith)) (omega arith)

  consume_streams :
      (cur : Option Chunk) (ws : List Wake) (d : Downloader) (bytes : List ℕ)
      → d.current_chunk ≡ cur
      → d.seek ≡ false
      → Inv file origin finish d ws
      → Flight file origin finish cur
      → bytes ≡ slice file d.download_offset (length bytes)
      → Returns (Streamed (d.download_offset + length bytes)) (consume cur ws d bytes)
  unfolding consume
  consume_streams (some c) ws d bytes e calm i f data_ok =
      run_block_streams ws bytes c d e calm i f data_ok
  consume_streams none ws d bytes e calm i f data_ok =
      Returns-bind (chunk_get_next-Fetched file origin finish ws d i) λ (got, d1, ws1) fetched.
        let same = fetched.rest.download_offset in
        or_time_out-Streamed _ got _ calm fetched λ c (f2, i2, fewer, calm2).
          Returns-map
            (run_block_streams ws1 bytes c _ refl calm2 i2 f2
              (data_ok ∙ ap (λ off. slice file off (length bytes)) (sym same)))
            λ r s. rw (← same) s

  -- On the chunk in hand, or on one that is waited for, the block's bytes go where they belong.
  -- It ends without a fault or a failed assert, and the fuel suffices, where the invariant holds:
  -- what arrives is asked for within the file, and each wait ends by a signal or its time limit.
  pub buf_consumer_streams :
      (ws : List Wake) (d : Downloader) (bytes : List ℕ)
      → d.seek ≡ false
      → Inv file origin finish d ws
      → Flight file origin finish d.current_chunk
      → bytes ≡ slice file d.download_offset (length bytes)
      → Returns (Streamed (d.download_offset + length bytes)) (buf_consumer ws d bytes)
  unfolding buf_consumer
  buf_consumer_streams ws d bytes calm i f data_ok =
      consume_streams d.current_chunk ws d bytes refl calm i f data_ok
