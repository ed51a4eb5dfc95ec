-- ===== src/Downloader/Thread/Safety.antt =====
-- The loop of downloaderead_main keeps the invariant of its downloader.
use fsfuse.Base.{
  ℕ, ◌+◌, ◌≡◌, sym, ap, ◌∙◌, true, false, ◌⊎◌, none, List, [], ◌∷◌, ok, fault, ◌>>=◌, length, arith,
}
use fsfuse.Downloader.{Downloader, Wake, expired, chunk_get_next, or_wait, arrive}
use fsfuse.Downloader.Pending.{slice, Flight, Inv}
use fsfuse.Downloader.Drain.{trypop-none}
use fsfuse.Downloader.Stream.{is_some}
use fsfuse.Downloader.Thread.{
  Round, enter, in_hand, rounds, downloaderead_main, finish_thread, clear_seek, fetch_in_hand,
}

-- The blocks are the file's bytes from a position on.
abbrev pub Serves : (ℕ → ℕ) → ℕ → List (List ℕ) → Type 0
Serves file off [] = Unit
Serves file off (b ∷ bs) = (b ≡ slice file off (length b)) × Serves file (off + length b) bs

-- In every round the server sends the file from where it is asked to.
abbrev pub AllServe : (ℕ → ℕ) → List Round → Type 0
AllServe file [] = Unit
AllServe file (r ∷ rs) = ((off : ℕ) → Serves file off (r.blocks off)) × AllServe file rs

module _ (file origin finish : ℕ → ℕ) where
  -- What holds of the downloader between the steps of a round.
  pub record Held (d : Downloader) (ws : List Wake) : Type 0 where
    pub inv : Inv file origin finish d ws
    pub flight : Flight file origin finish d.current_chunk
    pub sought : (d.seek ≡ false) ⊎ (is_some d.current_chunk ≡ true)

module _ (d : Downloader) (ws : List Wake) (calm : d.seek ≡ false) (free : d.current_chunk ≡ none)
    (empty : d.chunks.used ≡ 0) where
  enter_idle : enter true d ≡ ok d
  unfolding enter clear_seek
  enter_idle = ground arith

  next_idle : chunk_get_next (expired [] ∷ ws) d ≡ ok (none, d, ws)
  unfolding chunk_get_next or_wait arrive
  next_idle = rw (trypop-none d empty, trypop-none d empty)

  in_hand_idle : in_hand d.current_chunk (expired [] ∷ ws) d ≡ ok (none, d, ws)
  unfolding in_hand
  in_hand_idle =
      ap (λ c. in_hand c (expired [] ∷ ws) d) free
      ∙ ap (λ m. m >>= λ (got, d1, ws1). ok (got, record d1 { current_chunk = got }, ws1)) next_idle
      ∙ ap (λ c. ok (none, record d { current_chunk = c }, ws)) (sym free)

  -- If no request comes before the first wait ends, the thread reads `rc` where nothing set it.
  pub unasked_faults :
      (r : Round) (rs : List Round) → downloaderead_main (r ∷ rs) (expired [] ∷ ws) d ≡ fault
  unfolding downloaderead_main rounds finish_thread fetch_in_hand
  unasked_faults r rs = rw (enter_idle, in_hand_idle)
