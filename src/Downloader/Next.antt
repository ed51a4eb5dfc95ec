-- ===== src/Downloader/Next.antt =====
-- chunk_get_next of src/downloader/downloader.c, over every course of the wait in which no call of pthread_cond_timedwait
-- fails.
use fsfuse.Base.{
  ℕ, ◌+◌, ◌≤◌, Option, none, some, List, [], ◌∷◌, arith, Run, Returns, returns, Returns-bind,
  Returns-map,
}
use fsfuse.Downloader.{
  Chunk, Downloader, Wake, woken, expired, wait_failed, chunk_get_next, arrivals, Request, or_wait,
}
use fsfuse.Downloader.Pending.{
  SameRest, SameRest-trans, Flight, Inv, taken, Polled, trypop-Polled, arrive-Arrived,
}

module _ (file origin finish : ℕ → ℕ) where
  -- The chunk that comes is one that waited or arrived, still empty, and fewer are left.
  pub record Fetched (d : Downloader) (ws : List Wake) (r : Option Chunk × Downloader × List Wake)
      : Type 0 where
    pub inv : Inv file origin finish r.1 r.2
    pub rest : SameRest d r.1
    pub fewer : (r.1).chunks.used + arrivals r.2 + taken r.0 ≤ d.chunks.used + arrivals ws
    pub flight : Flight file origin finish r.0

  later :
      {d d' : Downloader} {ws ws' : List Wake} {r : Option Chunk × Downloader × List Wake}
      → SameRest d d'
      → d'.chunks.used + arrivals ws' ≤ d.chunks.used + arrivals ws
      → Fetched d' ws' r
      → Fetched d ws r
  later s p f = record {
    inv = f.inv;
    rest = SameRest-trans s f.rest;
    fewer = omega (arith, f.fewer);
    flight = f.flight;
  }

  -- A chunk that the pop before the wait gives is the result; otherwise nothing waited.
  or_wait-Fetched :
      {d : Downloader} {ws : List Wake} (found : Option Chunk) {d' : Downloader}
      {wait : Run (Option Chunk × Downloader × List Wake)}
      → Polled file origin finish d ws (found, d')
      → (Polled file origin finish d ws (none, d') → Returns (Fetched d ws) wait)
      → Returns (Fetched d ws) (or_wait ws found d' wait)
  unfolding or_wait
  or_wait-Fetched (some c) p k =
      returns
        (record { inv = p.inv; rest = p.rest; fewer = omega (arith, p.fewer); flight = p.flight })
  or_wait-Fetched none p k = k p

  -- The wait has expired: what the last pop gives is dropped.
  dropped :
      {d : Downloader} {ws : List Wake} {r : Option Chunk × Downloader}
      → Polled file origin finish d ws r
      → Fetched d ws (none, r.1, ws)
  dropped p = record { inv = p.inv; rest = p.rest; fewer = omega (arith, p.fewer); flight = tt }

  pub as_woken :
      {d : Downloader} {rs : List Request} {ws : List Wake}
      → Inv file origin finish d (expired rs ∷ ws)
      → Inv file origin finish d (woken rs ∷ ws)
  unfolding arrivals
  as_woken i = record {
    valid = i.valid;
    fit = i.fit;
    small = i.small;
    asked = i.asked;
    answered = i.answered;
  }

  -- Waiting for a chunk ends without a fault where no wait fails, and keeps the invariant.
  pub chunk_get_next-Fetched :
      (ws : List Wake) (d : Downloader)
      → Inv file origin finish d ws
      → Returns (Fetched d ws) (chunk_get_next ws d)
  unfolding chunk_get_next arrivals
  chunk_get_next-Fetched [] d i =
      Returns-bind (trypop-Polled file origin finish d [] i) λ (found, d1) p.
        or_wait-Fetched found p λ q.
          Returns-bind (trypop-Polled file origin finish d1 [] q.inv)
            λ r s. returns (later q.rest (omega (arith, q.fewer)) (dropped s))
  chunk_get_next-Fetched (woken rs ∷ ws) d i =
      Returns-bind (trypop-Polled file origin finish d (woken rs ∷ ws) i) λ (found, d1) p.
        or_wait-Fetched found p λ q.
          Returns-bind (arrive-Arrived file origin finish rs d1 ws q.inv) λ d2 a.
            Returns-map (chunk_get_next-Fetched ws d2 a.inv)
              λ r f. later (SameRest-trans q.rest a.rest) (omega (arith, q.fewer, a.more)) f
  chunk_get_next-Fetched (expired rs ∷ ws) d i =
      Returns-bind (trypop-Polled file origin finish d (expired rs ∷ ws) i) λ (found, d1) p.
        or_wait-Fetched found p λ q.
          Returns-bind (arrive-Arrived file origin finish rs d1 ws (as_woken q.inv)) λ d2 a.
            Returns-bind (trypop-Polled file origin finish d2 ws a.inv) λ r s.
              returns
                (later (SameRest-trans q.rest a.rest) (omega (arith, q.fewer, a.more)) (dropped s))
  chunk_get_next-Fetched (wait_failed ∷ ws) d i = absurd i.asked
