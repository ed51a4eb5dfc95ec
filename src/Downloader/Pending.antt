-- ===== src/Downloader/Pending.antt =====
-- What a downloader's state means: the reads that wait, the bytes they are due, and the invariant
-- that relates the chunks and the answers to them.
use fsfuse.Base.{
  ℕ, zero, suc, ◌+◌, ◌-◌, ◌^◌, ◌≤◌, ◌<◌, ◌≡◌, refl, ap, ◌∙◌, Bool, true, false, ◌&&◌, Option, none,
  some, List, [], ◌∷◌, ◌++◌, leb, ◌==◌, if◌then◌else◌, length, take, drop, arith, le→leb,
  Bool-cases, inl, inr, Returns, returns, Returns-bind, Returns-map,
}
use mathlib.Core.Path.{ap₂}
use fsfuse.Base.Int.{to_int}
use fsfuse.BinaryHeap.{BinaryHeap, Kvp}
use fsfuse.BinaryHeap.Queue.{
  IsValid, contents, Popped, entry, binary_heap_trypop_correct, binary_heap_trypop-empty,
  binary_heap_add_correct,
}
use fsfuse.Downloader.{
  Chunk, Signal, Downloader, Request, Wake, woken, expired, wait_failed, chunk_new,
  downloader_chunk_add, arrive, trypop, arrivals,
}

-- The bytes of a file from a position on.
abbrev pub slice : (ℕ → ℕ) → ℕ → ℕ → List ℕ
slice file off zero = []
slice file off (suc n) = file off ∷ slice file (suc off) n

pub length-slice : (file : ℕ → ℕ) (off n : ℕ) → length (slice file off n) ≡ n
length-slice file off zero = refl
length-slice file off (suc n) = ap suc (length-slice file (suc off) n)

pub take-slice : (file : ℕ → ℕ) (off m n : ℕ) → n ≤ m → take n (slice file off m) ≡ slice file off n
take-slice file off m zero h = refl
take-slice file off zero (suc n) h = absurd (omega arith)
take-slice file off (suc m) (suc n) h =
    ap (◌∷◌ (file off)) (take-slice file (suc off) m n (omega arith))

pub drop-slice :
    (file : ℕ → ℕ) (off m n : ℕ) → n ≤ m → drop n (slice file off m) ≡ slice file (off + n) (m - n)
drop-slice file off m zero h = ap₂ (slice file) (omega arith) (omega arith)
drop-slice file off zero (suc n) h = absurd (omega arith)
drop-slice file off (suc m) (suc n) h =
    drop-slice file (suc off) m n (omega arith) ∙ ap₂ (slice file) (omega arith) (omega arith)

pub slice-append :
    (file : ℕ → ℕ) (off m n : ℕ)
    → slice file off m ++ slice file (off + m) n ≡ slice file off (m + n)
slice-append file off zero n = ap₂ (slice file) (omega arith) (omega arith)
slice-append file off (suc m) n =
    let shift : off + suc m ≡ suc off + m = omega arith in
    let count : suc m + n ≡ suc (m + n) = omega arith in
    rw (shift, count) (ap (◌∷◌ (file off)) (slice-append file (suc off) m n))

-- The fields that popping and waiting leave alone.
pub record SameRest (d d' : Downloader) : Type 0 where
  pub size : d'.size ≡ d.size
  pub download_offset : d'.download_offset ≡ d.download_offset
  pub seek : d'.seek ≡ d.seek
  pub timed_out : d'.timed_out ≡ d.timed_out
  pub signals : d'.signals ≡ d.signals

pub SameRest-refl : (d : Downloader) → SameRest d d
SameRest-refl d = record {
  size = refl;
  download_offset = refl;
  seek = refl;
  timed_out = refl;
  signals = refl;
}

SameRest-heap : (d : Downloader) (heap : BinaryHeap Chunk) → SameRest d (record d { chunks = heap })
SameRest-heap d heap = record {
  size = refl;
  download_offset = refl;
  seek = refl;
  timed_out = refl;
  signals = refl;
}

pub SameRest-trans : {d d' d2 : Downloader} → SameRest d d' → SameRest d' d2 → SameRest d d2
SameRest-trans s t = record {
  size = t.size ∙ s.size;
  download_offset = t.download_offset ∙ s.download_offset;
  seek = t.seek ∙ s.seek;
  timed_out = t.timed_out ∙ s.timed_out;
  signals = t.signals ∙ s.signals;
}

abbrev pub taken : Option Chunk → ℕ
taken none = 0
taken (some c) = 1

-- `origin` and `finish` give the range that each read asked for, and `file` the file's bytes.
module _ (file origin finish : ℕ → ℕ) where
  is_nil : List ℕ → Bool
  is_nil [] = true
  is_nil (_ ∷ _) = false

  -- A chunk that nothing has been written to yet, for the range of its read.
  fits : Chunk → Bool
  unfolding is_nil
  fits c =
      (c.bytes_used == 0)
      && is_nil c.buf
      && leb c.start c.end
      && (origin c.ctxt == c.start)
      && (finish c.ctxt == c.end)

  pub unfit : Kvp Chunk → ℕ
  unfit e = if fits (e.value) then 0 else 1

  -- A request for the range that its read asked for, which lies in the file.
  abbrev pub Asked : ℕ → Request → Type 0
  Asked size r =
      (r.start ≤ r.end) × (r.end ≤ size) × (origin r.ctxt ≡ r.start) × (finish r.ctxt ≡ r.end)

  abbrev pub AllAsked : ℕ → List Request → Type 0
  AllAsked size [] = Unit
  AllAsked size (r ∷ rs) = Asked size r × AllAsked size rs

  -- All that arrives is such a request, and no wait fails.
  abbrev pub WakesAsked : ℕ → List Wake → Type 0
  WakesAsked size [] = Unit
  WakesAsked size (woken rs ∷ ws) = AllAsked size rs × WakesAsked size ws
  WakesAsked size (expired rs ∷ ws) = AllAsked size rs × WakesAsked size ws
  WakesAsked size (wait_failed ∷ ws) = ⊥

  -- A read that is told of success has exactly the bytes of its range.
  abbrev pub Answered : List Signal → Type 0
  Answered [] = Unit
  Answered (s ∷ ss) =
      (s.rc ≡ 0
        → (origin s.ctxt + s.size ≡ finish s.ctxt) × (s.bytes ≡ slice file (origin s.ctxt) s.size))
      × Answered ss

  -- The chunk that is being filled holds the first bytes of its range.
  pub record InFlight (c : Chunk) : Type 0 where
    pub begun : origin c.ctxt + c.bytes_used ≡ c.start
    pub ordered : c.start ≤ c.end
    pub last : finish c.ctxt ≡ c.end
    pub bytes : c.buf ≡ slice file (origin c.ctxt) c.bytes_used

  pub record Inv (d : Downloader) (ws : List Wake) : Type 0 where
    pub valid : IsValid d.chunks
    pub fit : contents unfit d.chunks ≡ 0
    pub small : d.chunks.used + arrivals ws < 2 ^ 29
    pub asked : WakesAsked d.size ws
    pub answered : Answered d.signals

  InFlight-of_fits : (e : Kvp Chunk) → unfit e ≡ 0 → InFlight (e.value)
  unfolding unfit fits
  InFlight-of_fits e h = ground arith

  pub fits_new :
      (size : ℕ) (r : Request) → Asked size r → unfit (entry (to_int r.start) (chunk_new r)) ≡ 0
  unfolding unfit fits chunk_new
  fits_new size r a = ground arith

  abbrev pub Flight : Option Chunk → Type 0
  Flight none = Unit
  Flight (some c) = InFlight c

  pub record Polled (d : Downloader) (ws : List Wake) (r : Option Chunk × Downloader) : Type 0 where
    pub inv : Inv r.1 ws
    pub rest : SameRest d r.1
    pub fewer : (r.1).chunks.used + taken r.0 ≡ d.chunks.used
    pub flight : Flight r.0

  Polled-of_Popped :
      (d : Downloader) (ws : List Wake)
      → Inv d ws
      → (r : Option (Kvp Chunk) × BinaryHeap Chunk) → Popped d.chunks r
      → Polled d ws (elim (r.0) [ none ↦ none | some e ↦ some e.value ], record d { chunks = r.1 })
  Polled-of_Popped d ws i (found, heap) p = rw (p.result) (record {
    inv = record {
      valid = p.valid;
      fit = omega (arith, p.same unfit, i.fit);
      small = omega (arith, p.used, i.small);
      asked = i.asked;
      answered = i.answered;
    };
    rest = SameRest-heap d heap;
    fewer = p.used;
    flight = InFlight-of_fits (p.top) (omega (arith, p.same unfit, i.fit));
  })

  pub trypop-Polled :
      (d : Downloader) (ws : List Wake) → Inv d ws → Returns (Polled d ws) (trypop d)
  unfolding trypop
  trypop-Polled d ws i = elim (Bool-cases (d.chunks.used == 0)) [
    | inl empty ↦
        rw (binary_heap_trypop-empty d.chunks (ground arith))
          (returns (record { inv = i; rest = SameRest-refl d; fewer = omega arith; flight = tt }))
    | inr more ↦
        Returns-bind
          (binary_heap_trypop_correct d.chunks i.valid (ground arith) (omega (arith, i.small)))
          λ r p. returns (Polled-of_Popped d ws i r p)
  ]

  pub record Arrived (d : Downloader) (n : ℕ) (ws : List Wake) (d' : Downloader) : Type 0 where
    pub inv : Inv d' ws
    pub rest : SameRest d d'
    pub more : d'.chunks.used ≡ d.chunks.used + n
    pub current : d'.current_chunk ≡ d.current_chunk

  -- The asserts of downloader_chunk_add hold for a request that lies in the file.
  downloader_chunk_add-Arrived :
      (d : Downloader) (r : Request) (rs : List Request) (ws : List Wake)
      → Inv d (woken (r ∷ rs) ∷ ws)
      → Returns (Arrived d 1 (woken rs ∷ ws)) (downloader_chunk_add d r)
  unfolding downloader_chunk_add arrivals
  downloader_chunk_add-Arrived d r rs ws i =
      let a = i.asked.0.0 in
      rw (le→leb _ _ (a.0), le→leb r.start d.size (omega (arith, a)), le→leb _ _ (a.1))
        (Returns-bind
          (binary_heap_add_correct d.chunks i.valid (to_int r.start) (chunk_new r)
            (omega (arith, i.small)))
          λ heap added. returns (record {
            inv = record {
              valid = added.valid;
              fit = omega (arith, added.same unfit, i.fit, fits_new d.size r a);
              small = omega (arith, added.used, i.small);
              asked = (i.asked.0.1, i.asked.1);
              answered = i.answered;
            };
            rest = SameRest-heap d heap;
            more = added.used;
            current = refl;
          }))

  pub arrive-Arrived :
      (rs : List Request) (d : Downloader) (ws : List Wake)
      → Inv d (woken rs ∷ ws)
      → Returns (Arrived d (length rs) ws) (arrive rs d)
  unfolding arrive arrivals
  arrive-Arrived [] d ws i = returns (record {
    inv = record {
      valid = i.valid;
      fit = i.fit;
      small = omega (arith, i.small);
      asked = i.asked.1;
      answered = i.answered;
    };
    rest = SameRest-refl d;
    more = omega arith;
    current = refl;
  })
  arrive-Arrived (r ∷ rs) d ws i = Returns-bind (downloader_chunk_add-Arrived d r rs ws i) λ d1 a.
      Returns-map (arrive-Arrived rs d1 ws a.inv) λ d2 b. record {
        inv = b.inv;
        rest = SameRest-trans a.rest b.rest;
        more = omega (arith, a.more, b.more);
        current = b.current ∙ a.current;
      }
