-- ===== src/Downloader/Drain.antt =====
-- chunks_empty of src/downloader/downloader.c, and a request that comes as the wait expires.
use fsfuse.Base.{
  ℕ, zero, suc, ◌+◌, ◌<◌, ◌^◌, ◌≡◌, refl, sym, ap, ◌∙◌, inl, inr, Option, none, some, List, [], ◌∷◌,
  ◌++◌, arith, ok, fault, Returns, returns, Returns-bind, Returns-map, length, length-append,
  Bool-cases, ◌==◌,
}
use mathlib.Core.List.{append_assoc}
use fsfuse.BinaryHeap.{BinaryHeap, Kvp}
use fsfuse.BinaryHeap.Order.{tally}
use fsfuse.BinaryHeap.Queue.{
  IsValid, contents, binary_heap_trypop_correct, binary_heap_trypop-empty,
}
use fsfuse.Downloader.{
  Chunk, Signal, Downloader, Request, Wake, expired, wait_failed, trypop, chunks_empty,
  signal_read_thread, chunk_get_next, or_wait,
}
use fsfuse.Downloader.Pending.{Inv, arrive-Arrived}
use fsfuse.Downloader.Next.{as_woken}

-- Answers with the code and no bytes.
abbrev pub AllFailed : ℕ → List Signal → Type 0
AllFailed rc [] = Unit
AllFailed rc (s ∷ ss) = (s.rc ≡ rc) × (s.size ≡ 0) × AllFailed rc ss

AllFailed-append :
    (rc : ℕ) (ss ts : List Signal) → AllFailed rc ss → AllFailed rc ts → AllFailed rc (ss ++ ts)
AllFailed-append rc [] ts h k = k
AllFailed-append rc (s ∷ ss) ts h k = (h.0, h.1, AllFailed-append rc ss ts h.2 k)

-- The answer to a chunk that failed.
abbrev pub refusal : ℕ → Kvp Chunk → Signal
refusal rc e = record { ctxt = (e.value).ctxt; rc = rc; size = 0; bytes = (e.value).buf }

-- The weight of a list of answers. It determines them up to order, as it does so for every weight.
pub weight : (Signal → ℕ) → List Signal → ℕ
weight w [] = 0
weight w (s ∷ ss) = w s + weight w ss

weight-append :
    (w : Signal → ℕ) (ss ts : List Signal) → weight w (ss ++ ts) ≡ weight w ss + weight w ts
unfolding weight
weight-append w [] ts = omega arith
weight-append w (s ∷ ss) ts = omega (arith, weight-append w ss ts)

empty_weight : (w : Signal → ℕ) → weight w [] ≡ 0
unfolding weight
empty_weight w = refl

last_weight : (w : Signal → ℕ) (s : Signal) → weight w (s ∷ []) ≡ w s
unfolding weight
last_weight w s = omega arith

-- The heap is empty, and the answers are the refusals of the chunks that were on it, each once.
pub record Emptied (rc : ℕ) (d d' : Downloader) : Type 0 where
  pub empty : d'.chunks.used ≡ 0
  pub current : d'.current_chunk ≡ d.current_chunk
  pub told : List Signal
  pub signals : d'.signals ≡ told ++ d.signals
  pub each : length told ≡ d.chunks.used
  pub failed : AllFailed rc told
  pub once :
      (w : Signal → ℕ) → weight w told ≡ contents (λ (e : Kvp Chunk). w (refusal rc e)) d.chunks

-- What a pop of a heap that holds something gives.
record Took (d : Downloader) (r : Option Chunk × Downloader) : Type 0 where
  chunk : Kvp Chunk
  got : r.0 ≡ some chunk.value
  same : (w : Kvp Chunk → ℕ) → contents w (r.1).chunks + w chunk ≡ contents w d.chunks
  valid : IsValid (r.1).chunks
  used : (r.1).chunks.used + 1 ≡ d.chunks.used
  current : (r.1).current_chunk ≡ d.current_chunk
  signals : (r.1).signals ≡ d.signals

trypop-Took :
    (d : Downloader)
    → IsValid d.chunks
    → 0 < d.chunks.used
    → d.chunks.used < 2 ^ 29
    → Returns (Took d) (trypop d)
unfolding trypop
trypop-Took d v some_left small =
    Returns-bind (binary_heap_trypop_correct d.chunks v some_left small) λ r p. returns (record {
      chunk = p.top;
      same = p.same;
      got = rw p.result;
      valid = p.valid;
      used = p.used;
      current = refl;
      signals = refl;
    })

pub trypop-none : (d : Downloader) → d.chunks.used ≡ 0 → trypop d ≡ ok (none, d)
unfolding trypop
trypop-none d empty = rw (binary_heap_trypop-empty d.chunks empty)

Emptied-next :
    (rc : ℕ) {d : Downloader} {r : Option Chunk × Downloader} (t : Took d r) {d' : Downloader}
    → Emptied rc (signal_read_thread (t.chunk).value rc 0 r.1) d'
    → Emptied rc d d'
unfolding signal_read_thread
Emptied-next rc {d} {r} t e = record {
  empty = e.empty;
  current = e.current ∙ t.current;
  told = e.told ++ signal ∷ [];
  signals =
      e.signals
      ∙ ap (λ ss. e.told ++ signal ∷ ss) t.signals
      ∙ sym (append_assoc e.told (signal ∷ []) d.signals);
  each = omega (arith, length-append e.told (signal ∷ []), e.each, t.used);
  failed = AllFailed-append rc e.told (signal ∷ []) e.failed (refl, refl, tt);
  once = λ w.
      weight-append w e.told (signal ∷ [])
      ∙ omega (arith, e.once w, t.same (λ x. w (refusal rc x)), last_weight w signal);
}
  where
    signal : Signal
    signal = refusal rc t.chunk

none_held : (w : Kvp Chunk → ℕ) (h : BinaryHeap Chunk) → h.used ≡ 0 → contents w h ≡ 0
unfolding tally
none_held w h empty = rw empty refl

-- Emptying the list of a valid downloader ends without a fault, the fuel suffices, and the answers
-- are those to the chunks on the heap, one to each, with the code and the size 0.
pub chunks_empty-Emptied :
    (k rc : ℕ) (d : Downloader)
    → IsValid d.chunks
    → d.chunks.used < k
    → d.chunks.used < 2 ^ 29
    → Returns (Emptied rc d) (chunks_empty k rc d)
unfolding chunks_empty signal_read_thread
chunks_empty-Emptied zero rc d v fuel small = absurd (omega arith)
chunks_empty-Emptied (suc k) rc d v fuel small = elim (Bool-cases (d.chunks.used == 0)) [
  | inl none_left ↦ rw (trypop-none d (ground arith)) (
      returns (record {
        empty = ground arith;
        current = refl;
        told = [];
        signals = refl;
        each = ground arith;
        failed = tt;
        once =
            λ w. empty_weight w ∙ sym (none_held (λ e. w (refusal rc e)) d.chunks (ground arith));
      }))
  | inr more ↦ Returns-bind (trypop-Took d v (ground arith) small) λ r t. rw (t.got) (
      Returns-map
        (chunks_empty-Emptied k rc (signal_read_thread (t.chunk).value rc 0 r.1) t.valid
          (omega (arith, t.used)) (omega (arith, t.used)))
        λ d' e. Emptied-next rc t e)
]

-- A wait that fails, with nothing on the heap, fails the assert behind the loop.
pub wait_failed_faults :
    (d : Downloader) (ws : List Wake)
    → d.chunks.used ≡ 0
    → chunk_get_next (wait_failed ∷ ws) d ≡ fault
unfolding chunk_get_next or_wait
wait_failed_faults d ws empty = rw (trypop-none d empty, trypop-none d empty) refl

-- What becomes of a request that arrives while the wait expires: nothing is returned, its chunk
-- is off the heap, and no read was answered.
abbrev pub Lost : Downloader → Option Chunk × Downloader × List Wake → Type 0
Lost d (got, d', ws) = (got ≡ none) × (d'.chunks.used ≡ 0) × (d'.signals ≡ d.signals)

module _ (file origin finish : ℕ → ℕ) where
  pub expired_loses :
      (d : Downloader) (r : Request) (ws : List Wake)
      → Inv file origin finish d (expired (r ∷ []) ∷ ws)
      → d.chunks.used ≡ 0
      → Returns (Lost d) (chunk_get_next (expired (r ∷ []) ∷ ws) d)
  unfolding chunk_get_next or_wait
  expired_loses d r ws i empty = rw (trypop-none d empty) (
      Returns-bind (arrive-Arrived file origin finish (r ∷ []) d ws (as_woken file origin finish i))
        λ d2 a.
          Returns-bind
            (trypop-Took d2 a.inv.valid (omega (arith, a.more)) (omega (arith, a.inv.small)))
            λ q t. returns (refl, omega (arith, t.used, a.more), t.signals ∙ a.rest.signals))
