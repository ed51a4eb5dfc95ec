-- ===== src/Http/Slurp.antt =====
-- sock_slurp of src/http.c: the blocks that the data callback gets.
use mathlib.Core.Path.{subst}
use mathlib.Core.List.{append_assoc, append-nil}
use fsfuse.Base.{
  ℕ, ◌≤◌, ◌<◌, ◌≡◌, refl, sym, ap, ◌∙◌, inl, inr, false, List, [], ◌∷◌, ◌++◌, ◌==◌, ==_iff,
  if◌then◌else◌, length, length-append, le→leb, Bool-cases, ok, ◌>>=◌, arith, Returns, returns,
  Returns-bind, Returns-map,
}
use fsfuse.Base.Bytes.{Str}
use fsfuse.Http.{
  HttpReq, Read, read_failed, read_bytes, is_empty, without_last, slurp_loop, sock_slurp, buf_size,
  req_done, req_waiting_data,
}

abbrev pub concat : List Str → Str
concat [] = []
concat (s ∷ ss) = s ++ concat ss

-- What the buffer holds after a block of bytes is read: a full one is handed on.
unfoldable pub buffer_after : Str → Str → Str
buffer_after buf s = if length (buf ++ s) == buf_size then [] else buf ++ s

-- Reads of something, each within the room that is left.
unfoldable pub Fits : Str → List Str → Type 0
unfolding buffer_after
Fits buf [] = Unit
Fits buf (s ∷ ss) =
    (is_empty s ≡ false) × (length (buf ++ s) ≤ buf_size) × Fits (buffer_after buf s) ss

-- Blocks of the size of the buffer, and a last one that is smaller.
pub data Blocks : List Str → Type 0 where
  last_block : {s : Str} → length s < buf_size → Blocks (s ∷ [])
  full_block : {s : Str} {ss : List Str} → length s ≡ buf_size → Blocks ss → Blocks (s ∷ ss)

-- The reads, and the one that gives nothing.
pub reads_of : List Str → List Read
reads_of [] = read_bytes [] ∷ []
reads_of (s ∷ ss) = read_bytes s ∷ reads_of ss

pub record Slurped (before : List Str) (stream : Str) (req : HttpReq) : Type 0 where
  pub blocks : List Str
  pub sizes : Blocks blocks
  pub given : req.given ≡ before ++ blocks
  pub bytes : concat blocks ≡ stream

loop-Slurped :
    (ss : List Str) (buf : Str) (req : HttpReq)
    → length buf < buf_size
    → Fits buf ss
    → Returns (Slurped req.given (buf ++ concat ss)) (slurp_loop buf (reads_of ss) req)
unfolding slurp_loop reads_of Fits is_empty buffer_after
loop-Slurped [] buf req lt fits =
    rw (append-nil buf, le→leb (length buf) buf_size (omega (arith, lt)))
      (returns
        (record { blocks = buf ∷ []; sizes = last_block lt; given = refl; bytes = append-nil buf }))
loop-Slurped (s ∷ ss) buf req lt (some_bytes, room, fits) =
    elim (Bool-cases (length (buf ++ s) == buf_size)) [
      | inl h ↦
          rw (le→leb (length (buf ++ s)) buf_size room, some_bytes, h)
            (Returns-map
              (loop-Slurped ss [] (record req { given = req.given ++ ((buf ++ s) ∷ []) })
                (omega arith) (subst (λ b. Fits (if b then [] else buf ++ s) ss) h fits))
              (λ r x. record {
                blocks = (buf ++ s) ∷ x.blocks;
                sizes = full_block ((==_iff (length (buf ++ s)) buf_size).0 h) x.sizes;
                given = x.given ∙ append_assoc req.given ((buf ++ s) ∷ []) x.blocks;
                bytes = ap (λ l. (buf ++ s) ++ l) x.bytes ∙ append_assoc buf s (concat ss);
              }))
      | inr h ↦
          rw (le→leb (length (buf ++ s)) buf_size room, some_bytes, h)
            (Returns-map
              (loop-Slurped ss (buf ++ s) req (below (length (buf ++ s)) room h)
                (subst (λ b. Fits (if b then [] else buf ++ s) ss) h fits))
              (λ r x. record {
                blocks = x.blocks;
                sizes = x.sizes;
                given = x.given;
                bytes = x.bytes ∙ append_assoc buf s (concat ss);
              }))
    ]
  where
    below : (n : ℕ) → n ≤ buf_size → (n == buf_size) ≡ false → n < buf_size
    below n le ne = ground arith

-- sock_slurp of reads that give something each, at most what they are asked for, up to one that gives
-- nothing, ends: the data callback has then had the bytes of all reads, in order, in blocks of 1024
-- and a last one that is smaller, however the reads cut them.
pub sock_slurp-Slurped :
    (ss : List Str) (req : HttpReq)
    → Fits [] ss
    → Returns (Slurped req.given (concat ss)) (sock_slurp (reads_of ss) req)
unfolding sock_slurp
sock_slurp-Slurped ss req fits =
    Returns-bind (loop-Slurped ss [] (record req { state = req_waiting_data }) (omega arith) fits)
      (λ r x.
        returns (record { blocks = x.blocks; sizes = x.sizes; given = x.given; bytes = x.bytes }))

without-append : (buf : Str) (c : ℕ) → without_last (buf ++ (c ∷ [])) ≡ ok buf
unfolding without_last
without-append [] c = refl
without-append (b ∷ []) c = refl
without-append (b ∷ d ∷ buf) c = rw (without-append (d ∷ buf) c) refl

some_before : (s : Str) (c : ℕ) → is_empty (s ++ (c ∷ [])) ≡ false
unfolding is_empty
some_before [] c = refl
some_before (b ∷ s) c = refl

short_read :
    (s : Str) (reads : List Read) (req : HttpReq)
    → is_empty s ≡ false
    → length s < buf_size
    → slurp_loop [] (read_bytes s ∷ reads) req ≡ slurp_loop s reads req
unfolding slurp_loop
short_read s reads req some_bytes lt =
    rw (le→leb (length s) buf_size (omega (arith, lt)), some_bytes, not_full (length s) lt) refl
  where
    not_full : (n : ℕ) → n < buf_size → (n == buf_size) ≡ false
    not_full n lt = ground arith

-- A read that fails takes back the last byte of the read before: sock_slurp goes on as if neither
-- the byte nor the failure had been, and does not end for it.
pub sock_slurp_failed :
    (s : Str) (c : ℕ) (reads : List Read) (req : HttpReq)
    → is_empty s ≡ false
    → length (s ++ (c ∷ [])) < buf_size
    → sock_slurp (read_bytes (s ++ (c ∷ [])) ∷ read_failed ∷ reads) req
      ≡ sock_slurp (read_bytes s ∷ reads) req
unfolding sock_slurp slurp_loop
sock_slurp_failed s c reads req some_bytes lt =
    ap (λ m. m >>= λ (r : HttpReq). ok (record r { state = req_done }))
      (short_read (s ++ (c ∷ [])) (read_failed ∷ reads) (record req { state = req_waiting_data })
          (some_before s c) lt
        ∙ (rw (without-append s c) refl)
        ∙ sym (
            short_read s reads (record req { state = req_waiting_data }) some_bytes
              (omega (arith, lt, length-append s (c ∷ [])))))
