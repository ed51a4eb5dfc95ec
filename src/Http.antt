-- ===== src/Http.antt =====
-- src/http.c: the headers of a request, and the loops that connect, write and read a socket.
pub mod Fields
pub mod Send
pub mod Slurp
mod Tests
use fsfuse.Base.{
  ℕ, zero, suc, ◌+◌, ◌-◌, ◌<◌, Bool, true, false, Option, none, some, List, [], ◌∷◌, ◌++◌, ltb, leb,
  ◌==◌, if◌then◌else◌, length, take, drop, Run, fault, out_of_fuel, ok, ◌>>=◌, ◌>>◌, or_fault,
  check,
}
use fsfuse.Base.Bytes.{Str, chars, str_eq}
use fsfuse.Base.Int.{ℤ, pos, negsuc, to_int}
use fsfuse.Base.Heap.{Heap, Pointer, literal, address, free}
use fsfuse.StringBuffer.{StringBuffer, string_buffer_new, string_buffer_append}

pub data HttpReqState : Type 0 where
  req_new req_connecting req_connected req_sending req_waiting_headers req_waiting_data req_done :
      HttpReqState

-- The keys and values of `headers`. `given` is what the data callback was called with.
pub record HttpReq : Type 0 where
  pub state : HttpReqState
  pub headers : List (Str × Str)
  pub given : List Str

-- The index of the first header with the key, from the index `i` on.
find_from : ℕ → Str → List (Str × Str) → Option ℕ
find_from i key [] = none
find_from i key (h ∷ hs) =
    let later = find_from (suc i) key hs in if str_eq h.0 key then some i else later

pub header_find : Str → List (Str × Str) → Option ℕ
unfolding find_from
header_find key headers = find_from 0 key headers

set_value : ℕ → Str → List (Str × Str) → List (Str × Str)
set_value i value [] = []
set_value zero value (h ∷ hs) = (h.0, value) ∷ hs
set_value (suc i) value (h ∷ hs) = h ∷ set_value i value hs

set_or_append : Option ℕ → Str → Str → List (Str × Str) → List (Str × Str)
unfolding set_value
set_or_append none key value headers = headers ++ ((key, value) ∷ [])
set_or_append (some i) key value headers = set_value i value headers

pub http_req_new : HttpReq
http_req_new = record { state = req_new; headers = []; given = [] }

pub http_req_set_header : Str → Str → HttpReq → HttpReq
unfolding header_find set_or_append
http_req_set_header key value req = record req {
  headers = set_or_append (header_find key req.headers) key value req.headers;
}

-- What a call of write gives: -1 with EINTR, -1 with another error, or a number of bytes.
pub data Written : Type 0 where
  interrupted failed : Written
  wrote : ℕ → Written

-- What is left to send, and what the socket has taken.
pub record Sending : Type 0 where
  pub buf : Str
  pub sent : Str

-- What write gives is kept in an int. -1 fails the assert, since errno is 0 then, and another negative
-- number is taken for one behind the length.
unfoldable pub after_count : ℤ → ℕ → Sending → Run Sending
after_count (negsuc m) n s = fault
after_count (pos m) n s =
    check (leb m (length s.buf))
    >> ok (record { buf = drop m s.buf; sent = s.sent ++ take n s.buf })

unfoldable pub after_write : Written → Sending → Run Sending
unfolding after_count
after_write interrupted s = ok s
after_write failed s = fault
after_write (wrote n) s = after_count (to_int n) n s

unfoldable pub is_empty : Str → Bool
is_empty [] = true
is_empty (c ∷ s) = false

-- The loop, from the call number `time` of write on, which answers the length it is given.
pub send_loop : ℕ → (ℕ → ℕ → Written) → ℕ → Sending → Run Sending
unfolding after_write is_empty
send_loop zero write time s = out_of_fuel
send_loop (suc k) write time s =
    let round = (do
      s' ← after_write (write time (length s.buf)) s
      send_loop k write (suc time) s') in
    if is_empty s.buf then ok s else round

-- The bytes that the socket has taken.
pub sock_send_buf : ℕ → (ℕ → ℕ → Written) → Str → Run Str
unfolding send_loop
sock_send_buf fuel write buf = do
  s ← send_loop fuel write 0 (record { buf = buf; sent = [] })
  ok s.sent

abbrev pub buf_size : ℕ
buf_size = 1024

-- What a call of read gives: -1, or bytes.
pub data Read : Type 0 where
  read_failed : Read
  read_bytes : Str → Read

-- The size -1 takes the last byte back, and leaves the buffer where there is none.
without_last : Str → Run Str
without_last [] = fault
without_last (c ∷ []) = ok []
without_last (c ∷ d ∷ s) = do rest ← without_last (d ∷ s); ok (c ∷ rest)

-- Both loops: `buf` is what the buffer in hand holds. A read gives at most what there is room for;
-- more would be written behind the buffer. A read of nothing ends both loops.
pub slurp_loop : Str → List Read → HttpReq → Run HttpReq
unfolding without_last is_empty
slurp_loop buf [] req = out_of_fuel
slurp_loop buf (read_failed ∷ reads) req = do buf' ← without_last buf; slurp_loop buf' reads req
slurp_loop buf (read_bytes s ∷ reads) req =
    let buf' = buf ++ s in
    let full = slurp_loop [] reads (record req { given = req.given ++ (buf' ∷ []) }) in
    let on = slurp_loop buf' reads req in
    check (leb (length buf') buf_size)
    >> (if is_empty s
        then ok (record req { given = req.given ++ (buf' ∷ []) })
        else if length buf' == buf_size
        then full
        else on)

pub sock_slurp : List Read → HttpReq → Run HttpReq
unfolding slurp_loop
sock_slurp reads req = do
  req' ← slurp_loop [] reads (record req { state = req_waiting_data })
  ok (record req' { state = req_done })

-- A result of getaddrinfo: the socket, unless socket gives -1, and whether connect succeeds.
pub record Address : Type 0 where
  pub socket : Option ℕ
  pub connects : Bool

-- The loop over the results: the last value of `s`, and whether the loop was left by a connection.
connect_loop : Option ℕ → List Address → Option ℕ × Bool
connect_loop s [] = (s, false)
connect_loop s (ai ∷ ais) = tried ai.socket ai.connects (connect_loop ai.socket ais)
  where
    tried : Option ℕ → Bool → Option ℕ × Bool → Option ℕ × Bool
    tried none connects later = later
    tried (some s') false later = later
    tried (some s') true later = (some s', true)

-- The socket is none for -1. Without a result of getaddrinfo it is never set.
pub establish_connection : List Address → HttpReq → Run (Option ℕ × HttpReq)
unfolding connect_loop
establish_connection [] req = fault
establish_connection (ai ∷ ais) req =
    let (s, connected) = connect_loop none (ai ∷ ais) in
    ok (s, record req { state = if connected then req_connected else req_connecting })
