-- ===== src/Fetcher.antt =====
-- src/fetcher.c: what a fetch with curl comes to, and the URLs of indexnodes.
pub mod Url
pub mod Codes
mod Tests
use fsfuse.Base.{
  ℕ, ◌+◌, ◌*◌, Bool, true, false, ◌&&◌, ◌||◌, Option, none, some, List, [], ◌∷◌, ◌++◌, ltb, leb,
  ◌==◌, if◌then◌else◌, Run, fault, ok, ◌>>=◌, ◌>>◌, check,
}
use fsfuse.Base.Bytes.{Str, chars, some_text}
use fsfuse.Base.Errno.{enoent, eio, ebusy}
use fsfuse.StringBuffer.{string_buffer_new, string_buffer_printf, string_buffer_commit}

-- The codes that are not named in a case of their own leave EIO.
pub http2errno : ℕ → ℕ
http2errno http_code =
    if http_code == 200
    then 0
    else if http_code == 206
    then 0
    else if http_code == 404
    then enoent
    else if http_code == 503
    then ebusy
    else eio

-- The results of curl_easy_perform that the source names, and any other.
pub data CurlCode : Type 0 where
  curle_ok curle_http_returned_error curle_write_error curle_partial_file curle_couldnt_connect :
      CurlCode
  curle_other : ℕ → CurlCode

-- `http_code` is what curl_easy_getinfo gives.
pub process_curl_response : ℕ → CurlCode → ℕ
unfolding http2errno
process_curl_response http_code curle_ok = http2errno http_code
process_curl_response http_code curle_http_returned_error = http2errno http_code
process_curl_response http_code curle_write_error = 0
process_curl_response http_code curle_partial_file = 0
process_curl_response http_code curle_couldnt_connect = enoent
process_curl_response http_code (curle_other n) = eio

-- Whether strspn reaches the end.
pub only : (ℕ → Bool) → Str → Bool
only among [] = true
only among (c ∷ s) = among c && only among s

pub is_digit : ℕ → Bool
is_digit c = leb b'0' c && leb c b'9'

ip4_char : ℕ → Bool
unfolding is_digit
ip4_char c = is_digit c || c == b'.'

ip6_char : ℕ → Bool
unfolding is_digit
ip6_char c = is_digit c || (leb b'a' c && leb c b'f') || (leb b'A' c && leb c b'F') || c == b':'

pub is_ip4_address : Str → Bool
unfolding only ip4_char
is_ip4_address s = only ip4_char s

pub is_ip6_address : Str → Bool
unfolding only ip6_char
is_ip6_address s = only ip6_char s

-- The format with its arguments put in.
url_text : Bool → Str → Str → Str → Str
url_text true host port path = chars "http://[" ++ host ++ chars "]:" ++ port ++ chars "/" ++ path
url_text false host port path = chars "http://" ++ host ++ chars ":" ++ port ++ chars "/" ++ path

-- The URL with its NUL.
pub fetcher_make_http_url : Str → Str → Str → Run (List ℕ)
unfolding is_ip4_address is_ip6_address url_text some_text
fetcher_make_http_url host port path = do
  sb ← string_buffer_new
  check (some_text host)
      >> (check (some_text port) >> (do
        sb' ←
            string_buffer_printf
              (url_text (is_ip4_address host || is_ip6_address host) host port path) sb
        string_buffer_commit sb'))

-- The size that curl takes for the block: all of it, or nothing to end the fetch. `cb` is the code
-- of the consumer.
pub body_cb_wrapper : (List ℕ → ℕ) → List ℕ → ℕ → ℕ → ℕ
body_cb_wrapper cb data_block size nmemb = if cb data_block == 0 then size * nmemb else 0
