-- ===== src/Fetcher/Url.antt =====
-- fetcher_make_http_url of src/fetcher.c: which hosts stand in brackets.
use fsfuse.Base.{
  ℕ, ◌+◌, ◌^◌, ◌<◌, length, length-append, ◌≤◌, ◌≡◌, refl, inl, inr, ◌↔◌, ◌⊎◌, Bool, true, false,
  ◌||◌, List, [], ◌∷◌, ◌++◌, arith, Returns, Returns-bind, Returns-map,
}
use fsfuse.Base.Bytes.{Str, chars, some_text}
use fsfuse.StringBuffer.Contents.{
  string_buffer_new-Holds, string_buffer_printf-Holds, string_buffer_commit_lem,
}
use fsfuse.Fetcher.{
  only, is_digit, ip4_char, ip6_char, is_ip4_address, is_ip6_address, url_text,
  fetcher_make_http_url,
}

pub All : (ℕ → Type 0) → Str → Type 0
All P [] = Unit
All P (c ∷ s) = P c × All P s

pub Within : ℕ → ℕ → ℕ → Type 0
Within low high c = (low ≤ c) × (c ≤ high)

-- A decimal digit or a dot.
unfoldable pub Ip4Char : ℕ → Type 0
unfolding Within
Ip4Char c = Within b'0' b'9' c ⊎ (c ≡ b'.')

-- A hexadecimal digit or a colon.
unfoldable pub Ip6Char : ℕ → Type 0
unfolding Within
Ip6Char c = Within b'0' b'9' c ⊎ Within b'a' b'f' c ⊎ Within b'A' b'F' c ⊎ (c ≡ b':')

only-All :
    (P : ℕ → Type 0) (test : ℕ → Bool) (s : Str)
    → ((c : ℕ) → (test c ≡ true) ↔ P c)
    → (only test s ≡ true) ↔ All P s
unfolding only All
only-All P test [] iff = (λ e. tt, λ a. refl)
only-All P test (c ∷ s) iff =
    let (to, from) = only-All P test s iff in
    (λ e. ((iff c).0 (ground arith), to (ground arith)), λ a. rw ((iff c).1 a.0, from a.1) refl)

ip4_char_iff : (c : ℕ) → (ip4_char c ≡ true) ↔ Ip4Char c
unfolding ip4_char is_digit Ip4Char Within
ip4_char_iff c = (λ e. ground arith, λ p. ground arith)

ip6_char_iff : (c : ℕ) → (ip6_char c ≡ true) ↔ Ip6Char c
unfolding ip6_char is_digit Ip6Char Within
ip6_char_iff c = (λ e. ground arith, λ p. ground arith)

-- Every character is a digit or a dot, or every one is a hexadecimal digit or a colon.
pub IsAddress : Str → Type 0
IsAddress host = All Ip4Char host ⊎ All Ip6Char host

IsAddress-iff :
    (host : Str) → ((is_ip4_address host || is_ip6_address host) ≡ true) ↔ IsAddress host
unfolding IsAddress is_ip4_address is_ip6_address
IsAddress-iff host =
    let (to4, from4) = only-All Ip4Char ip4_char host ip4_char_iff in
    let (to6, from6) = only-All Ip6Char ip6_char host ip6_char_iff in
    (
      λ e. by_first (only ip4_char host) (only ip6_char host) e to4 to6,
      λ a. elim a [
        | inl a4 ↦ rw (from4 a4) refl
        | inr a6 ↦ or_true (only ip4_char host) (only ip6_char host) (from6 a6)
      ],
    )
  where
    by_first :
        (a b : Bool)
        → (a || b) ≡ true
        → (a ≡ true → All Ip4Char host)
        → (b ≡ true → All Ip6Char host)
        → All Ip4Char host ⊎ All Ip6Char host
    by_first true b e f g = inl (f refl)
    by_first false b e f g = inr (g e)

    or_true : (a b : Bool) → b ≡ true → (a || b) ≡ true
    or_true true b e = refl
    or_true false b e = e

-- The URL of a host, port and path, with its NUL.
pub data UrlOf (host port path : Str) (url : List ℕ) : Type 0 where
  bracketed :
      IsAddress host
      → url ≡ (chars "http://[" ++ host ++ chars "]:" ++ port ++ chars "/" ++ path) ++ (0 ∷ [])
      → UrlOf host port path url
  plain :
      ¬ IsAddress host
      → url ≡ (chars "http://" ++ host ++ chars ":" ++ port ++ chars "/" ++ path) ++ (0 ∷ [])
      → UrlOf host port path url

by_address :
    (b : Bool) (host port path : Str) (url : List ℕ)
    → (b ≡ true) ↔ IsAddress host
    → url ≡ url_text b host port path ++ (0 ∷ [])
    → UrlOf host port path url
unfolding url_text
by_address true host port path url iff e = bracketed (iff.0 refl) e
by_address false host port path url iff e = plain (λ a. let h = iff.1 a in cc) e

six_lengths :
    (a b c d e f : Str)
    → length (a ++ b ++ c ++ d ++ e ++ f)
      ≡ length a + length b + length c + length d + length e + length f
six_lengths a b c d e f = omega (
  arith,
  length-append a b,
  length-append (a ++ b) c,
  length-append (a ++ b ++ c) d,
  length-append (a ++ b ++ c ++ d) e,
  length-append (a ++ b ++ c ++ d ++ e) f,
)

-- The two formats add at most eleven characters.
url_length :
    (b : Bool) (host port path : Str)
    → length host + length port + length path + 11 < 2 ^ 31
    → length (url_text b host port path) < 2 ^ 31
unfolding url_text
url_length true host port path lt =
    rw (six_lengths (chars "http://[") host (chars "]:") port (chars "/") path) (omega (arith, lt))
url_length false host port path lt =
    rw (six_lengths (chars "http://") host (chars ":") port (chars "/") path) (omega (arith, lt))

-- Of a host and a port that are not empty, where the URL's length is below 2^31,
-- fetcher_make_http_url ends with the URL of both and the
-- path: the host stands in brackets just when it is made of digits and dots alone, or of hexadecimal
-- digits and colons alone.
pub fetcher_make_http_url-UrlOf :
    (host port path : Str)
    → some_text host ≡ true
    → some_text port ≡ true
    → length host + length port + length path + 11 < 2 ^ 31
    → Returns (UrlOf host port path) (fetcher_make_http_url host port path)
unfolding fetcher_make_http_url
fetcher_make_http_url-UrlOf host port path some_host some_port lt =
    Returns-bind string_buffer_new-Holds (λ sb x.
      rw (some_host, some_port)
        (Returns-bind (string_buffer_printf-Holds [] _ sb x (url_length _ host port path lt))
          (λ sb' x'.
            Returns-map (string_buffer_commit_lem _ sb' x')
              (λ url e. by_address _ host port path url (IsAddress-iff host) e))))
