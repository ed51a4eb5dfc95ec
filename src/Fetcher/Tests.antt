-- ===== src/Fetcher/Tests.antt =====
-- The URL of a host in the local network, and codes of fetches.
use fsfuse.Base.{ℕ, Returns, refl, arith}
use fsfuse.Base.Bytes.{chars, some_text}
use fsfuse.Fetcher.{fetcher_make_http_url}
use fsfuse.Fetcher.Url.{UrlOf, fetcher_make_http_url-UrlOf}

fetcher_make_http_url-UrlOf_example :
    Returns
      (UrlOf (chars "10.0.0.1") (chars "1337") (chars "stats"))
      (fetcher_make_http_url (chars "10.0.0.1") (chars "1337") (chars "stats"))
unfolding some_text
fetcher_make_http_url-UrlOf_example =
    fetcher_make_http_url-UrlOf (chars "10.0.0.1") (chars "1337") (chars "stats") refl refl
      (omega arith)

abbrev not_found : ℕ
not_found = 404
