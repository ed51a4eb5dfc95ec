-- ===== src/Fetcher/Codes.antt =====
-- The error codes that a fetch of src/fetcher.c ends with.
use fsfuse.Base.{ℕ, ◌≡◌, refl, inl, inr, ◌↔◌, ◌⊎◌, arith}
use fsfuse.Fetcher.{
  http2errno, CurlCode, curle_ok, curle_http_returned_error, curle_write_error, curle_partial_file,
  curle_couldnt_connect, curle_other, process_curl_response,
}

-- curl has an answer of the server.
pub HasAnswer : CurlCode → Type 0
HasAnswer curle_ok = Unit
HasAnswer curle_http_returned_error = Unit
HasAnswer curle_write_error = ⊥
HasAnswer curle_partial_file = ⊥
HasAnswer curle_couldnt_connect = ⊥
HasAnswer (curle_other n) = ⊥

-- The transfer was broken off, by a callback or by the server.
pub BrokenOff : CurlCode → Type 0
BrokenOff curle_ok = ⊥
BrokenOff curle_http_returned_error = ⊥
BrokenOff curle_write_error = Unit
BrokenOff curle_partial_file = Unit
BrokenOff curle_couldnt_connect = ⊥
BrokenOff (curle_other n) = ⊥

http2errno_zero : (code : ℕ) → (http2errno code ≡ 0) ↔ ((code ≡ 200) ⊎ (code ≡ 206))
unfolding http2errno
http2errno_zero code = (λ e. ground arith, λ p. ground arith)

-- A fetch counts as a success just when the server answered 200 or 206, or the transfer was broken
-- off.
pub process_curl_response_zero :
    (code : ℕ) (curl_rc : CurlCode)
    → (process_curl_response code curl_rc ≡ 0)
      ↔ ((HasAnswer curl_rc × ((code ≡ 200) ⊎ (code ≡ 206))) ⊎ BrokenOff curl_rc)
unfolding process_curl_response HasAnswer BrokenOff
process_curl_response_zero code curle_ok = (
  λ e. inl (tt, (http2errno_zero code).0 e),
  λ p. elim p [ inl a ↦ (http2errno_zero code).1 a.1 | inr b ↦ absurd b ],
)
process_curl_response_zero code curle_http_returned_error = (
  λ e. inl (tt, (http2errno_zero code).0 e),
  λ p. elim p [ inl a ↦ (http2errno_zero code).1 a.1 | inr b ↦ absurd b ],
)
process_curl_response_zero code curle_write_error = (λ e. inr tt, λ p. refl)
process_curl_response_zero code curle_partial_file = (λ e. inr tt, λ p. refl)
process_curl_response_zero code curle_couldnt_connect =
    (λ e. absurd (omega (arith, e)), λ p. elim p [ inl a ↦ absurd a.0 | inr b ↦ absurd b ])
process_curl_response_zero code (curle_other n) =
    (λ e. absurd (omega (arith, e)), λ p. elim p [ inl a ↦ absurd a.0 | inr b ↦ absurd b ])
