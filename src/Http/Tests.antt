-- ===== src/Http/Tests.antt =====
-- A request with headers, and sockets that are interrupted and take two bytes at a time.
use fsfuse.Base.{
  ℕ, zero, suc, ◌+◌, ◌<◌, none, [], ◌∷◌, ◌≡◌, refl, arith, if◌then◌else◌, Bool, true, false,
  Bool-cases, inl, inr, ok, Returns,
}
use fsfuse.Base.Bytes.{chars}
use fsfuse.Http.{Written, wrote, interrupted, http_req_new, sock_send_buf, sock_slurp, is_empty}
use fsfuse.Http.Fields.{Refines, set_headers, assigned_all, http_req_set_header-Refines}
use fsfuse.Http.Send.{Allowed, by_signal, partly, Progress, progress, Fair, sock_send_buf-ends}
use fsfuse.Http.Slurp.{concat, reads_of, Fits, Slurped, sock_slurp-Slurped, buffer_after}

http_req_set_header-Refines_example :
    Refines
      (assigned_all
        ((chars "a", chars "1") ∷ (chars "b", chars "2") ∷ (chars "a", chars "3") ∷ [])
        (λ q. none))
      (set_headers
        ((chars "a", chars "1") ∷ (chars "b", chars "2") ∷ (chars "a", chars "3") ∷ [])
        http_req_new).headers
http_req_set_header-Refines_example =
    http_req_set_header-Refines
      ((chars "a", chars "1") ∷ (chars "b", chars "2") ∷ (chars "a", chars "3") ∷ [])

-- Every second call is interrupted; the others take at most two bytes.
odd : ℕ → Bool
odd zero = false
odd (suc zero) = true
odd (suc (suc n)) = odd n

some_bytes : ℕ → Written
some_bytes zero = wrote 0
some_bytes (suc zero) = wrote 1
some_bytes (suc (suc n)) = wrote 2

abbrev slow : ℕ → ℕ → Written
slow time len = if odd time then some_bytes len else interrupted

some_bytes-Allowed : (len : ℕ) → Allowed len (some_bytes len)
unfolding some_bytes
some_bytes-Allowed zero = partly 0 (omega arith) (omega arith)
some_bytes-Allowed (suc zero) = partly 1 (omega arith) (omega arith)
some_bytes-Allowed (suc (suc n)) = partly 2 (omega arith) (omega arith)

some_bytes-Progress : (len : ℕ) → 0 < len → Progress (some_bytes len)
unfolding some_bytes
some_bytes-Progress zero lt = absurd (omega (arith, lt))
some_bytes-Progress (suc zero) lt = progress 1 (omega arith)
some_bytes-Progress (suc (suc n)) lt = progress 2 (omega arith)

odd_soon : (time : ℕ) → (later : ℕ) × (odd (time + later) ≡ true)
unfolding odd
odd_soon zero = (1, refl)
odd_soon (suc zero) = (0, refl)
odd_soon (suc (suc time)) = let (later, e) = odd_soon time in (later, rw (plus time later) e)
  where
    plus : (t l : ℕ) → suc (suc t) + l ≡ suc (suc (t + l))
    plus t l = omega arith

slow-Fair : Fair slow
slow-Fair = record {
  allowed = λ time len. elim (Bool-cases (odd time)) [
    | inl h ↦ rw h (some_bytes-Allowed len)
    | inr h ↦ rw h by_signal
  ];
  fair = λ time.
      let (later, e) = odd_soon time in (later, λ len lt. rw e (some_bytes-Progress len lt));
}

sock_send_buf-ends_example : (fuel : ℕ) × (sock_send_buf fuel slow (chars "GET") ≡ ok (chars "GET"))
sock_send_buf-ends_example = sock_send_buf-ends slow (chars "GET") slow-Fair

ab_Fits : Fits [] (chars "ab" ∷ chars "c" ∷ [])
unfolding Fits is_empty buffer_after
ab_Fits = (refl, omega arith, (refl, omega arith, tt))

sock_slurp-Slurped_example :
    Returns
      (Slurped [] (concat (chars "ab" ∷ chars "c" ∷ [])))
      (sock_slurp (reads_of (chars "ab" ∷ chars "c" ∷ [])) http_req_new)
unfolding http_req_new
sock_slurp-Slurped_example = sock_slurp-Slurped (chars "ab" ∷ chars "c" ∷ []) http_req_new ab_Fits
