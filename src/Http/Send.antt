-- ===== src/Http/Send.antt =====
-- sock_send_buf of src/http.c: all bytes are sent in time.
use fsfuse.Base.{
  ℕ, zero, suc, ◌+◌, ◌^◌, ◌≤◌, ◌<◌, ◌≡◌, refl, ap, ◌∙◌, inl, inr, true, false, [], ◌∷◌, ◌++◌,
  length, length-drop, take, drop, take-append-drop, le→leb, lt→ltb, Bool-cases, ok, arith,
}
use mathlib.Core.Path.{subst}
use mathlib.Core.List.{append_assoc, append-nil}
use native.Mathlib.Nat.{mod-eq_of_lt}
use fsfuse.Base.Int.{pos, to_int}
use fsfuse.Base.Bytes.{Str}
use fsfuse.Http.{
  Written, interrupted, failed, wrote, Sending, after_write, after_count, is_empty, send_loop,
  sock_send_buf,
}

-- The call was interrupted, or has written at most the length it was given, and fewer than 2^31 bytes,
-- as Linux does whatever the length.
pub data Allowed (len : ℕ) : Written → Type 0 where
  by_signal : Allowed len interrupted
  partly : (n : ℕ) → n ≤ len → n < 2 ^ 31 → Allowed len (wrote n)

-- The call has written something.
pub data Progress : Written → Type 0 where
  progress : (n : ℕ) → 0 < n → Progress (wrote n)

-- A socket that never fails for good: each call is allowed, and from every moment on some later call,
-- whatever it is given, writes something.
pub record Fair (write : ℕ → ℕ → Written) : Type 0 where
  pub allowed : (time len : ℕ) → Allowed len (write time len)
  pub fair : (time : ℕ) → (later : ℕ) × ((len : ℕ) → 0 < len → Progress (write (time + later) len))

-- With enough fuel the loop ends with all bytes sent.
Ends : (ℕ → ℕ → Written) → ℕ → Sending → Type 0
Ends write time s =
    (fuel : ℕ) × (send_loop fuel write time s ≡ ok (record { buf = []; sent = s.sent ++ s.buf }))

not_empty : (s : Str) → is_empty s ≡ false → 0 < length s
unfolding is_empty
not_empty [] h = absurd (cc)
not_empty (c ∷ s) h = omega arith

round :
    (write : ℕ → ℕ → Written) (time : ℕ) (s s' : Sending)
    → is_empty s.buf ≡ false
    → after_write (write time (length s.buf)) s ≡ ok s'
    → s'.sent ++ s'.buf ≡ s.sent ++ s.buf
    → Ends write (suc time) s'
    → Ends write time s
unfolding Ends send_loop
round write time s s' more e same (fuel, ends) = (suc fuel, rw (more, e, ends, same) refl)

int_lem : (n : ℕ) → n < 2 ^ 31 → to_int n ≡ pos n
unfolding to_int
int_lem n lt =
    let below : n < 2 ^ 32 = omega (arith, lt) in rw (mod-eq_of_lt below, lt→ltb n (2 ^ 31) lt) refl

wrote_lem :
    (n : ℕ) (s : Sending)
    → n ≤ length s.buf
    → n < 2 ^ 31
    → after_write (wrote n) s ≡ ok (record { buf = drop n s.buf; sent = s.sent ++ take n s.buf })
unfolding after_write after_count
wrote_lem n s le lt = rw (int_lem n lt, le→leb n (length s.buf) le) refl

wrote_same : (n : ℕ) (s : Sending) → (s.sent ++ take n s.buf) ++ drop n s.buf ≡ s.sent ++ s.buf
wrote_same n s =
    append_assoc s.sent (take n s.buf) (drop n s.buf)
    ∙ ap (λ l. s.sent ++ l) (take-append-drop n s.buf)

module _ (write : ℕ → ℕ → Written) where
  -- All shorter rests are sent in time.
  Shorter : Sending → Type 0
  Shorter s = (t : ℕ) (s' : Sending) → length s'.buf < length s.buf → Ends write t s'

  write_some :
      (time n : ℕ) (s : Sending)
      → is_empty s.buf ≡ false
      → write time (length s.buf) ≡ wrote n
      → n ≤ length s.buf
      → n < 2 ^ 31
      → Ends write (suc time) (record { buf = drop n s.buf; sent = s.sent ++ take n s.buf })
      → Ends write time s
  write_some time n s more e le small ends =
      round write time s _ more (ap (λ w. after_write w s) e ∙ wrote_lem n s le small)
        (wrote_same n s) ends

  write_now :
      (time : ℕ) (s : Sending) (w : Written)
      → is_empty s.buf ≡ false
      → write time (length s.buf) ≡ w
      → Allowed (length s.buf) w
      → Progress w
      → Shorter s
      → Ends write time s
  unfolding Shorter
  write_now time s interrupted more e a p shorter = elim p [ ]
  write_now time s failed more e a p shorter = elim a [ ]
  write_now time s (wrote n) more e (partly _ le small) (progress _ lt) shorter =
      write_some time n s more e le small
        (shorter (suc time) _ (omega (arith, length-drop n s.buf)))

  write_any :
      (time : ℕ) (s : Sending) (w : Written)
      → is_empty s.buf ≡ false
      → write time (length s.buf) ≡ w
      → Allowed (length s.buf) w
      → Shorter s
      → ((s' : Sending) → s'.buf ≡ s.buf → Ends write (suc time) s')
      → Ends write time s
  unfolding Shorter after_write
  write_any time s interrupted more e by_signal shorter again =
      round write time s s more (ap (λ w. after_write w s) e) refl (again s refl)
  write_any time s failed more e a shorter again = elim a [ ]
  write_any time s (wrote zero) more e (partly _ le small) shorter again =
      write_some time 0 s more e le small (again _ refl)
  write_any time s (wrote (suc n)) more e (partly _ le small) shorter again =
      write_some time (suc n) s more e le small
        (shorter (suc time) _ (omega (arith, length-drop (suc n) s.buf)))

  until-Progress :
      (later time : ℕ) (s : Sending)
      → ((t len : ℕ) → Allowed len (write t len))
      → ((len : ℕ) → 0 < len → Progress (write (time + later) len))
      → is_empty s.buf ≡ false
      → Shorter s
      → Ends write time s
  unfolding Shorter
  until-Progress zero time s allowed soon more shorter =
      write_now time s (write time (length s.buf)) more refl (allowed time (length s.buf))
        (subst (λ t. Progress (write t (length s.buf))) (omega arith)
          (soon (length s.buf) (not_empty s.buf more)))
        shorter
  until-Progress (suc later) time s allowed soon more shorter =
      write_any time s (write time (length s.buf)) more refl (allowed time (length s.buf)) shorter
        (λ s' same.
          until-Progress later (suc time) s' allowed
            (λ len lt. subst (λ t. Progress (write t len)) (omega arith) (soon len lt))
            (rw same more) (λ t s'' lt. shorter t s'' (omega (arith, ap length same))))

  Ends-empty :
      (time : ℕ) (buf sent : Str)
      → is_empty buf ≡ true
      → Ends write time (record { buf = buf; sent = sent })
  unfolding Ends send_loop is_empty
  Ends-empty time [] sent h = (1, rw (append-nil sent) refl)
  Ends-empty time (c ∷ buf) sent h = absurd (cc)

  Ends-within :
      (bound time : ℕ) (s : Sending) → Fair write → length s.buf ≤ bound → Ends write time s
  unfolding Shorter
  Ends-within zero time s fair le = elim (Bool-cases (is_empty s.buf)) [
    | inl h ↦ Ends-empty time s.buf s.sent h
    | inr h ↦ absurd (omega (arith, not_empty s.buf h, le))
  ]
  Ends-within (suc bound) time s fair le = elim (Bool-cases (is_empty s.buf)) [
    | inl h ↦ Ends-empty time s.buf s.sent h
    | inr h ↦
        until-Progress (fair.fair time).0 time s fair.allowed (fair.fair time).1 h
          (λ t s' lt. Ends-within bound t s' fair (omega (arith, le, lt)))
  ]

  -- On a socket that writes at most what it is given, in one call fewer than 2^31 bytes, and on which from every moment on some later
  -- call writes something, sock_send_buf ends, with any number of interrupted calls between, and the
  -- socket has taken exactly the bytes of the buffer, in order.
  pub sock_send_buf-ends :
      (buf : Str) → Fair write → (fuel : ℕ) × (sock_send_buf fuel write buf ≡ ok buf)
  unfolding sock_send_buf Ends
  sock_send_buf-ends buf fair =
      let (fuel, ends) =
        Ends-within (length buf) 0 (record { buf = buf; sent = [] }) fair (omega arith) in
      (fuel, rw ends refl)
