-- ===== src/Stats/Statfs.antt =====
-- statfs of src/fuse_methods/statfs.c: the sum over the indexnodes, and when it is answered.
use native.Mathlib.Nat.{mod-add-mod, mod-eq_of_lt}
use fsfuse.Base.{
  ℕ, zero, suc, ◌+◌, ◌-◌, ◌/◌, ◌%◌, ◌^◌, ◌<◌, ◌≡◌, refl, ap, ◌∙◌, false, Option, none, some, List,
  [], ◌∷◌, ◌++◌, ◌==◌, length, length-append, Returns, returns, ok, arith,
}
use fsfuse.Stats.{
  Request, add_report, answer_if_last, stats_cb, tryget_stats, each_indexnode, fsfuse_statfs,
}

unfoldable pub total : (ℕ × ℕ → ℕ) → List (ℕ × ℕ) → ℕ
total count [] = 0
total count (r ∷ rs) = count r + total count rs

-- Each indexnode reports once.
pub one_each : List (ℕ × ℕ) → List (List (ℕ × ℕ))
one_each [] = []
one_each (r ∷ rs) = (r ∷ []) ∷ one_each rs

length-one_each : (rs : List (ℕ × ℕ)) → length (one_each rs) ≡ length rs
unfolding one_each
length-one_each [] = refl
length-one_each (r ∷ rs) = ap suc (length-one_each rs)

-- The request before its answer.
pub pending : ℕ → ℕ → ℕ → Request
pending files bytes remaining = record {
  ctxt = some (record { f_files = files; bytes_total = bytes; cbs_remaining = remaining });
  replies = [];
}

-- The request answered, once.
unfoldable pub answered : ℕ → ℕ → Request
answered files bytes = record { ctxt = none; replies = (files, bytes / 512) ∷ [] }

same_answer : {a b c d : ℕ} → a ≡ b → c ≡ d → answered a c ≡ answered b d
same_answer {a} {b} {c} {d} e f = ap (λ x. answered x c) e ∙ ap (answered b) f

one_total :
    (count : ℕ × ℕ → ℕ) (sofar : ℕ) (r : ℕ × ℕ)
    → (sofar + count r) % 2 ^ 64 ≡ (sofar + total count (r ∷ [])) % 2 ^ 64
unfolding total
one_total count sofar r = ap (λ x. x % 2 ^ 64) (omega arith)

one_less : (n : ℕ) → n < 2 ^ 32 → (suc n + (2 ^ 32 - 1)) % 2 ^ 32 ≡ n
one_less n lt = omega (arith, lt)

not_last : (n : ℕ) → (suc n == 0) ≡ false
not_last n = ground arith

last_report :
    (files bytes : ℕ) (r : ℕ × ℕ)
    → tryget_stats (r ∷ []) (pending files bytes 1)
      ≡ ok (answered ((files + r.0) % 2 ^ 64) ((bytes + r.1) % 2 ^ 64))
unfolding tryget_stats stats_cb add_report answer_if_last pending answered
last_report files bytes r = refl

a_report :
    (files bytes n : ℕ) (r : ℕ × ℕ)
    → suc n < 2 ^ 32
    → tryget_stats (r ∷ []) (pending files bytes (suc (suc n)))
      ≡ ok (pending ((files + r.0) % 2 ^ 64) ((bytes + r.1) % 2 ^ 64) (suc n))
unfolding tryget_stats stats_cb add_report answer_if_last pending
a_report files bytes n r lt = rw (one_less (suc n) lt, not_last n) refl

-- All reports from the ones of `files` and `bytes` on.
summed :
    (count : ℕ × ℕ → ℕ) (sofar : ℕ) (r : ℕ × ℕ) (rs : List (ℕ × ℕ))
    → ((sofar + count r) % 2 ^ 64 + total count rs) % 2 ^ 64
      ≡ (sofar + total count (r ∷ rs)) % 2 ^ 64
unfolding total
summed count sofar r rs =
    mod-add-mod (sofar + count r) (2 ^ 64) (total count rs) ∙ ap (λ x. x % 2 ^ 64) (omega arith)

each-answered :
    (files bytes : ℕ) (r : ℕ × ℕ) (rs : List (ℕ × ℕ))
    → length (r ∷ rs) < 2 ^ 32
    → each_indexnode (one_each (r ∷ rs)) (pending files bytes (length (r ∷ rs)))
      ≡ ok (
          answered
            ((files + total (λ x. x.0) (r ∷ rs)) % 2 ^ 64)
            ((bytes + total (λ x. x.1) (r ∷ rs)) % 2 ^ 64))
unfolding each_indexnode one_each
each-answered files bytes r [] lt =
    rw (last_report files bytes r)
      (ap ok (same_answer (one_total (λ x. x.0) files r) (one_total (λ x. x.1) bytes r)))
each-answered files bytes r (s ∷ rs) lt =
    rw
      (
        a_report files bytes (length rs) r (omega (arith, lt)),
        each-answered ((files + r.0) % 2 ^ 64) ((bytes + r.1) % 2 ^ 64) s rs (omega (arith, lt)),
      )
      (ap ok
        (same_answer (summed (λ x. x.0) files r (s ∷ rs)) (summed (λ x. x.1) bytes r (s ∷ rs))))

-- When each of the indexnodes, of which there is one at least, reports once, statfs answers once, with
-- the sum of the files and the blocks of the sum of the bytes, both in 64 bits, and frees its context.
pub fsfuse_statfs-answered :
    (r : ℕ × ℕ) (rs : List (ℕ × ℕ))
    → length (r ∷ rs) < 2 ^ 32
    → fsfuse_statfs (one_each (r ∷ rs))
      ≡ ok (answered (total (λ x. x.0) (r ∷ rs) % 2 ^ 64) (total (λ x. x.1) (r ∷ rs) % 2 ^ 64))
unfolding fsfuse_statfs pending
fsfuse_statfs-answered r rs lt =
    rw (length-one_each (r ∷ rs), mod-eq_of_lt lt)
      (each-answered 0 0 r rs lt
        ∙ ap ok (
            same_answer (from_none (total (λ x. x.0) (r ∷ rs)))
              (from_none (total (λ x. x.1) (r ∷ rs)))))
  where
    from_none : (n : ℕ) → (0 + n) % 2 ^ 64 ≡ n % 2 ^ 64
    from_none n = ap (λ x. x % 2 ^ 64) (omega arith)

-- What an indexnode reports at most once.
pub reports_of : List (Option (ℕ × ℕ)) → List (List (ℕ × ℕ))
reports_of [] = []
reports_of (none ∷ os) = [] ∷ reports_of os
reports_of (some r ∷ os) = (r ∷ []) ∷ reports_of os

length-reports_of : (os : List (Option (ℕ × ℕ))) → length (reports_of os) ≡ length os
unfolding reports_of
length-reports_of [] = refl
length-reports_of (none ∷ os) = ap suc (length-reports_of os)
length-reports_of (some r ∷ os) = ap suc (length-reports_of os)

pub Unanswered : Request → Type 0
Unanswered r = r.replies ≡ []

report-pending :
    (files bytes n : ℕ) (r : ℕ × ℕ)
    → 0 < n
    → n < 2 ^ 32
    → tryget_stats (r ∷ []) (pending files bytes (suc n))
      ≡ ok (pending ((files + r.0) % 2 ^ 64) ((bytes + r.1) % 2 ^ 64) n)
report-pending files bytes zero r pos lt = absurd (omega (arith, pos))
report-pending files bytes (suc n) r pos lt = a_report files bytes n r lt

no_reply : (files bytes n : ℕ) → (pending files bytes n).replies ≡ []
unfolding pending
no_reply files bytes n = refl

pending-Unanswered :
    (os : List (Option (ℕ × ℕ))) (files bytes missing n : ℕ)
    → n ≡ missing + length os
    → 0 < missing
    → n < 2 ^ 32
    → Returns Unanswered (each_indexnode (reports_of os) (pending files bytes n))
unfolding reports_of each_indexnode Unanswered
pending-Unanswered [] files bytes missing n e pos lt = returns (no_reply files bytes n)
pending-Unanswered (none ∷ os) files bytes missing n e pos lt =
    pending-Unanswered os files bytes (suc missing) n (omega (arith, e)) (omega arith) lt
pending-Unanswered (some r ∷ os) files bytes missing zero e pos lt = absurd (omega (arith, e))
pending-Unanswered (some r ∷ os) files bytes missing (suc n) e pos lt =
    rw (report-pending files bytes n r (omega (arith, e, pos)) (omega (arith, lt))) (
      pending-Unanswered os ((files + r.0) % 2 ^ 64) ((bytes + r.1) % 2 ^ 64) missing n
        (omega (arith, e)) pos (omega (arith, lt)))

silent-Unanswered :
    (before after : List (Option (ℕ × ℕ))) (files bytes n : ℕ)
    → n ≡ length (before ++ (none ∷ after))
    → n < 2 ^ 32
    → Returns Unanswered
        (each_indexnode (reports_of (before ++ (none ∷ after))) (pending files bytes n))
unfolding reports_of each_indexnode tryget_stats
silent-Unanswered [] after files bytes n e lt =
    pending-Unanswered after files bytes 1 n (omega (arith, e)) (omega arith) lt
silent-Unanswered (none ∷ before) after files bytes n e lt =
    pending-Unanswered (before ++ (none ∷ after)) files bytes 1 n (omega (arith, e)) (omega arith)
      lt
silent-Unanswered (some r ∷ before) after files bytes zero e lt = absurd (omega (arith, e))
silent-Unanswered (some r ∷ before) after files bytes (suc n) e lt =
    let left = length-append before (none ∷ after) in
    rw (report-pending files bytes n r (omega arith) (omega (arith, lt))) (
      silent-Unanswered before after ((files + r.0) % 2 ^ 64) ((bytes + r.1) % 2 ^ 64) n
        (omega (arith, e)) (omega (arith, lt)))

-- When one of the indexnodes reports nothing, and the others once at most, statfs gives no answer.
pub fsfuse_statfs-Unanswered :
    (before after : List (Option (ℕ × ℕ)))
    → length (before ++ (none ∷ after)) < 2 ^ 32
    → Returns Unanswered (fsfuse_statfs (reports_of (before ++ (none ∷ after))))
unfolding fsfuse_statfs pending
fsfuse_statfs-Unanswered before after lt =
    rw (length-reports_of (before ++ (none ∷ after)), mod-eq_of_lt lt)
      (silent-Unanswered before after 0 0 _ refl lt)
