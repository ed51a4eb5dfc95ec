-- ===== src/Versions/Order.antt =====
-- compare_dotted_version of src/utils.c is an order on lists of numbers, and check_version of
-- src/indexnodes/indexnode.c rests on it.
use fsfuse.Base.{
  ℕ, zero, suc, ◌+◌, ◌*◌, ◌≤◌, ◌<◌, ◌≡◌, refl, ap, Bool, true, false, ◌&&◌, ◌||◌, [], ◌∷◌, ltb,
  ◌==◌, if◌then◌else◌, length, Run, ok, arith, Option, none, some, Returns, returns, Returns-map,
}
use fsfuse.Base.Int.{ℤ, pos, negsuc, ltb_ℤ, pos_part, neg_part}
use fsfuse.Base.Bytes.{Str}
use fsfuse.Versions.{
  strtol, digits, digit, skip_spaces, signed, magnitude, starts_with_digit, step, is_end,
  compare_loop, converted, compare_dotted_version,
}

digits_shorter : (base acc : ℕ) (s : Str) → length (digits base acc s).1 ≤ length s
unfolding digits
digits_shorter base acc [] = omega arith
digits_shorter base acc (c ∷ s) = ground (arith, digits_shorter base (acc * base + digit c) s)

skip_shorter : (s : Str) → length (skip_spaces s) ≤ length s
unfolding skip_spaces
skip_shorter [] = omega arith
skip_shorter (c ∷ s) = ground (arith, skip_shorter s)

signed_shorter : (s : Str) → length (signed s).1 ≤ length s
unfolding signed
signed_shorter [] = omega arith
signed_shorter (c ∷ s) = ground arith

Within : ℕ → Option (ℕ × Str) → Type 0
Within n none = Unit
Within n (some (value, rest)) = length rest ≤ n

choose-Within :
    (n : ℕ) (b : Bool) (x y : Option (ℕ × Str))
    → Within n x
    → Within n y
    → Within n (if b then x else y)
choose-Within n true x y w v = w
choose-Within n false x y w v = v

Within-digits : (n base : ℕ) (s : Str) → length s ≤ n → Within n (some (digits base 0 s))
unfolding Within
Within-digits n base s le = omega (arith, le, digits_shorter base 0 s)

Within-none : (n : ℕ) → Within n none
unfolding Within
Within-none n = tt

magnitude-Within : (s : Str) → Within (length s) (magnitude s)
unfolding magnitude
magnitude-Within [] = Within-none 0
magnitude-Within (z ∷ []) =
    choose-Within _ (ltb (digit z) 10) _ _ (Within-digits 1 10 (z ∷ []) (omega arith))
      (Within-none _)
magnitude-Within (z ∷ x ∷ s) =
    choose-Within _ (z == b'0') _ _
      (choose-Within _ ((x == b'x' || x == b'X') && starts_with_digit 16 s) _ _
        (Within-digits _ 16 s (omega arith)) (Within-digits _ 8 (z ∷ x ∷ s) (omega arith)))
      (choose-Within _ (ltb (digit z) 10) _ _ (Within-digits _ 10 (z ∷ x ∷ s) (omega arith))
        (Within-none _))

converted_shorter :
    (s : Str) (minus : Bool) {n : ℕ} (found : Option (ℕ × Str))
    → Within n found
    → n ≤ length s
    → length (converted s minus found).1 ≤ length s
unfolding converted Within
converted_shorter s minus none w le = omega arith
converted_shorter s minus (some (value, rest)) w le = omega (arith, w, le)

strtol_shorter : (s : Str) → length (strtol s).1 ≤ length s
unfolding strtol
strtol_shorter s =
    let t = signed (skip_spaces s) in
    converted_shorter s t.0 (magnitude t.1) (magnitude-Within t.1)
      (omega (arith, signed_shorter (skip_spaces s), skip_shorter s))

-- The number at a position of a version: zero behind the end of the text.
unfoldable pub number_at : ℕ → Str → ℤ
number_at zero s = (strtol s).0
number_at (suc i) s = number_at i (step (strtol s).1)

-- What the three results of a comparison say of the numbers.
pub data Verdict (ver cmp : Str) : ℤ → Type 0 where
  same : ((i : ℕ) → number_at i ver ≡ number_at i cmp) → Verdict ver cmp (pos 0)
  less :
      (i : ℕ)
      → ((j : ℕ) → j < i → number_at j ver ≡ number_at j cmp)
      → ltb_ℤ (number_at i ver) (number_at i cmp) ≡ true
      → Verdict ver cmp (negsuc 0)
  greater :
      (i : ℕ)
      → ((j : ℕ) → j < i → number_at j ver ≡ number_at j cmp)
      → ltb_ℤ (number_at i cmp) (number_at i ver) ≡ true
      → Verdict ver cmp (pos 1)

int_antisym : (a b : ℤ) → ltb_ℤ a b ≡ false → ltb_ℤ b a ≡ false → a ≡ b
unfolding pos_part neg_part
int_antisym (pos a) (pos b) h k = ap pos (ground arith)
int_antisym (pos a) (negsuc b) h k = ground arith
int_antisym (negsuc a) (pos b) h k = ground arith
int_antisym (negsuc a) (negsuc b) h k = ap negsuc (ground arith)

equal_before :
    (ver cmp : Str) {i : ℕ}
    → (strtol ver).0 ≡ (strtol cmp).0
    → ((j : ℕ) → j < i → number_at j (step (strtol ver).1) ≡ number_at j (step (strtol cmp).1))
    → (j : ℕ) → j < suc i
    → number_at j ver ≡ number_at j cmp
unfolding number_at
equal_before ver cmp e f zero lt = e
equal_before ver cmp e f (suc j) lt = f j (omega (arith, lt))

all_at :
    (ver cmp : Str)
    → (strtol ver).0 ≡ (strtol cmp).0
    → ((i : ℕ) → number_at i (step (strtol ver).1) ≡ number_at i (step (strtol cmp).1))
    → (i : ℕ) → number_at i ver ≡ number_at i cmp
unfolding number_at
all_at ver cmp e f zero = e
all_at ver cmp e f (suc i) = f i

one_later :
    (ver cmp : Str)
    → (strtol ver).0 ≡ (strtol cmp).0
    → {r : ℤ} → Verdict (step (strtol ver).1) (step (strtol cmp).1) r
    → Verdict ver cmp r
unfolding number_at
one_later ver cmp e (same f) = same (all_at ver cmp e f)
one_later ver cmp e (less i f h) = less (suc i) (equal_before ver cmp e f) h
one_later ver cmp e (greater i f h) = greater (suc i) (equal_before ver cmp e f) h

step_shorter : (s : Str) → length (step s) ≤ length s
unfolding step
step_shorter [] = omega arith
step_shorter (c ∷ s) = omega arith

-- Where not both texts have ended, a byte goes.
round_shorter :
    (s t : Str)
    → is_end s && is_end t ≡ false
    → suc (length (step s) + length (step t)) ≤ length s + length t
unfolding step is_end
round_shorter [] [] h = ground arith
round_shorter [] (d ∷ t) h = omega arith
round_shorter (c ∷ s) t h = omega (arith, step_shorter t)

ended : (s t : Str) → is_end s && is_end t ≡ true → step s ≡ step t
unfolding step is_end
ended [] [] h = refl
ended [] (d ∷ t) h = ground arith
ended (c ∷ s) t h = ground arith

same_later :
    (ver cmp : Str)
    → (strtol ver).0 ≡ (strtol cmp).0
    → step (strtol ver).1 ≡ step (strtol cmp).1
    → Verdict ver cmp (pos 0)
same_later ver cmp e r = one_later ver cmp e (same (λ i. ap (number_at i) r))

decide :
    (ver cmp : Str) {again : Run ℤ}
    → (is_end (strtol ver).1 && is_end (strtol cmp).1 ≡ false
        → Returns (Verdict (step (strtol ver).1) (step (strtol cmp).1)) again)
    → (b1 b2 b3 : Bool) → ltb_ℤ (strtol ver).0 (strtol cmp).0 ≡ b1
    → ltb_ℤ (strtol cmp).0 (strtol ver).0 ≡ b2
    → is_end (strtol ver).1 && is_end (strtol cmp).1 ≡ b3
    → Returns
        (Verdict ver cmp)
        (if b1 then ok (negsuc 0) else if b2 then ok (pos 1) else if b3 then ok (pos 0) else again)
unfolding number_at
decide ver cmp k true b2 b3 h1 h2 h3 = returns (less 0 (λ j lt. ground arith) h1)
decide ver cmp k false true b3 h1 h2 h3 = returns (greater 0 (λ j lt. ground arith) h2)
decide ver cmp k false false true h1 h2 h3 =
    returns (same_later ver cmp (int_antisym _ _ h1 h2) (ended (strtol ver).1 (strtol cmp).1 h3))
decide ver cmp k false false false h1 h2 h3 =
    Returns-map (k h3) (λ r v. one_later ver cmp (int_antisym _ _ h1 h2) v)

loop-Verdict :
    (k : ℕ) (ver cmp : Str)
    → length ver + length cmp < k
    → Returns (Verdict ver cmp) (compare_loop k ver cmp)
unfolding compare_loop
loop-Verdict zero ver cmp lt = ground arith
loop-Verdict (suc k) ver cmp lt =
    decide ver cmp
      (λ h. loop-Verdict k (step (strtol ver).1) (step (strtol cmp).1) (
        omega (
          arith,
          lt,
          round_shorter (strtol ver).1 (strtol cmp).1 h,
          strtol_shorter ver,
          strtol_shorter cmp,
        )))
      _ _ _ refl refl refl

-- compare_dotted_version ends, and its result tells how the numbers of the two versions compare in
-- order: 0 if all are the same, a missing one counting as 0; -1 if the first to differ is smaller
-- in the first version; 1 if it is greater there.
pub compare_dotted_version-Verdict :
    (ver cmp : Str) → Returns (Verdict ver cmp) (compare_dotted_version ver cmp)
unfolding compare_dotted_version
compare_dotted_version-Verdict ver cmp =
    loop-Verdict (length ver + length cmp + 1) ver cmp (omega arith)
