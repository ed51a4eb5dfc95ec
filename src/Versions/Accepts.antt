-- ===== src/Versions/Accepts.antt =====
-- What check_version of src/indexnodes/indexnode.c accepts.
use fsfuse.Base.{
  zero, suc, ◌≡◌, refl, sym, ◌∙◌, Bool, true, false, arith, ◌⊎◌, inl, inr, Returns, returns,
  Returns-bind,
}
use fsfuse.Base.Int.{ℤ, pos, negsuc, ltb_ℤ, to_int, pos_part, neg_part}
use fsfuse.Base.Bytes.{Str}
use fsfuse.Versions.{
  strtol, digits, digit, skip_spaces, signed, magnitude, starts_with_digit, step, converted,
  long_to_int, is_space, check_version, second_check, proto_minimum, proto_maximum,
}
use fsfuse.Versions.Order.{number_at, Verdict, same, less, greater, compare_dotted_version-Verdict}

first_of_minimum : number_at 0 proto_minimum ≡ pos 0
unfolding number_at strtol converted long_to_int magnitude signed skip_spaces is_space digits digit
    starts_with_digit step to_int
first_of_minimum = refl

second_of_minimum : number_at 1 proto_minimum ≡ pos 5
unfolding number_at strtol converted long_to_int magnitude signed skip_spaces is_space digits digit
    starts_with_digit step to_int
second_of_minimum = refl

first_of_maximum : number_at 0 proto_maximum ≡ pos 0
unfolding number_at strtol converted long_to_int magnitude signed skip_spaces is_space digits digit
    starts_with_digit step to_int
first_of_maximum = refl

second_of_maximum : number_at 1 proto_maximum ≡ pos 13
unfolding number_at strtol converted long_to_int magnitude signed skip_spaces is_space digits digit
    starts_with_digit step to_int
second_of_maximum = refl

-- The first two numbers are not above those of the minimum.
Low : Str → Type 0
Low v =
    (ltb_ℤ (number_at 0 v) (pos 0) ≡ true)
    ⊎ ((number_at 0 v ≡ pos 0) × (ltb_ℤ (number_at 1 v) (pos 6) ≡ true))

below_six : (n m : ℤ) → m ≡ pos 5 → ltb_ℤ n m ≡ true → ltb_ℤ n (pos 6) ≡ true
unfolding pos_part neg_part
below_six (pos n) (pos m) e h = ground arith
below_six (pos n) (negsuc m) e h = ground arith
below_six (negsuc n) (pos m) e h = ground arith
below_six (negsuc n) (negsuc m) e h = ground arith

-- Two numbers as the minimum has them, or the second smaller.
by_second :
    (n0 n1 m0 m1 : ℤ)
    → m0 ≡ pos 0
    → m1 ≡ pos 5
    → m0 ≡ n0
    → (m1 ≡ n1) ⊎ (ltb_ℤ n1 m1 ≡ true)
    → (n0 ≡ pos 0) × (ltb_ℤ n1 (pos 6) ≡ true)
unfolding pos_part neg_part
by_second n0 n1 m0 m1 h0 h1 e (inl f) = (sym e ∙ h0, rw (sym f) (rw h1 refl))
by_second n0 n1 m0 m1 h0 h1 e (inr f) = (sym e ∙ h0, below_six n1 m1 h1 f)

by_first : (n0 m0 : ℤ) → m0 ≡ pos 0 → ltb_ℤ n0 m0 ≡ true → ltb_ℤ n0 (pos 0) ≡ true
by_first n0 m0 e h = rw (sym e) h

not_below-Low : (v : Str) (r : ℤ) → Verdict proto_minimum v r → ltb_ℤ r (pos 0) ≡ false → Low v
unfolding Low pos_part neg_part
not_below-Low v r (same f) h =
    inr (by_second _ _ _ _ first_of_minimum second_of_minimum (f 0) (inl (f 1)))
not_below-Low v r (less i f l) h = ground arith
not_below-Low v r (greater zero f l) h = inl (by_first (number_at 0 v) _ first_of_minimum l)
not_below-Low v r (greater (suc zero) f l) h =
    inr (
      by_second _ (number_at 1 v) _ _ first_of_minimum second_of_minimum (f 0 (omega arith))
        (inr l))
not_below-Low v r (greater (suc (suc i)) f l) h = inr (
    by_second _ _ _ _ first_of_minimum second_of_minimum (f 0 (omega arith))
      (inl (f 1 (omega arith))))

-- Two numbers that are low are neither those of the maximum nor above them.
refuted :
    {B : Type 0} (n0 n1 m0 m1 : ℤ)
    → m0 ≡ pos 0
    → m1 ≡ pos 13
    → (ltb_ℤ n0 (pos 0) ≡ true) ⊎ ((n0 ≡ pos 0) × (ltb_ℤ n1 (pos 6) ≡ true))
    → (ltb_ℤ m0 n0 ≡ true) ⊎ ((n0 ≡ m0) × ((n1 ≡ m1) ⊎ (ltb_ℤ m1 n1 ≡ true)))
    → B
unfolding pos_part neg_part
refuted n0 n1 m0 m1 h0 h1 w h = ground arith

Low-below : (v : Str) (r : ℤ) → Low v → Verdict v proto_maximum r → ltb_ℤ r (pos 0) ≡ true
unfolding Low pos_part neg_part
Low-below v r w (same f) =
    refuted _ _ _ _ first_of_maximum second_of_maximum w (inr (f 0, inl (f 1)))
Low-below v r w (less i f l) = refl
Low-below v r w (greater zero f l) =
    refuted _ (number_at 1 v) _ _ first_of_maximum second_of_maximum w (inl l)
Low-below v r w (greater (suc zero) f l) =
    refuted _ _ _ _ first_of_maximum second_of_maximum w (inr (f 0 (omega arith), inr l))
Low-below v r w (greater (suc (suc i)) f l) =
    refuted _ _ _ _ first_of_maximum second_of_maximum w
      (inr (f 0 (omega arith), inl (f 1 (omega arith))))

second-Accepted :
    (v : Str) (b : Bool) → (b ≡ false → Low v) → Returns (λ c. c ≡ true) (second_check v b)
unfolding second_check
second-Accepted v true w = returns refl
second-Accepted v false w =
    Returns-bind (compare_dotted_version-Verdict v proto_maximum)
      (λ high y. returns (Low-below v high (w refl) y))

-- check_version accepts every version text, within its fuel: one that is not above the minimum is
-- below the maximum.
pub check_version-Accepted : (version : Str) → Returns (λ b. b ≡ true) (check_version version)
unfolding check_version
check_version-Accepted version =
    Returns-bind (compare_dotted_version-Verdict proto_minimum version)
      (λ low w. second-Accepted version (ltb_ℤ low (pos 0)) (not_below-Low version low w))
