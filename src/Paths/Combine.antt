-- ===== src/Paths/Combine.antt =====
-- The directory and the name of a combined path, in src/utils.c.
use fsfuse.Base.{
  ℕ, ◌+◌, ◌^◌, ◌≤◌, ◌<◌, ◌≡◌, refl, Bool, true, false, ◌||◌, none, some, [], ◌∷◌, ◌++◌, leb, ◌==◌,
  length, fault, arith,
}
use native.Mathlib.Nat.{mod-eq_of_lt}
use fsfuse.Base.Bytes.{Str}
use fsfuse.Paths.{split_at, last_slash, bytes_of, base_part, fsfuse_basename}

unfoldable pub has_slash : Str → Bool
has_slash [] = false
has_slash (c ∷ s) = (c == b'/') || has_slash s

none_in : (s : Str) → has_slash s ≡ false → last_slash s ≡ none
unfolding last_slash has_slash split_at
none_in [] h = refl
none_in (c ∷ s) h = rw (none_in s (ground arith)) (ground arith)

last_of : (a b : Str) → has_slash b ≡ false → last_slash (a ++ (b'/' ∷ b)) ≡ some (a, b)
unfolding last_slash split_at
last_of [] b h = rw (none_in b h) refl
last_of (c ∷ a) b h = rw (last_of a b h) refl

not_zero : (n : ℕ) → 0 < n → (n == 0) ≡ false
not_zero n lt = ground arith

fits : (n m : ℕ) → n ≤ m → leb n m ≡ true
fits n m le = ground arith

too_long : (n m : ℕ) → m < n → leb n m ≡ false
too_long n m lt = ground arith

-- The base name of a path with a slash is read one byte behind the path's NUL.
pub fsfuse_basename_faults :
    (a b : Str)
    → has_slash b ≡ false
    → length b + 2 < 2 ^ 32
    → fsfuse_basename (a ++ (b'/' ∷ b)) ≡ fault
unfolding fsfuse_basename base_part bytes_of
fsfuse_basename_faults a b h short =
    rw
      (
        last_of a b h,
        mod-eq_of_lt short,
        not_zero (length b + 2) (omega arith),
        too_long (length b + 2) (length b + 1) (omega arith),
      )
      refl
