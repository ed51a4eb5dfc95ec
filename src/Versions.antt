-- ===== src/Versions.antt =====
-- compare_dotted_version of src/utils.c, and check_version of src/indexnodes/indexnode.c.
pub mod Order
pub mod Accepts
mod Tests
use fsfuse.Base.{
  ℕ, zero, suc, ◌+◌, ◌-◌, ◌*◌, ◌^◌, ◌≡◌, Bool, true, false, ◌&&◌, ◌||◌, Option, none, some, List,
  [], ◌∷◌, ltb, leb, ◌==◌, if◌then◌else◌, min, length, Run, ok, out_of_fuel, ◌>>=◌,
}
use fsfuse.Base.Int.{ℤ, pos, negsuc, ltb_ℤ, to_int}
use fsfuse.Base.Bytes.{Str, chars}

unfoldable pub is_space : ℕ → Bool
is_space c = (c == 32) || (leb 9 c && leb c 13)

-- 99 is no digit in any base.
digit : ℕ → ℕ
digit c =
    if leb b'0' c && leb c b'9'
    then c - b'0'
    else if leb b'a' c && leb c b'z'
    then c - b'a' + 10
    else if leb b'A' c && leb c b'Z'
    then c - b'A' + 10
    else 99

digits : ℕ → ℕ → Str → ℕ × Str
digits base acc [] = (acc, [])
digits base acc (c ∷ s) =
    let more = digits base (acc * base + digit c) s in
    if ltb (digit c) base then more else (acc, c ∷ s)

unfoldable pub skip_spaces : Str → Str
skip_spaces [] = []
skip_spaces (c ∷ s) = if is_space c then skip_spaces s else c ∷ s

starts_with_digit : ℕ → Str → Bool
starts_with_digit base [] = false
starts_with_digit base (c ∷ s) = ltb (digit c) base

-- Base 0 of strtol: 0x for hexadecimal, 0 for octal. None: no digits.
pub magnitude : Str → Option (ℕ × Str)
unfolding digit digits starts_with_digit
magnitude [] = none
magnitude (z ∷ []) = if ltb (digit z) 10 then some (digits 10 0 (z ∷ [])) else none
magnitude (z ∷ x ∷ s) =
    if z == b'0'
    then if (x == b'x' || x == b'X') && starts_with_digit 16 s
      then some (digits 16 0 s)
      else some (digits 8 0 (z ∷ x ∷ s))
    else if ltb (digit z) 10
    then some (digits 10 0 (z ∷ x ∷ s))
    else none

pub signed : Str → Bool × Str
signed [] = (false, [])
signed (c ∷ s) = if c == b'-' then (true, s) else if c == b'+' then (false, s) else (false, c ∷ s)

-- The clamped value as a long in 64 bits, cut to int.
long_to_int : Bool → ℕ → ℤ
long_to_int true value = to_int (2 ^ 64 - min value (2 ^ 63))
long_to_int false value = to_int (min value (2 ^ 63 - 1))

converted : Str → Bool → Option (ℕ × Str) → ℤ × Str
unfolding long_to_int
converted s minus none = (pos 0, s)
converted s minus (some (value, rest)) = (long_to_int minus value, rest)

-- strtol(s, &end, 0), cut to int, with the text from `end` on. Without digits `end` is `s`.
pub strtol : Str → ℤ × Str
unfolding converted magnitude signed skip_spaces is_space
strtol s = let t = signed (skip_spaces s) in converted s t.0 (magnitude t.1)

-- if (*s) s++
pub step : Str → Str
step [] = []
step (c ∷ s) = s

is_end : Str → Bool
is_end [] = true
is_end (c ∷ s) = false

-- Every round drops a byte of one of the two texts.
pub compare_loop : ℕ → Str → Str → Run ℤ
unfolding step is_end
compare_loop zero ver cmp = out_of_fuel
compare_loop (suc k) ver cmp =
    let r1 = strtol ver in
    let r2 = strtol cmp in
    let again = compare_loop k (step r1.1) (step r2.1) in
    if ltb_ℤ r1.0 r2.0
    then ok (negsuc 0)
    else if ltb_ℤ r2.0 r1.0
    then ok (pos 1)
    else if is_end r1.1 && is_end r2.1
    then ok (pos 0)
    else again

pub compare_dotted_version : Str → Str → Run ℤ
unfolding compare_loop
compare_dotted_version ver cmp = compare_loop (length ver + length cmp + 1) ver cmp

abbrev pub proto_minimum : Str
proto_minimum = chars "0.5"

abbrev pub proto_maximum : Str
proto_maximum = chars "0.13"

second_check : Str → Bool → Run Bool
second_check version true = ok true
second_check version false = do
  high ← compare_dotted_version version proto_maximum
  ok (ltb_ℤ high (pos 0))

-- `||` makes the second call only if the first says no.
pub check_version : Str → Run Bool
unfolding second_check
check_version version = do
  low ← compare_dotted_version proto_minimum version
  second_check version (ltb_ℤ low (pos 0))
