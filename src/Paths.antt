-- ===== src/Paths.antt =====
-- fsfuse_dirname, fsfuse_basename and path_combine of src/utils.c.
pub mod Combine
mod Tests
use fsfuse.Base.{
  ℕ, ◌+◌, ◌%◌, ◌^◌, Bool, true, false, not, Option, none, some, List, [], ◌∷◌, ◌++◌, leb, ◌==◌,
  if◌then◌else◌, length, take, Run, fault, ok, ◌>>=◌, ◌>>◌, check,
}
use fsfuse.Base.Bytes.{Str, chars}

split_at : ℕ → Str → Option (Str × Str) → Option (Str × Str)
split_at c s none = if c == b'/' then some ([], s) else none
split_at c s (some (before, after)) = some (c ∷ before, after)

-- strrchr for a slash: the bytes before it and those behind it.
pub last_slash : Str → Option (Str × Str)
unfolding split_at
last_slash [] = none
last_slash (c ∷ s) = split_at c s (last_slash s)

-- memcpy of `n` bytes of a string, which has its NUL behind it.
bytes_of : Str → ℕ → Run Str
bytes_of s n = if leb n (length s + 1) then ok (take n (s ++ (0 ∷ []))) else fault

dir_part : Option (Str × Str) → Run Str
unfolding bytes_of
dir_part none = ok []
dir_part (some (before, after)) =
    let dir_len = length before % 2 ^ 32 in
    if dir_len == 0 then ok (chars "/") else bytes_of (before ++ (b'/' ∷ after)) dir_len

pub fsfuse_dirname : Str → Run Str
unfolding dir_part
fsfuse_dirname path = dir_part (last_slash path)

-- path_len - (loc - path) + 1 is two more than the bytes behind the slash.
base_part : Str → Option (Str × Str) → Run Str
unfolding bytes_of
base_part path none = ok path
base_part path (some (before, after)) =
    let base_len = (length after + 2) % 2 ^ 32 in
    if base_len == 0 then ok [] else bytes_of after base_len

pub fsfuse_basename : Str → Run Str
unfolding base_part
fsfuse_basename path = base_part path (last_slash path)

unfoldable pub ends_in_slash : Str → Bool
ends_in_slash [] = false
ends_in_slash (c ∷ []) = c == b'/'
ends_in_slash (c ∷ d ∷ s) = ends_in_slash (d ∷ s)

starts_in_slash : Str → Bool
starts_in_slash [] = false
starts_in_slash (c ∷ s) = c == b'/'

-- An empty `a` has its byte before the first read.
pub path_combine : Str → Str → Run Str
unfolding ends_in_slash starts_in_slash
path_combine [] b = fault
path_combine (c ∷ a) b =
    check (not (starts_in_slash b))
    >> ok (if ends_in_slash (c ∷ a) then (c ∷ a) ++ b else (c ∷ a) ++ (b'/' ∷ b))
