-- ===== src/Base/Bytes.antt =====
-- C strings as their bytes without the terminating NUL.
use Prim.Native.Nat.{ℕ}
use Prim.Native.Char.{code}
use Prim.Native.String.{String}
use mathlib.Core.Path.{◌≡◌, refl}
use mathlib.Core.Bool.{Bool, true, false, ◌&&◌}
use mathlib.Core.Logic.{◌↔◌}
use mathlib.Core.List.{List, [], ◌∷◌}
use native.Mathlib.Omega.{arith}
use fsfuse.Base.Tests.{◌==◌}

abbrev pub Str : Type 0
Str = List ℕ

-- A literal of the source.
abbrev pub chars : String → Str
chars String.[] = []
chars (String.◌∷◌ c s) = code c ∷ chars s

-- Not the empty string: `*s` of a string that is not NULL.
unfoldable pub some_text : Str → Bool
some_text [] = false
some_text (c ∷ s) = true

-- `!strcmp(s, t)`
unfoldable pub str_eq : Str → Str → Bool
str_eq [] [] = true
str_eq [] (d ∷ t) = false
str_eq (c ∷ s) [] = false
str_eq (c ∷ s) (d ∷ t) = (c == d) && str_eq s t

pub eq_of_str_eq : (s t : Str) → str_eq s t ≡ true → s ≡ t
unfolding str_eq
eq_of_str_eq [] [] h = refl
eq_of_str_eq [] (d ∷ t) h = cc
eq_of_str_eq (c ∷ s) [] h = cc
eq_of_str_eq (c ∷ s) (d ∷ t) h = ground (arith, eq_of_str_eq s t)

pub str_eq_refl : (s : Str) → str_eq s s ≡ true
unfolding str_eq
str_eq_refl [] = refl
str_eq_refl (c ∷ s) = ground (arith, str_eq_refl s)

pub str_eq_iff : (s t : Str) → (str_eq s t ≡ true) ↔ (s ≡ t)
str_eq_iff s t = (eq_of_str_eq s t, λ e. rw e (str_eq_refl t))

pub str_eq_symm : (s t : Str) → str_eq s t ≡ str_eq t s
unfolding str_eq
str_eq_symm [] [] = refl
str_eq_symm [] (d ∷ t) = refl
str_eq_symm (c ∷ s) [] = refl
str_eq_symm (c ∷ s) (d ∷ t) = ground (arith, str_eq_symm s t)
