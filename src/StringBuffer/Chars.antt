-- ===== src/StringBuffer/Chars.antt =====
-- What strcpy and memcpy of src/string_buffer.c leave and read.
use fsfuse.Base.{
  ℕ, ◌+◌, ◌≤◌, ◌<◌, ◌≡◌, refl, sym, ap, ◌∙◌, some, List, [], ◌∷◌, ◌++◌, length, Returns, returns,
  Returns-bind, Returns-map, arith, lt→ltb,
}
use fsfuse.Base.Bytes.{Str}
use fsfuse.StringBuffer.{Cells, write, strcpy, read}

-- The bytes of a text stand from an offset on.
unfoldable pub Chars : Cells → ℕ → List ℕ → Type 0
Chars m i [] = Unit
Chars m i (c ∷ s) = (m i ≡ some c) × Chars m (i + 1) s

-- The cells below an offset are as they were.
abbrev pub Kept : ℕ → Cells → Cells → Type 0
Kept i m m' = (j : ℕ) → j < i → m' j ≡ m j

pub Chars-of_Kept :
    (m m' : Cells) (k i : ℕ) (s : List ℕ)
    → i + length s ≤ k
    → Kept k m m'
    → Chars m i s
    → Chars m' i s
unfolding Chars
Chars-of_Kept m m' k i [] le kept c = tt
Chars-of_Kept m m' k i (a ∷ s) le kept (here, later) = (
  kept i (omega (arith, le)) ∙ here,
  Chars-of_Kept m m' k (i + 1) s (omega (arith, le)) kept later,
)

pub at_offset : (m : Cells) (s : List ℕ) {i j : ℕ} → i ≡ j → Chars m i s → Chars m j s
at_offset m s e c = rw (sym e) c

pub Chars-append :
    (m : Cells) (i : ℕ) (s t : List ℕ) → Chars m i s → Chars m (i + length s) t → Chars m i (s ++ t)
unfolding Chars
Chars-append m i [] t a b = at_offset m t (omega arith) b
Chars-append m i (c ∷ s) t (here, later) b =
    (here, Chars-append m (i + 1) s t later (at_offset m t (omega arith) b))

write_here : (i c : ℕ) (m : Cells) → write i c m i ≡ some c
unfolding write
write_here i c m = ground arith

write-Kept : (i c : ℕ) (m : Cells) → Kept i m (write i c m)
unfolding write
write-Kept i c m j lt = ground arith

-- A text with its NUL.
pub record Copied (i : ℕ) (s : Str) (m m' : Cells) : Type 0 where
  pub kept : Kept i m m'
  pub chars : Chars m' i s
  pub nul : m' (i + length s) ≡ some 0

pub strcpy-Copied :
    (cap i : ℕ) (s : Str) (m : Cells)
    → i + length s < cap
    → Returns (Copied i s m) (strcpy cap i s m)
unfolding strcpy Chars
strcpy-Copied cap i [] m lt = rw (lt→ltb i cap (omega (arith, lt))) (
    returns (record {
      kept = write-Kept i 0 m;
      chars = tt;
      nul = ap (write i 0 m) (omega arith) ∙ write_here i 0 m;
    }))
strcpy-Copied cap i (c ∷ s) m lt = rw (lt→ltb i cap (omega (arith, lt))) (
    Returns-map (strcpy-Copied cap (i + 1) s (write i c m) (omega (arith, lt))) (λ m' d. record {
      kept = λ j lt. d.kept j (omega (arith, lt)) ∙ write-Kept i c m j lt;
      chars = (d.kept i (omega arith) ∙ write_here i c m, d.chars);
      nul = ap m' (omega arith) ∙ d.nul;
    }))

pub read-Chars :
    (cap : ℕ) (s : List ℕ) (i : ℕ) (m : Cells)
    → i + length s ≤ cap
    → Chars m i s
    → Returns (λ r. r ≡ s) (read cap (length s) i m)
unfolding read Chars
read-Chars cap [] i m le c = returns refl
read-Chars cap (a ∷ s) i m le (here, later) =
    rw (lt→ltb i cap (omega (arith, le)), here)
      (Returns-bind (read-Chars cap s (i + 1) m (omega (arith, le)) later)
        (λ r e. returns (ap (◌∷◌ a) e)))
