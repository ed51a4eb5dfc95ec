-- ===== src/Headers/Ignored.antt =====
-- No header line reaches the indexnode's info: the keys that are looked for end in a colon, and the
-- key of a line stops before its colon.
use fsfuse.Base.{
  ℕ, ◌-◌, ◌≤◌, ◌≡◌, refl, ap, inl, inr, Bool, true, false, ◌||◌, Bool-cases, Option, none, some, [],
  ◌∷◌, ◌++◌, map, ltb, ◌==◌, if◌then◌else◌, length, length-append, take, ok, arith,
}
use fsfuse.Base.Bytes.{Str, eq_of_str_eq}
use fsfuse.Headers.{
  IndexnodeInfo, lower, case_eq, header_cb, before_colon, at_colon, called, header_cb_wrapper,
  fs2_version_header_key, fs2_indexnode_uid_header_key,
}

has_colon : Str → Bool
has_colon [] = false
has_colon (c ∷ s) = (c == b':') || has_colon s

lower_colon : (c : ℕ) → (lower c == b':') ≡ (c == b':')
unfolding lower
lower_colon c = ground arith

has_colon-lower : (s : Str) → has_colon (map lower s) ≡ has_colon s
unfolding has_colon
has_colon-lower [] = refl
has_colon-lower (c ∷ s) = rw (lower_colon c, has_colon-lower s) refl

differs :
    (key wanted : Str)
    → has_colon key ≡ false
    → has_colon wanted ≡ true
    → case_eq key wanted ≡ false
unfolding case_eq
differs key wanted k w = elim (Bool-cases (case_eq key wanted)) [
  | inl same ↦ cc (
    k,
    w,
    has_colon-lower key,
    has_colon-lower wanted,
    ap has_colon (eq_of_str_eq (map lower key) (map lower wanted) same),
  )
  | inr other ↦ other
]

abbrev pub line_end : Str
line_end = 13 ∷ 10 ∷ []

-- The key holds no colon, and the line end is in the rest.
data Parted : Option (Str × Str) → Type 0 where
  whole : Parted none
  at : {key rest : Str} → has_colon key ≡ false → 2 ≤ length rest → Parted (some (key, rest))

before-Parted :
    (c : ℕ)
    → (c == b':') ≡ false
    → {parts : Option (Str × Str)} → Parted parts
    → Parted (before_colon c parts)
unfolding before_colon has_colon
before-Parted c e whole = whole
before-Parted c e (at k le) = at (rw (e, k) refl) le

colon-Parted :
    (b : Bool) (c : ℕ) (s : Str)
    → (c == b':') ≡ b
    → Parted (at_colon (s ++ line_end))
    → Parted
        (if b then some ([], c ∷ (s ++ line_end)) else before_colon c (at_colon (s ++ line_end)))
unfolding has_colon
colon-Parted true c s e p = at refl (omega (arith, length-append s line_end))
colon-Parted false c s e p = before-Parted c e p

line-Parted : (s : Str) → Parted (at_colon (s ++ line_end))
unfolding at_colon before_colon
line-Parted [] = whole
line-Parted (c ∷ s) = colon-Parted (c == b':') c s refl (line-Parted s)

header_cb_lem :
    (key value : Str) (info : IndexnodeInfo)
    → has_colon key ≡ false
    → header_cb key value info ≡ info
unfolding header_cb has_colon
header_cb_lem key value info k =
    rw (differs key fs2_version_header_key k refl, differs key fs2_indexnode_uid_header_key k refl)
      refl

long_enough : (n : ℕ) → 2 ≤ n → ltb n 2 ≡ false
long_enough n le = ground arith

called_lem :
    (len : ℕ) (parts : Option (Str × Str)) (info : IndexnodeInfo)
    → Parted parts
    → called len parts info ≡ ok (len, info)
unfolding called
called_lem len none info p = refl
called_lem len (some (key, rest)) info (at k le) =
    rw (long_enough (length rest) le)
      (ap (λ i. ok (len, i)) (header_cb_lem key (take (length rest - 2) rest) info k))

-- A header line with its line end, whatever its key, is taken whole and changes nothing of the
-- indexnode's info.
pub header_cb_wrapper_lem :
    (s : Str) (info : IndexnodeInfo)
    → header_cb_wrapper (s ++ line_end) info ≡ ok (length (s ++ line_end), info)
unfolding header_cb_wrapper
header_cb_wrapper_lem s info =
    called_lem (length (s ++ line_end)) (at_colon (s ++ line_end)) info (line-Parted s)
