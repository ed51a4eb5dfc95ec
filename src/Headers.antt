-- ===== src/Headers.antt =====
-- header_cb_wrapper of src/fetcher.c with header_cb of src/indexnodes/proto_indexnode.c, the headers
-- that tell of an indexnode.
pub mod Ignored
mod Tests
use fsfuse.Base.{
  ℕ, ◌+◌, ◌-◌, Bool, true, false, ◌&&◌, Option, none, some, List, [], ◌∷◌, map, ltb, leb, ◌==◌,
  if◌then◌else◌, length, take, Run, fault, ok,
}
use fsfuse.Base.Bytes.{Str, chars, str_eq}

abbrev pub fs2_version_header_key : Str
fs2_version_header_key = chars "fs2-version: "

abbrev pub fs2_indexnode_uid_header_key : Str
fs2_indexnode_uid_header_key = chars "fs2-indexnode-uid: "

-- The members are unset to begin with.
pub record IndexnodeInfo : Type 0 where
  pub protocol : Option Str
  pub id : Option Str

lower : ℕ → ℕ
lower c = if leb b'A' c && leb c b'Z' then c + 32 else c

-- !strcasecmp(s, t)
case_eq : Str → Str → Bool
unfolding lower
case_eq s t = str_eq (map lower s) (map lower t)

pub header_cb : Str → Str → IndexnodeInfo → IndexnodeInfo
unfolding case_eq
header_cb key value info =
    if case_eq key fs2_version_header_key
    then record info { protocol = some value }
    else if case_eq key fs2_indexnode_uid_header_key
    then record info { id = some value }
    else info

before_colon : ℕ → Option (Str × Str) → Option (Str × Str)
before_colon c none = none
before_colon c (some (key, rest)) = some (c ∷ key, rest)

-- memchr for a colon: the bytes before it, and those from it on.
at_colon : Str → Option (Str × Str)
unfolding before_colon
at_colon [] = none
at_colon (c ∷ s) = if c == b':' then some ([], c ∷ s) else before_colon c (at_colon s)

-- The value starts at the colon. Where fewer than two bytes are left its length wraps around, and
-- strncpy runs out of its block.
called : ℕ → Option (Str × Str) → IndexnodeInfo → Run (ℕ × IndexnodeInfo)
unfolding header_cb
called len none info = ok (len, info)
called len (some (key, rest)) info =
    if ltb (length rest) 2
    then fault
    else ok (len, header_cb key (take (length rest - 2) rest) info)

-- A header line as curl gives it, with its line end. header_cb always answers 0.
pub header_cb_wrapper : Str → IndexnodeInfo → Run (ℕ × IndexnodeInfo)
unfolding called at_colon
header_cb_wrapper header info = called (length header) (at_colon header) info
