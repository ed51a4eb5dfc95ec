-- ===== src/Advert.antt =====
-- get_next_field and parse_advert_packet of src/indexnodes/indexnodes_listener_thread.c.
pub mod Fields
mod Tests
use fsfuse.Base.{
  ℕ, Bool, true, false, Option, none, some, List, [], ◌∷◌, ◌==◌, if◌then◌else◌, Run, fault, ok,
  ◌>>=◌,
}
use fsfuse.Base.Bytes.{Str, chars, str_eq}

-- The bytes up to a colon or the NUL.
field_of : Str → Str
field_of [] = []
field_of (c ∷ s) = if c == b':' then [] else c ∷ field_of s

-- Where the pointer goes: behind the colon, or, where there is none, behind the NUL, which is
-- outside the allocation.
behind : Str → Option Str
behind [] = none
behind (c ∷ s) = if c == b':' then some s else behind s

pub get_next_field : Option Str → Run (Str × Option Str)
unfolding field_of behind
get_next_field none = fault
get_next_field (some buf) = ok (field_of buf, behind buf)

pub record Advert : Type 0 where
  pub port : Str
  pub fs2protocol : Str
  pub id : Str

abbrev pub autoindexnode : Str
autoindexnode = chars "autoindexnode"

-- None: the result 1.
with_id : Str → Str → Option Str → Bool → Run (Option Advert)
unfolding get_next_field
with_id fs2protocol port buf true = ok none
with_id fs2protocol port buf false = do
  (id, rest) ← get_next_field buf
  ok (some (record { port = port; fs2protocol = fs2protocol; id = id }))

unfoldable pub parse_advert_packet : Str → Run (Option Advert)
unfolding with_id
parse_advert_packet packet = do
  (fs2protocol, buf1) ← get_next_field (some packet)
  (port, buf2) ← get_next_field buf1
  with_id fs2protocol port buf2 (str_eq port autoindexnode)
