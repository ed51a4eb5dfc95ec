-- ===== src/Advert/Fields.antt =====
-- parse_advert_packet of src/indexnodes/indexnodes_listener_thread.c against the fields of a packet.
use fsfuse.Base.{
  ℕ, ◌≡◌, refl, ap, Bool, true, false, Option, none, some, List, [], ◌∷◌, ◌==◌, if◌then◌else◌, Run,
  fault, ok, ◌>>=◌,
}
use fsfuse.Base.Bytes.{Str, str_eq}
use fsfuse.Advert.{
  Advert, field_of, behind, get_next_field, with_id, autoindexnode, parse_advert_packet,
}

-- The texts between the colons of a packet.
lengthen : ℕ → List Str → List Str
lengthen c [] = []
lengthen c (f ∷ fs) = (c ∷ f) ∷ fs

pub fields : Str → List Str
unfolding lengthen
fields [] = [] ∷ []
fields (c ∷ s) = if c == b':' then [] ∷ fields s else lengthen c (fields s)

-- The outcome that the fields of a packet decide.
pub outcome : List Str → Run (Option Advert)
outcome (fs2protocol ∷ port ∷ id ∷ more) =
    if str_eq port autoindexnode
    then ok none
    else ok (some (record { port = port; fs2protocol = fs2protocol; id = id }))
outcome (fs2protocol ∷ port ∷ []) = if str_eq port autoindexnode then ok none else fault
outcome _ = fault

fields_behind : Option Str → List Str
fields_behind none = []
fields_behind (some s) = fields s

fields_lem : (s : Str) → fields s ≡ field_of s ∷ fields_behind (behind s)
unfolding fields field_of behind fields_behind lengthen
fields_lem [] = refl
fields_lem (c ∷ s) = by_colon (c == b':') (fields_lem s)
  where
    by_colon :
        (b : Bool)
        → fields s ≡ field_of s ∷ fields_behind (behind s)
        → (if b then [] ∷ fields s else lengthen c (fields s))
          ≡ (if b then [] else c ∷ field_of s) ∷ fields_behind (if b then some s else behind s)
    by_colon true e = refl
    by_colon false e = ap (lengthen c) e

id_outcome :
    (fs2protocol port : Str) (buf : Option Str) (b : Bool)
    → str_eq port autoindexnode ≡ b
    → with_id fs2protocol port buf b ≡ outcome (fs2protocol ∷ port ∷ fields_behind buf)
unfolding with_id outcome fields_behind get_next_field
id_outcome fs2protocol port none true e = rw e refl
id_outcome fs2protocol port (some s) true e = rw (fields_lem s, e) refl
id_outcome fs2protocol port none false e = rw e refl
id_outcome fs2protocol port (some s) false e = rw (fields_lem s, e) refl

port_outcome :
    (fs2protocol : Str) (buf : Option Str)
    → (get_next_field buf >>= λ r. with_id fs2protocol r.0 r.1 (str_eq r.0 autoindexnode))
      ≡ outcome (fs2protocol ∷ fields_behind buf)
unfolding get_next_field outcome fields_behind
port_outcome fs2protocol none = refl
port_outcome fs2protocol (some s) =
    rw (fields_lem s) (id_outcome fs2protocol (field_of s) (behind s) _ refl)

-- parse_advert_packet takes a packet by the texts between its colons: with fewer than two, or with
-- two of which the second is not "autoindexnode", it reads outside the packet; where the second is
-- "autoindexnode" it answers 1; otherwise it gives the first three.
pub parse_advert_packet-outcome :
    (packet : Str) → parse_advert_packet packet ≡ outcome (fields packet)
unfolding parse_advert_packet get_next_field
parse_advert_packet-outcome packet =
    rw (fields_lem packet) (port_outcome (field_of packet) (behind packet))
