-- ===== src/Http/Fields.antt =====
-- The headers of src/http.c against a map from keys to values.
use fsfuse.Base.{
  ℕ, suc, ◌≡◌, refl, ap, ◌∙◌, inl, inr, false, Option, none, some, List, [], ◌∷◌, if◌then◌else◌,
  Bool-cases, arith,
}
use fsfuse.Base.Bytes.{Str, str_eq, eq_of_str_eq, str_eq_refl, str_eq_symm}
use fsfuse.Http.{
  HttpReq, find_from, header_find, set_value, set_or_append, http_req_new, http_req_set_header,
}

-- The value of each key, where it has one.
abbrev pub Values : Type 0
Values = Str → Option Str

unfoldable pub assigned : Str → Str → Values → Values
assigned key value values q = if str_eq key q then some value else values q

pub lookup : Str → List (Str × Str) → Option Str
lookup q [] = none
lookup q (h ∷ hs) = if str_eq h.0 q then some h.1 else lookup q hs

-- No key stands twice.
pub DistinctKeys : List (Str × Str) → Type 0
unfolding lookup
DistinctKeys [] = Unit
DistinctKeys (h ∷ hs) = (lookup h.0 hs ≡ none) × DistinctKeys hs

-- The headers are a map: each key has one header, with its value.
pub record Refines (values : Values) (headers : List (Str × Str)) : Type 0 where
  pub distinct : DistinctKeys headers
  pub value : (q : Str) → lookup q headers ≡ values q

-- The header in the same place, or one more at the end.
assign : Str → Str → List (Str × Str) → List (Str × Str)
assign key value [] = (key, value) ∷ []
assign key value (h ∷ hs) =
    let rest = h ∷ assign key value hs in if str_eq h.0 key then (h.0, value) ∷ hs else rest

next_index : Option ℕ → Option ℕ
next_index none = none
next_index (some i) = some (suc i)

find_from-suc :
    (i : ℕ) (key : Str) (hs : List (Str × Str))
    → find_from (suc i) key hs ≡ next_index (find_from i key hs)
unfolding find_from next_index
find_from-suc i key [] = refl
find_from-suc i key (h ∷ hs) = elim (Bool-cases (str_eq h.0 key)) [
  | inl e ↦ rw e refl
  | inr e ↦ rw e (find_from-suc (suc i) key hs)
]

set_behind :
    (o : Option ℕ) (key value : Str) (h : Str × Str) (hs : List (Str × Str))
    → set_or_append (next_index o) key value (h ∷ hs) ≡ h ∷ set_or_append o key value hs
unfolding set_or_append set_value next_index
set_behind none key value h hs = refl
set_behind (some i) key value h hs = refl

set-assign :
    (key value : Str) (hs : List (Str × Str))
    → set_or_append (header_find key hs) key value hs ≡ assign key value hs
unfolding set_or_append set_value header_find find_from assign
set-assign key value [] = refl
set-assign key value (h ∷ hs) = elim (Bool-cases (str_eq h.0 key)) [
  | inl e ↦ rw e refl
  | inr e ↦
      rw (e, find_from-suc 0 key hs, set_behind (find_from 0 key hs) key value h hs)
        (ap (◌∷◌ h) (set-assign key value hs))
]

lookup-assign :
    (key value q : Str) (hs : List (Str × Str))
    → lookup q (assign key value hs) ≡ assigned key value (λ k. lookup k hs) q
unfolding lookup assign assigned
lookup-assign key value q [] = refl
lookup-assign key value q (h ∷ hs) = elim (Bool-cases (str_eq h.0 key)) [
  | inl e ↦ let same = eq_of_str_eq h.0 key e in rw e (ground arith)
  | inr e ↦
      rw (e, lookup-assign key value q hs)
        (ground (arith, eq_of_str_eq h.0 q, eq_of_str_eq key q, str_eq_refl q))
]

still_absent :
    (key value q : Str) (hs : List (Str × Str))
    → str_eq key q ≡ false
    → lookup q hs ≡ none
    → lookup q (assign key value hs) ≡ none
unfolding assigned
still_absent key value q hs e new = lookup-assign key value q hs ∙ rw (e, new) refl

assign-DistinctKeys :
    (key value : Str) (hs : List (Str × Str)) → DistinctKeys hs → DistinctKeys (assign key value hs)
unfolding DistinctKeys assign lookup
assign-DistinctKeys key value [] d = (refl, tt)
assign-DistinctKeys key value (h ∷ hs) (new, d) = elim (Bool-cases (str_eq h.0 key)) [
  | inl e ↦ rw e (new, d)
  | inr e ↦ rw e (
    still_absent key value h.0 hs (str_eq_symm key h.0 ∙ e) new,
    assign-DistinctKeys key value hs d,
  )
]

set_header-Refines :
    (key value : Str) (values : Values) (req : HttpReq)
    → Refines values req.headers
    → Refines (assigned key value values) (http_req_set_header key value req).headers
unfolding http_req_set_header assigned
set_header-Refines key value values req r = rw (set-assign key value req.headers) (record {
  distinct = assign-DistinctKeys key value req.headers r.distinct;
  value = λ q.
      lookup-assign key value q req.headers
      ∙ ap (λ o. if str_eq key q then some value else o) (r.value q);
})

-- Calls of http_req_set_header one after the other.
pub set_headers : List (Str × Str) → HttpReq → HttpReq
set_headers [] req = req
set_headers (h ∷ hs) req = set_headers hs (http_req_set_header h.0 h.1 req)

pub assigned_all : List (Str × Str) → Values → Values
unfolding assigned
assigned_all [] values = values
assigned_all (h ∷ hs) values = assigned_all hs (assigned h.0 h.1 values)

from_Refines :
    (hs : List (Str × Str)) (values : Values) (req : HttpReq)
    → Refines values req.headers
    → Refines (assigned_all hs values) (set_headers hs req).headers
unfolding set_headers assigned_all
from_Refines [] values req r = r
from_Refines (h ∷ hs) values req r =
    from_Refines hs (assigned h.0 h.1 values) (http_req_set_header h.0 h.1 req)
      (set_header-Refines h.0 h.1 values req r)

-- After any calls of http_req_set_header on a new request its headers are the map that the calls make
-- of the empty one: no key stands twice, and each key that was set has the value of its last call.
pub http_req_set_header-Refines :
    (hs : List (Str × Str))
    → Refines (assigned_all hs (λ q. none)) (set_headers hs http_req_new).headers
unfolding http_req_new DistinctKeys lookup
http_req_set_header-Refines hs =
    from_Refines hs (λ q. none) http_req_new (record { distinct = tt; value = λ q. refl })
