-- ===== src/Indexnodes/Protocol.antt =====
-- parse_fs2protocol and new_indexnode_event of src/indexnodes/indexnodes.c, by the protocol string.
use fsfuse.Base.{
  ℕ, ◌≡◌, refl, ap, ◌∙◌, true, false, Option, none, some, List, [], ◌∷◌, ◌++◌, length, drop, fault,
  ok, ◌>>=◌, Returns, returns, Returns-bind, Returns-fault, ==_refl,
}
use fsfuse.Base.Bytes.{Str, some_text}
use fsfuse.Base.Heap.{
  Heap, address, Freed, free_allocated, free_unallocated, text_allocated, updated_here,
}
use fsfuse.Versions.{is_space, skip_spaces}
use fsfuse.Indexnodes.{
  Indexnode, prefix, starts_with, word, converted_one, version_of, parse_fs2protocol, event,
  new_indexnode_event,
}
use fsfuse.Indexnodes.Unique.{Unique, SeenAt, advertised-Unique}

-- No space in a text.
unfoldable pub Solid : Str → Type 0
Solid [] = Unit
Solid (c ∷ s) = (is_space c ≡ false) × Solid s

word-Solid : (s : Str) → Solid s → word s ≡ s
unfolding word Solid
word-Solid [] solid = refl
word-Solid (c ∷ s) (here, later) = rw here (ap (◌∷◌ c) (word-Solid s later))

starts_append : (p s : Str) → starts_with p (p ++ s) ≡ true
unfolding starts_with
starts_append [] s = refl
starts_append (c ∷ p) s = rw (==_refl c) (starts_append p s)

drop_append : (p s : Str) → drop (length p) (p ++ s) ≡ s
drop_append [] s = refl
drop_append (c ∷ p) s = drop_append p s

skip_lem : (c : ℕ) (s : Str) → Solid (c ∷ s) → skip_spaces (c ∷ s) ≡ c ∷ s
unfolding Solid skip_spaces
skip_lem c s solid = rw solid.0 refl

version_lem :
    (c : ℕ) (s : Str) → Solid (c ∷ s) → version_of (prefix ++ (c ∷ s)) true ≡ ok (some (c ∷ s))
unfolding version_of converted_one
version_lem c s solid =
    ap (λ w. converted_one w >>= λ v. ok (some v))
      (ap word (skip_lem c s solid) ∙ word-Solid (c ∷ s) solid)

parse_lem :
    (string : Str) (version : Option Str) (p : ℕ) (h : Heap)
    → version_of string (starts_with prefix string) ≡ ok version
    → h.block p ≡ some string
    → Returns (λ r. (r.0 ≡ version) × Freed p h r.1) (parse_fs2protocol (address p) h)
unfolding parse_fs2protocol
parse_lem string version p h v e =
    rw (text_allocated p h string e, v)
      (Returns-bind (free_allocated p h e) (λ h1 f. returns (refl, f)))

-- An advert whose host, port and id are not empty and whose protocol string is the prefix and a
-- version without spaces ends: one node to an id stays one node to an id, the node of the advert's
-- id is there and was seen now, and the protocol string is freed.
pub new_indexnode_event-Unique :
    (now : ℕ) (host port id : Str) (c : ℕ) (s : Str) (p : ℕ) (nodes : List Indexnode) (h : Heap)
    → some_text host ≡ true
    → some_text port ≡ true
    → some_text id ≡ true
    → Solid (c ∷ s)
    → h.block p ≡ some (prefix ++ (c ∷ s))
    → Unique nodes
    → Returns
        (λ r. Unique r.0 × SeenAt now id r.0 × Freed p h r.1)
        (new_indexnode_event now host port (address p) id nodes h)
unfolding new_indexnode_event event some_text
new_indexnode_event-Unique now host port id c s p nodes h some_host some_port some_id solid e u =
    Returns-bind
      (parse_lem (prefix ++ (c ∷ s)) (some (c ∷ s)) p h
        (ap (version_of (prefix ++ (c ∷ s))) (starts_append prefix (c ∷ s)) ∙ version_lem c s solid)
        e)
      (λ r f. rw f.0 (
        Returns-bind
          (advertised-Unique now host port (c ∷ s) id nodes
            (record {
              some_host = some_host;
              some_port = some_port;
              some_version = refl;
              some_id = some_id;
            })
            u)
          (λ nodes1 a. returns (a.0, a.1, f.1))))

-- An advert whose protocol string does not start with the prefix frees that string twice, which is
-- undefined.
pub new_indexnode_event_faults :
    (now : ℕ) (host port id fs2protocol : Str) (p : ℕ) (nodes : List Indexnode) (h : Heap)
    → starts_with prefix fs2protocol ≡ false
    → h.block p ≡ some fs2protocol
    → new_indexnode_event now host port (address p) id nodes h ≡ fault
unfolding new_indexnode_event event version_of
new_indexnode_event_faults now host port id fs2protocol p nodes h differs e =
    Returns-fault (parse_lem fs2protocol none p h (ap (version_of fs2protocol) differs) e) (λ r f.
      rw
        (
          f.0,
          free_unallocated p r.1 (ap (λ block. block p) (f.1).block ∙ updated_here p none h.block),
        )
        refl)
