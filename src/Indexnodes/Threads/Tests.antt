-- ===== src/Indexnodes/Threads/Tests.antt =====
-- Two threads and a list of two nodes, one of them expired.
use fsfuse.Base.{
  ℕ, none, some, true, false, [], ◌∷◌, ◌≡◌, refl, arith, fault, Returns, if◌then◌else◌, ◌==◌,
}
use fsfuse.Base.Bytes.{chars}
use fsfuse.Indexnodes.{Indexnode}
use fsfuse.Indexnodes.Threads.{Indexnodes, calling, turns}
use fsfuse.Indexnodes.Threads.Race.{Gotten, indexnodes_get-Gotten, indexnodes_get_races}

abbrev node_seen : ℕ → Indexnode
node_seen t = record {
  host = chars "10.0.0.1";
  port = chars "42080";
  version = chars "0.13";
  id = chars "abc";
  last_seen = t;
}

abbrev two_nodes : Indexnodes
two_nodes = record {
  lock = record { readers_reading = 0; writer_writing = 0; locking_thread = none };
  list = 0;
  lists = λ p. if p == 0 then some (node_seen 15 ∷ node_seen 3 ∷ []) else none;
  next = 1;
}

indexnodes_get-Gotten_example :
    Returns (Gotten 22 10 0 (node_seen 15 ∷ node_seen 3 ∷ []) two_nodes) (
      turns 7 8 10
        ((true, 20) ∷ (true, 21) ∷ (true, 22) ∷ (true, 23) ∷ (true, 24) ∷ (true, 25) ∷ [])
        (record { first = calling; second = calling; ins = two_nodes }))
indexnodes_get-Gotten_example =
    indexnodes_get-Gotten 7 8 10 20 21 22 23 24 25 (node_seen 15 ∷ node_seen 3 ∷ []) two_nodes refl
      refl (omega arith)

indexnodes_get_races_example :
    turns 7 8 10
      ((true, 20) ∷ (false, 20) ∷ (true, 21) ∷ (false, 21) ∷ (true, 22) ∷ (false, 22) ∷ [])
      (record { first = calling; second = calling; ins = two_nodes })
    ≡ fault
indexnodes_get_races_example =
    indexnodes_get_races 7 8 10 20 20 21 21 22 22 (node_seen 15 ∷ node_seen 3 ∷ []) two_nodes refl
      refl
