-- ===== src/Indexnodes/Threads/Race.antt =====
-- What calls of indexnodes_get of src/indexnodes/indexnodes.c leave, one after the other and at once.
use mathlib.Core.List.{reverse}
use fsfuse.Base.{
  ℕ, ◌+◌, ◌<◌, ◌≡◌, refl, ◌∙◌, ap, ◌≢◌, Option, none, some, true, false, List, [], ◌∷◌, fault,
  arith, Returns, returns,
}
use fsfuse.Locks.Readers.{rlock-Open, runlock_writers}
use fsfuse.Indexnodes.{
  Indexnode, indexnodes_get, indexnodes_list_copy, indexnodes_list_remove_expired,
}
use fsfuse.Indexnodes.Get.{valid_nodes, indexnodes_get_lem}
use fsfuse.Indexnodes.Threads.{
  Indexnodes, put_list, allocated, calling, returned, entered, indexnodes_get_step, Two, turns,
}

put_here :
    (p : ℕ) (value : Option (List Indexnode)) (lists : ℕ → Option (List Indexnode))
    → put_list p value lists p ≡ value
unfolding put_list
put_here p value lists = ground arith

put_off :
    (p q : ℕ) (value : Option (List Indexnode)) (lists : ℕ → Option (List Indexnode))
    → q ≢ p
    → put_list p value lists q ≡ lists q
unfolding put_list
put_off p q value lists ne = ground arith

-- Two threads get the read lock together and pass the same list to remove_expired. The first of them
-- deletes it, and the other reads it behind that, whatever the list, the times and the timeout.
pub indexnodes_get_races :
    (self other timeout t1 t2 t3 t4 t5 t6 : ℕ) (nodes : List Indexnode) (ins : Indexnodes)
    → ins.lock.writer_writing ≡ 0
    → ins.lists ins.list ≡ some nodes
    → turns self other timeout
        ((true, t1) ∷ (false, t2) ∷ (true, t3) ∷ (false, t4) ∷ (true, t5) ∷ (false, t6) ∷ [])
        (record { first = calling; second = calling; ins = ins })
      ≡ fault
unfolding turns indexnodes_get_step entered allocated
indexnodes_get_races self other timeout t1 t2 t3 t4 t5 t6 nodes ins none_writes there =
    let o1 = rlock-Open self ins.lock none_writes in
    let o2 = rlock-Open other o1.after o1.no_writer in
    rw
      (
        o1.entry,
        o2.entry,
        there,
        put_here ins.list none
            (put_list ins.next (some (indexnodes_list_remove_expired t5 timeout nodes)) ins.lists),
      )
      refl

-- What a call that no other thread is beside leaves.
pub record Gotten (now timeout list : ℕ) (nodes : List Indexnode) (ins : Indexnodes) (s : Two)
    : Type 0 where
  pub result : ℕ
  pub place : s.first ≡ returned result
  pub gives : s.ins.lists result ≡ some (valid_nodes now timeout nodes)
  pub keeps : s.ins.lists s.ins.list ≡ some (reverse (valid_nodes now timeout nodes))
  pub deleted : s.ins.lists list ≡ none
  pub writers : s.ins.lock.writer_writing ≡ 0

got :
    (now timeout : ℕ) (nodes : List Indexnode)
    → indexnodes_list_copy (indexnodes_list_remove_expired now timeout nodes)
      ≡ valid_nodes now timeout nodes
unfolding indexnodes_get
got now timeout nodes = ap (λ r. r.0) (indexnodes_get_lem now timeout nodes)

kept :
    (now timeout : ℕ) (nodes : List Indexnode)
    → indexnodes_list_remove_expired now timeout nodes ≡ reverse (valid_nodes now timeout nodes)
unfolding indexnodes_get
kept now timeout nodes = ap (λ r. r.1) (indexnodes_get_lem now timeout nodes)

still_there :
    (p q : ℕ) (value : Option (List Indexnode)) (lists : ℕ → Option (List Indexnode))
    → p < q
    → put_list p none (put_list q value lists) q ≡ value
still_there p q value lists below =
    put_off p q none (put_list q value lists) (λ e. omega (arith, below, e))
    ∙ put_here q value lists

-- indexnodes_get in a thread that no other is beside ends where nobody writes: it returns a list of the
-- nodes that are valid at the time of remove_expired, in order, leaves the same nodes in the opposite
-- order as the list of the indexnodes, deletes the old list, and nobody writes.
pub indexnodes_get-Gotten :
    (self other timeout t1 t2 t3 t4 t5 t6 : ℕ) (nodes : List Indexnode) (ins : Indexnodes)
    → ins.lock.writer_writing ≡ 0
    → ins.lists ins.list ≡ some nodes
    → ins.list < ins.next
    → Returns (Gotten t3 timeout ins.list nodes ins) (
        turns self other timeout
          ((true, t1) ∷ (true, t2) ∷ (true, t3) ∷ (true, t4) ∷ (true, t5) ∷ (true, t6) ∷ [])
          (record { first = calling; second = calling; ins = ins }))
unfolding turns indexnodes_get_step entered allocated
indexnodes_get-Gotten self other timeout t1 t2 t3 t4 t5 t6 nodes ins none_writes there below =
    let o1 = rlock-Open self ins.lock none_writes in
    let left = indexnodes_list_remove_expired t3 timeout nodes in
    let lists1 = put_list ins.list none (put_list ins.next (some left) ins.lists) in
    rw (o1.entry, there, still_there ins.list ins.next (some left) ins.lists below)
      (returns (record {
        result = ins.next + 1;
        place = refl;
        gives =
            put_here (ins.next + 1) (some (indexnodes_list_copy left)) lists1
            ∙ ap some (got t3 timeout nodes);
        keeps =
            put_off (ins.next + 1) ins.next (some (indexnodes_list_copy left)) lists1
              (λ e. omega (arith, e))
            ∙ still_there ins.list ins.next (some left) ins.lists below
            ∙ ap some (kept t3 timeout nodes);
        deleted =
            put_off (ins.next + 1) ins.list (some (indexnodes_list_copy left)) lists1
              (λ e. omega (arith, below, e))
            ∙ put_here ins.list none (put_list ins.next (some left) ins.lists);
        writers = runlock_writers o1.after ∙ o1.no_writer;
      }))
