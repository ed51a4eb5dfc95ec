-- ===== src/Indexnodes/Threads.antt =====
-- indexnodes_get of src/indexnodes/indexnodes.c step by step, as two threads call it: the lists of
-- src/indexnodes/indexnodes_list.c are allocated, and the lock is that of src/locks.c.
pub mod Race
mod Tests
use fsfuse.Base.{
  ℕ, ◌+◌, Option, none, some, Bool, true, false, List, [], ◌∷◌, ◌==◌, if◌then◌else◌, Run, ok, ◌>>=◌,
  or_fault,
}
use fsfuse.Locks.{RwLock, rw_lock_rlock, rw_lock_runlock}
use fsfuse.Indexnodes.{Indexnode, indexnodes_list_copy, indexnodes_list_remove_expired}

-- struct _indexnodes_t, and the lists that are allocated. `next` is where the next one will be.
pub record Indexnodes : Type 0 where
  pub lock : RwLock
  pub list : ℕ
  pub lists : ℕ → Option (List Indexnode)
  pub next : ℕ

unfoldable pub put_list :
    ℕ → Option (List Indexnode) → (ℕ → Option (List Indexnode)) → ℕ → Option (List Indexnode)
put_list p value lists q = if q == p then value else lists q

pub allocated : List Indexnode → Indexnodes → Indexnodes
unfolding put_list
allocated nodes ins = record ins {
  lists = put_list ins.next (some nodes) ins.lists;
  next = ins.next + 1;
}

-- Where a thread is in indexnodes_get: before the read lock, behind it, with the old list as an
-- argument, with the list that remove_expired gives, behind the assignment, with the copy, and
-- behind the unlock.
pub data Place : Type 0 where
  calling locked : Place
  passing : ℕ → Place
  given : ℕ → Place
  assigned : Place
  copied : ℕ → Place
  returned : ℕ → Place

-- A thread that waits for the lock stays where it is.
entered : Option RwLock → Indexnodes → Place × Indexnodes
entered none ins = (calling, ins)
entered (some lock) ins = (locked, record ins { lock = lock })

-- A step of the thread, at the time that the clock gives.
pub indexnodes_get_step : (self now timeout : ℕ) → Place → Indexnodes → Run (Place × Indexnodes)
unfolding entered allocated put_list
indexnodes_get_step self now timeout calling ins = ok (entered (rw_lock_rlock self ins.lock) ins)
indexnodes_get_step self now timeout locked ins = ok (passing ins.list, ins)
indexnodes_get_step self now timeout (passing orig) ins = do
  nodes ← or_fault (ins.lists orig)
  let ins1 = allocated (indexnodes_list_remove_expired now timeout nodes) ins
  ok (given ins.next, record ins1 { lists = put_list orig none ins1.lists })
indexnodes_get_step self now timeout (given ret) ins = ok (assigned, record ins { list = ret })
indexnodes_get_step self now timeout assigned ins = do
  nodes ← or_fault (ins.lists ins.list)
  ok (copied ins.next, allocated (indexnodes_list_copy nodes) ins)
indexnodes_get_step self now timeout (copied list) ins =
    ok (returned list, record ins { lock = (rw_lock_runlock ins.lock).1 })
indexnodes_get_step self now timeout (returned list) ins = ok (returned list, ins)

pub record Two : Type 0 where
  pub first : Place
  pub second : Place
  pub ins : Indexnodes

-- Two threads take turns: true is the first's. Each turn has its time.
unfoldable pub turns : (self other timeout : ℕ) → List (Bool × ℕ) → Two → Run Two
unfolding indexnodes_get_step
turns self other timeout [] s = ok s
turns self other timeout ((true, now) ∷ later) s = do
  (place, ins) ← indexnodes_get_step self now timeout s.first s.ins
  turns self other timeout later (record { first = place; second = s.second; ins = ins })
turns self other timeout ((false, now) ∷ later) s = do
  (place, ins) ← indexnodes_get_step other now timeout s.second s.ins
  turns self other timeout later (record { first = s.first; second = place; ins = ins })
