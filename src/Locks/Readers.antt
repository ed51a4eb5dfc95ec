-- ===== src/Locks/Readers.antt =====
-- The read lock of src/locks.c where nobody writes.
use fsfuse.Base.{ℕ, ◌≡◌, ◌≢◌, inl, inr, none, some, Option-cases, arith}
use fsfuse.Locks.{RwLock, rw_lock_rlock, rw_lock_runlock}

-- Without a writer, the read lock is given.
pub record Open (self : ℕ) (l : RwLock) : Type 0 where
  pub after : RwLock
  pub entry : rw_lock_rlock self l ≡ some after
  pub no_writer : after.writer_writing ≡ 0

rlock-not_none : (self : ℕ) (l : RwLock) → l.writer_writing ≡ 0 → rw_lock_rlock self l ≢ none
unfolding rw_lock_rlock
rlock-not_none self l none_writes = ground arith

rlock_no_writer :
    (self : ℕ) (l after : RwLock)
    → l.writer_writing ≡ 0
    → rw_lock_rlock self l ≡ some after
    → after.writer_writing ≡ 0
unfolding rw_lock_rlock
rlock_no_writer self l after none_writes e = ground arith

pub rlock-Open : (self : ℕ) (l : RwLock) → l.writer_writing ≡ 0 → Open self l
rlock-Open self l none_writes = elim (Option-cases (rw_lock_rlock self l)) [
  | inl e ↦ elim (rlock-not_none self l none_writes e) [ ]
  | inr (after, e) ↦ record {
    after = after;
    entry = e;
    no_writer = rlock_no_writer self l after none_writes e;
  }
]

pub runlock_writers : (l : RwLock) → (rw_lock_runlock l).1.writer_writing ≡ l.writer_writing
unfolding rw_lock_runlock
runlock_writers l = ground arith
