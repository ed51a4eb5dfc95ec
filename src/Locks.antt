-- ===== src/Locks.antt =====
-- src/locks.c: a read-write lock. Each call changes the lock under its mutex, so a call is one
-- step; a call that has to wait has no result yet.
pub mod Exclusion
pub mod Readers
mod Tests
use fsfuse.Base.{
  ℕ, zero, suc, ◌+◌, ◌-◌, ◌≡◌, Bool, true, false, ◌&&◌, ◌||◌, Option, none, some, ltb, ◌==◌,
  if◌then◌else◌,
}
use fsfuse.Base.Int.{ℤ, pos, negsuc}

-- struct _rw_lock_t. `locking_thread` is none where the source has 0.
pub record RwLock : Type 0 where
  pub readers_reading : ℕ
  pub writer_writing : ℕ
  pub locking_thread : Option ℕ

pub rw_lock_new : RwLock
rw_lock_new = record { readers_reading = 0; writer_writing = 0; locking_thread = none }

-- The test in front of both lock calls.
is_locking : RwLock → ℕ → Bool
is_locking l self = elim (l.locking_thread) [ none ↦ false | some t ↦ t == self ]

-- None: the caller waits on `lock_free`.
pub rw_lock_rlock : ℕ → RwLock → Option RwLock
unfolding is_locking
rw_lock_rlock self l =
    if is_locking l self
    then some l
    else if ltb 0 l.writer_writing
    then none
    else some (record l { readers_reading = l.readers_reading + 1; locking_thread = some self })

pub rw_lock_runlock : RwLock → ℤ × RwLock
rw_lock_runlock l =
    if l.readers_reading == 0
    then (negsuc 0, l)
    else if l.readers_reading - 1 == 0
    then (pos 0, record l { readers_reading = 0; locking_thread = none })
    else (pos 0, record l { readers_reading = l.readers_reading - 1 })

pub rw_lock_wlock : ℕ → RwLock → Option RwLock
unfolding is_locking
rw_lock_wlock self l =
    if is_locking l self
    then some l
    else if ltb 0 l.writer_writing || ltb 0 l.readers_reading
    then none
    else some (record l { writer_writing = l.writer_writing + 1; locking_thread = some self })

pub rw_lock_wunlock : RwLock → ℤ × RwLock
rw_lock_wunlock l =
    if l.writer_writing == 0
    then (negsuc 0, l)
    else (pos 0, record l { writer_writing = 0; locking_thread = none })
