-- ===== src/Locks/Tests.antt =====
-- The theorems on src/locks.c at small states.
use fsfuse.Base.{ℕ, ◌≡◌, refl, none, some, arith}
use fsfuse.Locks.{RwLock, rw_lock_new, rw_lock_rlock, rw_lock_wlock}
use fsfuse.Locks.Exclusion.{Exclusive, rlock, here, next, Reach-Exclusive, wlock_while_read}

abbrev read_by : ℕ → RwLock
read_by t = record { readers_reading = 1; writer_writing = 0; locking_thread = some t }

Reach-Exclusive_example : Exclusive (read_by 5)
unfolding rw_lock_new rw_lock_rlock
Reach-Exclusive_example = Reach-Exclusive (next here (rlock 5 refl))

abbrev free : RwLock
free = record { readers_reading = 0; writer_writing = 0; locking_thread = none }

wlock_while_read_example :
    (l2 : RwLock) × (l3 : RwLock) × (l4 : RwLock) × (rw_lock_rlock 1 free ≡ some l2)
    × (rw_lock_rlock 2 l2 ≡ some l3)
    × (rw_lock_wlock 2 l3 ≡ some l3)
    × (rw_lock_rlock 3 l3 ≡ some l4)
    × (l4.readers_reading ≡ 3)
wlock_while_read_example = wlock_while_read 1 2 3 free (omega arith) (omega arith) refl refl
