-- ===== src/Locks/Exclusion.antt =====
-- What the counters of src/locks.c exclude, over every interleaving of calls, and what they do not.
use fsfuse.Base.{ℕ, ◌+◌, ◌≤◌, ◌<◌, ◌≡◌, refl, ◌≢◌, ◌⊎◌, none, some, arith}
use fsfuse.Locks.{
  RwLock, rw_lock_new, rw_lock_rlock, rw_lock_runlock, rw_lock_wlock, rw_lock_wunlock,
}

-- A call of some thread that returns.
pub data Step (l : RwLock) : RwLock → Type 0 where
  rlock : (self : ℕ) {l' : RwLock} → rw_lock_rlock self l ≡ some l' → Step l l'
  runlock : Step l (rw_lock_runlock l).1
  wlock : (self : ℕ) {l' : RwLock} → rw_lock_wlock self l ≡ some l' → Step l l'
  wunlock : Step l (rw_lock_wunlock l).1

pub data Reach (l : RwLock) : RwLock → Type 0 where
  here : Reach l l
  next : {m n : RwLock} → Reach l m → Step m n → Reach l n

-- At most one writer, no reader beside it, and a recorded thread exactly while someone holds it.
pub record Exclusive (l : RwLock) : Type 0 where
  pub one_writer : l.writer_writing ≤ 1
  pub apart : (l.writer_writing ≡ 0) ⊎ (l.readers_reading ≡ 0)
  pub recorded : (l.locking_thread ≡ none) ⊎ (0 < l.writer_writing + l.readers_reading)
  pub held : (l.writer_writing + l.readers_reading ≡ 0) ⊎ (l.locking_thread ≢ none)

Step-Exclusive : {l l' : RwLock} → Step l l' → Exclusive l → Exclusive l'
unfolding rw_lock_rlock rw_lock_runlock rw_lock_wlock rw_lock_wunlock
Step-Exclusive (rlock self e) x = ground arith
Step-Exclusive runlock x = ground arith
Step-Exclusive (wlock self e) x = ground arith
Step-Exclusive wunlock x = ground arith

Reach-of_Exclusive : {l l' : RwLock} → Exclusive l → Reach l l' → Exclusive l'
Reach-of_Exclusive x here = x
Reach-of_Exclusive x (next r s) = Step-Exclusive s (Reach-of_Exclusive x r)

-- In every state that calls of any threads lead to, the counters show at most one writer and no
-- reader beside it, and a thread is recorded exactly while the counters are not zero.
pub Reach-Exclusive : {l : RwLock} → Reach rw_lock_new l → Exclusive l
unfolding rw_lock_new
Reach-Exclusive r = Reach-of_Exclusive (ground arith) r

-- The thread that took the latest read lock gets a write lock at once while others read, and
-- nothing records it: the lock stays as it is, and a further reader gets in.
pub wlock_while_read :
    (t u v : ℕ) (l : RwLock)
    → t ≢ u
    → u ≢ v
    → l.writer_writing ≡ 0
    → l.locking_thread ≡ none
    → (l2 : RwLock) × (l3 : RwLock) × (l4 : RwLock) × (rw_lock_rlock t l ≡ some l2)
      × (rw_lock_rlock u l2 ≡ some l3)
      × (rw_lock_wlock u l3 ≡ some l3)
      × (rw_lock_rlock v l3 ≡ some l4)
      × (l4.readers_reading ≡ l.readers_reading + 3)
unfolding rw_lock_rlock rw_lock_wlock
wlock_while_read t u v l tu uv w n = (
  record l { readers_reading = l.readers_reading + 1; locking_thread = some t },
  record l { readers_reading = l.readers_reading + 2; locking_thread = some u },
  record l { readers_reading = l.readers_reading + 3; locking_thread = some v },
  ground arith,
  ground arith,
  ground arith,
  ground arith,
  refl,
)
