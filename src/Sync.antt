-- ===== src/Sync.antt =====
-- kernel/sync and include/mcs_sync.h: the lock order checker, the mutex and the spinlock.
pub mod Lockdep
pub mod Mutex
pub mod Spinlock

-- The results MCS_SYNC_OK and MCS_SYNC_E*.
pub data Code : Type 0 where
  ok einval ebusy eperm edeadlk eoverflow : Code

pub Code-discrete : Discrete Code
Code-discrete = hlevel
