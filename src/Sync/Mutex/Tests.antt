-- ===== src/Sync/Mutex/Tests.antt =====
-- Two threads that contend for one mutex, and the theorems at that schedule.
use m4_trio.Base.{ℕ, ◌≡◌, refl, true, false, List, [], ◌∷◌}
use m4_trio.Sync.{ok, ebusy}
use m4_trio.Sync.Mutex.{
  Mutex, Call, rest, lost, access, step, run, start, lock, try_lock_body, unlock_body,
}
use m4_trio.Sync.Mutex.Exclusion.{mutual_exclusion}
use m4_trio.Sync.Mutex.Alone.{unlock-try_lock}

-- Thread 0 takes the mutex, thread 1 fails, thread 0 tries again.
abbrev contention : List (ℕ × Call)
contention = (0, lock) ∷ (1, lock) ∷ (0, lock) ∷ (1, lock) ∷ (0, lock) ∷ []

contention_ends :
    ((run (start 10 0) contention).pc 0 ≡ lost true)
    × ((run (start 10 0) contention).pc 1 ≡ rest false ebusy)
    × ((run (start 10 0) contention).mem.owner ≡ 1)
unfolding run step access start
contention_ends = (refl, refl, refl)

abbrev open_mutex : Mutex
open_mutex = record { locked = 0; owner = 0; class_id = 10; name = 0 }

mutual_exclusion_example : ◌≡◌ {A = ℕ} 0 0
mutual_exclusion_example =
    mutual_exclusion 10 0 contention 0 0 (rw contention_ends.0) (rw contention_ends.0)

unlock-try_lock_example :
    unlock_body (try_lock_body open_mutex 7).1 7 ≡ (ok, record open_mutex { locked = 0; owner = 0 })
unfolding try_lock_body
unlock-try_lock_example = unlock-try_lock 7 open_mutex refl
