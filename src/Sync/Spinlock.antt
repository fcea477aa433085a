-- ===== src/Sync/Spinlock.antt =====
-- kernel/sync/spinlock.c: the calls, and threads that interleave at their atomic accesses. Memory
-- is sequentially consistent. `mcs_cpu_relax` changes nothing and has no step of its own.
mod Exclusion
mod Tests
use m4_trio.Base.{
  ℕ, suc, Bool, true, false, not, Option, none, some, List, [], ◌∷◌, ◌==◌, if◌then◌else◌,
}

-- `mcs_spinlock_t`; the name is the pointer.
pub record Spinlock : Type 0 where
  pub locked : ℕ
  pub class_id : ℕ
  pub name : ℕ

pub init : Option Spinlock → ℕ → ℕ → Option Spinlock
init none class_id name = none
init (some l) class_id name = some (record { locked = 0; class_id = class_id; name = name })

-- `__atomic_exchange_n(&lock->locked, 1u)`, and whether the old value was 0.
pub exchange : Spinlock → Bool × Spinlock
exchange l = (l.locked == 0, record l { locked = 1 })

pub try_lock : Option Spinlock → Bool × Option Spinlock
try_lock none = (false, none)
try_lock (some l) = let (won, l') = exchange l in (won, some l')

pub unlock : Option Spinlock → Option Spinlock
unlock none = none
unlock (some l) = some (record l { locked = 0 })

pub is_locked : Option Spinlock → Bool
is_locked none = false
is_locked (some l) = not (l.locked == 0)

-- Where a thread stands in `mcs_spin_lock`: at the outer test, or in the inner loop.
pub data Pc : Type 0 where
  outside : Pc
  testing : Pc
  relaxing : Pc
  holding : Pc

-- One access of a thread. One that is outside starts `mcs_spin_lock`, and one that holds the lock
-- calls `mcs_spin_unlock`: no client takes a lock that it holds, or opens one that it does not.
pub access : Spinlock → Pc → Spinlock × Pc
access l outside = (l, testing)
access l testing = let (won, l') = exchange l in (l', if won then holding else relaxing)
access l relaxing = (l, if l.locked == 0 then testing else relaxing)
access l holding = (record l { locked = 0 }, outside)

pub record System : Type 0 where
  pub lock : Spinlock
  pub pc : ℕ → Pc

abbrev pub update : (ℕ → Pc) → ℕ → Pc → ℕ → Pc
update pc i p j = if i == j then p else pc j

pub step : System → ℕ → System
step s i = let (l, p) = access s.lock (s.pc i) in record { lock = l; pc = update s.pc i p }

pub run : System → List ℕ → System
run s [] = s
run s (i ∷ is) = run (step s i) is

pub start : ℕ → ℕ → System
start class_id name = record {
  lock = record { locked = 0; class_id = class_id; name = name };
  pc = λ _. outside;
}
