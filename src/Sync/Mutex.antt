-- ===== src/Sync/Mutex.antt =====
-- kernel/sync/mutex.c. The calls are split at their atomic accesses, so that threads can interleave
-- between any two of them; a call alone is `try_lock` or `unlock`. Memory is sequentially
-- consistent. `mcs_mutex_t *` is an option, NULL is `none`.
mod Exclusion
mod Alone
mod Tests
use m4_trio.Base.{
  ℕ, suc, ◌+◌, Bool, true, false, not, ◌||◌, Option, none, some, List, [], ◌∷◌, ltb, ◌==◌,
  if◌then◌else◌,
}
use m4_trio.Sync.{Code, ok, einval, ebusy, eperm, edeadlk}

-- `mcs_mutex_t`; the name is the pointer.
pub record Mutex : Type 0 where
  pub locked : ℕ
  pub owner : ℕ
  pub class_id : ℕ
  pub name : ℕ

pub init : Option Mutex → ℕ → ℕ → Option Mutex
init none class_id name = none
init (some m) class_id name =
    some (record { locked = 0; owner = 0; class_id = class_id; name = name })

-- The body of `mcs_mutex_try_lock` past its argument check, with no other thread in between.
pub try_lock_body : Mutex → ℕ → Code × Mutex
try_lock_body m owner_id =
    if not (m.locked == 0)
    then (if m.owner == owner_id then edeadlk else ebusy, m)
    else (ok, record m { locked = 1; owner = owner_id })

pub try_lock : Option Mutex → ℕ → Code × Option Mutex
try_lock none owner_id = (einval, none)
try_lock (some m) owner_id =
    if owner_id == 0
    then (einval, some m)
    else let (c, m') = try_lock_body m owner_id in (c, some m')

pub unlock_body : Mutex → ℕ → Code × Mutex
unlock_body m owner_id =
    if not (m.owner == owner_id) then (eperm, m) else (ok, record m { owner = 0; locked = 0 })

pub unlock : Option Mutex → ℕ → Code × Option Mutex
unlock none owner_id = (einval, none)
unlock (some m) owner_id =
    if owner_id == 0 then (einval, some m) else let (c, m') = unlock_body m owner_id in (c, some m')

pub is_locked : Option Mutex → Bool
is_locked none = false
is_locked (some m) = not (m.locked == 0)

pub owner_of : Option Mutex → ℕ
owner_of none = 0
owner_of (some m) = m.owner

-- What a thread calls next, when it is between calls.
pub data Call : Type 0 where
  lock release : Call

-- Where a thread stands. The Boolean says whether its last successful call was a lock.
pub data Pc : Type 0 where
  rest : Bool → Code → Pc  -- between calls, with the result of the last one
  lost : Bool → Pc  -- the compare-exchange failed, before the load of `owner`
  won : Pc  -- the compare-exchange succeeded, before the store of `owner`
  checked : Bool → ℕ → Pc  -- `mcs_mutex_unlock` has loaded `owner`
  clearing : Pc  -- `owner` is cleared, before the store of `locked`

-- One atomic access of thread `id`; `call` matters between calls only.
pub access : ℕ → Call → Mutex → Pc → Mutex × Pc
access id lock m (rest held code) =
    if m.locked == 0 then (record m { locked = 1 }, won) else (m, lost held)
access id release m (rest held code) = (m, checked held m.owner)
access id call m (lost held) = (m, rest held (if m.owner == id then edeadlk else ebusy))
access id call m won = (record m { owner = id }, rest true ok)
access id call m (checked held loaded) =
    if not (loaded == id) then (m, rest held eperm) else (record m { owner = 0 }, clearing)
access id call m clearing = (record m { locked = 0 }, rest false ok)

-- Threads over one mutex. Thread `i` passes `suc i` as its owner id, so ids differ and none is 0.
pub record System : Type 0 where
  pub mem : Mutex
  pub pc : ℕ → Pc

abbrev pub update : (ℕ → Pc) → ℕ → Pc → ℕ → Pc
update pc i p j = if i == j then p else pc j

pub step : System → ℕ × Call → System
step s (i, call) =
    let (m, p) = access (suc i) call s.mem (s.pc i) in record { mem = m; pc = update s.pc i p }

-- The threads in the order of a schedule.
pub run : System → List (ℕ × Call) → System
run s [] = s
run s (t ∷ ts) = run (step s t) ts

pub start : ℕ → ℕ → System
start class_id name = record {
  mem = record { locked = 0; owner = 0; class_id = class_id; name = name };
  pc = λ _. rest false ok;
}
