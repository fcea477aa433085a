-- ===== src/Sync/Mutex/Alone.antt =====
-- A call that no other thread interrupts does what its body says.
use m4_trio.Base.{
  ℕ, zero, suc, ◌≡◌, Bool, true, false, ◌==◌, if◌then◌else◌, inl, inr, Bool-cases, arith,
}
use m4_trio.Sync.{Code, ok}
use m4_trio.Sync.Mutex.{Mutex, Call, Pc, rest, access, try_lock_body, unlock_body, lock, release}

-- `n` accesses of one thread.
pub alone : ℕ → ℕ → Call → Mutex → Pc → Mutex × Pc
alone zero id call m p = (m, p)
alone (suc n) id call m p = let (m', p') = access id call m p in alone n id call m' p'

-- Two accesses of one thread with nobody in between carry out the body of `mcs_mutex_try_lock`:
-- the mutex and the result are those of the sequential code, whatever the mutex held before.
pub alone-try_lock :
    (id : ℕ) (m : Mutex) (held : Bool) (code : Code)
    → let (c, m') = try_lock_body m id in
      alone 2 id lock m (rest held code) ≡ (m', rest (if m.locked == 0 then true else held) c)
unfolding alone access try_lock_body
alone-try_lock id m held code = ground arith

-- With nobody in between, three accesses for the owner and two for any other thread carry out
-- the body of `mcs_mutex_unlock`: the mutex and the result are those of the sequential code.
pub alone-unlock :
    (id : ℕ) (m : Mutex) (held : Bool) (code : Code)
    → let (c, m') = unlock_body m id in
      alone (if m.owner == id then 3 else 2) id release m (rest held code)
      ≡ (m', rest (if m.owner == id then false else held) c)
unfolding alone access unlock_body
alone-unlock id m held code = elim (Bool-cases (m.owner == id)) [
  | inl mine ↦ simp mine (ground arith)
  | inr other ↦ simp other (ground arith)
]

-- Alone, a lock that succeeds and the unlock after it leave the mutex open and without owner.
pub unlock-try_lock :
    (id : ℕ) (m : Mutex)
    → (try_lock_body m id).0 ≡ ok
    → unlock_body (try_lock_body m id).1 id ≡ (ok, record m { locked = 0; owner = 0 })
unfolding try_lock_body unlock_body
unlock-try_lock id m h = ground arith
