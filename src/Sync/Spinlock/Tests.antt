-- ===== src/Sync/Spinlock/Tests.antt =====
-- Two threads and one spinlock, and the theorems at their schedules.
use m4_trio.Base.{ℕ, ◌≡◌, ◌≢◌, refl, List, [], ◌∷◌, arith}
use m4_trio.Sync.Spinlock.{holding, relaxing, exchange, access, step, run, start}
use m4_trio.Sync.Spinlock.Exclusion.{spin_exclusion, spin_progress}

-- Thread 0 holds the lock and thread 1 waits.
abbrev taken : List ℕ
taken = 0 ∷ 0 ∷ 1 ∷ 1 ∷ []

-- The same, and thread 0 lets go.
abbrev let_go : List ℕ
let_go = 0 ∷ 0 ∷ 1 ∷ 1 ∷ 0 ∷ []

spin_exclusion_example : ◌≡◌ {A = ℕ} 0 0
unfolding run step access exchange start
spin_exclusion_example = spin_exclusion 10 0 taken 0 0 refl refl

nobody_holds : (j : ℕ) → (run (start 10 0) let_go).pc j ≢ holding
unfolding run step access exchange start
nobody_holds j = ground arith

spin_progress_example : (step (step (run (start 10 0) let_go) 1) 1).pc 1 ≡ holding
spin_progress_example = spin_progress 10 0 let_go 1 nobody_holds waits
  where
    waits : (run (start 10 0) let_go).pc 1 ≡ relaxing
    waits = unfold run step access exchange start in refl
