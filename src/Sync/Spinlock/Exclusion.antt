-- ===== src/Sync/Spinlock/Exclusion.antt =====
-- Under every schedule at most one thread is past `mcs_spin_lock`, and a released lock can be taken.
use m4_trio.Base.{ℕ, ◌≡◌, ◌≢◌, refl, ap, inl, inr, Bool-cases, List, [], ◌∷◌, ◌==◌, arith}
use m4_trio.Sync.Spinlock.{relaxing, holding, exchange, access, System, step, run, start}

-- The word is set exactly while some thread holds the lock, and no two do.
pub record Inv (s : System) : Type 0 where
  pub unique : (i j : ℕ) → s.pc i ≡ holding → s.pc j ≡ holding → i ≡ j
  pub closed : (i : ℕ) → s.pc i ≡ holding → s.lock.locked ≡ 1
  pub held : s.lock.locked ≢ 0 → (i : ℕ) × (s.pc i ≡ holding)

start-Inv : (class_id name : ℕ) → Inv (start class_id name)
unfolding start
start-Inv class_id name = record {
  unique = λ i j p q. cc;
  closed = λ i p. cc;
  held = λ ne. absurd (ne refl);
}

step-held :
    {s : System} (i : ℕ)
    → Inv s
    → (step s i).lock.locked ≢ 0
    → (j : ℕ) × ((step s i).pc j ≡ holding)
unfolding step access exchange
step-held {s} i v ne = elim (Bool-cases (s.lock.locked == 0)) [
  | inl unset ↦ (i, ground arith)
  | inr set ↦ let (j, h) = v.held (ground arith) in (j, ground (arith, ap s.pc {x = i} {y = j}))
]

step-Inv : {s : System} (i : ℕ) → Inv s → Inv (step s i)
unfolding step access exchange
step-Inv {s} i v = record {
  unique = λ a b p q.
      ground (arith, v.unique a b, v.unique i a, v.unique i b, v.closed a, v.closed b, v.closed i);
  closed = λ a p. ground (arith, v.unique i a, v.closed a, v.closed i);
  held = step-held i v;
}

run-Inv_from : {s : System} (is : List ℕ) → Inv s → Inv (run s is)
unfolding run
run-Inv_from [] v = v
run-Inv_from {s} (i ∷ is) v = run-Inv_from {s = step s i} is (step-Inv i v)

-- After every schedule the word is set exactly while one thread holds the lock.
pub run-Inv : (class_id name : ℕ) (is : List ℕ) → Inv (run (start class_id name) is)
run-Inv class_id name is = run-Inv_from is (start-Inv class_id name)

-- From the initial state, under every schedule of threads that lock and unlock in turn, two
-- threads never hold the spinlock together.
pub spin_exclusion :
    (class_id name : ℕ) (is : List ℕ) (i j : ℕ)
    → (run (start class_id name) is).pc i ≡ holding
    → (run (start class_id name) is).pc j ≡ holding
    → i ≡ j
spin_exclusion class_id name is = (run-Inv class_id name is).unique

-- After every schedule from the initial state in which no thread holds the lock, a thread that
-- waits in the inner loop holds it after two more accesses of its own, when no other thread makes an
-- access before and between them.
pub spin_progress :
    (class_id name : ℕ) (is : List ℕ) (i : ℕ)
    → ((j : ℕ) → (run (start class_id name) is).pc j ≢ holding)
    → (run (start class_id name) is).pc i ≡ relaxing
    → (step (step (run (start class_id name) is) i) i).pc i ≡ holding
unfolding step access exchange
spin_progress class_id name is i free waiting = elim (Bool-cases (lock_word == 0)) [
  | inl unset ↦ ground arith
  | inr set ↦ let (j, h) = (run-Inv class_id name is).held (ground arith) in absurd (free j h)
]
  where
    lock_word : ℕ
    lock_word = (run (start class_id name) is).lock.locked
