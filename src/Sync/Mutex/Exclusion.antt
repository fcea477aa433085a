-- ===== src/Sync/Mutex/Exclusion.antt =====
-- Under every schedule at most one thread holds the mutex, and the calls answer as they should.
use m4_trio.Base.{ℕ, suc, ◌≡◌, ◌≢◌, Bool, true, false, List, [], ◌∷◌, arith}
use m4_trio.Sync.{ebusy, eperm, edeadlk}
use m4_trio.Sync.Mutex.{
  Mutex, Call, Pc, rest, lost, won, checked, clearing, access, System, step, run, start, lock,
  release,
}

-- From the compare-exchange that won to the store that opens the mutex again.
abbrev pub inside : Pc → Bool
inside (rest held code) = held
inside (lost held) = held
inside won = true
inside (checked held loaded) = held
inside clearing = true

-- What a thread inside knows of `owner`: it is its id, but for the two ends of the section.
abbrev pub Owns : ℕ → Mutex → Pc → Type 0
Owns id m (rest true code) = m.owner ≡ id
Owns id m (lost true) = m.owner ≡ id
Owns id m (checked true loaded) = (m.owner ≡ id) × (loaded ≡ id)
Owns id m (checked false loaded) = (m.owner ≢ id) × (loaded ≢ id)
Owns id m _ = m.owner ≢ id

pub record Inv (s : System) : Type 0 where
  pub unique : (i j : ℕ) → inside (s.pc i) ≡ true → inside (s.pc j) ≡ true → i ≡ j
  pub closed : (i : ℕ) → inside (s.pc i) ≡ true → s.mem.locked ≡ 1
  pub owns : (i : ℕ) → Owns (suc i) s.mem (s.pc i)

start-Inv : (class_id name : ℕ) → Inv (start class_id name)
unfolding start
start-Inv class_id name = record {
  unique = λ i j p q. cc;
  closed = λ i p. cc;
  owns = λ i. omega arith;
}

step_unique :
    {s : System} (i : ℕ) (call : Call)
    → Inv s
    → (a b : ℕ) → inside ((step s (i, call)).pc a) ≡ true
    → inside ((step s (i, call)).pc b) ≡ true
    → a ≡ b
unfolding step access
step_unique {s} i call v a b p q =
    ground (
      arith,
      v.unique a b,
      v.unique i a,
      v.unique i b,
      v.closed a,
      v.closed b,
      v.closed i,
      v.owns i,
    )

step-closed :
    {s : System} (i : ℕ) (call : Call)
    → Inv s
    → (a : ℕ) → inside ((step s (i, call)).pc a) ≡ true
    → (step s (i, call)).mem.locked ≡ 1
unfolding step access
step-closed {s} i call v a p = ground (arith, v.unique i a, v.closed a, v.closed i, v.owns i)

step-Owns :
    {s : System} (i : ℕ) (call : Call)
    → Inv s
    → (a : ℕ) → Owns (suc a) (step s (i, call)).mem ((step s (i, call)).pc a)
unfolding step access
step-Owns {s} i call v a = ground (arith, v.unique i a, v.closed a, v.closed i, v.owns i, v.owns a)

step-Inv : {s : System} (t : ℕ × Call) → Inv s → Inv (step s t)
step-Inv (i, call) v = record {
  unique = step_unique i call v;
  closed = step-closed i call v;
  owns = step-Owns i call v;
}

run-Inv_from : {s : System} (ts : List (ℕ × Call)) → Inv s → Inv (run s ts)
unfolding run
run-Inv_from [] v = v
run-Inv_from {s} (t ∷ ts) v = run-Inv_from {s = step s t} ts (step-Inv t v)

-- The invariant holds after every schedule.
pub run-Inv : (class_id name : ℕ) (ts : List (ℕ × Call)) → Inv (run (start class_id name) ts)
run-Inv class_id name ts = run-Inv_from ts (start-Inv class_id name)

-- From the initial state, under every schedule of try-locks and unlocks by any number of
-- threads, two threads are never both between the compare-exchange that took the mutex and the
-- store that opens it.
pub mutual_exclusion :
    (class_id name : ℕ) (ts : List (ℕ × Call)) (i j : ℕ)
    → inside ((run (start class_id name) ts).pc i) ≡ true
    → inside ((run (start class_id name) ts).pc j) ≡ true
    → i ≡ j
mutual_exclusion class_id name ts = (run-Inv class_id name ts).unique

-- What the next access of thread `i` answers, where it ends a call or decides on one.
pub record Answers (s : System) (i : ℕ) : Type 0 where
  pub retry : s.pc i ≡ lost true → (access (suc i) lock s.mem (s.pc i)).1 ≡ rest true edeadlk
  pub busy : s.pc i ≡ lost false → (access (suc i) lock s.mem (s.pc i)).1 ≡ rest false ebusy
  pub mine :
      (loaded : ℕ)
      → s.pc i ≡ checked true loaded
      → (access (suc i) release s.mem (s.pc i)).1 ≡ clearing
  pub foreign :
      (loaded : ℕ)
      → s.pc i ≡ checked false loaded
      → access (suc i) release s.mem (s.pc i) ≡ (s.mem, rest false eperm)

-- After every schedule from the initial state: a thread that holds the mutex and tried again is
-- told EDEADLK, one that does not hold it and failed is told EBUSY, the holder's unlock goes on
-- to clear the owner, and the unlock of any other thread is told EPERM and changes nothing.
pub run-Answers :
    (class_id name : ℕ) (ts : List (ℕ × Call)) (i : ℕ) → Answers (run (start class_id name) ts) i
unfolding access
run-Answers class_id name ts i =
    let v = run-Inv class_id name ts in
    record {
      retry = λ e. ground (arith, v.owns i);
      busy = λ e. ground (arith, v.owns i);
      mine = λ loaded e. ground (arith, v.owns i);
      foreign = λ loaded e. ground (arith, v.owns i);
    }
