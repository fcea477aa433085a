-- ===== src/Sched/Tests.antt =====
-- Three threads, one of them running, and the scheduler's theorems there.
use m4_trio.Base.{ℕ, ◌≡◌, refl, [], ◌∷◌, ◌==◌, if◌then◌else◌, arith}
use m4_trio.Sched.{
  Thread, Machine, ok, thread_magic, state_ready, state_running, state_blocked, zero_context,
  sched_yield, sched_enqueue, may_enqueue, sched_validate, sched_pick_next, detach, yield_to,
  after_requeue, append, switch_to, walk, valid_thread_object,
}
use m4_trio.Sched.Queue.{Queue, sched_enqueue-Queue}
use m4_trio.Sched.Turn.{Turned, sched_yield-Turned}

abbrev thread : ℕ → ℕ → ℕ → Thread
thread id state next = record {
  magic = thread_magic;
  id = id;
  name = 0;
  state = state;
  context = zero_context;
  entry = 0;
  arg = 0;
  stack_base = 0;
  stack_size = 0;
  next = next;
  switches = 0;
  ticks = 0;
  exit_code = 0;
}

-- Thread 3 runs, 1 and 2 are ready, 4 is blocked.
abbrev threads : ℕ → Thread
threads t =
    if t == 1
    then thread 1 state_ready 2
    else if t == 3
    then thread 3 state_running 0
    else if t == 4
    then thread 4 state_blocked 0
    else thread t state_ready 0

abbrev machine : Machine
machine = record {
  thread = threads;
  words = λ _. 0;
  sched = record {
    current = 3;
    idle = 9;
    ready_head = 1;
    ready_tail = 2;
    next_id = 4;
    runnable_count = 2;
    context_switches = 0;
    ticks = 0;
    initialized = 1;
  };
}

machine-Queue : Queue machine (1 ∷ 2 ∷ [])
machine-Queue = record {
  chain = (refl, omega arith, (refl, omega arith, refl));
  tail = refl;
  count = refl;
  ready = (record { magic = refl; state = refl }, (record { magic = refl; state = refl }, tt));
  distinct = ((omega arith, tt), (tt, tt));
  small = omega arith;
}

machine_validates :
    (sched_validate machine ≡ ok)
    × (sched_validate (sched_yield machine).1 ≡ ok)
    × ((sched_pick_next (sched_yield machine).1).0 ≡ 2)
unfolding sched_validate walk valid_thread_object sched_yield sched_pick_next detach yield_to
    after_requeue sched_enqueue may_enqueue append switch_to
machine_validates = (refl, refl, refl)

sched_enqueue-Queue_example :
    ((sched_enqueue machine 4).0 ≡ ok) × Queue (sched_enqueue machine 4).1 (1 ∷ 2 ∷ 4 ∷ [])
unfolding may_enqueue
sched_enqueue-Queue_example =
    sched_enqueue-Queue 4 machine-Queue
      (record {
        pointer = omega arith;
        magic = refl;
        outside = (omega arith, (omega arith, tt));
        room = omega arith;
      })
      (omega arith) refl

sched_yield-Turned_example : Turned 1 3 (2 ∷ []) (sched_yield machine)
sched_yield-Turned_example = sched_yield-Turned (record {
  queue = machine-Queue;
  initialized = omega arith;
  pointer = omega arith;
  magic = refl;
  running = refl;
  no_idle = omega arith;
  outside = (omega arith, (omega arith, tt));
})
