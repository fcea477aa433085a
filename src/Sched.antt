-- ===== src/Sched.antt =====
-- kernel/mcsos_thread.c, include/mcsos_thread.h: the scheduler of kernel threads, with a queue of
-- ready threads linked through the threads. A thread's pointer is a number, NULL is 0, and
-- `Machine` is the memory: the threads, the words of the stacks, the scheduler. The scheduler's
-- own pointer is never NULL here. The context switch is assembly and is no part of the model.
mod Queue
mod Turn
mod Tests
use m4_trio.Base.{
  ℕ, zero, suc, ◌+◌, ◌-◌, ◌*◌, ◌/◌, Bool, true, false, not, ◌&&◌, ◌||◌, ltb, leb, ◌==◌,
  if◌then◌else◌, u64_mod, add64, sub64,
}

abbrev pub thread_magic : ℕ
thread_magic = 0x4d43534f53544852

-- `mcsos_thread_state_t`
abbrev pub state_new : ℕ
state_new = 0

abbrev pub state_ready : ℕ
state_ready = 1

abbrev pub state_running : ℕ
state_running = 2

abbrev pub state_blocked : ℕ
state_blocked = 3

-- `mcsos_sched_result_t`
pub data Outcome : Type 0 where
  ok einval estate estack ecorrupt : Outcome

-- `mcsos_context_t`
pub record Context : Type 0 where
  pub rsp : ℕ
  pub rbp : ℕ
  pub rbx : ℕ
  pub r12 : ℕ
  pub r13 : ℕ
  pub r14 : ℕ
  pub r15 : ℕ
  pub rip : ℕ

abbrev pub zero_context : Context
zero_context = record { rsp = 0; rbp = 0; rbx = 0; r12 = 0; r13 = 0; r14 = 0; r15 = 0; rip = 0 }

-- `mcsos_thread_t`
pub record Thread : Type 0 where
  pub magic : ℕ
  pub id : ℕ
  pub name : ℕ
  pub state : ℕ
  pub context : Context
  pub entry : ℕ
  pub arg : ℕ
  pub stack_base : ℕ
  pub stack_size : ℕ
  pub next : ℕ
  pub switches : ℕ
  pub ticks : ℕ
  pub exit_code : ℕ

-- `mcsos_scheduler_t`
pub record Scheduler : Type 0 where
  pub current : ℕ
  pub idle : ℕ
  pub ready_head : ℕ
  pub ready_tail : ℕ
  pub next_id : ℕ
  pub runnable_count : ℕ
  pub context_switches : ℕ
  pub ticks : ℕ
  pub initialized : ℕ

pub record Machine : Type 0 where
  pub thread : ℕ → Thread
  pub words : ℕ → ℕ
  pub sched : Scheduler

abbrev pub write {ℓ} : {A : Type ℓ} → (ℕ → A) → ℕ → A → ℕ → A
write f at a k = if k == at then a else f k

abbrev pub put : Machine → ℕ → Thread → Machine
put m t thread = record m { thread = write m.thread t thread }

abbrev pub set_state : Machine → ℕ → ℕ → Machine
set_state m t state = put m t (record (m.thread t) { state = state })

abbrev pub set_next : Machine → ℕ → ℕ → Machine
set_next m t next = put m t (record (m.thread t) { next = next })

pub valid_thread_object : Machine → ℕ → Bool
valid_thread_object m t = not (t == 0) && ((m.thread t).magic == thread_magic)

-- `boot_name` is the address of the literal "boot".
pub scheduler_init : ℕ → Machine → ℕ → Outcome × Machine
scheduler_init boot_name m boot = if boot == 0 then (einval, m) else (
  ok,
  record (put m boot (record {
    magic = thread_magic;
    id = 0;
    name = boot_name;
    state = state_running;
    context = zero_context;
    entry = 0;
    arg = 0;
    stack_base = 0;
    stack_size = 0;
    next = 0;
    switches = 0;
    ticks = 0;
    exit_code = 0;
  })) {
    sched = record {
      current = boot;
      idle = boot;
      ready_head = 0;
      ready_tail = 0;
      next_id = 1;
      runnable_count = 0;
      context_switches = 0;
      ticks = 0;
      initialized = 1;
    };
  },
)

-- The end of `mcsos_thread_prepare`, on a stack whose first word goes to `top`. `trampoline` is
-- the address of that function.
pub prepare_at : ℕ → Machine → ℕ → ℕ → ℕ → ℕ → ℕ → ℕ → ℕ → ℕ → Machine
prepare_at trampoline m t name entry arg stack_base stack_size id top =
    record (put m t (record {
      magic = thread_magic;
      id = id;
      name = name;
      state = state_new;
      context = record zero_context { rsp = top; rip = trampoline };
      entry = entry;
      arg = arg;
      stack_base = stack_base;
      stack_size = stack_size;
      next = 0;
      switches = 0;
      ticks = 0;
      exit_code = 0;
    })) { words = write m.words top 0 }

pub thread_prepare : ℕ → Machine → ℕ → ℕ → ℕ → ℕ → ℕ → ℕ → ℕ → Outcome × Machine
thread_prepare trampoline m t name entry arg stack_base stack_size id =
    let high = add64 stack_base stack_size in
    let top = high / 16 * 16 in
    if (t == 0) || (entry == 0) || (stack_base == 0)
    then (einval, m)
    else if ltb stack_size 4096
    then (estack, m)
    else if leb high stack_base
    then (estack, m)
    else if leb top (add64 stack_base 128)
    then (estack, m)
    else (ok, prepare_at trampoline m t name entry arg stack_base stack_size id (sub64 top 8))

-- The thread is ready and last: `mcsos_sched_enqueue` past its tests.
pub append : Machine → ℕ → Machine
append m t =
    let n = set_next (set_state m t state_ready) t 0 in
    let s = n.sched in
    let count = add64 s.runnable_count 1 in
    if s.ready_tail == 0
    then record n { sched = record s { ready_head = t; ready_tail = t; runnable_count = count } }
    else record (set_next n s.ready_tail t) {
      sched = record s { ready_tail = t; runnable_count = count };
    }

pub may_enqueue : ℕ → Bool
may_enqueue state = (state == state_new) || (state == state_ready) || (state == state_blocked)

pub sched_enqueue : Machine → ℕ → Outcome × Machine
sched_enqueue m t =
    if (m.sched.initialized == 0) || not (valid_thread_object m t)
    then (einval, m)
    else if not (may_enqueue (m.thread t).state)
    then (estate, m)
    else (ok, append m t)

-- The head leaves the queue: the end of `mcsos_sched_pick_next`.
pub detach : Machine → ℕ × Machine
detach m =
    let s = m.sched in
    let t = s.ready_head in
    let head = (m.thread t).next in
    (
      t,
      record (set_next m t 0) {
        sched = record s {
          ready_head = head;
          ready_tail = if head == 0 then 0 else s.ready_tail;
          runnable_count =
              if ltb 0 s.runnable_count then s.runnable_count - 1 else s.runnable_count;
        };
      },
    )

pub sched_pick_next : Machine → ℕ × Machine
sched_pick_next m =
    if m.sched.initialized == 0
    then (0, m)
    else if m.sched.ready_head == 0
    then (m.sched.idle, m)
    else detach m

-- The new thread runs: the end of `mcsos_sched_yield`.
pub switch_to : Machine → ℕ → ℕ → Machine
switch_to m old new =
    let n = set_state m new state_running in
    let a = put n old (record (n.thread old) { switches = add64 (n.thread old).switches 1 }) in
    let b = put a new (record (a.thread new) { switches = add64 (a.thread new).switches 1 }) in
    record b {
      sched = record (b.sched) {
        current = new;
        context_switches = add64 b.sched.context_switches 1;
      };
    }

pub after_requeue : Outcome × Machine → ℕ → ℕ → Outcome × Machine
after_requeue (ok, m) old new = (ok, switch_to m old new)
after_requeue (rc, m) old new = (rc, m)

-- What `mcsos_sched_yield` does with the thread that was picked.
pub yield_to : Machine → ℕ → ℕ → Outcome × Machine
yield_to m old new =
    if not (valid_thread_object m new)
    then (ecorrupt, m)
    else if new == old
    then (ok, set_state m old state_running)
    else if ((m.thread old).state == state_running) && not (old == m.sched.idle)
    then after_requeue (sched_enqueue (set_state m old state_ready) old) old new
    else (ok, switch_to m old new)

pub sched_yield : Machine → Outcome × Machine
sched_yield m =
    if (m.sched.initialized == 0) || not (valid_thread_object m m.sched.current)
    then (einval, m)
    else let (new, m') = sched_pick_next m in yield_to m' m.sched.current new

pub sched_tick : Machine → Outcome × Machine
sched_tick m =
    let t = m.sched.current in
    if (m.sched.initialized == 0) || not (valid_thread_object m t) then (einval, m) else (
      ok,
      record (put m t (record (m.thread t) { ticks = add64 (m.thread t).ticks 1 })) {
        sched = record (m.sched) { ticks = add64 m.sched.ticks 1 };
      },
    )

pub block_current : Machine → Outcome × Machine
block_current m =
    let t = m.sched.current in
    if (m.sched.initialized == 0) || not (valid_thread_object m t)
    then (einval, m)
    else if t == m.sched.idle
    then (estate, m)
    else sched_yield (set_state m t state_blocked)

pub mark_ready : Machine → ℕ → Outcome × Machine
mark_ready m t =
    if not (valid_thread_object m t)
    then (einval, m)
    else if not ((m.thread t).state == state_blocked)
    then (estate, m)
    else sched_enqueue m t

-- The walk of `mcsos_sched_validate` from `cursor`, after `count` threads of which the last was
-- `last`. It stops by itself when the count passes `runnable_count + 1`; the fuel is more.
pub walk : ℕ → Machine → ℕ → ℕ → ℕ → Outcome
walk zero m cursor last count = ecorrupt
walk (suc fuel) m cursor last count =
    let rest = walk fuel m (m.thread cursor).next cursor (count + 1) in
    if cursor == 0
    then (if not (last == m.sched.ready_tail)
        then ecorrupt
        else if not (count == m.sched.runnable_count)
        then ecorrupt
        else ok)
    else if not (valid_thread_object m cursor) || not ((m.thread cursor).state == state_ready)
    then ecorrupt
    else if cursor == m.sched.current
    then ecorrupt
    else if ltb (add64 m.sched.runnable_count 1) (count + 1)
    then ecorrupt
    else rest

pub sched_validate : Machine → Outcome
sched_validate m =
    if (m.sched.initialized == 0) || not (valid_thread_object m m.sched.current)
    then einval
    else walk (m.sched.runnable_count + 3) m m.sched.ready_head 0 0
