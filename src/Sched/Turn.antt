-- ===== src/Sched/Turn.antt =====
-- kernel/mcsos_thread.c: a yield as a turn of the ready queue.
use m4_trio.Base.{
  ℕ, ◌≡◌, ◌≢◌, refl, sym, ap, subst, ◌∙◌, true, List, [], ◌∷◌, ◌++◌, All, ne→==, arith,
}
use m4_trio.Sched.{
  Thread, Machine, Outcome, ok, thread_magic, state_ready, state_running, valid_thread_object,
  may_enqueue, sched_enqueue, detach, sched_pick_next, set_state, switch_to, yield_to,
  after_requeue, sched_yield,
}
use m4_trio.Sched.Queue.{
  Chain, Apart, Queue, Joins, Chain-keep, All-both, All-map, All-snoc, sched_enqueue-Queue,
  detach-Queue, detach_same, write_self,
}

-- The parts of a thread that the queue reads.
record Same (a b : Thread) : Type 0 where
  next : b.next ≡ a.next
  magic : b.magic ≡ a.magic
  state : b.state ≡ a.state

Queue-keep :
    {m n : Machine} {q : List ℕ}
    → Queue m q
    → n.sched.ready_head ≡ m.sched.ready_head
    → n.sched.ready_tail ≡ m.sched.ready_tail
    → n.sched.runnable_count ≡ m.sched.runnable_count
    → All (λ y. Same (m.thread y) (n.thread y)) q
    → Queue n q
Queue-keep {m} {n} {q} v head tail count same = record {
  chain =
      Chain-keep m.thread n.thread n.sched.ready_head q
        (subst (λ h. Chain m.thread h q) (sym head) v.chain) (All-map q same λ y s. s.next);
  tail = tail ∙ v.tail;
  count = count ∙ v.count;
  ready =
      All-both q v.ready same
        λ y r s. record { magic = s.magic ∙ r.magic; state = s.state ∙ r.state };
  distinct = v.distinct;
  small = v.small;
}

-- The running thread gives way to the first of the queue.
pub record Turn (m : Machine) (x : ℕ) (q : List ℕ) : Type 0 where
  pub queue : Queue m (x ∷ q)
  pub initialized : m.sched.initialized ≢ 0
  pub pointer : m.sched.current ≢ 0
  pub magic : (m.thread m.sched.current).magic ≡ thread_magic
  pub running : (m.thread m.sched.current).state ≡ state_running
  pub no_idle : m.sched.current ≢ m.sched.idle
  pub outside : Apart m.sched.current (x ∷ q)

-- What the turn leaves.
pub record Turned (x c : ℕ) (q : List ℕ) (r : Outcome × Machine) : Type 0 where
  pub answer : r.0 ≡ ok
  pub queue : Queue r.1 (q ++ c ∷ [])
  pub current : r.1.sched.current ≡ x
  pub running : (r.1.thread x).state ≡ state_running

detach_magic : (m : Machine) (y : ℕ) → ((detach m).1.thread y).magic ≡ (m.thread y).magic
unfolding detach
detach_magic m y = ground arith

set_state-Queue :
    {m : Machine} {q : List ℕ} (c state : ℕ) → Queue m q → Apart c q → Queue (set_state m c state) q
set_state-Queue {m} {q} c state v out =
    Queue-keep {n = set_state m c state} v refl refl refl
      (All-map q out λ y ne. rw (ne→== y c ne) (record { next = refl; magic = refl; state = refl }))

module _ (m : Machine) (c x : ℕ) where
  switch-Same : (y : ℕ) → y ≢ x → Same (m.thread y) ((switch_to m c x).thread y)
  unfolding switch_to
  switch-Same y ne = record { next = ground arith; magic = ground arith; state = ground arith }

  switch_state : ((switch_to m c x).thread x).state ≡ state_running
  unfolding switch_to
  switch_state = ground arith

switched : (m : Machine) (c x : ℕ) → (switch_to m c x).sched.current ≡ x
unfolding switch_to
switched m c x = refl

switch_to-Queue :
    {m : Machine} {q : List ℕ} (c x : ℕ) → Queue m q → Apart x q → Queue (switch_to m c x) q
unfolding switch_to
switch_to-Queue {m} {q} c x v out =
    Queue-keep {n = switch_to m c x} v refl refl refl (All-map q out λ y ne. switch-Same m c x y ne)

after_requeue-Turned :
    {x c : ℕ} {q : List ℕ} (r : Outcome × Machine)
    → r.0 ≡ ok
    → Queue r.1 (q ++ c ∷ [])
    → Apart x (q ++ c ∷ [])
    → Turned x c q (after_requeue r c x)
unfolding after_requeue
after_requeue-Turned {x} {c} {q} r good v out =
    subst (Turned x c q) (ap (λ o. after_requeue (o, r.1) c x) (sym good)) (record {
      answer = refl;
      queue = switch_to-Queue c x v out;
      current = switched r.1 c x;
      running = switch_state r.1 c x;
    })

yield_to-requeue :
    (m : Machine) (c x : ℕ)
    → valid_thread_object m x ≡ true
    → x ≢ c
    → (m.thread c).state ≡ state_running
    → c ≢ m.sched.idle
    → yield_to m c x ≡ after_requeue (sched_enqueue (set_state m c state_ready) c) c x
unfolding yield_to
yield_to-requeue m c x a b d e = rw a (rw (ne→== x c b) (rw d (rw (ne→== c m.sched.idle e) refl)))

pick-detach :
    (m : Machine) → m.sched.initialized ≢ 0 → m.sched.ready_head ≢ 0 → sched_pick_next m ≡ detach m
unfolding sched_pick_next
pick-detach m a b = rw (ne→== m.sched.initialized 0 a) (rw (ne→== m.sched.ready_head 0 b) refl)

detach_first : (m : Machine) → (detach m).0 ≡ m.sched.ready_head
unfolding detach
detach_first m = refl

detach_idle : (m : Machine) → (detach m).1.sched.idle ≡ m.sched.idle
unfolding detach
detach_idle m = refl

detach_started : (m : Machine) → (detach m).1.sched.initialized ≡ m.sched.initialized
unfolding detach
detach_started m = refl

a_valid_thread :
    (m : Machine) (t : ℕ)
    → t ≢ 0
    → (m.thread t).magic ≡ thread_magic
    → valid_thread_object m t ≡ true
unfolding valid_thread_object
a_valid_thread m t a b = ground (arith, a, b)

sched_yield-yield_to :
    {m : Machine} {x : ℕ} {q : List ℕ}
    → Turn m x q
    → sched_yield m ≡ yield_to (detach m).1 m.sched.current x
unfolding sched_yield
sched_yield-yield_to {m} {x} {q} t =
    let head : m.sched.ready_head ≢ 0 = λ e. t.queue.chain.1 (sym t.queue.chain.0 ∙ e) in
    rw (ne→== m.sched.initialized 0 t.initialized) (
      rw (a_valid_thread m m.sched.current t.pointer t.magic) (
        rw (pick-detach m t.initialized head)
          (ap (yield_to (detach m).1 m.sched.current) (detach_first m ∙ t.queue.chain.0))))

may_ready : may_enqueue state_ready ≡ true
unfolding may_enqueue
may_ready = refl

-- In a machine whose ready queue starts with a thread, and whose running thread is neither idle nor
-- queued, a yield succeeds: the first of the queue is current and runs, and the thread that yields
-- is the new last of the queue, behind the others in their order.
pub sched_yield-Turned :
    {m : Machine} {x : ℕ} {q : List ℕ} → Turn m x q → Turned x m.sched.current q (sched_yield m)
sched_yield-Turned {m} {x} {q} t =
    let c = m.sched.current in
    let m1 = (detach m).1 in
    let m2 = set_state m1 c state_ready in
    let apart : c ≢ x = λ e. t.outside.0 (sym e) in
    let left : m1.thread c ≡ m.thread c = detach_same t.queue c apart in
    let v2 = set_state-Queue c state_ready (detach-Queue q t.queue) t.outside.1 in
    let joins : Joins m2 q c = record {
      pointer = t.pointer;
      magic =
          ap (λ y. y.magic) (write_self m1.thread c (record (m1.thread c) { state = state_ready }))
          ∙ ap (λ y. y.magic) left
          ∙ t.magic;
      outside = t.outside.1;
      room = omega (arith, t.queue.small);
    } in
    let ready : (m2.thread c).state ≡ state_ready =
      ap (λ y. y.state) (write_self m1.thread c (record (m1.thread c) { state = state_ready })) in
    let queued =
      sched_enqueue-Queue c v2 joins (λ e. t.initialized (sym (detach_started m) ∙ e))
        (ap may_enqueue ready ∙ may_ready) in
    let go =
      sched_yield-yield_to t
      ∙ yield_to-requeue m1 c x
          (a_valid_thread m1 x t.queue.chain.1 (detach_magic m x ∙ t.queue.ready.0.magic))
          (λ e. apart (sym e)) (ap (λ y. y.state) left ∙ t.running)
          (λ e. t.no_idle (e ∙ detach_idle m)) in
    subst (Turned x c q) (sym go) (
      after_requeue-Turned (sched_enqueue m2 c) queued.0 queued.1
        (All-snoc (λ y. y ≢ x) q c t.queue.distinct.0 apart))
