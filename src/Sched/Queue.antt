-- ===== src/Sched/Queue.antt =====
-- kernel/mcsos_thread.c: the ready queue as a list, and what the operations do to it.
use m4_trio.Base.{
  ℕ, ◌+◌, ◌<◌, ◌≡◌, ◌≢◌, refl, sym, ap, subst, ◌∙◌, true, List, [], ◌∷◌, ◌++◌, length,
  length-append, All, ==_self, ne→==, u64_mod, add64, arith,
}
use m4_trio.Sched.{
  Thread, Machine, ok, thread_magic, state_ready, valid_thread_object, append, may_enqueue,
  sched_enqueue, detach, write,
}

-- The links from `p` on run through `q` and end.
abbrev pub Chain : (ℕ → Thread) → ℕ → List ℕ → Type 0
Chain f p [] = p ≡ 0
Chain f p (x ∷ q) = (p ≡ x) × (x ≢ 0) × Chain f (f x).next q

abbrev pub last : ℕ → List ℕ → ℕ
last p [] = p
last p (x ∷ q) = last x q

abbrev pub Apart : ℕ → List ℕ → Type 0
Apart t q = All (λ y. y ≢ t) q

abbrev pub Distinct : List ℕ → Type 0
Distinct [] = Unit
Distinct (x ∷ q) = Apart x q × Distinct q

pub record IsReady (thread : Thread) : Type 0 where
  pub magic : thread.magic ≡ thread_magic
  pub state : thread.state ≡ state_ready

-- The ready queue of the machine is `q`: what `mcsos_sched_validate` checks, and more.
pub record Queue (m : Machine) (q : List ℕ) : Type 0 where
  pub chain : Chain m.thread m.sched.ready_head q
  pub tail : m.sched.ready_tail ≡ last 0 q
  pub count : m.sched.runnable_count ≡ length q
  pub ready : All (λ y. IsReady (m.thread y)) q
  pub distinct : Distinct q
  pub small : length q + 1 < u64_mod

pub All-map : {P R : ℕ → Type 0} (q : List ℕ) → All P q → ((y : ℕ) → P y → R y) → All R q
All-map [] a f = a
All-map (x ∷ q) a f = (f x a.0, All-map q a.1 f)

pub All-both :
    {P R S : ℕ → Type 0} (q : List ℕ) → All P q → All R q → ((y : ℕ) → P y → R y → S y) → All S q
All-both [] a b f = a
All-both (x ∷ q) a b f = (f x a.0 b.0, All-both q a.1 b.1 f)

pub All-snoc : (P : ℕ → Type 0) (q : List ℕ) (t : ℕ) → All P q → P t → All P (q ++ t ∷ [])
All-snoc P [] t a p = (p, a)
All-snoc P (x ∷ q) t a p = (a.0, All-snoc P q t a.1 p)

All-last : (P : ℕ → Type 0) (x : ℕ) (q : List ℕ) → P x → All P q → P (last x q)
All-last P x [] p a = p
All-last P x (y ∷ q) p a = All-last P y q a.0 a.1

Distinct-snoc : (q : List ℕ) (t : ℕ) → Distinct q → Apart t q → Distinct (q ++ t ∷ [])
Distinct-snoc [] t d a = (a, d)
Distinct-snoc (x ∷ q) t d a =
    (All-snoc (λ y. y ≢ x) q t d.0 (λ e. a.0 (sym e)), Distinct-snoc q t d.1 a.1)

last-snoc : (p : ℕ) (q : List ℕ) (t : ℕ) → last p (q ++ t ∷ []) ≡ t
last-snoc p [] t = refl
last-snoc p (x ∷ q) t = last-snoc x q t

-- Threads outside the queue may change, and others in what is no link.
pub Chain-keep :
    (f g : ℕ → Thread) (p : ℕ) (q : List ℕ)
    → Chain f p q
    → All (λ y. (g y).next ≡ (f y).next) q
    → Chain g p q
Chain-keep f g p [] c a = c
Chain-keep f g p (x ∷ q) c a =
    (c.0, c.1, Chain-keep f g (g x).next q (subst (λ n. Chain f n q) (sym a.0) c.2) a.1)

-- A new last thread is linked behind the one that was last.
Chain-snoc :
    (f g : ℕ → Thread) (p x t : ℕ) (q : List ℕ)
    → t ≢ 0
    → Chain f p (x ∷ q)
    → Distinct (x ∷ q)
    → Apart t (x ∷ q)
    → (g (last x q)).next ≡ t
    → (g t).next ≡ 0
    → ((y : ℕ) → y ≢ last x q → y ≢ t → (g y).next ≡ (f y).next)
    → Chain g p (x ∷ q ++ t ∷ [])
Chain-snoc f g p x t [] nz c d a at_last at_new same = (c.0, c.1, (at_last, nz, at_new))
Chain-snoc f g p x t (y ∷ q) nz c d a at_last at_new same =
    let ne : x ≢ last y q = λ e. All-last (λ z. z ≢ x) y q d.0.0 d.0.1 (sym e) in
    (
      c.0,
      c.1,
      Chain-snoc f g (g x).next y t q nz (subst (λ n. Chain f n (y ∷ q)) (sym (same x ne a.0)) c.2)
          d.1 a.1 at_last at_new same,
    )

pub write_self : {A : Type 0} (f : ℕ → A) (at : ℕ) (a : A) → write f at a at ≡ a
write_self f at a = rw (==_self at) refl

write_ne : {A : Type 0} (f : ℕ → A) (at k : ℕ) (a : A) → k ≢ at → write f at a k ≡ f k
write_ne f at k a ne = rw (ne→== k at ne) refl

module _ (m : Machine) (t : ℕ) where
  append_magic : (y : ℕ) → ((append m t).thread y).magic ≡ (m.thread y).magic
  unfolding append
  append_magic y = ground arith

  append_state_new : ((append m t).thread t).state ≡ state_ready
  unfolding append
  append_state_new = ground arith

  append_state : (y : ℕ) → y ≢ t → ((append m t).thread y).state ≡ (m.thread y).state
  unfolding append
  append_state y ne = ground arith

  append_next_new : t ≢ m.sched.ready_tail → ((append m t).thread t).next ≡ 0
  unfolding append
  append_next_new ne = ground arith

  append_next :
      (y : ℕ) → y ≢ m.sched.ready_tail → y ≢ t → ((append m t).thread y).next ≡ (m.thread y).next
  unfolding append
  append_next y a b = ground arith

  append_link : m.sched.ready_tail ≢ 0 → ((append m t).thread m.sched.ready_tail).next ≡ t
  unfolding append
  append_link a = ground arith

  append_tail : (append m t).sched.ready_tail ≡ t
  unfolding append
  append_tail = ground arith

  append_count : (append m t).sched.runnable_count ≡ add64 m.sched.runnable_count 1
  unfolding append
  append_count = ground arith

  append_head_empty : m.sched.ready_tail ≡ 0 → (append m t).sched.ready_head ≡ t
  unfolding append
  append_head_empty e = ground arith

  append_head : m.sched.ready_tail ≢ 0 → (append m t).sched.ready_head ≡ m.sched.ready_head
  unfolding append
  append_head ne = ground arith

-- A thread that may join the queue.
pub record Joins (m : Machine) (q : List ℕ) (t : ℕ) : Type 0 where
  pub pointer : t ≢ 0
  pub magic : (m.thread t).magic ≡ thread_magic
  pub outside : Apart t q
  pub room : length q + 2 < u64_mod

last-Chain : (f : ℕ → Thread) (p x : ℕ) (q : List ℕ) → Chain f p (x ∷ q) → last x q ≢ 0
last-Chain f p x [] c = c.1
last-Chain f p x (y ∷ q) c = last-Chain f (f x).next y q c.2

append-Chain :
    {m : Machine} (q : List ℕ) (t : ℕ)
    → Queue m q
    → Joins m q t
    → Chain (append m t).thread (append m t).sched.ready_head (q ++ t ∷ [])
append-Chain {m} [] t v j =
    (append_head_empty m t v.tail, j.pointer, append_next_new m t λ e. j.pointer (e ∙ v.tail))
append-Chain {m} (x ∷ q) t v j =
    let some_tail : last x q ≢ 0 = last-Chain m.thread m.sched.ready_head x q v.chain in
    let tail_ne : m.sched.ready_tail ≢ 0 = λ e. some_tail (sym v.tail ∙ e) in
    let other : t ≢ m.sched.ready_tail =
      λ e. All-last (λ y. y ≢ t) x q j.outside.0 j.outside.1 (sym (e ∙ v.tail)) in
    Chain-snoc m.thread (append m t).thread (append m t).sched.ready_head x t q j.pointer
      (subst (λ h. Chain m.thread h (x ∷ q)) (sym (append_head m t tail_ne)) v.chain) v.distinct
      j.outside (subst (λ y. ((append m t).thread y).next ≡ t) v.tail (append_link m t tail_ne))
      (append_next_new m t other) λ y a b. append_next m t y (λ e. a (e ∙ v.tail)) b

-- A thread that joins is the new last of the queue, and the others keep their order.
pub append-Queue :
    {m : Machine} {q : List ℕ} (t : ℕ) → Queue m q → Joins m q t → Queue (append m t) (q ++ t ∷ [])
append-Queue {m} {q} t v j = record {
  chain = append-Chain q t v j;
  tail = append_tail m t ∙ sym (last-snoc 0 q t);
  count = omega (arith, append_count m t, v.count, length-append q (t ∷ []), j.room);
  ready =
      All-snoc (λ y. IsReady ((append m t).thread y)) q t
        (All-both q v.ready j.outside λ y r ne. record {
          magic = append_magic m t y ∙ r.magic;
          state = append_state m t y ne ∙ r.state;
        })
        (record { magic = append_magic m t t ∙ j.magic; state = append_state_new m t });
  distinct = Distinct-snoc q t v.distinct j.outside;
  small = omega (arith, length-append q (t ∷ []), j.room);
}

sched_enqueue-ok :
    (m : Machine) (t : ℕ)
    → m.sched.initialized ≢ 0
    → valid_thread_object m t ≡ true
    → may_enqueue (m.thread t).state ≡ true
    → sched_enqueue m t ≡ (ok, append m t)
unfolding sched_enqueue
sched_enqueue-ok m t a b c = ground arith

valid_thread_object-Joins :
    {m : Machine} {q : List ℕ} {t : ℕ} → Joins m q t → valid_thread_object m t ≡ true
unfolding valid_thread_object
valid_thread_object-Joins j = ground (arith, j.pointer, j.magic)

-- Enqueueing a valid thread that is not in the queue, in a state from which it may, succeeds and
-- makes it the new last of the queue.
pub sched_enqueue-Queue :
    {m : Machine} {q : List ℕ} (t : ℕ)
    → Queue m q
    → Joins m q t
    → m.sched.initialized ≢ 0
    → may_enqueue (m.thread t).state ≡ true
    → ((sched_enqueue m t).0 ≡ ok) × Queue (sched_enqueue m t).1 (q ++ t ∷ [])
sched_enqueue-Queue {m} {q} t v j ready may =
    rw (sched_enqueue-ok m t ready (valid_thread_object-Joins j) may) (refl, append-Queue t v j)

module _ {m : Machine} {x : ℕ} {q : List ℕ} (v : Queue m (x ∷ q)) where
  rest_ne : All (λ y. y ≢ x) q
  rest_ne = v.distinct.0

  pub detach_same : (y : ℕ) → y ≢ x → (detach m).1.thread y ≡ m.thread y
  unfolding detach
  detach_same y ne = write_ne m.thread m.sched.ready_head y _ λ e. ne (e ∙ v.chain.0)

  detach_head : (detach m).1.sched.ready_head ≡ (m.thread x).next
  unfolding detach
  detach_head = ap (λ y. (m.thread y).next) v.chain.0

  detach_count : (detach m).1.sched.runnable_count ≡ length q
  unfolding detach
  detach_count = ground (arith, v.count)

detach_tail :
    {m : Machine} {x : ℕ} (q : List ℕ) → Queue m (x ∷ q) → (detach m).1.sched.ready_tail ≡ last 0 q
unfolding detach
detach_tail {m} {x} [] v =
    let e : (m.thread m.sched.ready_head).next ≡ 0 =
      ap (λ y. (m.thread y).next) v.chain.0 ∙ v.chain.2 in
    rw e refl
detach_tail {m} {x} (y ∷ q) v =
    let e : (m.thread m.sched.ready_head).next ≡ y =
      ap (λ z. (m.thread z).next) v.chain.0 ∙ v.chain.2.0 in
    rw e (rw (ne→== y 0 v.chain.2.1) v.tail)

-- The head leaves the queue, and the others keep their order.
pub detach-Queue : {m : Machine} {x : ℕ} (q : List ℕ) → Queue m (x ∷ q) → Queue (detach m).1 q
detach-Queue {m} {x} q v = record {
  chain =
      Chain-keep m.thread (detach m).1.thread (detach m).1.sched.ready_head q
        (subst (λ h. Chain m.thread h q) (sym (detach_head v)) v.chain.2)
        (All-map q v.distinct.0 λ y ne. ap (λ z. z.next) (detach_same v y ne));
  tail = detach_tail q v;
  count = detach_count v;
  ready = All-both q v.ready.1 v.distinct.0 λ y r ne. subst IsReady (sym (detach_same v y ne)) r;
  distinct = v.distinct.1;
  small = omega (arith, v.small);
}
