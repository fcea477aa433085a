-- ===== src/Pmm/Ownership.antt =====
-- Sequences of calls on an initialized allocator: the invariant lasts, and a frame that was handed
-- out is not handed out again before it is freed.
use m4_trio.Base.{
  ℕ, ◌*◌, ◌/◌, ◌≡◌, ◌≢◌, refl, ap, sym, ◌∙◌, ◌⊎◌, inl, inr, true, not, ◌||◌, List, [], ◌∷◌, All,
  ◌==◌, Bool-cases, arith,
}
use native.Mathlib.Decide.{ℕ_discrete}
use m4_trio.Pmm.{Pmm, page_size, invalid_frame, bitmap_test, alloc, free_addr, reserve}
use m4_trio.Pmm.Marks.{IsValid, Keeps}
use m4_trio.Pmm.Coverage.{mark_range_used-IsValid, mark_range_used-Keeps}
use m4_trio.Pmm.Alloc.{alloc-Allocated, alloc_exhausted}
use m4_trio.Pmm.Free.{free_addr-Freed, free_addr_only, free_addr_refused}

-- The calls that change an initialized allocator.
pub data Call : Type 0 where
  take : Call
  give : ℕ → Call
  keep : ℕ → ℕ → Call

pub step : Pmm → Call → Pmm
step p take = (alloc p).1
step p (give a) = (free_addr p a).1
step p (keep base length) = (reserve p base length).1

pub run : Pmm → List Call → Pmm
run p [] = p
run p (c ∷ cs) = run (step p c) cs

-- An initialized allocator that never hands out frame 0.
pub record Ready (p : Pmm) : Type 0 where
  pub valid : IsValid p
  pub ready : p.initialized ≡ true
  pub zero_used : bitmap_test p.bitmap 0 ≡ true

-- Frame `f` is not freed by the call.
abbrev pub Leaves : ℕ → Call → Type 0
Leaves f (give a) = a ≢ f * page_size
Leaves f _ = Unit

-- What every call keeps, of any frame that it does not free.
record After (p q : Pmm) : Type 0 where
  valid : IsValid q
  keeps : Keeps p q

take-After :
    {p : Pmm}
    → IsValid p
    → p.initialized ≡ true
    → After p (alloc p).1
      × ((j : ℕ) → bitmap_test p.bitmap j ≡ true → bitmap_test (alloc p).1.bitmap j ≡ true)
take-After {p} v ready = elim (ℕ_discrete p.free_frames 0) [
  | yes e ↦ rw (alloc_exhausted p e) (record { valid = v; keeps = ground arith }, λ j h. h)
  | no ne ↦
      let (f, m) = alloc-Allocated v ready ne in
      (record { valid = m.valid; keeps = m.keeps }, λ j h. ground (arith, m.bits j))
]

give-After :
    {p : Pmm} (a : ℕ)
    → IsValid p
    → p.initialized ≡ true
    → After p (free_addr p a).1
      × ((j : ℕ)
          → (a ≢ j * page_size) ⊎ (j ≡ 0)
          → bitmap_test p.bitmap j ≡ true
          → bitmap_test (free_addr p a).1.bitmap j ≡ true)
give-After {p} a v ready = elim (Bool-cases (free_addr p a).0) [
  | inr refused ↦
      rw (free_addr_refused p a refused) (record { valid = v; keeps = ground arith }, λ j ne h. h)
  | inl accepted ↦
      let c = free_addr_only p a accepted in
      let d = (free_addr-Freed a v ready c).1 in
      (
        record { valid = d.valid; keeps = d.keeps },
        λ j ne h.
            let other : a / page_size ≢ j = omega (arith, c.aligned, c.non_null) in
            ground (arith, d.bits j),
      )
]

keep-After :
    {p : Pmm} (base length : ℕ)
    → IsValid p
    → After p (reserve p base length).1
      × ((j : ℕ)
          → bitmap_test p.bitmap j ≡ true
          → bitmap_test (reserve p base length).1.bitmap j ≡ true)
unfolding reserve
keep-After {p} base length v = elim (Bool-cases (not p.initialized || length == 0)) [
  | inl refused ↦ simp refused (record { valid = v; keeps = ground arith }, λ j h. h)
  | inr accepted ↦
      let k = mark_range_used-Keeps base length v in
      simp accepted (record { valid = mark_range_used-IsValid base length v; keeps = k.0 }, k.1)
]

step-After : {p : Pmm} (c : Call) → IsValid p → p.initialized ≡ true → After p (step p c)
unfolding step
step-After take v ready = (take-After v ready).0
step-After (give a) v ready = (give-After a v ready).0
step-After (keep base length) v ready = (keep-After base length v).0

-- A frame in use stays in use over a call that does not free it.
step_holds :
    {p : Pmm} (c : Call) (f : ℕ)
    → Ready p
    → Leaves f c
    → bitmap_test p.bitmap f ≡ true
    → bitmap_test (step p c).bitmap f ≡ true
unfolding step
step_holds take f r l h = (take-After r.valid r.ready).1 f h
step_holds (give a) f r l h = (give-After a r.valid r.ready).1 f (inl l) h
step_holds (keep base length) f r l h = (keep-After base length r.valid).1 f h

-- Frame 0 is never freed.
step_zero : {p : Pmm} (c : Call) → Ready p → bitmap_test (step p c).bitmap 0 ≡ true
unfolding step
step_zero take r = (take-After r.valid r.ready).1 0 r.zero_used
step_zero (give a) r = (give-After a r.valid r.ready).1 0 (inr refl) r.zero_used
step_zero (keep base length) r = (keep-After base length r.valid).1 0 r.zero_used

pub step-Ready : {p : Pmm} (c : Call) → Ready p → Ready (step p c)
step-Ready c r =
    let a = step-After c r.valid r.ready in
    record { valid = a.valid; ready = a.keeps.initialized ∙ r.ready; zero_used = step_zero c r }

-- Any sequence of allocations, frees and reservations, with any arguments, keeps the invariant,
-- keeps the allocator initialized, and leaves frame 0 in use.
pub run-Ready : {p : Pmm} (cs : List Call) → Ready p → Ready (run p cs)
unfolding run
run-Ready [] r = r
run-Ready {p} (c ∷ cs) r = run-Ready {p = step p c} cs (step-Ready c r)

-- A frame in use stays in use over a sequence of calls that does not free it.
run_holds :
    {p : Pmm} (cs : List Call) (f : ℕ)
    → Ready p
    → All (Leaves f) cs
    → bitmap_test p.bitmap f ≡ true
    → bitmap_test (run p cs).bitmap f ≡ true
unfolding run
run_holds [] f r l h = h
run_holds {p} (c ∷ cs) f r l h =
    run_holds {p = step p c} cs f (step-Ready c r) l.1 (step_holds c f r l.0 h)

Leaves-All :
    (a f : ℕ) (cs : List Call) → a ≡ f * page_size → All (λ c. c ≢ give a) cs → All (Leaves f) cs
Leaves-All a f [] e l = tt
Leaves-All a f (take ∷ cs) e l = (tt, Leaves-All a f cs e l.1)
Leaves-All a f (keep base length ∷ cs) e l = (tt, Leaves-All a f cs e l.1)
Leaves-All a f (give b ∷ cs) e l = (λ g. l.0 (ap give (g ∙ sym e)), Leaves-All a f cs e l.1)

-- An allocation never returns the address of a frame in use.
alloc-ne : {q : Pmm} (f : ℕ) → Ready q → bitmap_test q.bitmap f ≡ true → (alloc q).0 ≢ f * page_size
alloc-ne {q} f r used same = elim (ℕ_discrete q.free_frames 0) [
  | yes e ↦ let h : invalid_frame ≡ f * page_size = rw (alloc_exhausted q e) at same in omega arith
  | no ne ↦
      let (g, n) = alloc-Allocated r.valid r.ready ne in
      let e : g ≡ f = omega (arith, n.address) in ground (arith, n.was_free, e)
]

-- In a ready state with a frame left, the address that an allocation returns is not returned by
-- a later allocation, whatever allocations, frees and reservations happen in between, as long as
-- that address is not freed.
pub no_double_allocation :
    {p : Pmm} (cs : List Call)
    → Ready p
    → p.free_frames ≢ 0
    → All (λ c. c ≢ give (alloc p).0) cs
    → (alloc (run (alloc p).1 cs)).0 ≢ (alloc p).0
unfolding step
no_double_allocation {p} cs r some_left l =
    let (f, m) = alloc-Allocated r.valid r.ready some_left in
    let next = step-Ready take r in
    let held = run_holds cs f next (Leaves-All _ f cs m.address l) (ground (arith, m.bits f)) in
    λ same. alloc-ne f (run-Ready cs next) held (same ∙ m.address)
