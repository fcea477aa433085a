-- ===== src/Pmm/Free.antt =====
-- `pmm_free_frame`: when it accepts an address, what it changes, and that it undoes an allocation.
use m4_trio.Base.{
  ℕ, suc, ◌/◌, ◌%◌, ◌<◌, ◌≡◌, ◌≢◌, refl, ap, ◌∙◌, Bool, true, false, ◌==◌, if◌then◌else◌,
  clear_count-update, arith,
}
use native.Mathlib.Decide.{ℕ_discrete}
use m4_trio.Pmm.{Pmm, page_size, bitmap_test, mark_frame_free, alloc, free_addr}
use m4_trio.Pmm.Marks.{
  IsValid, Keeps, mark_frame_free-Keeps, mark_frame_free_bits, mark_frame_free-IsValid,
}
use m4_trio.Pmm.Alloc.{Allocated, alloc-Allocated}

-- The addresses that may be freed: aligned, not 0, inside memory, and of a frame in use.
pub record CanFree (p : Pmm) (a : ℕ) : Type 0 where
  pub aligned : a % page_size ≡ 0
  pub non_null : a ≢ 0
  pub inside : a < p.max_phys
  pub in_use : bitmap_test p.bitmap (a / page_size) ≡ true

-- What a successful free of frame `f` does.
pub record Freed (p : Pmm) (f : ℕ) (q : Pmm) : Type 0 where
  pub valid : IsValid q
  pub keeps : Keeps p q
  pub bits : (j : ℕ) → bitmap_test q.bitmap j ≡ (if f == j then false else bitmap_test p.bitmap j)
  pub counted : q.free_frames ≡ suc p.free_frames

pub free_addr_accepted :
    (p : Pmm) (a : ℕ)
    → p.initialized ≡ true
    → CanFree p a
    → free_addr p a ≡ (true, mark_frame_free p (a / page_size))
unfolding free_addr
free_addr_accepted p a ready c = ground (arith, c.aligned, c.non_null, c.inside, c.in_use)

pub free_addr_only : (p : Pmm) (a : ℕ) → (free_addr p a).0 ≡ true → CanFree p a
unfolding free_addr
free_addr_only p a h = record {
  aligned = ground arith;
  non_null = ground arith;
  inside = ground arith;
  in_use = ground arith;
}

-- A refused address changes nothing.
pub free_addr_refused : (p : Pmm) (a : ℕ) → (free_addr p a).0 ≡ false → (free_addr p a).1 ≡ p
unfolding free_addr
free_addr_refused p a h = ground arith

module _ {p : Pmm} (v : IsValid p) (f : ℕ) (lt : f < p.frame_count)
    (used : bitmap_test p.bitmap f ≡ true) where
  mark_free_count : (mark_frame_free p f).free_frames ≡ suc p.free_frames
  mark_free_count = ground (
    arith,
    v.counted,
    (mark_frame_free-IsValid f v).counted,
    (mark_frame_free-Keeps p f).frame_count,
    used,
    mark_frame_free_bits v f lt f,
    clear_count-update (bitmap_test p.bitmap) (bitmap_test (mark_frame_free p f).bitmap) f
        p.frame_count (λ j ne. ground (arith, mark_frame_free_bits v f lt j)) lt,
  )

  mark_frame_free-Freed : Freed p f (mark_frame_free p f)
  mark_frame_free-Freed = record {
    valid = mark_frame_free-IsValid f v;
    keeps = mark_frame_free-Keeps p f;
    bits = mark_frame_free_bits v f lt;
    counted = mark_free_count;
  }

-- In a valid initialized state, an address that is page-aligned, not 0, below the end of memory
-- and of a frame in use is accepted by a free: that frame becomes free, no other bit changes,
-- the count of free frames rises by one, and the invariant is kept.
pub free_addr-Freed :
    {p : Pmm} (a : ℕ)
    → IsValid p
    → p.initialized ≡ true
    → CanFree p a
    → ((free_addr p a).0 ≡ true) × Freed p (a / page_size) (free_addr p a).1
free_addr-Freed {p} a v ready c =
    rw (free_addr_accepted p a ready c)
      (refl, mark_frame_free-Freed v (a / page_size) (omega (arith, c.inside, v.pages)) c.in_use)

-- In a valid initialized state, after an accepted free of an address a second free of it is
-- refused.
pub double_free :
    {p : Pmm} (a : ℕ)
    → IsValid p
    → p.initialized ≡ true
    → CanFree p a
    → (free_addr (free_addr p a).1 a).0 ≢ true
double_free {p} a v ready c again = ground (
  arith,
  (free_addr-Freed a v ready c).1.bits (a / page_size),
  (free_addr_only (free_addr p a).1 a again).in_use,
)

-- What an allocation followed by a free of its result leaves.
pub record Restored (p : Pmm) (out : Bool × Pmm) : Type 0 where
  pub accepted : out.0 ≡ true
  pub valid : IsValid out.1
  pub bits : (j : ℕ) → bitmap_test out.1.bitmap j ≡ bitmap_test p.bitmap j
  pub counted : out.1.free_frames ≡ p.free_frames

Allocated-CanFree :
    {p : Pmm} {f : ℕ} {out : ℕ × Pmm}
    → Allocated p f out
    → bitmap_test p.bitmap 0 ≡ true
    → CanFree out.1 out.0
Allocated-CanFree {p} {f} {out} m zero_used = record {
  aligned = omega (arith, m.address);
  non_null =
      λ e. let z : f ≡ 0 = omega (arith, m.address) in ground (arith, m.was_free, zero_used, z);
  inside = omega (arith, m.address, m.in_memory, m.valid.pages, m.keeps.frame_count);
  in_use =
      let e : out.0 / page_size ≡ f = omega (arith, m.address) in rw e (ground (arith, m.bits f));
}

-- In a valid initialized state with a frame left and frame 0 in use, freeing the address that an
-- allocation has just returned is accepted, and gives every bit and the count of free frames
-- back.
pub free-alloc :
    {p : Pmm}
    → IsValid p
    → p.initialized ≡ true
    → p.free_frames ≢ 0
    → bitmap_test p.bitmap 0 ≡ true
    → Restored p (free_addr (alloc p).1 (alloc p).0)
free-alloc {p} v ready some_left zero_used =
    let (f, m) = alloc-Allocated v ready some_left in
    let d =
      free_addr-Freed (alloc p).0 m.valid (m.keeps.initialized ∙ ready)
        (Allocated-CanFree m zero_used) in
    record {
      accepted = d.0;
      valid = d.1.valid;
      bits = λ j. back f m d.1 j;
      counted = omega (arith, d.1.counted, m.counted);
    }
  where
    back :
        (f : ℕ)
        → Allocated p f (alloc p)
        → Freed (alloc p).1 ((alloc p).0 / page_size) (free_addr (alloc p).1 (alloc p).0).1
        → (j : ℕ)
        → bitmap_test (free_addr (alloc p).1 (alloc p).0).1.bitmap j ≡ bitmap_test p.bitmap j
    back f m d j =
        let e : (alloc p).0 / page_size ≡ f = omega (arith, m.address) in
        let freed = rw e at (d.bits j) in
        elim (ℕ_discrete f j) [
          | yes same ↦ ground (arith, freed, m.was_free, ap (bitmap_test p.bitmap) same)
          | no other ↦ ground (arith, freed, m.bits j)
        ]
