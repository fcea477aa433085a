-- ===== src/Pmm/Alloc.antt =====
-- `pmm_alloc_frame`: the search, and what it returns in a valid state.
use m4_trio.Base.{
  ℕ, zero, suc, ◌+◌, ◌-◌, ◌*◌, ◌<◌, ◌≤◌, ◌≡◌, ◌≢◌, subst, inl, inr, true, false, none, some, List,
  ◌==◌, if◌then◌else◌, Bool-cases, Option-cases, clear_count-full, clear_count-update, arith,
}
use native.Mathlib.Decide.{ℕ_discrete, dec_lt}
use m4_trio.Pmm.{
  Pmm, page_size, invalid_frame, bitmap_test, mark_frame_used, find_free, take_frame, alloc,
}
use m4_trio.Pmm.Marks.{
  IsValid, Keeps, mark_frame_used-Keeps, mark_frame_used_bits, mark_frame_used-IsValid,
}

-- Frame `f` is the first clear one of the `n` from `i` on.
record First (bm : List ℕ) (n i f : ℕ) : Type 0 where
  from : i ≤ f
  upto : f < i + n
  clear : bitmap_test bm f ≡ false
  before : (g : ℕ) → i ≤ g → g < f → bitmap_test bm g ≡ true

-- A bit is set at `i` and from `i + 1` on.
set_from :
    (bm : List ℕ) (i g : ℕ)
    → bitmap_test bm i ≡ true
    → i ≤ g
    → (i + 1 ≤ g → bitmap_test bm g ≡ true)
    → bitmap_test bm g ≡ true
set_from bm i g used lo later = elim (ℕ_discrete i g) [
  | yes e ↦ subst (λ k. bitmap_test bm k ≡ true) e used
  | no ne ↦ later (omega arith)
]

find_free-First : (bm : List ℕ) (n i f : ℕ) → find_free bm n i ≡ some f → First bm n i f
unfolding find_free
find_free-First bm zero i f h = cc
find_free-First bm (suc n) i f h = elim (Bool-cases (bitmap_test bm i)) [
  | inl used ↦
      let m = find_free-First bm n (i + 1) f (rw used at h) in
      record {
        from = omega (arith, m.from);
        upto = omega (arith, m.upto);
        clear = m.clear;
        before = λ g lo hi. set_from bm i g used lo (λ l. m.before g l hi);
      }
  | inr clear ↦
      let found : some i ≡ some f = rw clear at h in
      let e : i ≡ f = cc in
      record {
        from = omega arith;
        upto = omega arith;
        clear = subst (λ k. bitmap_test bm k ≡ false) e clear;
        before = λ g lo hi. absurd (omega arith);
      }
]

find_free-none :
    (bm : List ℕ) (n i : ℕ)
    → find_free bm n i ≡ none
    → (g : ℕ) → i ≤ g
    → g < i + n
    → bitmap_test bm g ≡ true
unfolding find_free
find_free-none bm zero i h g lo hi = absurd (omega arith)
find_free-none bm (suc n) i h g lo hi = elim (Bool-cases (bitmap_test bm i)) [
  | inl used ↦
      set_from bm i g used lo (λ l. find_free-none bm n (i + 1) (rw used at h) g l (omega arith))
  | inr clear ↦ let e : some i ≡ none = rw clear at h in cc
]

-- What a successful allocation of frame `f` does.
pub record Allocated (p : Pmm) (f : ℕ) (out : ℕ × Pmm) : Type 0 where
  pub in_memory : f < p.frame_count
  pub was_free : bitmap_test p.bitmap f ≡ false
  pub lowest : (g : ℕ) → g < f → bitmap_test p.bitmap g ≡ true
  pub address : out.0 ≡ f * page_size
  pub valid : IsValid out.1
  pub keeps : Keeps p out.1
  pub bits :
      (j : ℕ) → bitmap_test out.1.bitmap j ≡ (if f == j then true else bitmap_test p.bitmap j)
  pub counted : suc out.1.free_frames ≡ p.free_frames

module _ {p : Pmm} (v : IsValid p) (f : ℕ) (lt : f < p.frame_count)
    (free : bitmap_test p.bitmap f ≡ false)
    (lowest : (g : ℕ) → g < f → bitmap_test p.bitmap g ≡ true) where
  marked : IsValid (mark_frame_used p f)
  marked = mark_frame_used-IsValid f v

  marked_bits :
      (j : ℕ)
      → bitmap_test (mark_frame_used p f).bitmap j
        ≡ (if f == j then true else bitmap_test p.bitmap j)
  marked_bits = mark_frame_used_bits v f lt

  marked_count : suc (mark_frame_used p f).free_frames ≡ p.free_frames
  marked_count = ground (
    arith,
    v.counted,
    marked.counted,
    (mark_frame_used-Keeps p f).frame_count,
    free,
    marked_bits f,
    clear_count-update (bitmap_test p.bitmap) (bitmap_test (mark_frame_used p f).bitmap) f
        p.frame_count (λ j ne. ground (arith, marked_bits j)) lt,
  )

  take_frame-Allocated : Allocated p f (take_frame p f)
  unfolding take_frame
  take_frame-Allocated = record {
    in_memory = lt;
    was_free = free;
    lowest = lowest;
    address = omega (arith, v.pages, v.small);
    valid = record {
      pages = marked.pages;
      small = marked.small;
      room = marked.room;
      bytes = marked.bytes;
      counted = marked.counted;
      sums = marked.sums;
      hint = omega (arith, v.pages, v.small, (mark_frame_used-Keeps p f).frame_count);
      below = λ g h. ground (arith, v.pages, v.small, marked_bits g, lowest g);
    };
    keeps = record {
      max_phys = (mark_frame_used-Keeps p f).max_phys;
      frame_count = (mark_frame_used-Keeps p f).frame_count;
      initialized = (mark_frame_used-Keeps p f).initialized;
    };
    bits = marked_bits;
    counted = marked_count;
  }

-- With every bit set the counter is 0.
all_used :
    {p : Pmm}
    → IsValid p
    → ((g : ℕ) → g < p.frame_count → bitmap_test p.bitmap g ≡ true)
    → p.free_frames ≡ 0
all_used {p} v h = omega (arith, v.counted, clear_count-full (bitmap_test p.bitmap) p.frame_count h)

alloc_found :
    (p : Pmm) (f : ℕ)
    → p.initialized ≡ true
    → p.free_frames ≢ 0
    → find_free p.bitmap (p.frame_count - p.next_hint) p.next_hint ≡ some f
    → alloc p ≡ take_frame p f
unfolding alloc
alloc_found p f ready some_left e = ground arith

-- In a valid initialized state with a frame left, an allocation succeeds: it returns the address
-- of the lowest free frame, sets that one bit and no other, lowers the count of free frames by
-- one, and keeps the invariant. So the search from the hint always succeeds, and the second loop
-- is never needed.
pub alloc-Allocated :
    {p : Pmm}
    → IsValid p
    → p.initialized ≡ true
    → p.free_frames ≢ 0
    → (f : ℕ) × Allocated p f (alloc p)
alloc-Allocated {p} v ready some_left =
    elim (Option-cases (find_free p.bitmap (p.frame_count - p.next_hint) p.next_hint)) [
      | inl missed ↦ absurd (
          some_left (
            all_used v λ g lt. elim (dec_lt g p.next_hint) [
              | yes low ↦ v.below g low
              | no high ↦ find_free-none _ _ _ missed g (omega arith) (omega (arith, v.hint))
            ]))
      | inr (f, e) ↦
          let m = find_free-First _ _ _ f e in
          (
            f,
            rw (alloc_found p f ready some_left e) (
                take_frame-Allocated v f (omega (arith, m.upto, v.hint)) m.clear (λ g lt.
                  elim (dec_lt g p.next_hint) [
                    | yes low ↦ v.below g low
                    | no high ↦ m.before g (omega arith) lt
                  ])),
          )
    ]

-- With none left it fails and changes nothing.
pub alloc_exhausted : (p : Pmm) → p.free_frames ≡ 0 → alloc p ≡ (invalid_frame, p)
unfolding alloc
alloc_exhausted p e = ground arith
