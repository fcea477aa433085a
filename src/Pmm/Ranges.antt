-- ===== src/Pmm/Ranges.antt =====
-- The loops of `mark_range_free` and `mark_range_used`: which bits a range changes.
use m4_trio.Base.{
  ℕ, zero, suc, ◌+◌, ◌*◌, ◌/◌, ◌<◌, ◌≤◌, ◌≡◌, sym, subst, inl, inr, Bool, true, false, ◌&&◌, ltb,
  leb, ◌==◌, if◌then◌else◌, Bool-cases, lt→ltb, le→ltb, min, add64, arith,
}
use native.Mathlib.Decide.{dec_lt}
use m4_trio.Pmm.{
  Pmm, page_size, bitmap_test, free_pages, reserve_frame, reserve_pages, free_span, reserve_span,
}
use m4_trio.Pmm.Marks.{
  IsValid, Keeps, mark_frame_free-Keeps, mark_frame_used-Keeps, mark_frame_free_bits,
  mark_frame_used_bits, mark_frame_free-IsValid, mark_frame_used-IsValid,
}

-- Frame `j` is one of those from `a` up to and without `s`.
abbrev pub between : ℕ → ℕ → ℕ → Bool
between a s j = leb a j && ltb j s

pub Keeps-trans : {p q r : Pmm} → Keeps p q → Keeps q r → Keeps p r
Keeps-trans k l = ground arith

-- What a loop that gives the frames from `a` up to `s` the bit `b` has done.
pub record Marked (b : Bool) (a s : ℕ) (p q : Pmm) : Type 0 where
  pub valid : IsValid q
  pub keeps : Keeps p q
  pub bits :
      (j : ℕ) → bitmap_test q.bitmap j ≡ (if between a s j then b else bitmap_test p.bitmap j)

Marked-none : (b : Bool) (a s : ℕ) {p : Pmm} → IsValid p → s ≤ a → Marked b a s p p
Marked-none b a s v h = record { valid = v; keeps = ground arith; bits = λ j. ground arith }

-- One frame, then the rest.
Marked-cons :
    (b : Bool) (a s : ℕ) {p q r : Pmm}
    → a < s
    → Keeps p q
    → ((j : ℕ) → bitmap_test q.bitmap j ≡ (if a == j then b else bitmap_test p.bitmap j))
    → Marked b (suc a) s q r
    → Marked b a s p r
Marked-cons b a s lt k h m = record {
  valid = m.valid;
  keeps = Keeps-trans k m.keeps;
  bits = λ j. ground (arith, h j, m.bits j);
}

reserve_frame-IsValid : {p : Pmm} (i : ℕ) → IsValid p → IsValid (reserve_frame p i)
unfolding reserve_frame
reserve_frame-IsValid {p} i v =
    let w = mark_frame_used-IsValid i v in
    record {
      pages = ground (arith, w.pages);
      small = ground (arith, w.small);
      room = ground (arith, w.room);
      bytes = ground (arith, w.bytes);
      counted = ground (arith, w.counted);
      sums = ground (arith, w.sums);
      hint = ground (arith, w.hint);
      below = λ f h. ground (arith, w.below f);
    }

reserve_frame-Keeps : (p : Pmm) (i : ℕ) → Keeps p (reserve_frame p i)
unfolding reserve_frame
reserve_frame-Keeps p i = ground (arith, mark_frame_used-Keeps p i)

reserve_frame_bits :
    {p : Pmm} (v : IsValid p) (i : ℕ)
    → i < p.frame_count
    → (j : ℕ)
    → bitmap_test (reserve_frame p i).bitmap j ≡ (if i == j then true else bitmap_test p.bitmap j)
unfolding reserve_frame
reserve_frame_bits v i lt j = ground (arith, mark_frame_used_bits v i lt j)

-- The address of a page, its frame number and the next address, as the loops compute them.
record Page (a s : ℕ) : Type 0 where
  again : ltb (a * page_size) (s * page_size) ≡ true
  frame : a * page_size / page_size ≡ a
  after : add64 (a * page_size) page_size ≡ suc a * page_size

page : {p : Pmm} (a s : ℕ) → IsValid p → s ≤ p.frame_count → a < s → Page a s
page {p} a s v h lt = record {
  again = lt→ltb _ _ (omega arith);
  frame = omega arith;
  after = omega (arith, v.pages, v.small);
}

-- With fuel for each page the loop reaches its end, and frees exactly its frames.
free_pages-Marked :
    (fuel a s : ℕ) {p : Pmm}
    → IsValid p
    → s ≤ p.frame_count
    → s ≤ a + fuel
    → Marked false a s p (free_pages fuel (a * page_size) (s * page_size) p)
unfolding free_pages
free_pages-Marked zero a s v h enough = Marked-none false a s v (omega arith)
free_pages-Marked (suc fuel) a s {p} v h enough = elim (dec_lt a s) [
  | no out ↦
      rw (le→ltb (a * page_size) (s * page_size) (omega arith))
        (Marked-none false a s v (omega arith))
  | yes lt ↦
      let g = page a s v h lt in
      rw (g.again, g.after, g.frame)
        (Marked-cons false a s lt (mark_frame_free-Keeps p a)
          (mark_frame_free_bits v a (omega arith))
          (free_pages-Marked fuel (suc a) s (mark_frame_free-IsValid a v)
            (omega (arith, (mark_frame_free-Keeps p a).frame_count)) (omega arith)))
]

reserve_pages-Marked :
    (fuel a s : ℕ) {p : Pmm}
    → IsValid p
    → s ≤ p.frame_count
    → s ≤ a + fuel
    → Marked true a s p (reserve_pages fuel (a * page_size) (s * page_size) p)
unfolding reserve_pages
reserve_pages-Marked zero a s v h enough = Marked-none true a s v (omega arith)
reserve_pages-Marked (suc fuel) a s {p} v h enough = elim (dec_lt a s) [
  | no out ↦
      rw (le→ltb (a * page_size) (s * page_size) (omega arith))
        (Marked-none true a s v (omega arith))
  | yes lt ↦
      let g = page a s v h lt in
      rw (g.again, g.after, g.frame)
        (Marked-cons true a s lt (reserve_frame-Keeps p a) (reserve_frame_bits v a (omega arith)) (
          reserve_pages-Marked fuel (suc a) s (reserve_frame-IsValid a v)
            (omega (arith, (reserve_frame-Keeps p a).frame_count)) (omega arith)))
]

-- The loops with the fuel that the code's callers give, up to the end of memory.
free_pages-all :
    (a : ℕ) {p : Pmm}
    → IsValid p
    → Marked false a p.frame_count p (free_pages p.frame_count (a * page_size) p.max_phys p)
free_pages-all a {p} v =
    subst (λ m. Marked false a p.frame_count p (free_pages p.frame_count (a * page_size) m p))
      (sym v.pages) (free_pages-Marked p.frame_count a p.frame_count v (omega arith) (omega arith))

reserve_pages-all :
    (a : ℕ) {p : Pmm}
    → IsValid p
    → Marked true a p.frame_count p (reserve_pages p.frame_count (a * page_size) p.max_phys p)
reserve_pages-all a {p} v =
    subst (λ m. Marked true a p.frame_count p (reserve_pages p.frame_count (a * page_size) m p))
      (sym v.pages)
      (reserve_pages-Marked p.frame_count a p.frame_count v (omega arith) (omega arith))

abbrev ignoring : Pmm → ℕ → Pmm
ignoring p n = record p { ignored_frames = n }

ignoring-IsValid : {p : Pmm} (n : ℕ) → IsValid p → IsValid (ignoring p n)
ignoring-IsValid n v = record {
  pages = v.pages;
  small = v.small;
  room = v.room;
  bytes = v.bytes;
  counted = v.counted;
  sums = v.sums;
  hint = v.hint;
  below = v.below;
}

Marked-ignoring :
    (b : Bool) (a s n : ℕ) {p q : Pmm} → Marked b a s (ignoring p n) q → Marked b a s p q
Marked-ignoring b a s n m = record {
  valid = m.valid;
  keeps = record {
    max_phys = m.keeps.max_phys;
    frame_count = m.keeps.frame_count;
    initialized = m.keeps.initialized;
  };
  bits = m.bits;
}

-- The end of the range is clipped to the frames that there are.
pub free_span-Marked :
    (a s : ℕ) {p : Pmm}
    → IsValid p
    → Marked false a (min s p.frame_count) p (free_span p (a * page_size) (s * page_size))
unfolding free_span
free_span-Marked a s {p} v = elim (Bool-cases (leb (s * page_size) (a * page_size))) [
  | inl none_left ↦ rw none_left (Marked-none false a _ v (ground arith))
  | inr lt ↦ rw lt (elim (Bool-cases (leb p.max_phys (a * page_size))) [
    | inl beyond ↦ rw beyond (Marked-none false a _ v (ground (arith, v.pages)))
    | inr inside ↦ rw inside (elim (Bool-cases (ltb p.max_phys (s * page_size))) [
      | inl long ↦
          rw (long, let e : min s p.frame_count ≡ p.frame_count = ground (arith, v.pages) in e)
            (Marked-ignoring false a p.frame_count _ (free_pages-all a (ignoring-IsValid _ v)))
      | inr short ↦
          rw (short, let e : min s p.frame_count ≡ s = ground (arith, v.pages) in e)
            (free_pages-Marked p.frame_count a s v (ground (arith, v.pages))
              (ground (arith, v.pages)))
    ])
  ])
]

pub reserve_span-Marked :
    (a s : ℕ) {p : Pmm}
    → IsValid p
    → Marked true a (min s p.frame_count) p (reserve_span p (a * page_size) (s * page_size))
unfolding reserve_span
reserve_span-Marked a s {p} v = elim (Bool-cases (leb (s * page_size) (a * page_size))) [
  | inl none_left ↦ rw none_left (Marked-none true a _ v (ground arith))
  | inr lt ↦ rw lt (elim (Bool-cases (leb p.max_phys (a * page_size))) [
    | inl beyond ↦ rw beyond (Marked-none true a _ v (ground (arith, v.pages)))
    | inr inside ↦ rw inside (elim (Bool-cases (ltb p.max_phys (s * page_size))) [
      | inl long ↦
          rw (long, let e : min s p.frame_count ≡ p.frame_count = ground (arith, v.pages) in e)
            (reserve_pages-all a v)
      | inr short ↦
          rw (short, let e : min s p.frame_count ≡ s = ground (arith, v.pages) in e)
            (reserve_pages-Marked p.frame_count a s v (ground (arith, v.pages))
              (ground (arith, v.pages)))
    ])
  ])
]
