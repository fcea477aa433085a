-- ===== src/Pmm/Coverage.antt =====
-- `mark_range_free` and `mark_range_used` against a description of which frames a range of bytes
-- covers whole and which it touches.
use m4_trio.Base.{
  ℕ, suc, ◌+◌, ◌-◌, ◌*◌, ◌/◌, ◌<◌, ◌≤◌, ◌≡◌, ◌≢◌, refl, inl, inr, Bool, true, false, ◌&&◌, ◌||◌,
  ltb, leb, ◌==◌, if◌then◌else◌, Bool-cases, le→ltb, ne→==, min, u64_mod, add64, arith,
}
use m4_trio.Pmm.{Pmm, page_size, bitmap_test, mark_range_free, mark_range_used, reserve_span}
use m4_trio.Pmm.Marks.{IsValid, Keeps}
use m4_trio.Pmm.Ranges.{Marked, Keeps-trans, between, free_span-Marked, reserve_span-Marked}

-- Every byte of frame `f` lies in the range.
abbrev pub covers : ℕ → ℕ → ℕ → Bool
covers base length f = leb base (f * page_size) && leb (suc f * page_size) (base + length)

-- Some byte of frame `f` lies in the range.
abbrev pub touches : ℕ → ℕ → ℕ → Bool
touches base length f =
    ltb 0 length && ltb base (suc f * page_size) && ltb (f * page_size) (base + length)

-- The range and the round-up of its end stay below 2 ^ 64.
abbrev pub Fits : ℕ → ℕ → Type 0
Fits base length = base + length + page_size ≤ u64_mod

-- The frames that `sel` selects have the bit `b`, the others are as before.
pub record Painted (b : Bool) (sel : ℕ → Bool) (p q : Pmm) : Type 0 where
  pub valid : IsValid q
  pub keeps : Keeps p q
  pub bits :
      (j : ℕ)
      → j < p.frame_count
      → bitmap_test q.bitmap j ≡ (if sel j then b else bitmap_test p.bitmap j)

Painted-Marked :
    (b : Bool) (a s : ℕ) (sel : ℕ → Bool) {p q : Pmm}
    → ((j : ℕ) → sel j ≡ between a s j)
    → Marked b a (min s p.frame_count) p q
    → Painted b sel p q
Painted-Marked b a s sel same m = record {
  valid = m.valid;
  keeps = m.keeps;
  bits = λ j lt. ground (arith, m.bits j, same j);
}

covers-between :
    (base length j : ℕ)
    → Fits base length
    → covers base length j
      ≡ between (add64 base (page_size - 1) / page_size) (add64 base length / page_size) j
covers-between base length j h = ground arith

touches-between :
    (base length j : ℕ)
    → Fits base length
    → length ≢ 0
    → touches base length j
      ≡ between (base / page_size) (add64 (add64 base length) (page_size - 1) / page_size) j
touches-between base length j h n = ground arith

Painted-nothing :
    (b : Bool) (sel : ℕ → Bool) {p : Pmm}
    → IsValid p
    → ((j : ℕ) → sel j ≡ false)
    → Painted b sel p p
Painted-nothing b sel v h = record {
  valid = v;
  keeps = ground arith;
  bits = λ j lt. ground (arith, h j);
}

-- In a valid state, for a range that stays a page below 2 ^ 64, `mark_range_free` clears the
-- bits of exactly the frames of memory that lie whole in the range, and keeps the invariant and
-- the size.
pub mark_range_free-Painted :
    {p : Pmm} (base length : ℕ)
    → IsValid p
    → Fits base length
    → Painted false (covers base length) p (mark_range_free p base length)
unfolding mark_range_free
mark_range_free-Painted {p} base length v h = elim (Bool-cases (length == 0)) [
  | inl e ↦ rw e (Painted-nothing false _ v (λ j. ground arith))
  | inr n ↦
      rw (n, le→ltb (u64_mod - 1 - base) length (omega arith))
        (Painted-Marked false _ _ (covers base length) (λ j. covers-between base length j h)
          (free_span-Marked _ _ v))
]

-- In a valid state, for a range that stays a page below 2 ^ 64, `mark_range_used` sets the bits
-- of exactly the frames of memory that the range touches, and keeps the invariant and the size.
pub mark_range_used-Painted :
    {p : Pmm} (base length : ℕ)
    → IsValid p
    → Fits base length
    → Painted true (touches base length) p (mark_range_used p base length)
unfolding mark_range_used
mark_range_used-Painted {p} base length v h = elim (Bool-cases (length == 0)) [
  | inl e ↦ rw e (Painted-nothing true _ v (λ j. ground arith))
  | inr n ↦
      rw (n, le→ltb (u64_mod - 1 - base) length (omega arith))
        (Painted-Marked true _ _ (touches base length)
          (λ j. touches-between base length j h (ground arith)) (reserve_span-Marked _ _ v))
]

-- Whatever the range, the invariant holds afterwards.
pub mark_range_free-IsValid :
    {p : Pmm} (base length : ℕ) → IsValid p → IsValid (mark_range_free p base length)
unfolding mark_range_free
mark_range_free-IsValid {p} base length v = elim (Bool-cases (length == 0)) [
  | inl e ↦ rw e v
  | inr n ↦ rw n (elim (Bool-cases (ltb (u64_mod - 1 - base) length)) [
    | inl over ↦ rw over v
    | inr fits ↦ rw fits (free_span-Marked _ _ v).valid
  ])
]

pub mark_range_used-IsValid :
    {p : Pmm} (base length : ℕ) → IsValid p → IsValid (mark_range_used p base length)
unfolding mark_range_used
mark_range_used-IsValid {p} base length v = elim (Bool-cases (length == 0)) [
  | inl e ↦ rw e v
  | inr n ↦ rw n (elim (Bool-cases (ltb (u64_mod - 1 - base) length)) [
    | inl over ↦ rw over v
    | inr fits ↦ rw fits (reserve_span-Marked _ _ v).valid
  ])
]

-- Whatever the range, reserving frees nothing and keeps the size.
pub mark_range_used-Keeps :
    {p : Pmm} (base length : ℕ)
    → IsValid p
    → Keeps p (mark_range_used p base length)
      × ((j : ℕ)
          → bitmap_test p.bitmap j ≡ true
          → bitmap_test (mark_range_used p base length).bitmap j ≡ true)
unfolding mark_range_used
mark_range_used-Keeps {p} base length v = elim (Bool-cases (length == 0)) [
  | inl e ↦ rw e (ground arith, λ j h. h)
  | inr n ↦ rw n (elim (Bool-cases (ltb (u64_mod - 1 - base) length)) [
    | inl over ↦ rw over (ground arith, λ j h. h)
    | inr fits ↦
        let m =
          reserve_span-Marked (base / page_size)
            (add64 (add64 base length) (page_size - 1) / page_size) v in
        rw fits (m.keeps, λ j h. ground (arith, m.bits j))
  ])
]

-- For a range whose end lies in the last page below 2 ^ 64 the rounding up wraps to 0, and
-- `mark_range_used` changes nothing: none of the frames that the range touches is reserved.
pub mark_range_used_top :
    (p : Pmm) (base length : ℕ)
    → base + length < u64_mod
    → u64_mod < base + length + page_size
    → mark_range_used p base length ≡ p
unfolding mark_range_used reserve_span
mark_range_used_top p base length fits top = ground arith

-- In a valid state, for a non-empty range that starts after the first byte of the last page
-- below 2 ^ 64 and does not overflow, the rounding up wraps to 0, and `mark_range_free` frees
-- every frame of memory.
pub mark_range_free_top :
    {p : Pmm} (base length : ℕ)
    → IsValid p
    → length ≢ 0
    → base + length < u64_mod
    → u64_mod < base + page_size
    → (j : ℕ) → j < p.frame_count
    → bitmap_test (mark_range_free p base length).bitmap j ≡ false
unfolding mark_range_free
mark_range_free_top {p} base length v ne fits top j lt =
    rw (ne→== length 0 ne, le→ltb (u64_mod - 1 - base) length (omega arith))
      (ground (
        arith,
        (free_span-Marked (add64 base (page_size - 1) / page_size) (add64 base length / page_size)
              v).bits
            j,
        v.pages,
        v.small,
      ))

-- Two paintings of one colour, one after the other.
pub Painted-trans :
    (b : Bool) (sel sel' : ℕ → Bool) {p q r : Pmm}
    → Painted b sel p q
    → Painted b sel' q r
    → Painted b (λ j. sel j || sel' j) p r
Painted-trans b sel sel' m n = record {
  valid = n.valid;
  keeps = Keeps-trans m.keeps n.keeps;
  bits = λ j lt. ground (arith, m.bits j lt, m.keeps.frame_count, n.bits j);
}

pub Painted-none : (b : Bool) {p : Pmm} → IsValid p → Painted b (λ _. false) p p
Painted-none b v = Painted-nothing b _ v (λ j. refl)
