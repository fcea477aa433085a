-- ===== src/Pmm/Marks.antt =====
-- The invariant of `struct pmm_state`, and what `mark_frame_free` and `mark_frame_used` do to it.
use m4_trio.Base.{
  ℕ, ◌+◌, ◌*◌, ◌<◌, ◌≤◌, ◌≡◌, ◌≢◌, true, false, length, ◌==◌, if◌then◌else◌, clear_count,
  clear_count-update, clear_count-le, weight, u64_mod, arith,
}
use native.Mathlib.Decide.{dec_lt}
use m4_trio.Pmm.{
  Pmm, page_size, bitmap_test, bitmap_set, bitmap_clear, mark_frame_free, mark_frame_used,
}
use m4_trio.Pmm.Bitmap.{
  AreBytes, bitmap_test-set, bitmap_test-clear, bitmap_set-AreBytes, bitmap_clear-AreBytes,
  length-bitmap_set, length-bitmap_clear,
}

-- The bitmap covers the frames, the counters count its bits, and below the hint all is used.
pub record IsValid (p : Pmm) : Type 0 where
  pub pages : p.max_phys ≡ p.frame_count * page_size
  pub small : p.max_phys < u64_mod
  pub room : p.frame_count ≤ 8 * length p.bitmap
  pub bytes : AreBytes p.bitmap
  pub counted : p.free_frames ≡ clear_count (bitmap_test p.bitmap) p.frame_count
  pub sums : p.free_frames + p.used_frames ≡ p.frame_count
  pub hint : p.next_hint ≤ p.frame_count
  pub below : (f : ℕ) → f < p.next_hint → bitmap_test p.bitmap f ≡ true

-- What no operation on an initialized allocator changes.
pub record Keeps (p q : Pmm) : Type 0 where
  pub max_phys : q.max_phys ≡ p.max_phys
  pub frame_count : q.frame_count ≡ p.frame_count
  pub initialized : q.initialized ≡ p.initialized

pub mark_frame_free-Keeps : (p : Pmm) (i : ℕ) → Keeps p (mark_frame_free p i)
unfolding mark_frame_free
mark_frame_free-Keeps p i = ground arith

pub mark_frame_used-Keeps : (p : Pmm) (i : ℕ) → Keeps p (mark_frame_used p i)
unfolding mark_frame_used
mark_frame_used-Keeps p i = ground arith

module _ {p : Pmm} (v : IsValid p) (i : ℕ) (lt : i < p.frame_count) where
  open v use {room, bytes, counted, below}

  in_bitmap : i < 8 * length p.bitmap
  in_bitmap = omega arith

  -- After `mark_frame_free` that bit is clear, and the others are as before.
  pub mark_frame_free_bits :
      (j : ℕ)
      → bitmap_test (mark_frame_free p i).bitmap j
        ≡ (if i == j then false else bitmap_test p.bitmap j)
  unfolding mark_frame_free
  mark_frame_free_bits j = ground (arith, bitmap_test-clear p.bitmap i j bytes in_bitmap)

  pub mark_frame_used_bits :
      (j : ℕ)
      → bitmap_test (mark_frame_used p i).bitmap j
        ≡ (if i == j then true else bitmap_test p.bitmap j)
  unfolding mark_frame_used
  mark_frame_used_bits j = ground (arith, bitmap_test-set p.bitmap i j bytes in_bitmap)

  others_free : (j : ℕ) → j ≢ i → bitmap_test (bitmap_clear p.bitmap i) j ≡ bitmap_test p.bitmap j
  others_free j ne = ground (arith, bitmap_test-clear p.bitmap i j bytes in_bitmap)

  others_used : (j : ℕ) → j ≢ i → bitmap_test (bitmap_set p.bitmap i) j ≡ bitmap_test p.bitmap j
  others_used j ne = ground (arith, bitmap_test-set p.bitmap i j bytes in_bitmap)

  count-clear :
      clear_count (bitmap_test (bitmap_clear p.bitmap i)) p.frame_count
        + weight (bitmap_test p.bitmap i)
      ≡ clear_count (bitmap_test p.bitmap) p.frame_count + 1
  count-clear = ground (
    arith,
    clear_count-update (bitmap_test p.bitmap) (bitmap_test (bitmap_clear p.bitmap i)) i
        p.frame_count others_free lt,
    bitmap_test-clear p.bitmap i i bytes in_bitmap,
  )

  count-set :
      clear_count (bitmap_test (bitmap_set p.bitmap i)) p.frame_count
        + weight (bitmap_test p.bitmap i)
      ≡ clear_count (bitmap_test p.bitmap) p.frame_count
  count-set = ground (
    arith,
    clear_count-update (bitmap_test p.bitmap) (bitmap_test (bitmap_set p.bitmap i)) i p.frame_count
        others_used lt,
    bitmap_test-set p.bitmap i i bytes in_bitmap,
  )

  free-IsValid : IsValid (mark_frame_free p i)
  unfolding mark_frame_free
  free-IsValid = record {
    pages = ground (arith, v.pages);
    small = ground (arith, v.small);
    room = ground (arith, v.room, length-bitmap_clear p.bitmap i);
    bytes = ground (arith, bitmap_clear-AreBytes p.bitmap i bytes);
    counted = ground (arith, v.pages, v.small, v.sums, counted, count-clear);
    sums = ground (
      arith,
      v.pages,
      v.small,
      v.sums,
      counted,
      count-clear,
      clear_count-le (bitmap_test (bitmap_clear p.bitmap i)) p.frame_count,
    );
    hint = ground (arith, v.hint);
    below = λ f h. ground (arith, below f, bitmap_test-clear p.bitmap i f bytes in_bitmap);
  }

  used-IsValid : IsValid (mark_frame_used p i)
  unfolding mark_frame_used
  used-IsValid = record {
    pages = ground (arith, v.pages);
    small = ground (arith, v.small);
    room = ground (arith, v.room, length-bitmap_set p.bitmap i);
    bytes = ground (arith, bitmap_set-AreBytes p.bitmap i bytes);
    counted = ground (arith, v.pages, v.small, v.sums, counted, count-set);
    sums = ground (arith, v.pages, v.small, v.sums, counted, count-set);
    hint = ground (arith, v.hint);
    below = λ f h. ground (arith, below f, bitmap_test-set p.bitmap i f bytes in_bitmap);
  }

mark_frame_free_out : (p : Pmm) (i : ℕ) → p.frame_count ≤ i → mark_frame_free p i ≡ p
unfolding mark_frame_free
mark_frame_free_out p i h = ground arith

mark_frame_used_out : (p : Pmm) (i : ℕ) → p.frame_count ≤ i → mark_frame_used p i ≡ p
unfolding mark_frame_used
mark_frame_used_out p i h = ground arith

-- Both marks keep the invariant, at a frame in range or not.
pub mark_frame_free-IsValid : {p : Pmm} (i : ℕ) → IsValid p → IsValid (mark_frame_free p i)
mark_frame_free-IsValid {p} i v = elim (dec_lt i p.frame_count) [
  | yes lt ↦ free-IsValid v i lt
  | no out ↦ rw (mark_frame_free_out p i (omega arith)) v
]

pub mark_frame_used-IsValid : {p : Pmm} (i : ℕ) → IsValid p → IsValid (mark_frame_used p i)
mark_frame_used-IsValid {p} i v = elim (dec_lt i p.frame_count) [
  | yes lt ↦ used-IsValid v i lt
  | no out ↦ rw (mark_frame_used_out p i (omega arith)) v
]
