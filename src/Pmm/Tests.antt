-- ===== src/Pmm/Tests.antt =====
-- Runs of the frame allocator on a memory of sixteen frames, and its theorems at that memory.
use m4_trio.Base.{ℕ, ◌+◌, ◌*◌, ◌≡◌, ◌≢◌, refl, true, false, some, List, [], ◌∷◌, All, arith}
use m4_trio.Pmm.{
  Pmm, Region, bitmap_test, init_from_map, build, alloc, free_addr, mark_range_used,
  mark_range_free, reserve_unusable, reserve_span, free_usable, free_span, fresh, free_pages,
  mark_frame_free, fill_ones, bitmap_clear, reserve_pages, reserve_frame, mark_frame_used,
  bitmap_set, find_free, take_frame,
}
use m4_trio.Pmm.Fresh.{Accepted}
use m4_trio.Pmm.Coverage.{
  covers, touches, Painted, mark_range_free-Painted, mark_range_used-Painted, mark_range_used_top,
  mark_range_free_top,
}
use m4_trio.Pmm.Init.{Built, build-Built, init_from_map-Built}
use m4_trio.Pmm.Alloc.{Allocated, alloc-Allocated}
use m4_trio.Pmm.Free.{CanFree, Freed, Restored, free_addr-Freed, free-alloc}
use m4_trio.Pmm.Ownership.{Ready, take, give, keep, run, run-Ready, no_double_allocation}

abbrev page : ℕ → ℕ
page n = n * 4096

-- Frames 0 to 15, with frame 4 touched by a reserved region, and a half frame at the end.
abbrev regions : List Region
regions =
    record { base = 0; length = page 15 + 100; type = 1 }
    ∷ record { base = page 4 + 8; length = 16; type = 2 }
    ∷ []

abbrev storage : List ℕ
storage = 7 ∷ 0 ∷ 9 ∷ []

accepted : Accepted storage (page 16)
accepted = omega arith

abbrev booted : Pmm
booted = build regions storage (page 16)

booted-Built : Built regions (page 16) booted
booted-Built = build-Built regions accepted (omega arith)

-- The frames that are left, and the two that were reserved.
frames_after_boot :
    (booted.bitmap ≡ 0x11 ∷ 0x80 ∷ 9 ∷ [])
    × (booted.free_frames ≡ 13)
    × (booted.reserved_frames ≡ 2)
unfolding build reserve_unusable mark_range_used reserve_span free_usable mark_range_free free_span
    fresh free_pages mark_frame_free bitmap_test fill_ones bitmap_clear reserve_pages reserve_frame
    mark_frame_used bitmap_set
frames_after_boot = (refl, refl, refl)

alloc-booted : (alloc booted).0 ≡ page 1
unfolding alloc find_free take_frame build reserve_unusable mark_range_used reserve_span free_usable
    mark_range_free free_span fresh free_pages mark_frame_free bitmap_test fill_ones bitmap_clear
    reserve_pages reserve_frame mark_frame_used bitmap_set
alloc-booted = refl

booted-free : booted.free_frames ≢ 0
booted-free = omega (arith, frames_after_boot.1)

booted-frames : booted.frame_count ≡ 16
booted-frames = omega (arith, booted-Built.size, booted-Built.valid.pages)

booted-Ready : Ready booted
unfolding bitmap_test
booted-Ready = record {
  valid = booted-Built.valid;
  ready = booted-Built.ready;
  zero_used = rw frames_after_boot.0;
}

frame_4_in_use : CanFree booted (page 4)
unfolding bitmap_test
frame_4_in_use = record {
  aligned = refl;
  non_null = omega arith;
  inside = omega (arith, booted-Built.size);
  in_use = rw frames_after_boot.0;
}

blank : Pmm
blank = record booted { initialized = false }

init_from_map-Built_example :
    (q : Pmm) × (init_from_map (some blank) (some regions) (some storage) 2 (page 16)
      ≡ (true, some q))
    × Built regions (page 16) q
init_from_map-Built_example =
    init_from_map-Built blank (record { base = 0; length = page 15 + 100; type = 1 })
      (record { base = page 4 + 8; length = 16; type = 2 } ∷ []) 2 accepted (omega arith)
      (omega arith) (omega arith)

alloc-Allocated_example : (f : ℕ) × Allocated booted f (alloc booted)
alloc-Allocated_example = alloc-Allocated booted-Built.valid booted-Built.ready booted-free

no_double_allocation_example :
    (alloc (run (alloc booted).1 (take ∷ give (page 4) ∷ keep 0 (page 3) ∷ []))).0
    ≢ (alloc booted).0
no_double_allocation_example =
    no_double_allocation (take ∷ give (page 4) ∷ keep 0 (page 3) ∷ []) booted-Ready booted-free
      apart
  where
    apart : All (λ c. c ≢ give (alloc booted).0) (take ∷ give (page 4) ∷ keep 0 (page 3) ∷ [])
    apart = rw alloc-booted (ground arith)

run-Ready_example : Ready (run booted (take ∷ give (page 1) ∷ take ∷ keep 8 9 ∷ []))
run-Ready_example = run-Ready (take ∷ give (page 1) ∷ take ∷ keep 8 9 ∷ []) booted-Ready

free-alloc_example : Restored booted (free_addr (alloc booted).1 (alloc booted).0)
free-alloc_example =
    free-alloc booted-Built.valid booted-Built.ready booted-free booted-Ready.zero_used

free_addr-Freed_example :
    ((free_addr booted (page 4)).0 ≡ true) × Freed booted 4 (free_addr booted (page 4)).1
free_addr-Freed_example =
    free_addr-Freed (page 4) booted-Built.valid booted-Built.ready frame_4_in_use

mark_range_free-Painted_example :
    Painted false
      (covers (page 3 + 8) (page 3))
      booted
      (mark_range_free booted (page 3 + 8) (page 3))
mark_range_free-Painted_example =
    mark_range_free-Painted (page 3 + 8) (page 3) booted-Built.valid (omega arith)

mark_range_used-Painted_example :
    Painted true
      (touches (page 3 + 8) (page 3))
      booted
      (mark_range_used booted (page 3 + 8) (page 3))
mark_range_used-Painted_example =
    mark_range_used-Painted (page 3 + 8) (page 3) booted-Built.valid (omega arith)

-- All of memory is asked for, and none of it is taken.
mark_range_used_top_example : mark_range_used booted 0 0xffff_ffff_ffff_ffff ≡ booted
mark_range_used_top_example =
    mark_range_used_top booted 0 0xffff_ffff_ffff_ffff (omega arith) (omega arith)

-- A usable region of sixteen bytes at the top frees frame 9 too.
mark_range_free_top_example :
    bitmap_test (mark_range_free booted 0xffff_ffff_ffff_ff00 16).bitmap 9 ≡ false
mark_range_free_top_example =
    mark_range_free_top 0xffff_ffff_ffff_ff00 16 booted-Built.valid (omega arith) (omega arith)
      (omega arith) 9 (omega (arith, booted-frames))
