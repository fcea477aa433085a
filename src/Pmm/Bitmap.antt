-- ===== src/Pmm/Bitmap.antt =====
-- The bitmap of src/pmm.c as an array of bits: what a set and a clear change.
use m4_trio.Base.{
  ℕ, ◌*◌, ◌/◌, ◌%◌, ◌^◌, ◌<◌, ◌≡◌, ap, Bool, true, false, List, length, get_or, set, All,
  length-set, get_or-set_self, get_or-set_ne, All-set, All-get_or, ◌==◌, if◌then◌else◌, ==_iff,
  ne→==, passes_below_at, byte_test, byte_set, byte_clear, byte_test-set, byte_test-clear,
  small_masks, ones, arith,
}
use m4_trio.Pmm.{bit_mask, bitmap_set, bitmap_clear, bitmap_test}
use native.Mathlib.Decide.{ℕ_discrete}

-- Every byte of the memory is below 256.
abbrev pub AreBytes : List ℕ → Type 0
AreBytes = All (λ b. b < 256)

bit_mask-pow : (i : ℕ) → bit_mask i ≡ 2 ^ (i % 8)
bit_mask-pow i =
    (==_iff _ _).0 (passes_below_at 8 (λ k. 2 ^ k % 256 == 2 ^ k) small_masks (i % 8) (omega arith))

bitmap_test-byte :
    (bm : List ℕ) (j : ℕ) → bitmap_test bm j ≡ byte_test (get_or bm (j / 8) 0) (j % 8)
unfolding bitmap_test byte_test
bitmap_test-byte bm j = rw (bit_mask-pow j)

bitmap_set-byte :
    (bm : List ℕ) (i : ℕ)
    → bitmap_set bm i ≡ set bm (i / 8) (byte_set (get_or bm (i / 8) 0) (i % 8))
unfolding bitmap_set byte_set
bitmap_set-byte bm i = rw (bit_mask-pow i)

bitmap_clear-byte :
    (bm : List ℕ) (i : ℕ)
    → bitmap_clear bm i ≡ set bm (i / 8) (byte_clear (get_or bm (i / 8) 0) (i % 8))
unfolding bitmap_clear byte_clear
bitmap_clear-byte bm i = rw (bit_mask-pow i)

AreBytes-get_or : (bm : List ℕ) (i : ℕ) → AreBytes bm → get_or bm i 0 < 256
AreBytes-get_or bm i h = All-get_or (λ b. b < 256) bm i 0 h (omega arith)

-- A write of byte `i / 8` whose effect on the bits of that byte is known.
bitmap_test-write :
    (bm : List ℕ) (i j v : ℕ) (b : Bool)
    → i < 8 * length bm
    → (byte_test v (j % 8)
        ≡ (if i % 8 == j % 8 then b else byte_test (get_or bm (i / 8) 0) (j % 8)))
    → bitmap_test (set bm (i / 8) v) j ≡ (if i == j then b else bitmap_test bm j)
bitmap_test-write bm i j v b lt h = elim (ℕ_discrete (i / 8) (j / 8)) [
  | yes e ↦
      rw
        (
          bitmap_test-byte (set bm (i / 8) v) j,
          bitmap_test-byte bm j,
          ← e,
          get_or-set_self bm (i / 8) v 0 (omega arith),
          h,
        )
        (ground arith)
  | no n ↦ rw (
    bitmap_test-byte (set bm (i / 8) v) j,
    bitmap_test-byte bm j,
    get_or-set_ne bm (i / 8) (j / 8) v 0 n,
    ne→== i j (λ e. n (ap (λ (k : ℕ). k / 8) e)),
  )
]

-- A set bit reads as set, and every other bit as before.
pub bitmap_test-set :
    (bm : List ℕ) (i j : ℕ)
    → AreBytes bm
    → i < 8 * length bm
    → bitmap_test (bitmap_set bm i) j ≡ (if i == j then true else bitmap_test bm j)
bitmap_test-set bm i j h lt = rw (bitmap_set-byte bm i) (
    bitmap_test-write bm i j _ true lt
      (byte_test-set _ (i % 8) (j % 8) (AreBytes-get_or bm (i / 8) h) (omega arith) (omega arith)))

-- A cleared bit reads as clear, and every other bit as before.
pub bitmap_test-clear :
    (bm : List ℕ) (i j : ℕ)
    → AreBytes bm
    → i < 8 * length bm
    → bitmap_test (bitmap_clear bm i) j ≡ (if i == j then false else bitmap_test bm j)
bitmap_test-clear bm i j h lt = rw (bitmap_clear-byte bm i) (
    bitmap_test-write bm i j _ false lt (
      byte_test-clear _ (i % 8) (j % 8) (AreBytes-get_or bm (i / 8) h) (omega arith) (omega arith)))

pub bitmap_set-AreBytes : (bm : List ℕ) (i : ℕ) → AreBytes bm → AreBytes (bitmap_set bm i)
unfolding bitmap_set
bitmap_set-AreBytes bm i h = All-set (λ b. b < 256) bm (i / 8) _ h (omega arith)

pub bitmap_clear-AreBytes : (bm : List ℕ) (i : ℕ) → AreBytes bm → AreBytes (bitmap_clear bm i)
unfolding bitmap_clear
bitmap_clear-AreBytes bm i h = All-set (λ b. b < 256) bm (i / 8) _ h (omega arith)

pub length-bitmap_set : (bm : List ℕ) (i : ℕ) → length (bitmap_set bm i) ≡ length bm
unfolding bitmap_set
length-bitmap_set bm i = length-set bm (i / 8) _

pub length-bitmap_clear : (bm : List ℕ) (i : ℕ) → length (bitmap_clear bm i) ≡ length bm
unfolding bitmap_clear
length-bitmap_clear bm i = length-set bm (i / 8) _

-- In a byte of ones every bit is set.
pub bitmap_test-ones : (bm : List ℕ) (j : ℕ) → get_or bm (j / 8) 0 ≡ 255 → bitmap_test bm j ≡ true
bitmap_test-ones bm j h =
    rw (bitmap_test-byte bm j, h)
      (passes_below_at 8 (λ j. byte_test 255 j) ones (j % 8) (omega arith))
