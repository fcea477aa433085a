-- ===== src/Mcsfs/Memory/Bits.antt =====
-- Bitmaps in memory: what a set and a clear change.
use m4_trio.Base.{
  ℕ, ◌/◌, ◌%◌, ◌^◌, ◌<◌, ◌≡◌, sym, ap, Bool, true, false, ◌==◌, ==_iff, ne→==, if◌then◌else◌,
  passes_below_at, byte_test, byte_set, byte_clear, byte_test-set, byte_test-clear, small_masks,
  arith,
}
use m4_trio.Mcsfs.{Bytes}
use m4_trio.Mcsfs.Memory.{store8, mask, bit_set, bit_clear, bit_test}
use m4_trio.Mcsfs.Memory.Copy.{store8_self, store8_ne}
use native.Mathlib.Decide.{ℕ_discrete}

abbrev pub AreOctets : Bytes → Type 0
AreOctets b = (k : ℕ) → b k < 256

mask-pow : (bit : ℕ) → mask bit ≡ 2 ^ (bit % 8)
mask-pow bit =
    (==_iff (mask bit) (2 ^ (bit % 8))).0
      (passes_below_at 8 (λ k. 2 ^ k % 256 == 2 ^ k) small_masks (bit % 8) (omega arith))

bit_test-byte : (b : Bytes) (j : ℕ) → bit_test b j ≡ byte_test (b (j / 8)) (j % 8)
unfolding bit_test byte_test
bit_test-byte b j = rw (mask-pow j)

bit_set-byte : (b : Bytes) (i : ℕ) → bit_set b i ≡ store8 b (i / 8) (byte_set (b (i / 8)) (i % 8))
unfolding bit_set byte_set
bit_set-byte b i = rw (mask-pow i)

bit_clear-byte :
    (b : Bytes) (i : ℕ) → bit_clear b i ≡ store8 b (i / 8) (byte_clear (b (i / 8)) (i % 8))
unfolding bit_clear byte_clear
bit_clear-byte b i = rw (mask-pow i)

-- A write of byte `i / 8` whose effect on the bits of that byte is known.
bit_test-write :
    (b : Bytes) (i j v : ℕ) (x : Bool)
    → byte_test v (j % 8) ≡ (if i % 8 == j % 8 then x else byte_test (b (i / 8)) (j % 8))
    → bit_test (store8 b (i / 8) v) j ≡ (if i == j then x else bit_test b j)
bit_test-write b i j v x h = elim (ℕ_discrete (i / 8) (j / 8)) [
  | yes e ↦
      rw (bit_test-byte (store8 b (i / 8) v) j, bit_test-byte b j, ← e, store8_self b (i / 8) v, h)
        (ground arith)
  | no n ↦ rw (
    bit_test-byte (store8 b (i / 8) v) j,
    bit_test-byte b j,
    store8_ne b (i / 8) v (j / 8) (λ e. n (sym e)),
    ne→== i j (λ e. n (ap (λ (k : ℕ). k / 8) e)),
  )
]

pub bit_test-bit_set :
    (b : Bytes) (i j : ℕ)
    → AreOctets b
    → bit_test (bit_set b i) j ≡ (if i == j then true else bit_test b j)
bit_test-bit_set b i j h = rw (bit_set-byte b i) (
    bit_test-write b i j (byte_set (b (i / 8)) (i % 8)) true
      (byte_test-set (b (i / 8)) (i % 8) (j % 8) (h (i / 8)) (omega arith) (omega arith)))

pub bit_test-bit_clear :
    (b : Bytes) (i j : ℕ)
    → AreOctets b
    → bit_test (bit_clear b i) j ≡ (if i == j then false else bit_test b j)
bit_test-bit_clear b i j h = rw (bit_clear-byte b i) (
    bit_test-write b i j (byte_clear (b (i / 8)) (i % 8)) false
      (byte_test-clear (b (i / 8)) (i % 8) (j % 8) (h (i / 8)) (omega arith) (omega arith)))

-- A bit that is set stays set.
pub bit_test-bit_set_old :
    (b : Bytes) (i j : ℕ) → AreOctets b → bit_test b j ≡ true → bit_test (bit_set b i) j ≡ true
bit_test-bit_set_old b i j h old = ground (arith, bit_test-bit_set b i j h)

pub bit_test-bit_set_new : (b : Bytes) (i : ℕ) → AreOctets b → bit_test (bit_set b i) i ≡ true
bit_test-bit_set_new b i h = ground (arith, bit_test-bit_set b i i h)

pub bit_set-AreOctets : (b : Bytes) (i : ℕ) → AreOctets b → AreOctets (bit_set b i)
unfolding bit_set
bit_set-AreOctets b i h k = ground (arith, h k)

pub bit_clear-AreOctets : (b : Bytes) (i : ℕ) → AreOctets b → AreOctets (bit_clear b i)
unfolding bit_clear
bit_clear-AreOctets b i h k = ground (arith, h k)
