-- ===== src/Mcsfs/Memory.antt =====
-- fs/mcsfs1/mcsfs1.c: the memory that the file system works on. A block, a structure of the disk and
-- a string are bytes by their offset; a field of a structure is read and written where x86_64
-- has it, little-endian. Outside its object an offset has no meaning.
pub mod Copy
pub mod Words
pub mod Bits
use m4_trio.Base.{
  ℕ, zero, suc, ◌+◌, ◌-◌, ◌*◌, ◌/◌, ◌%◌, ◌^◌, bit_and, bit_or, Bool, true, false, not, ltb, ◌==◌,
  if◌then◌else◌, Option, none, some,
}
use m4_trio.Mcsfs.{Bytes, Result, ok, err, einval, enametoolong}

abbrev pub store8 : Bytes → ℕ → ℕ → Bytes
store8 b at v k = if k == at then v else b k

unfoldable pub memset : ℕ → Bytes → ℕ → ℕ → Bytes
memset zero dst at c = dst
memset (suc n) dst at c = memset n (store8 dst at (c % 256)) (at + 1) c

unfoldable pub memcpy : ℕ → Bytes → ℕ → Bytes → ℕ → Bytes
memcpy zero dst at src from = dst
memcpy (suc n) dst at src from = memcpy n (store8 dst at (src from)) (at + 1) src (from + 1)

-- Whether `mcsfs_memcmp` answers 0.
unfoldable pub mem_equal : ℕ → Bytes → ℕ → Bytes → ℕ → Bool
mem_equal zero a at b from = true
mem_equal (suc n) a at b from =
    let rest = mem_equal n a (at + 1) b (from + 1) in if a at == b from then rest else false

-- The string is at `at`; `n` bytes of it were passed, and `left` more may be.
unfoldable pub strlen_bound : ℕ → Bytes → ℕ → ℕ → ℕ
strlen_bound zero s at n = n
strlen_bound (suc left) s at n =
    let rest = strlen_bound left s at (n + 1) in if s (at + n) == 0 then n else rest

unfoldable pub has_slash : ℕ → Bytes → ℕ → Bool
has_slash zero name i = false
has_slash (suc n) name i =
    let rest = has_slash n name (i + 1) in if name i == 47 then true else rest

-- The length of a name that is valid.
unfoldable pub valid_name : Bytes → Result ℕ
valid_name name =
    let n = strlen_bound 28 name 0 0 in
    if n == 0
    then err einval
    else if ltb 27 n
    then err enametoolong
    else if has_slash n name 0
    then err einval
    else ok n

unfoldable pub load16 : Bytes → ℕ → ℕ
load16 b at = b at + 256 * b (at + 1)

unfoldable pub load32 : Bytes → ℕ → ℕ
load32 b at = b at + 256 * b (at + 1) + 65536 * b (at + 2) + 16777216 * b (at + 3)

unfoldable pub store16 : Bytes → ℕ → ℕ → Bytes
store16 b at v = store8 (store8 b at (v % 256)) (at + 1) (v / 256 % 256)

unfoldable pub store32 : Bytes → ℕ → ℕ → Bytes
store32 b at v =
    store8
      (store8 (store8 (store8 b at (v % 256)) (at + 1) (v / 256 % 256)) (at + 2) (v / 65536 % 256))
      (at + 3) (v / 16777216 % 256)

abbrev pub mask : ℕ → ℕ
mask bit = 2 ^ (bit % 8) % 256

unfoldable pub bit_set : Bytes → ℕ → Bytes
bit_set b bit = store8 b (bit / 8) (bit_or (b (bit / 8)) (mask bit) % 256)

pub bit_clear : Bytes → ℕ → Bytes
bit_clear b bit = store8 b (bit / 8) (bit_and (b (bit / 8)) (255 - mask bit) % 256)

unfoldable pub bit_test : Bytes → ℕ → Bool
bit_test b bit = not (bit_and (b (bit / 8)) (mask bit) == 0)

abbrev pub blank : Bytes
blank _ = 0

-- The bytes from an offset on, as a pointer into an object.
abbrev pub from : Bytes → ℕ → Bytes
from b at k = b (at + k)

-- The first of `n` bits from `i` on that is clear.
unfoldable pub first_clear : ℕ → ℕ → Bytes → Option ℕ
first_clear zero i b = none
first_clear (suc n) i b =
    let rest = first_clear n (i + 1) b in if not (bit_test b i) then some i else rest
