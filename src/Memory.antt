-- ===== src/Memory.antt =====
-- kernel/lib/memory.c: the memory routines, on the bytes of memory by their address. No object
-- reaches around the end of the address space.
mod Move
mod Tests
use m4_trio.Base.{ℕ, zero, suc, ◌+◌, ◌%◌, Bool, true, false, ◌||◌, ltb, ◌==◌, if◌then◌else◌}

abbrev pub Bytes : Type 0
Bytes = ℕ → ℕ

abbrev pub store : Bytes → ℕ → ℕ → Bytes
store mem at v k = if k == at then v else mem k

unfoldable pub memset : ℕ → ℕ → ℕ → Bytes → Bytes
memset dest value zero mem = mem
memset dest value (suc count) mem = memset (dest + 1) value count (store mem dest (value % 256))

unfoldable pub memcpy : ℕ → ℕ → ℕ → Bytes → Bytes
memcpy dest src zero mem = mem
memcpy dest src (suc count) mem = memcpy (dest + 1) (src + 1) count (store mem dest (mem src))

-- The loop that copies from the last byte down.
unfoldable pub copy_down : ℕ → ℕ → ℕ → Bytes → Bytes
copy_down dest src zero mem = mem
copy_down dest src (suc count) mem =
    copy_down dest src count (store mem (dest + count) (mem (src + count)))

unfoldable pub memmove : ℕ → ℕ → ℕ → Bytes → Bytes
memmove dest src count mem =
    if dest == src || count == 0
    then mem
    else if ltb dest src
    then memcpy dest src count mem
    else copy_down dest src count mem
