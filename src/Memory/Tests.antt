-- ===== src/Memory/Tests.antt =====
-- A range moved up over itself.
use m4_trio.Memory.{Bytes, memmove}
use m4_trio.Memory.Move.{Moved, memmove-Moved}

abbrev ramp : Bytes
ramp k = k

memmove-Moved_example : Moved 12 10 5 ramp (memmove 12 10 5 ramp)
memmove-Moved_example = memmove-Moved 12 10 5 ramp
