-- ===== src/Block.antt =====
-- include/mcsos/block.h, kernel/block/ramblk.c: block devices and the RAM disk. A device pointer
-- is a number and NULL is 0; the memory behind the device pointers is a function, `World`. A
-- buffer is an option of its bytes, NULL is `none`. Storage of different devices does not overlap.
mod Copy
mod Blk
mod Disk
mod Cache
mod Setup
use m4_trio.Base.{
  ℕ, zero, suc, ◌+◌, ◌-◌, ◌*◌, ◌/◌, ◌%◌, bit_and, Bool, true, false, not, ◌&&◌, ◌||◌, Option, none,
  some, List, [], get_or, set, ltb, ◌==◌, if◌then◌else◌, mul64,
}

-- `mcsos_blk_status_t`
pub data Status : Type 0 where
  ok einval erange efull eio enodev : Status

-- `mcsos_ramblk_t`
pub record Ramblk : Type 0 where
  pub storage : List ℕ
  pub storage_size : ℕ

-- `mcsos_blk_ops_t`: the RAM disk's table is the only one.
pub data Ops : Type 0 where
  ramblk_ops : Ops

-- `mcsos_blk_device_t`
pub record Device : Type 0 where
  pub name : List ℕ
  pub block_size : ℕ
  pub block_count : ℕ
  pub flags : ℕ
  pub ops : Option Ops
  pub driver_data : Option Ramblk

abbrev pub World : Type 0
World = ℕ → Device

pub put : World → ℕ → Device → World
put w dev d k = if k == dev then d else w k

-- `d[at + i] = s[from + i]` for `n` rounds.
pub copy : ℕ → List ℕ → ℕ → List ℕ → ℕ → List ℕ
copy zero dst at src from = dst
copy (suc n) dst at src from = copy n (set dst at (get_or src from 0)) (at + 1) src (from + 1)

pub is_power_of_two_u32 : ℕ → Bool
is_power_of_two_u32 value = not (value == 0) && (bit_and value (value - 1) == 0)

-- The copy of `mcsos_ramblk_rw`: the device after it and the buffer after it.
pub transfer : Device → Ramblk → ℕ → ℕ → List ℕ → Bool → Device × List ℕ
transfer d ram offset bytes buffer true = (
  record d { driver_data = some (record ram { storage = copy bytes ram.storage offset buffer 0 }) },
  buffer,
)
transfer d ram offset bytes buffer false = (d, copy bytes buffer 0 ram.storage offset)

-- `mcsos_ramblk_rw` past its NULL tests.
pub rw_body : Device → Ramblk → ℕ → ℕ → List ℕ → Bool → Status × Device × List ℕ
rw_body d ram lba count buffer is_write =
    let offset = mul64 lba d.block_size in
    let bytes = mul64 count d.block_size in
    if ltb ram.storage_size offset || ltb (ram.storage_size - offset) bytes
    then (erange, d, buffer)
    else let (d', after) = transfer d ram offset bytes buffer is_write in (ok, d', after)

-- `mcsos_ramblk_rw` past its tests of the pointers but `driver_data`.
pub rw_driver : Option Ramblk → World → ℕ → ℕ → ℕ → List ℕ → Bool → Status × World × Option (List ℕ)
rw_driver none w dev lba count bytes is_write = (einval, w, some bytes)
rw_driver (some ram) w dev lba count bytes is_write =
    let (st, d, after) = rw_body (w dev) ram lba count bytes is_write in
    (st, put w dev d, some after)

pub ramblk_rw : World → ℕ → ℕ → ℕ → Option (List ℕ) → Bool → Status × World × Option (List ℕ)
ramblk_rw w dev lba count none is_write = (einval, w, none)
ramblk_rw w dev lba count (some bytes) is_write =
    if dev == 0
    then (einval, w, some bytes)
    else rw_driver (w dev).driver_data w dev lba count bytes is_write

-- The bytes of a C string that fit, at most `MCSOS_BLK_NAME_MAX - 1`.
pub copy_name : ℕ → List ℕ → ℕ → List ℕ → List ℕ
copy_name zero dst i src = dst
copy_name (suc n) dst i src =
    let rest = copy_name n (set dst i (get_or src i 0)) (i + 1) src in
    if get_or src i 0 == 0 then dst else rest

-- `mcsos_ramblk_init` past its NULL tests: the storage is `storage`.
pub ramblk_init : Device → List ℕ → List ℕ → ℕ → ℕ → Status × Device
ramblk_init d name storage storage_size block_size =
    if ltb block_size 512 || not (is_power_of_two_u32 block_size)
    then (einval, d)
    else if ltb storage_size block_size || not (storage_size % block_size == 0)
    then (einval, d)
    else (
      ok,
      record {
        name = copy_name 15 d.name 0 name;
        block_size = block_size;
        block_count = storage_size / block_size;
        flags = 0;
        ops = some ramblk_ops;
        driver_data = some (record { storage = storage; storage_size = storage_size });
      },
    )
