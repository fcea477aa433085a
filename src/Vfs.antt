-- ===== src/Vfs.antt =====
-- kernel/vfs/ramfs.c, kernel/vfs/fd.c, include/mcsos/vfs/vfs.h: the file system in memory, and the
-- calls of a process on its table of open files. A file system is known by a number, which stands
-- for its pointer, and a node by its place in the file system's table.
mod Nodes
mod Calls
mod Copy
mod Layout
mod Resolve
mod Invariant
mod Run
mod Access
mod Apart
mod Name
mod Open
mod Tests
use m4_trio.Base.{
  ℕ, zero, suc, ◌+◌, ◌-◌, ◌*◌, ◌%◌, ◌^◌, bit_and, Bool, true, false, not, ◌&&◌, ◌||◌, Option, none,
  some, ltb, leb, ◌==◌, if◌then◌else◌, add64, sub64,
}

-- A C `int` or `long`.
pub data ℤ : Type 0 where
  pos : ℕ → ℤ
  negsuc : ℕ → ℤ

-- `mcs_vfs_status_t`, less the 0.
pub data Status : Type 0 where
  enoent ebadf eacces eexist enotdir eisdir einval enfile enospc enametoolong : Status

-- What a call answers: a value that is not negative, or a status.
pub data Result (A : Type 0) : Type 0 where
  ok : A → Result A
  err : Status → Result A

abbrev pub Bytes : Type 0
Bytes = ℕ → ℕ

pub record Node : Type 0 where
  pub used : ℕ
  pub id : ℕ
  pub parent : ℕ
  pub kind : ℕ
  pub name : Bytes
  pub size : ℕ
  pub data_offset : ℕ
  pub data_capacity : ℕ

-- `MCS_RAMFS_DATA_BYTES`
abbrev pub data_bytes : ℕ
data_bytes = 8192

-- The table has 64 nodes, and there are `data_bytes` bytes: no loop reaches behind them.
pub record Ramfs : Type 0 where
  pub nodes : ℕ → Node
  pub node_count : ℕ
  pub bytes : Bytes
  pub data_used : ℕ

pub record File : Type 0 where
  pub used : ℕ
  pub flags : ℕ
  pub offset : ℕ
  pub node : ℕ
  pub fs : ℕ

-- The file systems, and the sixteen open files of a process.
pub record World : Type 0 where
  pub filesystems : ℕ → Ramfs
  pub files : ℕ → File

abbrev pub set : {A : Type 0} → (ℕ → A) → ℕ → A → ℕ → A
set f at a k = if k == at then a else f k

-- The loops that copy byte by byte: to the file system's bytes at `at`, and from them. An access
-- behind the array is undefined in C: it is `none`, and nothing is said of what the kernel does then.
unfoldable pub store_bytes : ℕ → ℕ → Bytes → ℕ → Bytes → Option Bytes
store_bytes zero i dst at src = some dst
store_bytes (suc left) i dst at src =
    let rest = store_bytes left (i + 1) (set dst (add64 at i) (src i)) at src in
    if ltb (add64 at i) data_bytes then rest else none

unfoldable pub fetch_bytes : ℕ → ℕ → Bytes → ℕ → Bytes → Option Bytes
fetch_bytes zero i dst at src = some dst
fetch_bytes (suc left) i dst at src =
    let rest = fetch_bytes left (i + 1) (set dst i (src (add64 at i))) at src in
    if ltb (add64 at i) data_bytes then rest else none
