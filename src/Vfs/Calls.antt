-- ===== src/Vfs/Calls.antt =====
-- kernel/vfs/fd.c: the calls of a process on its open files.
use m4_trio.Base.{
  ℕ, zero, suc, ◌+◌, ◌-◌, ◌*◌, ◌%◌, ◌^◌, bit_and, not, ◌||◌, Option, none, some, ltb, leb, ◌==◌,
  if◌then◌else◌, add64, sub64,
}
use mathlib.Core.Option
use m4_trio.Vfs.{
  ℤ, pos, negsuc, Result, ok, err, enoent, ebadf, einval, enfile, Bytes, Node, Ramfs, File, World,
  set, store_bytes, fetch_bytes,
}
use m4_trio.Vfs.Nodes.{lookup, create_file}

unfoldable pub fd_table_init : (ℕ → File) → ℕ → File
fd_table_init files k = if ltb k 16 then record (files k) { used = 0 } else files k

-- The place of an open file.
unfoldable pub fd_get : World → ℤ → Option ℕ
fd_get w (negsuc k) = none
fd_get w (pos fd) = if leb 16 fd || (w.files fd).used == 0 then none else some fd

-- The first of `left` places from `i` on that is free.
unfoldable pub fd_alloc : ℕ → ℕ → (ℕ → File) → Option ℕ
fd_alloc zero i files = none
fd_alloc (suc left) i files =
    let rest = fd_alloc left (i + 1) files in if (files i).used == 0 then some i else rest

-- The node of a path, which is made when the flags say so.
unfoldable pub created : Result ℕ × Ramfs → Result ℕ × Ramfs
created (ok n, fs) = (ok n, fs)
created (err e, fs) = (err enoent, fs)

unfoldable pub resolve : Option ℕ → Ramfs → Bytes → ℕ → Result ℕ × Ramfs
resolve (some n) fs path flags = (ok n, fs)
resolve none fs path flags =
    if bit_and flags 256 == 0 then (err enoent, fs) else created (create_file fs path)

-- The place that was taken, filled in or given back.
unfoldable pub attach : World → ℕ → ℕ → ℕ → Result ℕ × Ramfs → Result ℤ × World
attach w at flags fd (ok n, fs) = (
  ok (pos fd),
  record w {
    filesystems = set w.filesystems at fs;
    files = set w.files fd (record { used = 1; flags = flags; offset = 0; node = n; fs = at });
  },
)
attach w at flags fd (err e, fs) = (
  err enoent,
  record w {
    filesystems = set w.filesystems at fs;
    files = set w.files fd (record (w.files fd) { used = 0 });
  },
)

unfoldable pub open_at : World → ℕ → Bytes → ℕ → Option ℕ → Result ℤ × World
open_at w at path flags none = (err enfile, w)
open_at w at path flags (some fd) =
    attach w at flags fd (resolve (lookup (w.filesystems at) path) (w.filesystems at) path flags)

unfoldable pub sys_open : World → ℕ → Option Bytes → ℕ → Result ℤ × World
sys_open w at none flags = (err einval, w)
sys_open w at (some path) flags =
    if not (path 0 == 47) then (err einval, w) else open_at w at path flags (fd_alloc 16 0 w.files)

-- A word read as a signed one, where `half` is the least that is negative.
unfoldable pub signed : ℕ → ℕ → ℤ
signed half v = if ltb v half then pos v else negsuc (2 * half - 1 - v)

abbrev pub to_long : ℕ → ℤ
to_long v = signed (2 ^ 63) v

abbrev pub to_int : ℕ → ℤ
to_int v = signed (2 ^ 31) (v % 2 ^ 32)

unfoldable pub to_size : ℤ → ℕ
to_size (pos n) = n
to_size (negsuc k) = 2 ^ 64 - 1 - k

abbrev pub node_of : World → File → Node
node_of w f = (w.filesystems f.fs).nodes f.node

-- The bytes that a read copies.
unfoldable pub read_length : Node → File → ℕ → ℕ
read_length node f len =
    let avail = sub64 node.size f.offset in if ltb len avail then len else avail

unfoldable pub sys_read : World → ℤ → Bytes → ℕ → Option (Result (ℤ × Bytes) × World)
sys_read w fd buf len = elim (fd_get w fd) [
  | none ↦ some (err ebadf, w)
  | some k ↦
      let f = w.files k in
      let n = read_length (node_of w f) f len in
      let at = add64 (node_of w f).data_offset f.offset in
      Option.map
        (λ b. (
          ok (to_long n, b),
          record w { files = set w.files k (record f { offset = add64 f.offset n }) },
        ))
        (fetch_bytes n 0 buf at (w.filesystems f.fs).bytes)
]

-- The file system after a write of an open file.
unfoldable pub stored : Ramfs → File → ℕ → Bytes → Ramfs
stored fs f len bytes =
    let node = fs.nodes f.node in
    let end = add64 f.offset len in
    record fs {
      bytes = bytes;
      nodes =
          set fs.nodes f.node (record node { size = if ltb node.size end then end else node.size });
    }

-- The file system's bytes after it, or `none`.
unfoldable pub write_bytes : Ramfs → File → Bytes → ℕ → Option Bytes
write_bytes fs f buf len =
    store_bytes len 0 fs.bytes (add64 (fs.nodes f.node).data_offset f.offset) buf

unfoldable pub sys_write : World → ℤ → Bytes → ℕ → Option (Result ℤ × World)
sys_write w fd buf len = elim (fd_get w fd) [
  | none ↦ some (err ebadf, w)
  | some k ↦
      let f = w.files k in
      Option.map
        (λ b. (
          ok (to_long len),
          record w {
            filesystems = set w.filesystems f.fs (stored (w.filesystems f.fs) f len b);
            files = set w.files k (record f { offset = add64 f.offset len });
          },
        ))
        (write_bytes (w.filesystems f.fs) f buf len)
]

unfoldable pub sys_close : World → ℤ → Result (Unit {0}) × World
sys_close w fd = elim (fd_get w fd) [
  | none ↦ (err ebadf, w)
  | some k ↦ (ok tt, record w { files = set w.files k (record (w.files k) { used = 0 }) })
]

-- Only `MCS_SEEK_SET`, which is 0, moves the offset.
unfoldable pub seek_to : ℤ → ℕ → ℕ → ℕ
seek_to (pos zero) to old = to
seek_to (pos (suc k)) to old = old
seek_to (negsuc k) to old = old

unfoldable pub sys_lseek : World → ℤ → ℤ → ℤ → Result ℤ × World
sys_lseek w fd offset whence = elim (fd_get w fd) [
  | none ↦ (err ebadf, w)
  | some k ↦
      let f = record (w.files k) { offset = seek_to whence (to_size offset) (w.files k).offset } in
      (ok (to_int f.offset), record w { files = set w.files k f })
]
