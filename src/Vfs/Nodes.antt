-- ===== src/Vfs/Nodes.antt =====
-- kernel/vfs/ramfs.c: the file system in memory. A path is not NULL here.
use m4_trio.Base.{
  ℕ, zero, suc, ◌+◌, ◌-◌, Bool, not, ◌&&◌, Option, none, some, leb, ◌==◌, if◌then◌else◌, add64,
}
use mathlib.Core.Option
use m4_trio.Vfs.{Result, ok, err, enospc, Bytes, Node, Ramfs, set, store_bytes}

abbrev pub kind_dir : ℕ
kind_dir = 1

abbrev pub kind_file : ℕ
kind_file = 2

-- `mcs_ramfs_init`
unfoldable pub ramfs_init : Ramfs → Ramfs
ramfs_init fs =
    let old = fs.nodes 0 in
    let root = record old {
      used = 1;
      id = 0;
      kind = kind_dir;
      name = set (set old.name 0 47) 1 0;
      size = 0;
    } in
    record fs { node_count = 1; data_used = 0; nodes = set fs.nodes 0 root }

-- The path without its first slash.
unfoldable pub base_name : Bytes → Bytes
base_name path k = if path 0 == 47 then path (k + 1) else path k

-- Where the comparison of two strings stops; a name has 32 bytes at most.
unfoldable pub stop : ℕ → Bytes → Bytes → ℕ → ℕ
stop zero a b j = j
stop (suc left) a b j =
    let rest = stop left a b (j + 1) in if a j == b j && not (a j == 0) then rest else j

unfoldable pub has_name : Node → Bytes → Bool
has_name node name = let j = stop 32 name node.name 0 in name j == 0 && node.name j == 0

-- The first of `left` nodes from `i` on that has the name.
unfoldable pub find_node : ℕ → ℕ → Ramfs → Bytes → Option ℕ
find_node zero i fs name = none
find_node (suc left) i fs name =
    let rest = find_node left (i + 1) fs name in if has_name (fs.nodes i) name then some i else rest

unfoldable pub lookup : Ramfs → Bytes → Option ℕ
lookup fs path =
    if path 0 == 47 && path 1 == 0
    then some 0
    else find_node (fs.node_count - 1) 1 fs (base_name path)

-- The bytes of the name, up to its terminator.
unfoldable pub copy_name : ℕ → ℕ → Bytes → Bytes → Bytes
copy_name zero i dst src = dst
copy_name (suc left) i dst src =
    let next = set dst i (src i) in
    let rest = copy_name left (i + 1) next src in if src i == 0 then next else rest

-- The node that a create fills in.
unfoldable pub new_node : Ramfs → Bytes → Node
new_node fs path =
    let old = fs.nodes fs.node_count in
    record old {
      used = 1;
      id = fs.node_count;
      kind = kind_file;
      data_capacity = 256;
      data_offset = fs.data_used;
      size = 0;
      name = copy_name 31 0 old.name (base_name path);
    }

unfoldable pub create_file : Ramfs → Bytes → Result ℕ × Ramfs
create_file fs path = if leb 64 fs.node_count then (err enospc, fs) else (
  ok fs.node_count,
  record fs {
    node_count = fs.node_count + 1;
    data_used = add64 fs.data_used 256;
    nodes = set fs.nodes fs.node_count (new_node fs path);
  },
)

-- `none` when the bytes do not fit the array, here as in the calls.
unfoldable pub seeded : Result ℕ × Ramfs → Bytes → ℕ → Option (Result (Unit {0}) × Ramfs)
seeded (err e, fs) source len = some (err e, fs)
seeded (ok n, fs) source len =
    Option.map
      (λ b. (
        ok tt,
        record fs { bytes = b; nodes = set fs.nodes n (record (fs.nodes n) { size = len }) },
      ))
      (store_bytes len 0 fs.bytes (fs.nodes n).data_offset source)

unfoldable pub seed_file : Ramfs → Bytes → Bytes → ℕ → Option (Result (Unit {0}) × Ramfs)
seed_file fs path source len = seeded (create_file fs path) source len
