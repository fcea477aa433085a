-- ===== src/Vfs/Tests.antt =====
-- A process with an empty file system in memory, and two files that it opens.
use m4_trio.Base.{
  ◌≡◌, ◌↔◌, refl, true, Option, none, some, List, [], ◌∷◌, ◌==◌, if◌then◌else◌, arith,
}
use mathlib.Core.Option.{IsSome}
use m4_trio.Vfs.{ℤ, pos, Result, ok, err, Bytes, Node, Ramfs, World, store_bytes, fetch_bytes}
use m4_trio.Vfs.Nodes.{
  ramfs_init, create_file, new_node, copy_name, base_name, lookup, find_node, has_name, stop,
}
use m4_trio.Vfs.Calls.{
  fd_get, fd_alloc, created, resolve, attach, open_at, sys_open, sys_read, sys_write, sys_lseek,
  sys_close, stored, write_bytes, to_long, node_of, seek_to, to_size, read_length, signed,
}
use m4_trio.Vfs.Layout.{IsSound, ramfs_init-IsLaid}
use m4_trio.Vfs.Invariant.{sys_open-IsSound}
use m4_trio.Vfs.Run.{
  call, Call, open_file, read_file, write_file, close_file, seek_file, run, Ran, run-Ran,
}
use m4_trio.Vfs.Access.{Filled, write_seek_read}
use m4_trio.Vfs.Apart.{Kept, write_apart}
use m4_trio.Vfs.Name.{SameString, has_name_iff}

abbrev blank_node : Node
blank_node = record {
  used = 0;
  id = 0;
  parent = 0;
  kind = 0;
  name = λ k. 0;
  size = 0;
  data_offset = 0;
  data_capacity = 0;
}

abbrev memory : Ramfs
memory = record { nodes = λ k. blank_node; node_count = 0; bytes = λ k. 0; data_used = 0 }

abbrev boot : World
boot = record {
  filesystems = λ k. ramfs_init memory;
  files = λ k. record { used = 0; flags = 0; offset = 0; node = 0; fs = 0 };
}

abbrev path_a : Bytes
path_a k = if k == 0 then 47 else if k == 1 then 97 else 0

abbrev path_b : Bytes
path_b k = if k == 0 then 47 else if k == 1 then 98 else 0

abbrev two_open : World
two_open = (sys_open (sys_open boot 0 (some path_a) 256).1 0 (some path_b) 256).1

boot-IsSound : IsSound 0 boot
boot-IsSound = record {
  laid = ramfs_init-IsLaid memory;
  here = λ k lt in_use. absurd (in_use refl);
  node = λ k lt in_use. absurd (in_use refl);
}

abbrev session : List Call
session =
    open_file (some path_a) 256
    ∷ open_file (some path_b) 256
    ∷ write_file (pos 0) path_b 3
    ∷ seek_file (pos 0) (pos 1) (pos 0)
    ∷ read_file (pos 0) path_a 2
    ∷ close_file (pos 0)
    ∷ []

run-Ran_example : Ran 0 boot session
run-Ran_example = run-Ran 0 boot session boot-IsSound

-- The session ends.
session_ends : IsSome (run 0 boot session)
unfolding run call sys_write write_bytes stored store_bytes fetch_bytes sys_close seek_to to_size
    sys_read sys_lseek read_length signed fd_get sys_open open_at attach resolve created create_file
    new_node lookup find_node has_name stop fd_alloc ramfs_init base_name copy_name
session_ends = tt

two_open-IsSound : IsSound 0 two_open
two_open-IsSound =
    sys_open-IsSound (sys_open-IsSound boot-IsSound (some path_a) 256) (some path_b) 256

first_open : fd_get two_open (pos 0) ≡ some 0
unfolding fd_get sys_open open_at attach resolve created create_file new_node lookup find_node
    has_name stop fd_alloc ramfs_init base_name copy_name
first_open = refl

first_node : (two_open.files 0).node ≡ 1
unfolding fd_get sys_open open_at attach resolve created create_file new_node lookup find_node
    has_name stop fd_alloc ramfs_init base_name copy_name
first_node = refl

first_offset : (two_open.files 0).offset ≡ 0
unfolding fd_get sys_open open_at attach resolve created create_file new_node lookup find_node
    has_name stop fd_alloc ramfs_init base_name copy_name
first_offset = refl

first_fs : (two_open.files 0).fs ≡ 0
unfolding fd_get sys_open open_at attach resolve created create_file new_node lookup find_node
    has_name stop fd_alloc ramfs_init base_name copy_name
first_fs = refl

first_size : (node_of two_open (two_open.files 0)).size ≡ 0
unfolding fd_get sys_open open_at attach resolve created create_file new_node lookup find_node
    has_name stop fd_alloc ramfs_init base_name copy_name
first_size = refl

first_place : (node_of two_open (two_open.files 0)).data_offset ≡ 0
unfolding fd_get sys_open open_at attach resolve created create_file new_node lookup find_node
    has_name stop fd_alloc ramfs_init base_name copy_name
first_place = refl

two_nodes : (two_open.filesystems 0).node_count ≡ 3
unfolding fd_get sys_open open_at attach resolve created create_file new_node lookup find_node
    has_name stop fd_alloc ramfs_init base_name copy_name
two_nodes = refl

write_seek_read_example :
    (w : World) × (sys_write two_open (pos 0) path_b 3 ≡ some (ok (to_long 3), w))
    × Filled path_b path_a 3
        (sys_read (sys_lseek w (pos 0) (pos (two_open.files 0).offset) (pos 0)).1 (pos 0) path_a 3)
write_seek_read_example =
    write_seek_read two_open (pos 0) 0 path_b path_a 3 first_open (omega (arith, first_size))
      (omega (arith, first_place, first_offset))

write_apart_example :
    Kept 0 (two_open.files 0).node 2 7 3 two_open (sys_write two_open (pos 0) path_b 3)
write_apart_example =
    write_apart 0 two_open (pos 0) 0 path_b 3 two_open-IsSound first_open
      (λ z. omega (arith, z, first_node)) (omega (arith, first_offset)) 2 7 (omega arith)
      (omega (arith, two_nodes)) (λ z. omega (arith, z, first_node)) (omega arith)

abbrev node_a : Node
node_a = record {
  used = 1;
  id = 1;
  parent = 0;
  kind = 2;
  name = base_name path_a;
  size = 0;
  data_offset = 0;
  data_capacity = 256;
}

node_a_ends : node_a.name 1 ≡ 0
unfolding base_name
node_a_ends = refl

has_name_iff_example : (has_name node_a path_b ≡ true) ↔ SameString path_b node_a.name
has_name_iff_example = has_name_iff node_a path_b 1 (omega arith) node_a_ends

abbrev count_of : Option (Result (ℤ × Bytes) × World) → Option ℤ
count_of none = none
count_of (some (ok p, w)) = some p.0
count_of (some (err e, w)) = none

-- A read at an offset behind the end of a file of size 0 answers all the bytes that it asks for.
behind_the_end :
    count_of (sys_read (sys_lseek two_open (pos 0) (pos 300) (pos 0)).1 (pos 0) path_a 10)
    ≡ some (pos 10)
unfolding run call sys_write write_bytes stored store_bytes fetch_bytes sys_close seek_to to_size
    sys_read sys_lseek read_length signed fd_get sys_open open_at attach resolve created create_file
    new_node lookup find_node has_name stop fd_alloc ramfs_init base_name copy_name
behind_the_end = refl

-- A write behind the array is not defined.
behind_the_array :
    sys_write (sys_lseek two_open (pos 0) (pos 8190) (pos 0)).1 (pos 0) path_a 3 ≡ none
unfolding run call sys_write write_bytes stored store_bytes fetch_bytes sys_close seek_to to_size
    sys_read sys_lseek read_length signed fd_get sys_open open_at attach resolve created create_file
    new_node lookup find_node has_name stop fd_alloc ramfs_init base_name copy_name
behind_the_array = refl
