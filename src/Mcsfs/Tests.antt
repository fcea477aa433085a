-- ===== src/Mcsfs/Tests.antt =====
-- A disk of sixteen blocks in memory, and the file system on it.
use m4_trio.Base.{
  ℕ, zero, suc, ◌+◌, ◌≤◌, ◌≡◌, inr, refl, sym, ap, subst, true, some, ◌==◌, ==_self, ne→==,
  if◌then◌else◌, arith,
}
use m4_trio.Mcsfs.{Bytes, ok, err, enoent, Device, Mount, dev_read, dev_write, dev_flush, fetched}
use m4_trio.Mcsfs.Memory.{
  valid_name, strlen_bound, has_slash, blank, memset, memcpy, load16, load32, store16, store32,
  mem_equal, bit_set, bit_test, first_clear,
}
use m4_trio.Mcsfs.Table.{
  find_dirent, scan, names, write_inode, read_inode, store_bmaps, load_bmaps, alloc_data_block,
  alloc_inode_block, free_slot,
}
use m4_trio.Mcsfs.Memory.Bits.{AreOctets, bit_set-AreOctets}
use m4_trio.Mcsfs.Memory.Copy.{memset_inside, memset_outside}
use m4_trio.Mcsfs.Calls.{
  open_file, alloc_blocks, write_blocks, block_span, block_of, missing, zero_all, super_block,
  root_inode, file_inode, add_dirent, format, create, write, read, unlink, zero_block,
  first_inode_map, first_block_map, set_below,
}
use m4_trio.Mcsfs.Disk.{IsReliable, lookup}
use m4_trio.Mcsfs.Format.{Formatted, format-Formatted}
use m4_trio.Mcsfs.Made.{Made}
use m4_trio.Mcsfs.Create.{Created, create-Created, Created-ok}
use m4_trio.Mcsfs.Removed.{Removed}
use m4_trio.Mcsfs.Unlink.{Restored, unlink-Removed, unlink-create}
use m4_trio.Mcsfs.File.{Written, write-Written}
use m4_trio.Mcsfs.ReadBack.{Read, read_back}
use native.Mathlib.Decide.{dec_lt}

abbrev State : Type 0
State = ℕ → Bytes

abbrev disk : Device State
disk = record {
  block_count = 16;
  read = λ s lba. some (s lba);
  write = λ s lba block. (true, λ k. if k == lba then block else s k);
  flush = λ s. (true, s);
}

abbrev content : State → ℕ → Bytes
content s = s

disk-IsReliable : IsReliable disk content
disk-IsReliable = record {
  read_content = λ s lba. refl;
  write_done = λ s lba b. refl;
  write_here = λ s lba b. rw (==_self lba) refl;
  write_there = λ s lba other b ne. rw (ne→== other lba ne) refl;
  flush_done = λ s. refl;
  flush_same = λ s lba. refl;
}

abbrev raw : State
raw lba k = 7

abbrev hello : Bytes
hello k = if k == 0 then 104 else if k == 1 then 105 else 0

large : 16 ≤ 16
large = omega arith

small : 16 ≤ 4096
small = omega arith

hello_valid : valid_name hello ≡ ok 2
unfolding valid_name strlen_bound has_slash
hello_valid = refl

zero_block-AreOctets : AreOctets zero_block
unfolding zero_block
zero_block-AreOctets k = elim (dec_lt k 512) [
  | yes lt ↦ let z = memset_inside 512 blank 0 0 k (omega arith) (omega arith) in omega (arith, z)
  | no ge ↦ let z = memset_outside 512 blank 0 0 k (inr (omega arith)) in omega (arith, z)
]

set_below-AreOctets : (n b : ℕ) (bb : Bytes) → AreOctets bb → AreOctets (set_below n b bb)
unfolding set_below
set_below-AreOctets zero b bb h = h
set_below-AreOctets (suc n) b bb h = set_below-AreOctets n (b + 1) _ (bit_set-AreOctets bb b h)

maps-AreOctets : AreOctets first_inode_map × AreOctets first_block_map
unfolding first_inode_map first_block_map
maps-AreOctets = (
  bit_set-AreOctets _ 1 (bit_set-AreOctets zero_block 0 zero_block-AreOctets),
  bit_set-AreOctets _ 7 (set_below-AreOctets 8 0 zero_block zero_block-AreOctets),
)

format-Formatted_example :
    (s : State) × (format disk raw ≡ (ok tt, s)) × Formatted disk-IsReliable large small s
format-Formatted_example = format-Formatted disk-IsReliable large small raw

abbrev formatted : State
formatted = (format disk raw).1

formatted-Formatted : Formatted disk-IsReliable large small formatted
formatted-Formatted =
    let v = format-Formatted disk-IsReliable large small raw in
    subst (Formatted disk-IsReliable large small) (ap (λ p. p.1) (sym v.1)) v.2

formatted-AreOctets : AreOctets (formatted 1) × AreOctets (formatted 2)
formatted-AreOctets = (
  subst AreOctets (sym formatted-Formatted.fresh.inodes) maps-AreOctets.0,
  subst AreOctets (sym formatted-Formatted.fresh.blocks) maps-AreOctets.1,
)

create-Created_example : Created disk content formatted hello 2 (create disk hello formatted)
create-Created_example =
    create-Created disk-IsReliable large small formatted hello 2 hello_valid (omega arith)
      formatted-AreOctets

create_ok : (create disk hello formatted).0 ≡ ok tt
unfolding create missing find_dirent valid_name strlen_bound has_slash scan names format zero_all
    write_inode read_inode store_bmaps load_bmaps alloc_inode_block dev_read dev_write dev_flush
    fetched free_slot first_clear bit_test load32 super_block first_inode_map first_block_map
    set_below bit_set zero_block memset memcpy root_inode store32 store16 file_inode add_dirent
    mem_equal
create_ok = refl

abbrev made : State
made = (create disk hello formatted).1

create-made : create disk hello formatted ≡ (ok tt, made)
create-made = ap (λ x. (x, made)) create_ok

hello_file :
    (slot ino : ℕ) × (lookup content formatted hello ≡ err enoent)
    × Made disk content formatted hello 2 slot ino made
hello_file =
    Created-ok disk-IsReliable large small
      (create-Created disk-IsReliable large small formatted hello 2 hello_valid (omega arith)
        formatted-AreOctets)
      create-made

abbrev slot : ℕ
slot = hello_file.0

abbrev ino : ℕ
ino = hello_file.1

hello-Made : Made disk content formatted hello 2 slot ino made
hello-Made = hello_file.3

unlink-Removed_example :
    (s : State) × (unlink disk hello made ≡ (ok tt, s)) × Removed disk content made hello 2 ino s
unlink-Removed_example =
    unlink-Removed disk-IsReliable large small made hello 2 slot ino hello_valid (omega arith)
      hello-Made.octets hello-Made.file hello-Made.only_entry

unlink-create_example :
    (s : State) × (unlink disk hello made ≡ (ok tt, s))
    × Restored disk-IsReliable large small formatted hello 2 s
unlink-create_example =
    unlink-create disk-IsReliable large small hello 2 hello_valid (omega arith) formatted-AreOctets
      create-made

abbrev fives : Bytes
fives k = 5

write-Written_example :
    Written disk content made hello slot ino fives 600 (write disk hello fives 600 made)
write-Written_example =
    write-Written disk-IsReliable large small hello fives 600 (omega arith) hello-Made.octets.1
      hello-Made.file

abbrev written : State
written = (write disk hello fives 600 made).1

write_ok : (write disk hello fives 600 made).0 ≡ ok tt
unfolding write open_file alloc_blocks write_blocks block_span block_of alloc_data_block create
    missing find_dirent valid_name strlen_bound has_slash scan names format zero_all write_inode
    read_inode store_bmaps load_bmaps alloc_inode_block dev_read dev_write dev_flush fetched
    free_slot first_clear bit_test load16 load32 super_block first_inode_map first_block_map
    set_below bit_set zero_block memset memcpy root_inode store32 store16 file_inode add_dirent
    mem_equal
write_ok = refl

abbrev sevens : Bytes
sevens k = 7

abbrev mounted : Mount
mounted = record { block_count = 16; data_start = 8 }

read_back_example :
    Read disk-IsReliable large small written hello sevens fives 600
      (read disk mounted hello sevens 1024 written)
read_back_example =
    read_back disk-IsReliable large small mounted hello fives sevens 600 1024 (omega arith)
      hello-Made.octets.1 hello-Made.file refl (omega arith) (ap (λ x. (x, written)) write_ok)

-- A name of 27 bytes is made a second time, once the next entry is in use.
abbrev longest : Bytes
longest k = if k == 27 then 0 else 97

abbrev two_files : State
two_files = (create disk hello (create disk longest formatted).1).1

longest_twice : (create disk longest two_files).0 ≡ ok tt
unfolding create missing find_dirent valid_name strlen_bound has_slash scan names format zero_all
    write_inode read_inode store_bmaps load_bmaps alloc_inode_block dev_read dev_write dev_flush
    fetched free_slot first_clear bit_test load32 super_block first_inode_map first_block_map
    set_below bit_set zero_block memset memcpy root_inode store32 store16 file_inode add_dirent
    mem_equal
longest_twice = refl
