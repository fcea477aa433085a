-- ===== src/Mcsfs/Table.antt =====
-- fs/mcsfs1/mcsfs1.c: the tables on the disk. Block 0 is the super block, 1 and 2 are the bitmaps
-- of inodes and blocks, 3 to 6 the inodes, 7 the directory, and 8 on the data.
use m4_trio.Base.{
  ℕ, zero, suc, ◌+◌, ◌-◌, ◌*◌, ◌/◌, ◌%◌, Bool, not, ◌&&◌, ◌||◌, Option, none, some, ltb, leb, ◌==◌,
  if◌then◌else◌,
}
use m4_trio.Mcsfs.{
  Bytes, Result, ok, err, einval, enospc, enoent, ecorrupt, Action, pure, lift, or_raise, ◌>>=◌,
  ◌>>◌, raise_if, Device, dev_read, dev_write,
}
use m4_trio.Mcsfs.Memory.{
  memcpy, mem_equal, strlen_bound, valid_name, load32, bit_set, bit_clear, blank, first_clear,
}

abbrev pub magic : ℕ
magic = 0x31465343

-- The fields of `struct mcsfs1_super_disk`, in their order.
abbrev pub word : ℕ → ℕ
word field = 4 * field

unfoldable pub super_ok : ℕ → Bytes → Bool
super_ok block_count sb =
    load32 sb (word 0) == magic
    && load32 sb (word 1) == 1
    && load32 sb (word 2) == 512
    && load32 sb (word 3) == block_count
    && load32 sb (word 4) == 32
    && load32 sb (word 5) == 1
    && load32 sb (word 6) == 2
    && load32 sb (word 7) == 3
    && load32 sb (word 9) == 1
    && load32 sb (word 10) == 7
    && load32 sb (word 11) == 8
    && ltb (load32 sb (word 11)) (load32 sb (word 3))

-- `struct mcsfs1_inode_disk`: 60 bytes, eight to a block.
abbrev pub inode_lba : ℕ → ℕ
inode_lba ino = 3 + (ino - 1) / 8

abbrev pub inode_offset : ℕ → ℕ
inode_offset ino = (ino - 1) % 8 * 60

abbrev pub direct_at : ℕ → ℕ
direct_at i = 8 + 4 * i

-- `struct mcsfs1_dirent_disk`: 32 bytes, of which the name takes the last 27.
abbrev pub dirent_at : ℕ → ℕ
dirent_at slot = 32 * slot

abbrev pub name_at : ℕ → ℕ
name_at slot = 32 * slot + 5

-- Whether entry `slot` is in use and has the name, of `n` bytes.
unfoldable pub names : Bytes → ℕ → Bytes → ℕ → Bool
names block slot name n =
    not (load32 block (dirent_at slot) == 0)
    && strlen_bound 28 block (name_at slot) 0 == n
    && mem_equal n block (name_at slot) name 0

-- The first of `left` entries from `slot` on that has the name: its place and its inode.
unfoldable pub scan : ℕ → ℕ → Bytes → Bytes → ℕ → Result (ℕ × ℕ)
scan zero slot block name n = err enoent
scan (suc left) slot block name n =
    let rest = scan left (slot + 1) block name n in
    if names block slot name n then ok (slot, load32 block (dirent_at slot)) else rest

-- The first free entry.
unfoldable pub free_slot : ℕ → ℕ → Bytes → Option ℕ
free_slot zero slot block = none
free_slot (suc left) slot block =
    let rest = free_slot left (slot + 1) block in
    if load32 block (dirent_at slot) == 0 then some slot else rest

-- The bits of an inode's blocks cleared, the `left` entries from `i` on.
unfoldable pub clear_blocks : ℕ → ℕ → ℕ → Bytes → Bytes → Bytes
clear_blocks zero i block_count inode bb = bb
clear_blocks (suc left) i block_count inode bb =
    let lba = load32 inode (direct_at i) in
    clear_blocks left (i + 1) block_count inode
      (if not (lba == 0) && ltb lba block_count then bit_clear bb lba else bb)

module _ {S : Type 0} (dev : Device S) where
  unfoldable pub load_super : Action S Bytes
  load_super = do
    sb ← dev_read dev 0
    raise_if (not (super_ok dev.block_count sb)) ecorrupt
    pure sb

  unfoldable pub read_inode : ℕ → Action S Bytes
  read_inode ino = do
    raise_if (ino == 0 || ltb 32 ino) einval
    raise_if (leb 8 (inode_lba ino)) ecorrupt
    block ← dev_read dev (inode_lba ino)
    pure (memcpy 60 blank 0 block (inode_offset ino))

  unfoldable pub write_inode : ℕ → Bytes → Action S (Unit {0})
  write_inode ino inode = do
    raise_if (ino == 0 || ltb 32 ino) einval
    raise_if (leb 8 (inode_lba ino)) ecorrupt
    block ← dev_read dev (inode_lba ino)
    dev_write dev (inode_lba ino) (memcpy 60 block (inode_offset ino) inode 0)

  unfoldable pub load_bmaps : Action S (Bytes × Bytes)
  load_bmaps = do ib ← dev_read dev 1; bb ← dev_read dev 2; pure (ib, bb)

  unfoldable pub store_bmaps : Bytes → Bytes → Action S (Unit {0})
  store_bmaps ib bb = do dev_write dev 1 ib; dev_write dev 2 bb

  unfoldable pub find_dirent : Bytes → Action S (ℕ × ℕ)
  find_dirent name = do
    n ← lift (valid_name name)
    block ← dev_read dev 7
    lift (scan 16 0 block name n)

  -- An inode and its first block: both are taken, or neither.
  unfoldable pub alloc_inode_block : Action S (ℕ × ℕ)
  alloc_inode_block = do
    maps ← load_bmaps
    ino ← or_raise (first_clear 31 2 maps.0) enospc
    lba ← or_raise (first_clear (dev.block_count - 8) 8 maps.1) enospc
    store_bmaps (bit_set maps.0 ino) (bit_set maps.1 lba)
    pure (ino, lba)

  unfoldable pub alloc_data_block : Action S ℕ
  alloc_data_block = do
    maps ← load_bmaps
    lba ← or_raise (first_clear (dev.block_count - 8) 8 maps.1) enospc
    store_bmaps maps.0 (bit_set maps.1 lba)
    pure lba

  unfoldable pub free_inode_and_blocks : ℕ → Bytes → Action S (Unit {0})
  free_inode_and_blocks ino inode = do
    maps ← load_bmaps
    store_bmaps (bit_clear maps.0 ino) (clear_blocks 8 0 dev.block_count inode maps.1)
