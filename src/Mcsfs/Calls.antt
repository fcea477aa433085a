-- ===== src/Mcsfs/Calls.antt =====
-- fs/mcsfs1/mcsfs1.c: formatting, mounting, and the calls on files. The pointers that the calls
-- test for NULL are values here. What a failing read leaves in the caller's buffer is not
-- returned.
use m4_trio.Base.{
  ℕ, zero, suc, ◌+◌, ◌-◌, ◌/◌, Bool, true, false, not, ◌||◌, ltb, leb, ◌==◌, if◌then◌else◌, add32,
}
use m4_trio.Mcsfs.{
  Bytes, Result, ok, err, einval, enospc, eexist, ecorrupt, eisdir, erange, Action, pure, lift,
  or_raise, ◌>>=◌, ◌>>◌, raise_if, Device, Mount, dev_read, dev_write, dev_flush,
}
use m4_trio.Mcsfs.Memory.{
  store8, memset, memcpy, valid_name, load16, load32, store16, store32, bit_set, blank,
}
use m4_trio.Mcsfs.Table.{
  magic, word, direct_at, dirent_at, name_at, free_slot, load_super, read_inode, write_inode,
  store_bmaps, find_dirent, alloc_inode_block, alloc_data_block, free_inode_and_blocks,
}

abbrev pub mode_file : ℕ
mode_file = 1

abbrev pub mode_dir : ℕ
mode_dir = 2

unfoldable pub zero_block : Bytes
zero_block = memset 512 blank 0 0

-- The super block that `mcsfs1_format` writes.
unfoldable pub super_block : ℕ → Bytes
super_block block_count =
    let a = store32 (memset 512 blank 0 0) (word 0) magic in
    let b = store32 (store32 a (word 1) 1) (word 2) 512 in
    let c = store32 (store32 b (word 3) block_count) (word 4) 32 in
    let d = store32 (store32 c (word 5) 1) (word 6) 2 in
    let e = store32 (store32 d (word 7) 3) (word 8) 4 in
    let f = store32 (store32 e (word 9) 1) (word 10) 7 in
    store32 (store32 f (word 11) 8) (word 12) 1

unfoldable pub set_below : ℕ → ℕ → Bytes → Bytes
set_below zero b bb = bb
set_below (suc n) b bb = set_below n (b + 1) (bit_set bb b)

unfoldable pub first_inode_map : Bytes
first_inode_map = bit_set (bit_set zero_block 0) 1

unfoldable pub first_block_map : Bytes
first_block_map = bit_set (set_below 8 0 zero_block) 7

unfoldable pub root_inode : Bytes
root_inode =
    let a = store16 (memset 60 blank 0 0) 0 mode_dir in
    store32 (store32 (store16 a 2 1) 4 512) (direct_at 0) 7

unfoldable pub file_inode : ℕ → Bytes
file_inode first_data =
    let a = store16 (memset 60 blank 0 0) 0 mode_file in
    store32 (store32 (store16 a 2 1) 4 0) (direct_at 0) first_data

-- The directory with a new entry.
unfoldable pub add_dirent : Bytes → ℕ → ℕ → Bytes → ℕ → Bytes
add_dirent block slot ino name n =
    let a = store8 (store32 block (dirent_at slot) ino) (dirent_at slot + 4) mode_file in
    memcpy n (memset 27 a (name_at slot) 0) (name_at slot) name 0

-- The blocks that hold `size` bytes.
unfoldable pub block_span : ℕ → ℕ
block_span size = add32 size 511 / 512

abbrev pub at_least_one : ℕ → ℕ
at_least_one n = if n == 0 then 1 else n

-- The bytes of the next block, when `remain` are left.
abbrev pub chunk : ℕ → ℕ
chunk remain = if ltb 512 remain then 512 else remain

-- The block that holds the bytes of the buffer from `written` on.
unfoldable pub block_of : Bytes → ℕ → ℕ → Bytes
block_of buf written remain =
    let n = chunk remain in
    if not (n == 0) then memcpy n (memset 512 blank 0 0) 0 buf written else memset 512 blank 0 0

unfoldable pub root_bad : Bytes → Bool
root_bad root = not (load16 root 0 == mode_dir) || not (load32 root (direct_at 0) == 7)

module _ {S : Type 0} (dev : Device S) where
  unfoldable pub zero_all : ℕ → ℕ → Action S (Unit {0})
  zero_all zero lba = pure tt
  zero_all (suc n) lba = do dev_write dev lba zero_block; zero_all n (lba + 1)

  unfoldable pub format : Action S (Unit {0})
  format = do
    raise_if (ltb dev.block_count 16 || ltb 4096 dev.block_count) einval
    zero_all dev.block_count 0
    dev_write dev 0 (super_block dev.block_count)
    store_bmaps dev first_inode_map first_block_map
    write_inode dev 1 root_inode
    dev_flush dev

  unfoldable pub mount : Action S Mount
  mount = do
    sb ← load_super dev
    root ← read_inode dev 1
    raise_if (root_bad root) ecorrupt
    pure (record { block_count = load32 sb (word 3); data_start = load32 sb (word 11) })

  -- The directory's search has an answer other than 0 unless the name is there.
  unfoldable pub missing : Result (ℕ × ℕ) × S → Result (Unit {0}) × S
  missing (ok found, s) = (err eexist, s)
  missing (err e, s) = (ok tt, s)

  unfoldable pub create : Bytes → Action S (Unit {0})
  create name = do
    n ← lift (valid_name name)
    λ s. missing (find_dirent dev name s)
    block ← dev_read dev 7
    slot ← or_raise (free_slot 16 0 block) enospc
    new ← alloc_inode_block dev
    write_inode dev new.0 (file_inode new.1)
    dev_write dev 7 (add_dirent block slot new.0 name n)
    dev_flush dev

  -- A block for each of the `left` places from `i` on that has none.
  unfoldable pub alloc_blocks : ℕ → ℕ → Bytes → Action S Bytes
  alloc_blocks zero i inode = pure inode
  alloc_blocks (suc left) i inode = elim (load32 inode (direct_at i) == 0) [
    | false ↦ alloc_blocks left (i + 1) inode
    | true ↦ do
      lba ← alloc_data_block dev
      alloc_blocks left (i + 1) (store32 inode (direct_at i) lba)
  ]

  unfoldable pub write_blocks : ℕ → ℕ → ℕ → Bytes → Bytes → ℕ → Action S (Unit {0})
  write_blocks zero i written inode buf len = pure tt
  write_blocks (suc left) i written inode buf len = do
    dev_write dev (load32 inode (direct_at i)) (block_of buf written (len - written))
    write_blocks left (i + 1) (written + chunk (len - written)) inode buf len

  -- The inode of the file with the name, and its number.
  unfoldable pub open_file : Bytes → Action S (ℕ × ℕ × Bytes)
  open_file name = do
    found ← find_dirent dev name
    inode ← read_inode dev found.1
    raise_if (not (load16 inode 0 == mode_file)) eisdir
    pure (found.0, found.1, inode)

  unfoldable pub write : Bytes → Bytes → ℕ → Action S (Unit {0})
  write name buf len = do
    raise_if (ltb 4096 len) erange
    file ← open_file name
    inode ← alloc_blocks (at_least_one (block_span len)) 0 file.2
    write_blocks (at_least_one (block_span len)) 0 0 inode buf len
    write_inode dev file.1 (store32 inode 4 len)
    dev_flush dev

  unfoldable pub read_blocks : ℕ → ℕ → ℕ → Mount → Bytes → ℕ → Bytes → Action S Bytes
  read_blocks zero i copied mnt inode size buf = pure buf
  read_blocks (suc left) i copied mnt inode size buf = do
    let lba = load32 inode (direct_at i)
    raise_if (lba == 0 || leb mnt.block_count lba) ecorrupt
    block ← dev_read dev lba
    read_blocks left (i + 1) (copied + chunk (size - copied)) mnt inode size
        (memcpy (chunk (size - copied)) buf copied block 0)

  -- The buffer and the length that a read answers.
  unfoldable pub read : Mount → Bytes → Bytes → ℕ → Action S (Bytes × ℕ)
  read mnt name buf cap = do
    file ← open_file name
    let size = load32 file.2 4
    raise_if (ltb cap size) erange
    filled ← read_blocks (block_span size) 0 0 mnt file.2 size buf
    pure (filled, size)

  unfoldable pub unlink : Bytes → Action S (Unit {0})
  unlink name = do
    file ← open_file name
    block ← dev_read dev 7
    dev_write dev 7 (memset 32 block (dirent_at file.0) 0)
    free_inode_and_blocks dev file.1 file.2
    write_inode dev file.1 (memset 60 blank 0 0)
    dev_flush dev
