-- ===== src/Mcsfs/Check.antt =====
-- fs/mcsfs1/mcsfs1.c: the check of a file system, `mcsfs1_fsck`.
use m4_trio.Base.{ℕ, zero, suc, ◌+◌, Bool, true, false, not, ◌||◌, ltb, leb, ◌==◌, if◌then◌else◌}
use m4_trio.Mcsfs.{Bytes, ecorrupt, Action, pure, ◌>>=◌, ◌>>◌, raise_if, Device, dev_read}
use m4_trio.Mcsfs.Memory.{load16, load32, bit_test}
use m4_trio.Mcsfs.Table.{direct_at, dirent_at, load_super, read_inode, load_bmaps}
use m4_trio.Mcsfs.Calls.{mode_file, root_bad, block_span, at_least_one}

-- Whether one of `n` bits from `b` on is clear.
unfoldable pub some_clear : ℕ → ℕ → Bytes → Bool
some_clear zero b bb = false
some_clear (suc n) b bb =
    let rest = some_clear n (b + 1) bb in if not (bit_test bb b) then true else rest

-- Whether one of `left` blocks of the inode from `i` on is no data block in use.
pub block_bad : ℕ → ℕ → ℕ → Bytes → Bytes → Bool
block_bad zero i block_count inode bb = false
block_bad (suc left) i block_count inode bb =
    let lba = load32 inode (direct_at i) in
    let rest = block_bad left (i + 1) block_count inode bb in
    if ltb lba 8 || leb block_count lba || not (bit_test bb lba) then true else rest

pub dirent_bad : Bytes → ℕ → Bytes → Bool
dirent_bad block slot ib =
    let ino = load32 block (dirent_at slot) in
    ltb 32 ino || not (block (dirent_at slot + 4) == mode_file) || not (bit_test ib ino)

pub inode_bad : Bytes → Bool
inode_bad inode = not (load16 inode 0 == mode_file) || ltb 4096 (load32 inode 4)

module _ {S : Type 0} (dev : Device S) where
  pub check_dirent : ℕ → Bytes → Bytes → Bytes → Action S (Unit {0})
  check_dirent slot block ib bb = do
    raise_if (dirent_bad block slot ib) ecorrupt
    inode ← read_inode dev (load32 block (dirent_at slot))
    raise_if (inode_bad inode) ecorrupt
    raise_if (block_bad (at_least_one (block_span (load32 inode 4))) 0 dev.block_count inode bb)
        ecorrupt

  unfoldable pub check_dirents : ℕ → ℕ → Bytes → Bytes → Bytes → Action S (Unit {0})
  check_dirents zero slot block ib bb = pure tt
  check_dirents (suc left) slot block ib bb = elim (load32 block (dirent_at slot) == 0) [
    | true ↦ check_dirents left (slot + 1) block ib bb
    | false ↦ do check_dirent slot block ib bb; check_dirents left (slot + 1) block ib bb
  ]

  unfoldable pub fsck : Action S (Unit {0})
  fsck = do
    sb ← load_super dev
    maps ← load_bmaps dev
    raise_if (not (bit_test maps.0 1) || not (bit_test maps.1 7)) ecorrupt
    raise_if (some_clear 8 0 maps.1) ecorrupt
    root ← read_inode dev 1
    raise_if (root_bad root) ecorrupt
    block ← dev_read dev 7
    check_dirents 16 0 block maps.0 maps.1
