-- ===== src/Mcsfs/Disk.antt =====
-- A device that works: what it answers, and so what the tables' reads and writes answer.
use m4_trio.Base.{
  ℕ, ◌-◌, ◌≤◌, ◌<◌, ◌≡◌, ◌≢◌, ◌⊎◌, inl, inr, refl, true, false, none, some, ◌||◌, ltb, leb, ◌==◌,
  lt→leb, arith,
}
use m4_trio.Mcsfs.{
  Bytes, Result, ok, err, enospc, follow, lift, ◌>>=◌, Device, dev_read, dev_write, dev_flush,
  fetched,
}
use m4_trio.Mcsfs.Memory.{memcpy, valid_name, bit_set, bit_clear, blank, first_clear}
use m4_trio.Mcsfs.Table.{
  inode_lba, inode_offset, scan, read_inode, write_inode, load_bmaps, store_bmaps, find_dirent,
  alloc_inode_block, alloc_data_block, free_inode_and_blocks, clear_blocks,
}

-- Every access answers 0, a read gives the block that was last written there, and a write changes
-- no other block.
pub record IsReliable {S : Type 0} (dev : Device S) (content : S → ℕ → Bytes) : Type 0 where
  pub read_content : (s : S) (lba : ℕ) → dev.read s lba ≡ some (content s lba)
  pub write_done : (s : S) (lba : ℕ) (b : Bytes) → (dev.write s lba b).0 ≡ true
  pub write_here : (s : S) (lba : ℕ) (b : Bytes) → content (dev.write s lba b).1 lba ≡ b
  pub write_there :
      (s : S) (lba other : ℕ) (b : Bytes)
      → other ≢ lba
      → content (dev.write s lba b).1 other ≡ content s other
  pub flush_done : (s : S) → (dev.flush s).0 ≡ true
  pub flush_same : (s : S) (lba : ℕ) → content (dev.flush s).1 lba ≡ content s lba

-- Where a directory block has the name.
unfoldable pub search : Bytes → Bytes → Result (ℕ × ℕ)
search block name = elim (valid_name name) [ ok n ↦ scan 16 0 block name n | err e ↦ err e ]

module _ {S : Type 0} where
  abbrev pub put : Device S → S → ℕ → Bytes → S
  put dev s lba b = (dev.write s lba b).1

  -- The bytes of an inode on the disk.
  unfoldable pub inode_of : (S → ℕ → Bytes) → S → ℕ → Bytes
  inode_of content s ino = memcpy 60 blank 0 (content s (inode_lba ino)) (inode_offset ino)

  -- Where the directory has the name.
  abbrev pub lookup : (S → ℕ → Bytes) → S → Bytes → Result (ℕ × ℕ)
  lookup content s name = search (content s 7) name

module _ {S : Type 0} {dev : Device S} {content : S → ℕ → Bytes} (r : IsReliable dev content)
    (large : 16 ≤ dev.block_count) where
  pub dev_read-ok :
      (s : S) (lba : ℕ) → lba < dev.block_count → dev_read dev lba s ≡ (ok (content s lba), s)
  unfolding dev_read fetched
  dev_read-ok s lba lt = rw (lt→leb dev.block_count lba lt) (rw (r.read_content s lba) refl)

  pub dev_write-ok :
      (s : S) (lba : ℕ) (b : Bytes)
      → lba < dev.block_count
      → dev_write dev lba b s ≡ (ok tt, put dev s lba b)
  unfolding dev_write
  dev_write-ok s lba b lt = rw (lt→leb dev.block_count lba lt) (rw (r.write_done s lba b) refl)

  pub dev_flush-ok : (s : S) → dev_flush dev s ≡ (ok tt, (dev.flush s).1)
  unfolding dev_flush
  dev_flush-ok s = rw (r.flush_done s) refl

  in_table : (ino : ℕ) → ino ≢ 0 → ino ≤ 32 → (ino == 0 || ltb 32 ino) ≡ false
  in_table ino a b = ground arith

  before_directory : (ino : ℕ) → ino ≢ 0 → ino ≤ 32 → leb 8 (inode_lba ino) ≡ false
  before_directory ino a b = ground arith

  pub read_inode-ok :
      (s : S) (ino : ℕ)
      → ino ≢ 0
      → ino ≤ 32
      → read_inode dev ino s ≡ (ok (inode_of content s ino), s)
  unfolding read_inode inode_of
  read_inode-ok s ino a b = rw (in_table ino a b) (
      rw (before_directory ino a b)
        (rw (dev_read-ok s (inode_lba ino) (omega (arith, large))) refl))

  pub write_inode-ok :
      (s : S) (ino : ℕ) (inode : Bytes)
      → ino ≢ 0
      → ino ≤ 32
      → write_inode dev ino inode s ≡ (
        ok tt,
        put dev s
            (inode_lba ino)
            (memcpy 60 (content s (inode_lba ino)) (inode_offset ino) inode 0),
      )
  unfolding write_inode
  write_inode-ok s ino inode a b = rw (in_table ino a b) (
      rw (before_directory ino a b) (
        rw (dev_read-ok s (inode_lba ino) (omega (arith, large)))
          (dev_write-ok s (inode_lba ino) _ (omega (arith, large)))))

  pub load_bmaps-ok : (s : S) → load_bmaps dev s ≡ (ok (content s 1, content s 2), s)
  unfolding load_bmaps
  load_bmaps-ok s =
      rw (dev_read-ok s 1 (omega (arith, large))) (rw (dev_read-ok s 2 (omega (arith, large))) refl)

  pub store_bmaps-ok :
      (s : S) (ib bb : Bytes) → store_bmaps dev ib bb s ≡ (ok tt, put dev (put dev s 1 ib) 2 bb)
  unfolding store_bmaps
  store_bmaps-ok s ib bb =
      rw (dev_write-ok s 1 ib (omega (arith, large)))
        (dev_write-ok (put dev s 1 ib) 2 bb (omega (arith, large)))

  pub find_dirent-lookup :
      (s : S) (name : Bytes) → find_dirent dev name s ≡ (lookup content s name, s)
  unfolding find_dirent search
  find_dirent-lookup s name = searched (valid_name name)
    where
      searched :
          (v : Result ℕ)
          → follow (v, s) (λ n. dev_read dev 7 >>= λ block. lift (scan 16 0 block name n))
            ≡ ((elim v [ ok n ↦ scan 16 0 (content s 7) name n | err e ↦ err e ]), s)
      searched (ok n) = rw (dev_read-ok s 7 (omega (arith, large))) refl
      searched (err e) = refl

  pub alloc_data_block-ok :
      (s : S) (lba : ℕ)
      → first_clear (dev.block_count - 8) 8 (content s 2) ≡ some lba
      → alloc_data_block dev s
        ≡ (ok lba, put dev (put dev s 1 (content s 1)) 2 (bit_set (content s 2) lba))
  unfolding alloc_data_block
  alloc_data_block-ok s lba e =
      rw (load_bmaps-ok s)
        (rw e (rw (store_bmaps-ok s (content s 1) (bit_set (content s 2) lba)) refl))

  pub alloc_data_block-full :
      (s : S)
      → first_clear (dev.block_count - 8) 8 (content s 2) ≡ none
      → alloc_data_block dev s ≡ (err enospc, s)
  unfolding alloc_data_block
  alloc_data_block-full s e = rw (load_bmaps-ok s) (rw e refl)

  pub alloc_inode_block-ok :
      (s : S) (ino lba : ℕ)
      → first_clear 31 2 (content s 1) ≡ some ino
      → first_clear (dev.block_count - 8) 8 (content s 2) ≡ some lba
      → alloc_inode_block dev s ≡ (
        ok (ino, lba),
        put dev (put dev s 1 (bit_set (content s 1) ino)) 2 (bit_set (content s 2) lba),
      )
  unfolding alloc_inode_block
  alloc_inode_block-ok s ino lba e f = rw (load_bmaps-ok s) (
      rw e
        (rw f (rw (store_bmaps-ok s (bit_set (content s 1) ino) (bit_set (content s 2) lba)) refl)))

  pub alloc_inode_block-full :
      (s : S)
      → (first_clear 31 2 (content s 1) ≡ none)
        ⊎ ((ino : ℕ) × (first_clear 31 2 (content s 1) ≡ some ino)
            × (first_clear (dev.block_count - 8) 8 (content s 2) ≡ none))
      → alloc_inode_block dev s ≡ (err enospc, s)
  unfolding alloc_inode_block
  alloc_inode_block-full s (inl e) = rw (load_bmaps-ok s) (rw e refl)
  alloc_inode_block-full s (inr (ino, e, f)) = rw (load_bmaps-ok s) (rw e (rw f refl))

  pub free_inode_and_blocks-ok :
      (s : S) (ino : ℕ) (inode : Bytes)
      → free_inode_and_blocks dev ino inode s ≡ (
        ok tt,
        put dev
            (put dev s 1 (bit_clear (content s 1) ino))
            2
            (clear_blocks 8 0 dev.block_count inode (content s 2)),
      )
  unfolding free_inode_and_blocks
  free_inode_and_blocks-ok s ino inode = rw (load_bmaps-ok s) (
      store_bmaps-ok s (bit_clear (content s 1) ino)
        (clear_blocks 8 0 dev.block_count inode (content s 2)))
