-- ===== src/Mcsfs/Entry.antt =====
-- fs/mcsfs1/mcsfs1.c: the directory entry and the inode of a new file.
use m4_trio.Base.{
  ℕ, zero, suc, ◌+◌, ◌≤◌, ◌<◌, ◌≡◌, ◌≢◌, ◌⊎◌, inl, inr, refl, sym, ap, ◌∙◌, some, arith,
}
use m4_trio.Mcsfs.{Bytes}
use m4_trio.Mcsfs.Memory.{store16, store32, memset, blank, load16, load32}
use m4_trio.Mcsfs.Memory.Copy.{
  store8_ne, memcpy_inside, memcpy_outside, memset_inside, memset_outside,
}
use m4_trio.Mcsfs.Memory.Words.{load32-at, load32-store32, store32_outside}
use m4_trio.Mcsfs.Table.{dirent_at, name_at, direct_at, free_slot}
use m4_trio.Mcsfs.Calls.{add_dirent, file_inode, mode_file}
use m4_trio.Mcsfs.Alloc.{direct}
use m4_trio.Mcsfs.Directory.{Matches}

-- The entry's other bytes are as they were.
pub add_dirent_outside :
    (block : Bytes) (slot ino : ℕ) (name : Bytes) (n k : ℕ)
    → n ≤ 27
    → (k < dirent_at slot) ⊎ (dirent_at slot + 32 ≤ k)
    → add_dirent block slot ino name n k ≡ block k
unfolding add_dirent
add_dirent_outside block slot ino name n k le out =
    memcpy_outside n _ (name_at slot) name 0 k (ground arith)
    ∙ memset_outside 27 _ (name_at slot) 0 k (ground arith)
    ∙ store8_ne (store32 block (dirent_at slot) ino) (dirent_at slot + 4) mode_file k (ground arith)
    ∙ store32_outside block (dirent_at slot) ino k (ground arith)

pub load32-add_dirent :
    (block : Bytes) (slot ino : ℕ) (name : Bytes) (n : ℕ)
    → n ≤ 27
    → ino ≤ 32
    → load32 (add_dirent block slot ino name n) (dirent_at slot) ≡ ino
unfolding add_dirent
load32-add_dirent block slot ino name n le small =
    load32-at (add_dirent block slot ino name n) (store32 block (dirent_at slot) ino)
      (dirent_at slot) (dirent_at slot)
      (λ k lt.
        memcpy_outside n _ (name_at slot) name 0 (dirent_at slot + k) (inl (omega arith))
        ∙ memset_outside 27 _ (name_at slot) 0 (dirent_at slot + k) (inl (omega arith))
        ∙ store8_ne (store32 block (dirent_at slot) ino) (dirent_at slot + 4) mode_file
            (dirent_at slot + k) (λ e. omega (arith, e, lt)))
    ∙ load32-store32 block (dirent_at slot) ino (omega arith)

-- The entry matches its name.
pub add_dirent-Matches :
    (block : Bytes) (slot ino : ℕ) (name : Bytes) (n : ℕ)
    → n ≤ 26
    → ino ≢ 0
    → ino ≤ 32
    → Matches (add_dirent block slot ino name n) slot name n
unfolding add_dirent
add_dirent-Matches block slot ino name n le some_inode small = record {
  in_use = λ z. some_inode (sym (load32-add_dirent block slot ino name n (omega arith) small) ∙ z);
  letters = λ k lt.
      let q : 0 + k ≡ k = omega arith in memcpy_inside n _ (name_at slot) name 0 k lt ∙ ap name q;
  ends =
      memcpy_outside n _ (name_at slot) name 0 (name_at slot + n) (inr (omega arith))
      ∙ memset_inside 27 _ (name_at slot) 0 (name_at slot + n) (omega arith) (omega arith);
}

pub free_slot-some :
    (left slot : ℕ) (block : Bytes) (k : ℕ)
    → free_slot left slot block ≡ some k
    → (slot ≤ k) × (k < slot + left) × (load32 block (dirent_at k) ≡ 0)
unfolding free_slot
free_slot-some zero slot block k e = ground arith
free_slot-some (suc left) slot block k e = ground (arith, free_slot-some left (slot + 1) block k)

pub file_inode-mode : (lba : ℕ) → load16 (file_inode lba) 0 ≡ mode_file
unfolding file_inode load16 store16 store32 memset
file_inode-mode lba = refl

pub file_inode-size : (lba : ℕ) → load32 (file_inode lba) 4 ≡ 0
unfolding file_inode load32 store16 store32 memset
file_inode-size lba = refl

pub file_inode-first : (lba : ℕ) → lba < 4294967296 → direct (file_inode lba) 0 ≡ lba
unfolding file_inode load32 store16 store32 memset
file_inode-first lba lt = omega arith

file_inode-zero : (lba k : ℕ) → 12 ≤ k → k < 60 → file_inode lba k ≡ 0
unfolding file_inode store16 store32
file_inode-zero lba k low high =
    ground (arith, memset_inside 60 blank 0 0 k (omega arith) (omega arith))

pub file_inode-rest : (lba i : ℕ) → i ≢ 0 → i < 8 → direct (file_inode lba) i ≡ 0
unfolding load32
file_inode-rest lba i ne lt =
    let at = direct_at i in
    omega (
      arith,
      file_inode-zero lba at (omega arith) (omega arith),
      file_inode-zero lba (at + 1) (omega arith) (omega arith),
      file_inode-zero lba (at + 2) (omega arith) (omega arith),
      file_inode-zero lba (at + 3) (omega arith) (omega arith),
    )
