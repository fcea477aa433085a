-- ===== src/Mcsfs/Inode.antt =====
-- fs/mcsfs1/mcsfs1.c: the inodes on the disk, and a write of one of them.
use m4_trio.Base.{ℕ, ◌+◌, ◌≤◌, ◌<◌, ◌≡◌, ◌≢◌, ◌⊎◌, sym, ap, ◌∙◌, arith}
use m4_trio.Mcsfs.{Bytes, Device}
use m4_trio.Mcsfs.Memory.{memcpy, blank, load16, load32}
use m4_trio.Mcsfs.Memory.Copy.{memcpy_inside, memcpy_outside, memcpy_to_start}
use m4_trio.Mcsfs.Memory.Words.{load32-at, load16-at}
use m4_trio.Mcsfs.Table.{inode_lba, inode_offset, direct_at}
use m4_trio.Mcsfs.Disk.{IsReliable, put, inode_of}
use m4_trio.Mcsfs.Alloc.{direct}
use native.Mathlib.Decide.{ℕ_discrete}

-- Two inodes with the same bytes.
abbrev pub Alike : Bytes → Bytes → Type 0
Alike a b = (k : ℕ) → k < 60 → a k ≡ b k

pub Alike-load32 : {a b : Bytes} (at : ℕ) → at + 4 ≤ 60 → Alike a b → load32 a at ≡ load32 b at
Alike-load32 {a} {b} at fits e = load32-at a b at at λ k lt. e (at + k) (omega arith)

pub Alike-mode : {a b : Bytes} → Alike a b → load16 a 0 ≡ load16 b 0
Alike-mode {a} {b} e = load16-at a b 0 λ k lt. e (0 + k) (omega arith)

pub Alike-direct : {a b : Bytes} (i : ℕ) → i < 8 → Alike a b → direct a i ≡ direct b i
Alike-direct i lt e = Alike-load32 (direct_at i) (omega arith) e

module _ {S : Type 0} {dev : Device S} {content : S → ℕ → Bytes} (r : IsReliable dev content)
    (large : 16 ≤ dev.block_count) where
  -- The state after a write of an inode.
  abbrev pub put_inode : S → ℕ → Bytes → S
  put_inode s ino inode =
      put dev s (inode_lba ino) (memcpy 60 (content s (inode_lba ino)) (inode_offset ino) inode 0)

  pub inode_of-same :
      {s s' : S} (ino : ℕ)
      → content s' (inode_lba ino) ≡ content s (inode_lba ino)
      → Alike (inode_of content s' ino) (inode_of content s ino)
  unfolding inode_of
  inode_of-same ino e k lt = ap (λ b. memcpy 60 blank 0 b (inode_offset ino) k) e

  pub inode_of-put :
      (s : S) (ino : ℕ) (inode : Bytes) → Alike (inode_of content (put_inode s ino inode) ino) inode
  unfolding inode_of
  inode_of-put s ino inode k lt =
      memcpy_to_start 60 blank (content (put_inode s ino inode) (inode_lba ino)) (inode_offset ino)
        k lt
      ∙ ap (λ b. b (inode_offset ino + k))
          (r.write_here s (inode_lba ino)
            (memcpy 60 (content s (inode_lba ino)) (inode_offset ino) inode 0))
      ∙ memcpy_inside 60 (content s (inode_lba ino)) (inode_offset ino) inode 0 k lt
      ∙ ap inode (omega arith)

  pub inode_of-put_other :
      (s : S) (ino other : ℕ) (inode : Bytes)
      → ino ≢ 0
      → other ≢ 0
      → other ≢ ino
      → Alike (inode_of content (put_inode s ino inode) other) (inode_of content s other)
  unfolding inode_of
  inode_of-put_other s ino other inode a b ne k lt =
      elim (ℕ_discrete (inode_lba other) (inode_lba ino)) [
        | no away ↦
            inode_of-same other (r.write_there s (inode_lba ino) (inode_lba other) _ away) k lt
        | yes same ↦
            memcpy_to_start 60 blank (content (put_inode s ino inode) (inode_lba other))
              (inode_offset other) k lt
            ∙ ap (λ x. content (put_inode s ino inode) x (inode_offset other + k)) same
            ∙ ap (λ y. y (inode_offset other + k))
                (r.write_here s (inode_lba ino)
                  (memcpy 60 (content s (inode_lba ino)) (inode_offset ino) inode 0))
            ∙ memcpy_outside 60 (content s (inode_lba ino)) (inode_offset ino) inode 0
                (inode_offset other + k) (apart same)
            ∙ ap (λ x. content s x (inode_offset other + k)) (sym same)
            ∙ sym (memcpy_to_start 60 blank (content s (inode_lba other)) (inode_offset other) k lt)
      ]
    where
      apart :
          inode_lba other ≡ inode_lba ino
          → (inode_offset other + k < inode_offset ino)
            ⊎ (inode_offset ino + 60 ≤ inode_offset other + k)
      apart same = ground arith
