-- ===== src/Mcsfs/Blocks.antt =====
-- fs/mcsfs1/mcsfs1.c: the loops that write and read the blocks of a file.
use m4_trio.Base.{
  ℕ, zero, suc, ◌+◌, ◌-◌, ◌*◌, ◌/◌, ◌%◌, ◌≤◌, ◌<◌, ◌≡◌, ◌≢◌, ◌⊎◌, inl, inr, refl, sym, ap, subst,
  ◌∙◌, false, ltb, leb, ◌||◌, ◌==◌, lt→ltb, Bool-cases, if◌then◌else◌, arith,
}
use m4_trio.Mcsfs.{Bytes, ok, Device, Mount}
use m4_trio.Mcsfs.Memory.{memset, memcpy, blank}
use m4_trio.Mcsfs.Memory.Copy.{memcpy_to_start, memcpy_from_start, memcpy_outside, memset_inside}
use m4_trio.Mcsfs.Calls.{block_of, chunk, write_blocks, read_blocks}
use m4_trio.Mcsfs.Disk.{IsReliable, put, dev_write-ok, dev_read-ok}
use m4_trio.Mcsfs.Alloc.{direct}
use native.Mathlib.Decide.{ℕ_discrete, dec_lt}

-- How far the loop is before block `i`: whole blocks, or the end.
abbrev pub Reached : ℕ → ℕ → ℕ → Type 0
Reached i len written =
    ((512 * i ≤ len) × (written ≡ 512 * i)) ⊎ ((len < 512 * i) × (written ≡ len))

-- Byte `k` of block `i` of a file of `len` bytes, zero past the end.
abbrev pub padded : Bytes → ℕ → ℕ → ℕ → ℕ
padded buf len i k = if ltb (512 * i + k) len then buf (512 * i + k) else 0

Reached-next :
    (i len written : ℕ)
    → Reached i len written
    → Reached (i + 1) len (written + chunk (len - written))
Reached-next i len written (inl (a, b)) = ground arith
Reached-next i len written (inr (a, b)) = ground arith

zeros : (k : ℕ) → k < 512 → memset 512 blank 0 0 k ≡ 0
zeros k lt = memset_inside 512 blank 0 0 k (omega arith) (omega arith)

block_of_copied :
    (buf : Bytes) (written remain k : ℕ)
    → k < chunk remain
    → block_of buf written remain k ≡ buf (written + k)
unfolding block_of
block_of_copied buf written remain k lt =
    let some_bytes : (chunk remain == 0) ≡ false = ground arith in
    rw some_bytes (memcpy_to_start (chunk remain) (memset 512 blank 0 0) buf written k lt)

block_of_filler :
    (buf : Bytes) (written remain k : ℕ)
    → chunk remain ≤ k
    → k < 512
    → block_of buf written remain k ≡ 0
unfolding block_of
block_of_filler buf written remain k high lt = elim (Bool-cases (chunk remain == 0)) [
  | inl none_left ↦ rw none_left (zeros k lt)
  | inr some_bytes ↦ rw some_bytes (
      memcpy_outside (chunk remain) (memset 512 blank 0 0) 0 buf written k
        (inr (omega (arith, high)))
      ∙ zeros k lt)
]

block_of-padded :
    (buf : Bytes) (len i written k : ℕ)
    → Reached i len written
    → k < 512
    → block_of buf written (len - written) k ≡ padded buf len i k
block_of-padded buf len i written k (inr (past, at)) lt =
    block_of_filler buf written (len - written) k (ground arith) lt ∙ ground arith
block_of-padded buf len i written k (inl (within, at)) lt = elim (dec_lt (512 * i + k) len) [
  | yes inside ↦
      block_of_copied buf written (len - written) k (ground arith)
      ∙ ap (λ n. buf (n + k)) at
      ∙ sym (ap (λ b. if b then buf (512 * i + k) else 0) (lt→ltb (512 * i + k) len inside))
  | no outside ↦ block_of_filler buf written (len - written) k (ground arith) lt ∙ ground arith
]

-- Byte `k` of the part that the loop copies at block `i`.
place :
    {size copied k : ℕ} (i : ℕ)
    → Reached i size copied
    → copied ≤ k
    → k < size
    → k < copied + chunk (size - copied)
    → i ≡ k / 512
place i reached low high now = ground arith

offset :
    {size copied k : ℕ} (i : ℕ)
    → Reached i size copied
    → copied ≤ k
    → k < size
    → k < copied + chunk (size - copied)
    → k - copied ≡ k % 512
offset i reached low high now = ground arith

-- The places below `n` hold data blocks, each another.
pub record Spread (inode : Bytes) (block_count n : ℕ) : Type 0 where
  pub low : (j : ℕ) → j < n → 8 ≤ direct inode j
  pub high : (j : ℕ) → j < n → direct inode j < block_count
  pub apart : (j k : ℕ) → j < n → k < n → direct inode j ≡ direct inode k → j ≡ k

module _ {S : Type 0} {dev : Device S} {content : S → ℕ → Bytes} (r : IsReliable dev content)
    (large : 16 ≤ dev.block_count) where
  -- What the loop of a write leaves from block `i` on.
  pub record Stored (s : S) (inode buf : Bytes) (len i n : ℕ) (s' : S) : Type 0 where
    pub others :
        (lba : ℕ)
        → ((j : ℕ) → i ≤ j → j < n → lba ≢ direct inode j)
        → content s' lba ≡ content s lba
    pub here :
        (j k : ℕ) → i ≤ j → j < n → k < 512 → content s' (direct inode j) k ≡ padded buf len j k

  write_blocks_step :
      (left i written : ℕ) (inode buf : Bytes) (len : ℕ) (s : S)
      → direct inode i < dev.block_count
      → write_blocks dev (suc left) i written inode buf len s
        ≡ write_blocks dev left
            (i + 1)
            (written + chunk (len - written))
            inode
            buf
            len
            (put dev s (direct inode i) (block_of buf written (len - written)))
  unfolding write_blocks
  write_blocks_step left i written inode buf len s lt =
      rw
        (
          write_blocks,
          dev_write-ok r large s (direct inode i) (block_of buf written (len - written)) lt,
        )
        refl

  pub write_blocks-Stored :
      (left i : ℕ) {n written : ℕ} (inode buf : Bytes) (len : ℕ) (s : S)
      → Spread inode dev.block_count n
      → i + left ≡ n
      → Reached i len written
      → (s' : S) × (write_blocks dev left i written inode buf len s ≡ (ok tt, s'))
        × Stored s inode buf len i n s'
  unfolding write_blocks
  write_blocks-Stored zero i inode buf len s v e reached =
      (s, refl, record { others = λ lba ne. refl; here = λ j k low high. absurd (omega arith) })
  write_blocks-Stored (suc left) i {n} {written} inode buf len s v e reached =
      let b = block_of buf written (len - written) in
      let s1 = put dev s (direct inode i) b in
      let rest =
        write_blocks-Stored left (i + 1) inode buf len s1 v (omega arith)
          (Reached-next i len written reached) in
      (
        rest.0,
        write_blocks_step left i written inode buf len s (v.high i (omega arith)) ∙ rest.1,
        record {
          others = λ lba ne.
              rest.2.others lba (λ j low high. ne j (omega arith) high)
              ∙ r.write_there s (direct inode i) lba b (ne i (omega arith) (omega arith));
          here = λ j k low high lt. elim (ℕ_discrete j i) [
            | no ne ↦ rest.2.here j k (omega arith) high lt
            | yes same ↦
                subst (λ x. content rest.0 (direct inode x) k ≡ padded buf len x k) (sym same)
                  (ap (λ f. f k)
                      (rest.2.others (direct inode i) (λ m m_low m_high both.
                          omega (arith, v.apart i m (omega arith) m_high both))
                        ∙ r.write_here s (direct inode i) b)
                    ∙ block_of-padded buf len i written k reached lt)
          ];
        },
      )

  -- What the loop of a read leaves in the buffer.
  pub record Gathered (s : S) (inode : Bytes) (size copied n : ℕ) (buf buf' : Bytes) : Type 0 where
    pub inside :
        (k : ℕ)
        → copied ≤ k
        → k < size
        → k < 512 * n
        → buf' k ≡ content s (direct inode (k / 512)) (k % 512)
    pub outside : (k : ℕ) → (k < copied) ⊎ (size ≤ k) → buf' k ≡ buf k

  read_blocks_step :
      (left i copied : ℕ) (mnt : Mount) (inode : Bytes) (size : ℕ) (buf : Bytes) (s : S)
      → 8 ≤ direct inode i
      → direct inode i < mnt.block_count
      → direct inode i < dev.block_count
      → read_blocks dev (suc left) i copied mnt inode size buf s
        ≡ read_blocks dev left
            (i + 1)
            (copied + chunk (size - copied))
            mnt
            inode
            size
            (memcpy (chunk (size - copied)) buf copied (content s (direct inode i)) 0)
            s
  unfolding read_blocks
  read_blocks_step left i copied mnt inode size buf s low mounted high =
      let good : (direct inode i == 0 || leb mnt.block_count (direct inode i)) ≡ false =
        ground arith in
      rw (read_blocks, good, dev_read-ok r large s (direct inode i) high) refl

  pub read_blocks-Gathered :
      (left i : ℕ) {n copied : ℕ} (mnt : Mount) (inode : Bytes) (size : ℕ) (buf : Bytes) (s : S)
      → mnt.block_count ≡ dev.block_count
      → Spread inode dev.block_count n
      → i + left ≡ n
      → Reached i size copied
      → (buf' : Bytes) × (read_blocks dev left i copied mnt inode size buf s ≡ (ok buf', s))
        × Gathered s inode size copied n buf buf'
  unfolding read_blocks
  read_blocks-Gathered zero i mnt inode size buf s bc v e reached = (
    buf,
    refl,
    record { inside = λ k low high below. absurd (ground arith); outside = λ k h. refl },
  )
  read_blocks-Gathered (suc left) i {n} {copied} mnt inode size buf s bc v e reached =
      let m = chunk (size - copied) in
      let block = content s (direct inode i) in
      let buf1 = memcpy m buf copied block 0 in
      let rest =
        read_blocks-Gathered left (i + 1) mnt inode size buf1 s bc v (omega arith)
          (Reached-next i size copied reached) in
      (
        rest.0,
        read_blocks_step left i copied mnt inode size buf s (v.low i (omega arith))
              (omega (arith, bc, v.high i (omega arith))) (v.high i (omega arith))
            ∙ rest.1,
        record {
          inside = λ k low high below. elim (dec_lt k (copied + m)) [
            | no later ↦ rest.2.inside k (ground arith) high below
            | yes now ↦
                rest.2.outside k (inl now)
                ∙ memcpy_from_start m buf copied block k low now
                ∙ ap block (offset i reached low high now)
                ∙ ap (λ x. content s (direct inode x) (k % 512)) (place i reached low high now)
          ];
          outside = λ k h.
              rest.2.outside k (ground arith)
              ∙ memcpy_outside m buf copied block 0 k (ground arith);
        },
      )
