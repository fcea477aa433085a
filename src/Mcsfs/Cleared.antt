-- ===== src/Mcsfs/Cleared.antt =====
-- fs/mcsfs1/mcsfs1.c: the directory less an entry, and the bitmap of blocks less a file's.
use m4_trio.Base.{
  ℕ, zero, suc, ◌+◌, ◌≤◌, ◌<◌, ◌≡◌, ◌≢◌, inl, inr, refl, sym, ap, subst, ◌∙◌, true, false,
  Bool-cases, ltb, not, ◌&&◌, ◌==◌, if◌then◌else◌, arith,
}
use m4_trio.Mcsfs.{Bytes, err, enoent}
use m4_trio.Mcsfs.Memory.{memset, load32, bit_clear, bit_test}
use m4_trio.Mcsfs.Memory.Bits.{AreOctets, bit_test-bit_clear, bit_clear-AreOctets}
use m4_trio.Mcsfs.Memory.Copy.{memset_inside, memset_outside}
use m4_trio.Mcsfs.Memory.Words.{load32-at}
use m4_trio.Mcsfs.Table.{dirent_at, scan, names, clear_blocks}
use m4_trio.Mcsfs.Alloc.{direct, not_both}
use m4_trio.Mcsfs.Directory.{names-Matches, Matches-Same, Same, names-same, scan-none, scan-same}
use m4_trio.Mcsfs.Strings.{IsString}
use m4_trio.Mcsfs.Added.{free_names}
use native.Mathlib.Decide.{ℕ_discrete}

-- The directory with the bytes of an entry cleared.
module _ (block : Bytes) (slot : ℕ) (fits : slot < 16) where
  abbrev cleared : Bytes
  cleared = memset 32 block (dirent_at slot) 0

  cleared_outside :
      (j : ℕ) → j ≢ slot → (k : ℕ) → k < 32 → cleared (dirent_at j + k) ≡ block (dirent_at j + k)
  cleared_outside j ne k lt =
      memset_outside 32 block (dirent_at slot) 0 (dirent_at j + k) (ground arith)

  cleared_free : load32 cleared (dirent_at slot) ≡ 0
  unfolding load32
  cleared_free =
      let at = dirent_at slot in
      omega (
        arith,
        memset_inside 32 block at 0 at (omega arith) (omega arith),
        memset_inside 32 block at 0 (at + 1) (omega arith) (omega arith),
        memset_inside 32 block at 0 (at + 2) (omega arith) (omega arith),
        memset_inside 32 block at 0 (at + 3) (omega arith) (omega arith),
      )

  cleared_elsewhere :
      (other : Bytes) (m : ℕ)
      → IsString other 0 m
      → m ≤ 26
      → (j : ℕ) → j ≢ slot
      → names cleared j other m ≡ names block j other m
  cleared_elsewhere other m w m_le j ne = names-same cleared block j (cleared_outside j ne) w m_le

  -- The name of the only entry that had it is gone.
  pub scan-cleared :
      (name : Bytes) (n : ℕ)
      → IsString name 0 n
      → n ≤ 26
      → ((j : ℕ) → j < 16 → j ≢ slot → names block j name n ≡ false)
      → scan 16 0 cleared name n ≡ err enoent
  scan-cleared name n v le only = scan-none 16 0 cleared name n λ j low high.
      elim (ℕ_discrete j slot) [
        | yes e ↦ ap (λ x. names cleared x name n) e ∙ free_names cleared slot name n cleared_free
        | no ne ↦ cleared_elsewhere name n v le j ne ∙ only j (omega (arith, high)) ne
      ]

  pub scan-cleared_other :
      (name other : Bytes) (n m : ℕ)
      → IsString name 0 n
      → n ≤ 27
      → names block slot name n ≡ true
      → IsString other 0 m
      → m ≤ 26
      → ¬ Same other m name n
      → scan 16 0 cleared other m ≡ scan 16 0 block other m
  scan-cleared_other name other n m v le held w m_le differs =
      let away : names block slot other m ≡ false = elim (Bool-cases (names block slot other m)) [
        | inr e ↦ e
        | inl e ↦ absurd (
            differs (
              Matches-Same w (omega (arith, m_le)) v le
                (names-Matches block slot other m (omega (arith, m_le)) e)
                (names-Matches block slot name n le held)))
      ] in
      scan-same 16 0 cleared block other m
        (λ j low high. elim (ℕ_discrete j slot) [
          | no ne ↦ cleared_elsewhere other m w m_le j ne
          | yes e ↦
              ap (λ x. names cleared x other m) e
              ∙ free_names cleared slot other m cleared_free
              ∙ sym away
              ∙ ap (λ x. names block x other m) (sym e)
        ])
        λ j low high in_use. elim (ℕ_discrete j slot) [
          | no ne ↦
              load32-at cleared block (dirent_at j) (dirent_at j)
                λ k lt. cleared_outside j ne k (omega arith)
          | yes e ↦ absurd (not_both in_use (ap (λ x. names block x other m) e ∙ away))
        ]

-- What the loop does to the bitmap at one place.
clear_one : (block_count lba : ℕ) (bb : Bytes) → Bytes
clear_one block_count lba bb =
    if not (lba == 0) && ltb lba block_count then bit_clear bb lba else bb

clear_one-AreOctets :
    (block_count lba : ℕ) (bb : Bytes) → AreOctets bb → AreOctets (clear_one block_count lba bb)
unfolding clear_one
clear_one-AreOctets block_count lba bb h =
    elim (Bool-cases (not (lba == 0) && ltb lba block_count)) [
      | inl e ↦ rw e (bit_clear-AreOctets bb lba h)
      | inr e ↦ rw e h
    ]

clear_one_ne :
    (block_count lba : ℕ) (bb : Bytes) (at : ℕ)
    → AreOctets bb
    → (lba ≢ 0 → at ≢ lba)
    → bit_test (clear_one block_count lba bb) at ≡ bit_test bb at
unfolding clear_one
clear_one_ne block_count lba bb at h ne = elim (ℕ_discrete lba 0) [
  | yes z ↦ rw z refl
  | no some_block ↦ let away = ne some_block in ground (arith, bit_test-bit_clear bb lba at h, away)
]

clear_one_off :
    (block_count lba : ℕ) (bb : Bytes) (at : ℕ)
    → AreOctets bb
    → bit_test bb at ≡ false
    → bit_test (clear_one block_count lba bb) at ≡ false
unfolding clear_one
clear_one_off block_count lba bb at h off = ground (arith, bit_test-bit_clear bb lba at h)

clear_one_self :
    (block_count lba : ℕ) (bb : Bytes)
    → AreOctets bb
    → lba ≢ 0
    → lba < block_count
    → bit_test (clear_one block_count lba bb) lba ≡ false
unfolding clear_one
clear_one_self block_count lba bb h ne lt = ground (arith, bit_test-bit_clear bb lba lba h)

clear_blocks-step :
    (left i block_count : ℕ) (inode bb : Bytes)
    → clear_blocks (suc left) i block_count inode bb
      ≡ clear_blocks left (i + 1) block_count inode (clear_one block_count (direct inode i) bb)
unfolding clear_blocks clear_one
clear_blocks-step left i block_count inode bb = refl

pub clear_blocks-AreOctets :
    (left i block_count : ℕ) (inode bb : Bytes)
    → AreOctets bb
    → AreOctets (clear_blocks left i block_count inode bb)
unfolding clear_blocks
clear_blocks-AreOctets zero i block_count inode bb h = h
clear_blocks-AreOctets (suc left) i block_count inode bb h =
    subst AreOctets (sym (clear_blocks-step left i block_count inode bb)) (
      clear_blocks-AreOctets left (i + 1) block_count inode
        (clear_one block_count (direct inode i) bb)
        (clear_one-AreOctets block_count (direct inode i) bb h))

-- A block that the inode does not have keeps its bit.
pub clear_blocks_other :
    (left i block_count : ℕ) (inode bb : Bytes) (at : ℕ)
    → AreOctets bb
    → ((j : ℕ) → i ≤ j → j < i + left → direct inode j ≢ 0 → at ≢ direct inode j)
    → bit_test (clear_blocks left i block_count inode bb) at ≡ bit_test bb at
unfolding clear_blocks
clear_blocks_other zero i block_count inode bb at h away = refl
clear_blocks_other (suc left) i block_count inode bb at h away =
    ap (λ b. bit_test b at) (clear_blocks-step left i block_count inode bb)
    ∙ clear_blocks_other left (i + 1) block_count inode (clear_one block_count (direct inode i) bb)
        at (clear_one-AreOctets block_count (direct inode i) bb h)
        (λ j low high. away j (omega (arith, low)) (omega (arith, high)))
    ∙ clear_one_ne block_count (direct inode i) bb at h (away i (omega arith) (omega arith))

clear_blocks_off :
    (left i block_count : ℕ) (inode bb : Bytes) (at : ℕ)
    → AreOctets bb
    → bit_test bb at ≡ false
    → bit_test (clear_blocks left i block_count inode bb) at ≡ false
unfolding clear_blocks
clear_blocks_off zero i block_count inode bb at h off = off
clear_blocks_off (suc left) i block_count inode bb at h off =
    ap (λ b. bit_test b at) (clear_blocks-step left i block_count inode bb)
    ∙ clear_blocks_off left (i + 1) block_count inode (clear_one block_count (direct inode i) bb) at
        (clear_one-AreOctets block_count (direct inode i) bb h)
        (clear_one_off block_count (direct inode i) bb at h off)

-- The bit of a block that the inode has is cleared.
pub clear_blocks_own :
    (left i block_count : ℕ) (inode bb : Bytes) (j : ℕ)
    → AreOctets bb
    → i ≤ j
    → j < i + left
    → direct inode j ≢ 0
    → direct inode j < block_count
    → bit_test (clear_blocks left i block_count inode bb) (direct inode j) ≡ false
unfolding clear_blocks
clear_blocks_own zero i block_count inode bb j h low high ne lt = absurd (omega arith)
clear_blocks_own (suc left) i block_count inode bb j h low high ne lt =
    let next = clear_one block_count (direct inode i) bb in
    let next_h = clear_one-AreOctets block_count (direct inode i) bb h in
    ap (λ b. bit_test b (direct inode j)) (clear_blocks-step left i block_count inode bb)
    ∙ elim (ℕ_discrete j i) [
      | no away ↦
          clear_blocks_own left (i + 1) block_count inode next j next_h (omega arith) (omega arith)
            ne lt
      | yes here ↦ clear_blocks_off left (i + 1) block_count inode next (direct inode j) next_h (
          ap (λ x. bit_test (clear_one block_count (direct inode x) bb) (direct inode j)) (sym here)
          ∙ clear_one_self block_count (direct inode j) bb h ne lt)
    ]
