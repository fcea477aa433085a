-- ===== src/Mcsfs/Format.antt =====
-- fs/mcsfs1/mcsfs1.c: a fresh file system, and that mounting and the check accept it.
use m4_trio.Base.{
  ℕ, zero, suc, ◌+◌, ◌*◌, ◌/◌, ◌%◌, ◌≤◌, ◌<◌, ◌≡◌, ◌≢◌, refl, ap, ◌∙◌, true, false, not, ◌||◌,
  le→ltb, ==_self, lt→ltb, arith,
}
use m4_trio.Mcsfs.{Bytes, ok, err, enoent, Device}
use m4_trio.Mcsfs.Memory.{
  memset, memcpy, load16, load32, store16, store32, bit_set, bit_test, blank, valid_name,
}
use m4_trio.Mcsfs.Memory.Copy.{memset_inside}
use m4_trio.Mcsfs.Table.{dirent_at, super_ok, load_super, names, scan}
use m4_trio.Mcsfs.Calls.{
  zero_block, super_block, set_below, first_inode_map, first_block_map, root_inode, root_bad,
  zero_all, format, mount,
}
use m4_trio.Mcsfs.Check.{some_clear, check_dirents, fsck}
use m4_trio.Mcsfs.Disk.{
  IsReliable, put, inode_of, lookup, search, dev_read-ok, dev_write-ok, dev_flush-ok, read_inode-ok,
  write_inode-ok, load_bmaps-ok, store_bmaps-ok,
}
use m4_trio.Mcsfs.Inode.{put_inode}
use native.Mathlib.Decide.{ℕ_discrete}

-- The blocks of a fresh file system.
pub record IsFresh {S : Type 0} (dev : Device S) (content : S → ℕ → Bytes) (s : S) : Type 0 where
  pub super : content s 0 ≡ super_block dev.block_count
  pub inodes : content s 1 ≡ first_inode_map
  pub blocks : content s 2 ≡ first_block_map
  pub root : content s 3 ≡ memcpy 60 zero_block 0 root_inode 0
  pub empty : (lba : ℕ) → 4 ≤ lba → lba < dev.block_count → content s lba ≡ zero_block

super_block-count : (n : ℕ) → n < 4294967296 → load32 (super_block n) 12 ≡ n
unfolding load32 super_block store32 memset
super_block-count n lt = omega arith

super_block-start : (n : ℕ) → load32 (super_block n) 44 ≡ 8
unfolding load32 super_block store32 memset
super_block-start n = refl

super_block-ok : (n : ℕ) → 16 ≤ n → n ≤ 4096 → super_ok n (super_block n) ≡ true
unfolding super_ok load32 super_block store32 memset
super_block-ok n large small =
    let e : n % 256
          + 256 * (n / 256 % 256)
          + 65536 * (n / 65536 % 256)
          + 16777216 * (n / 16777216 % 256)
        ≡ n =
      omega arith in
    rw e (rw (==_self n) (lt→ltb 8 n (omega arith)))

root_fine : root_bad (memcpy 60 blank 0 (memcpy 60 zero_block 0 root_inode 0) 0) ≡ false
unfolding root_bad memcpy zero_block root_inode load16 load32 store16 store32 memset
root_fine = refl

maps_fine : (not (bit_test first_inode_map 1) || not (bit_test first_block_map 7)) ≡ false
unfolding bit_test first_inode_map first_block_map bit_set set_below zero_block memset
maps_fine = refl

low_blocks_fine : some_clear 8 0 first_block_map ≡ false
unfolding some_clear bit_test first_block_map bit_set set_below zero_block memset
low_blocks_fine = refl

zero_byte : (k : ℕ) → k < 512 → zero_block k ≡ 0
unfolding zero_block
zero_byte k lt = memset_inside 512 blank 0 0 k (omega arith) (omega arith)

zero_entry : (slot : ℕ) → slot < 16 → load32 zero_block (dirent_at slot) ≡ 0
unfolding load32
zero_entry slot lt =
    let at = dirent_at slot in
    omega (
      arith,
      zero_byte at (omega arith),
      zero_byte (at + 1) (omega arith),
      zero_byte (at + 2) (omega arith),
      zero_byte (at + 3) (omega arith),
    )

unnamed : (slot : ℕ) → slot < 16 → (name : Bytes) (n : ℕ) → names zero_block slot name n ≡ false
unfolding names
unnamed slot lt name n = rw (zero_entry slot lt) refl

no_entries :
    (left slot : ℕ)
    → slot + left ≤ 16
    → (name : Bytes) (n : ℕ) → scan left slot zero_block name n ≡ err enoent
unfolding scan
no_entries zero slot le name n = refl
no_entries (suc left) slot le name n =
    rw (unnamed slot (omega arith) name n) (no_entries left (slot + 1) (omega arith) name n)

module _ {S : Type 0} {dev : Device S} {content : S → ℕ → Bytes} (r : IsReliable dev content)
    (large : 16 ≤ dev.block_count) (small : dev.block_count ≤ 4096) where
  -- What the loop of zeros leaves.
  record Zeroed (s : S) (n lba : ℕ) (s' : S) : Type 0 where
    inside : (k : ℕ) → lba ≤ k → k < lba + n → content s' k ≡ zero_block
    outside : (k : ℕ) → k < lba → content s' k ≡ content s k

  zero_all-Zeroed :
      (n lba : ℕ) (s : S)
      → lba + n ≤ dev.block_count
      → (s' : S) × (zero_all dev n lba s ≡ (ok tt, s')) × Zeroed s n lba s'
  unfolding zero_all
  zero_all-Zeroed zero lba s le =
      (s, refl, record { inside = λ k low high. absurd (omega arith); outside = λ k lt. refl })
  zero_all-Zeroed (suc n) lba s le =
      let rest = zero_all-Zeroed n (lba + 1) (put dev s lba zero_block) (omega arith) in
      (
        rest.0,
        rw (zero_all, dev_write-ok r large s lba zero_block (omega arith)) rest.1,
        record {
          inside = λ k low high. elim (ℕ_discrete k lba) [
            | no ne ↦ rest.2.inside k (omega arith) (omega arith)
            | yes same ↦
                ap (content rest.0) same
                ∙ rest.2.outside lba (omega arith)
                ∙ r.write_here s lba zero_block
          ];
          outside = λ k lt.
              rest.2.outside k (omega arith)
              ∙ r.write_there s lba k zero_block (λ e. omega (arith, e, lt));
        },
      )

  format-IsFresh : (s : S) → (s' : S) × (format dev s ≡ (ok tt, s')) × IsFresh dev content s'
  unfolding format
  format-IsFresh s =
      let zeros = zero_all-Zeroed dev.block_count 0 s (omega arith) in
      let s0 = zeros.0 in
      let s1 = put dev s0 0 (super_block dev.block_count) in
      let s2 = put dev s1 1 first_inode_map in
      let s3 = put dev s2 2 first_block_map in
      let s4 = put_inode r large s3 1 root_inode in
      let s5 = (dev.flush s4).1 in
      let early : (lba : ℕ) → lba ≢ 3 → content s5 lba ≡ content s3 lba =
        λ lba ne. r.flush_same s4 lba ∙ r.write_there s3 3 lba _ ne in
      let late : (lba : ℕ) → 3 ≤ lba → lba < dev.block_count → content s3 lba ≡ zero_block =
        λ lba low high.
          r.write_there s2 2 lba first_block_map (λ e. omega (arith, e, low))
          ∙ r.write_there s1 1 lba first_inode_map (λ e. omega (arith, e, low))
          ∙ r.write_there s0 0 lba _ (λ e. omega (arith, e, low))
          ∙ zeros.2.inside lba (omega arith) (omega arith) in
      (
        s5,
        rw (le→ltb dev.block_count 16 large) (
            rw (le→ltb 4096 dev.block_count small) (
              rw zeros.1 (
                rw (dev_write-ok r large s0 0 (super_block dev.block_count) (omega (arith, large)))
                  (rw (store_bmaps-ok r large s1 first_inode_map first_block_map) (
                    rw (write_inode-ok r large s3 1 root_inode (omega arith) (omega arith))
                      (dev_flush-ok r large s4)))))),
        record {
          super =
              early 0 (omega arith)
              ∙ r.write_there s2 2 0 first_block_map (omega arith)
              ∙ r.write_there s1 1 0 first_inode_map (omega arith)
              ∙ r.write_here s0 0 _;
          inodes =
              early 1 (omega arith)
              ∙ r.write_there s2 2 1 first_block_map (omega arith)
              ∙ r.write_here s1 1 first_inode_map;
          blocks = early 2 (omega arith) ∙ r.write_here s2 2 first_block_map;
          root =
              r.flush_same s4 3
              ∙ r.write_here s3 3 _
              ∙ ap (λ b. memcpy 60 b 0 root_inode 0) (late 3 (omega arith) (omega (arith, large)));
          empty =
              λ lba low high. early lba (λ e. omega (arith, e, low)) ∙ late lba (omega arith) high;
        },
      )

  check_empty :
      (left slot : ℕ)
      → slot + left ≤ 16
      → (s : S)
      → check_dirents dev left slot zero_block first_inode_map first_block_map s ≡ (ok tt, s)
  unfolding check_dirents
  check_empty zero slot le s = refl
  check_empty (suc left) slot le s =
      rw (check_dirents, zero_entry slot (omega arith))
        (check_empty left (slot + 1) (omega arith) s)

  load_super-ok :
      {s : S} → IsFresh dev content s → load_super dev s ≡ (ok (super_block dev.block_count), s)
  unfolding load_super
  load_super-ok {s} f =
      rw (dev_read-ok r large s 0 (omega (arith, large)))
        (rw f.super (rw (super_block-ok dev.block_count large small) refl))

  fresh_root : {s : S} → IsFresh dev content s → root_bad (inode_of content s 1) ≡ false
  unfolding inode_of
  fresh_root {s} f = ap (λ b. root_bad (memcpy 60 blank 0 b 0)) f.root ∙ root_fine

  mount-ok :
      {s : S}
      → IsFresh dev content s
      → mount dev s ≡ (ok (record { block_count = dev.block_count; data_start = 8 }), s)
  unfolding mount
  mount-ok {s} f = rw (load_super-ok f) (
      rw (read_inode-ok r large s 1 (omega arith) (omega arith)) (
        rw (fresh_root f) (
          rw (super_block-count dev.block_count (omega (arith, small)))
            (rw (super_block-start dev.block_count) refl))))

  fsck-ok : {s : S} → IsFresh dev content s → fsck dev s ≡ (ok tt, s)
  unfolding fsck
  fsck-ok {s} f = rw (load_super-ok f) (
      rw (load_bmaps-ok r large s) (
        rw (f.inodes, f.blocks, maps_fine, low_blocks_fine)
          (rw (read_inode-ok r large s 1 (omega arith) (omega arith)) (
            rw (fresh_root f) (
              rw (dev_read-ok r large s 7 (omega (arith, large))) (
                rw (f.empty 7 (omega arith) (omega (arith, large)))
                  (check_empty 16 0 (omega arith) s)))))))

  -- What a format leaves.
  pub record Formatted (s' : S) : Type 0 where
    pub fresh : IsFresh dev content s'
    pub mounts : mount dev s' ≡ (ok (record { block_count = dev.block_count; data_start = 8 }), s')
    pub checks : fsck dev s' ≡ (ok tt, s')
    pub no_names :
        (name : Bytes) (n : ℕ) → valid_name name ≡ ok n → lookup content s' name ≡ err enoent

  fresh_names :
      {s : S} (name : Bytes) (n : ℕ)
      → IsFresh dev content s
      → valid_name name ≡ ok n
      → lookup content s name ≡ err enoent
  unfolding search
  fresh_names name n f e =
      rw (f.empty 7 (omega arith) (omega (arith, large)))
        (rw (search, e) (no_entries 16 0 (omega arith) name n))

  -- Formatting a working device of 16 to 4096 blocks answers 0, whatever was on it. The file system
  -- that it leaves mounts with the device's size, passes the check, and has no file under any
  -- valid name; neither the mount nor the check changes it.
  pub format-Formatted : (s : S) → (s' : S) × (format dev s ≡ (ok tt, s')) × Formatted s'
  format-Formatted s =
      let made = format-IsFresh s in
      (
        made.0,
        made.1,
        record {
          fresh = made.2;
          mounts = mount-ok made.2;
          checks = fsck-ok made.2;
          no_names = λ name n. fresh_names name n made.2;
        },
      )
