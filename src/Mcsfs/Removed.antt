-- ===== src/Mcsfs/Removed.antt =====
-- fs/mcsfs1/mcsfs1.c: the disk less a file.
use m4_trio.Base.{
  ℕ, ◌≤◌, ◌<◌, ◌≡◌, ◌≢◌, refl, sym, ap, subst, ◌∙◌, true, false, ◌==◌, if◌then◌else◌, arith,
}
use m4_trio.Mcsfs.{Bytes, ok, err, enoent, Device}
use m4_trio.Mcsfs.Memory.{bit_clear, bit_test, memset, blank, valid_name}
use m4_trio.Mcsfs.Memory.Bits.{AreOctets, bit_test-bit_clear, bit_clear-AreOctets}
use m4_trio.Mcsfs.Memory.Copy.{memset_inside}
use m4_trio.Mcsfs.Table.{inode_lba, dirent_at, scan, names, clear_blocks}
use m4_trio.Mcsfs.Disk.{IsReliable, put, inode_of, lookup, search}
use m4_trio.Mcsfs.Alloc.{direct}
use m4_trio.Mcsfs.Inode.{Alike, put_inode, inode_of-same, inode_of-put, inode_of-put_other}
use m4_trio.Mcsfs.File.{IsFile}
use m4_trio.Mcsfs.Directory.{Same, scan-names}
use m4_trio.Mcsfs.Strings.{IsString, valid_name-IsString}
use m4_trio.Mcsfs.Cleared.{
  scan-cleared, scan-cleared_other, clear_blocks-AreOctets, clear_blocks_other, clear_blocks_own,
}

module _ {S : Type 0} (dev : Device S) (content : S → ℕ → Bytes) where
  -- What an unlink leaves.
  pub record Removed (s : S) (name : Bytes) (n ino : ℕ) (s' : S) : Type 0 where
    pub gone : lookup content s' name ≡ err enoent
    pub inode_free :
        (other : ℕ)
        → bit_test (content s' 1) other
          ≡ (if ino == other then false else bit_test (content s 1) other)
    pub blocks_free :
        (j : ℕ)
        → j < 8
        → direct (inode_of content s ino) j ≢ 0
        → bit_test (content s' 2) (direct (inode_of content s ino) j) ≡ false
    pub blocks_kept :
        (lba : ℕ)
        → ((j : ℕ)
            → j < 8
            → direct (inode_of content s ino) j ≢ 0
            → lba ≢ direct (inode_of content s ino) j)
        → bit_test (content s' 2) lba ≡ bit_test (content s 2) lba
    pub octets : AreOctets (content s' 1) × AreOctets (content s' 2)
    pub wiped : (k : ℕ) → k < 60 → inode_of content s' ino k ≡ 0
    pub others :
        (other : Bytes) (m : ℕ)
        → valid_name other ≡ ok m
        → m ≤ 26
        → ¬ Same other m name n
        → lookup content s' other ≡ lookup content s other
    pub other_inodes :
        (other : ℕ)
        → other ≢ 0
        → other ≤ 32
        → other ≢ ino
        → Alike (inode_of content s' other) (inode_of content s other)
    pub data_blocks : (lba : ℕ) → 8 ≤ lba → content s' lba ≡ content s lba

module _ {S : Type 0} {dev : Device S} {content : S → ℕ → Bytes} (r : IsReliable dev content)
    (large : 16 ≤ dev.block_count) (small : dev.block_count ≤ 4096) where
  module _ (s : S) (slot ino : ℕ) where
    abbrev pub directory : Bytes
    directory = memset 32 (content s 7) (dirent_at slot) 0

    abbrev pub inode : Bytes
    inode = inode_of content s ino

    abbrev pub without_entry : S
    without_entry = put dev s 7 directory

    abbrev inode_map : Bytes
    inode_map = bit_clear (content without_entry 1) ino

    abbrev block_map : Bytes
    block_map = clear_blocks 8 0 dev.block_count inode (content without_entry 2)

    abbrev pub with_maps : S
    with_maps = put dev (put dev without_entry 1 inode_map) 2 block_map

    abbrev pub wiped_inode : Bytes
    wiped_inode = memset 60 blank 0 0

    abbrev pub after : S
    after = (dev.flush (put_inode r large with_maps ino wiped_inode)).1

  module _ (s : S) (name : Bytes) (n slot ino : ℕ) (e : valid_name name ≡ ok n) (le : n ≤ 26)
      (oct : AreOctets (content s 1) × AreOctets (content s 2))
      (f : IsFile dev content s name slot ino)
      (only : (j : ℕ) → j < 16 → j ≢ slot → names (content s 7) j name n ≡ false) where
    abbrev last : S
    last = after s slot ino

    last_early : (at : ℕ) → at ≢ inode_lba ino → content last at ≡ content (with_maps s slot ino) at
    last_early at ne =
        r.flush_same (put_inode r large (with_maps s slot ino) ino (wiped_inode s slot ino)) at
        ∙ r.write_there (with_maps s slot ino) (inode_lba ino) at _ ne

    last_directory : content last 7 ≡ directory s slot ino
    last_directory =
        last_early 7 (λ z. omega (arith, z, f.in_table))
        ∙ r.write_there (put dev (without_entry s slot ino) 1 (inode_map s slot ino)) 2 7
            (block_map s slot ino) (omega arith)
        ∙ r.write_there (without_entry s slot ino) 1 7 (inode_map s slot ino) (omega arith)
        ∙ r.write_here s 7 (directory s slot ino)

    last_inode_map : content last 1 ≡ bit_clear (content s 1) ino
    last_inode_map =
        last_early 1 (λ z. omega (arith, z))
        ∙ r.write_there (put dev (without_entry s slot ino) 1 (inode_map s slot ino)) 2 1
            (block_map s slot ino) (omega arith)
        ∙ r.write_here (without_entry s slot ino) 1 (inode_map s slot ino)
        ∙ ap (λ b. bit_clear b ino) (r.write_there s 7 1 (directory s slot ino) (omega arith))

    last_block_map :
        content last 2 ≡ clear_blocks 8 0 dev.block_count (inode s slot ino) (content s 2)
    last_block_map =
        last_early 2 (λ z. omega (arith, z))
        ∙ r.write_here (put dev (without_entry s slot ino) 1 (inode_map s slot ino)) 2
            (block_map s slot ino)
        ∙ ap (clear_blocks 8 0 dev.block_count (inode s slot ino))
            (r.write_there s 7 2 (directory s slot ino) (omega arith))

    maps_rest : (at : ℕ) → 3 ≤ at → at ≢ 7 → content (with_maps s slot ino) at ≡ content s at
    maps_rest at low ne =
        r.write_there (put dev (without_entry s slot ino) 1 (inode_map s slot ino)) 2 at
          (block_map s slot ino) (λ z. omega (arith, z, low))
        ∙ r.write_there (without_entry s slot ino) 1 at (inode_map s slot ino)
            (λ z. omega (arith, z, low))
        ∙ r.write_there s 7 at (directory s slot ino) ne

    last_inode : Alike (inode_of content last ino) (wiped_inode s slot ino)
    last_inode k lt =
        inode_of-same r large ino
          (r.flush_same (put_inode r large (with_maps s slot ino) ino (wiped_inode s slot ino))
            (inode_lba ino))
          k lt
        ∙ inode_of-put r large (with_maps s slot ino) ino (wiped_inode s slot ino) k lt

    last_other_inodes :
        (other : ℕ)
        → other ≢ 0
        → other ≤ 32
        → other ≢ ino
        → Alike (inode_of content last other) (inode_of content s other)
    last_other_inodes other some_inode fits ne k lt =
        inode_of-same r large other
          (r.flush_same (put_inode r large (with_maps s slot ino) ino (wiped_inode s slot ino))
            (inode_lba other))
          k lt
        ∙ inode_of-put_other r large (with_maps s slot ino) ino other (wiped_inode s slot ino)
            f.real some_inode ne k lt
        ∙ inode_of-same r large other
            (maps_rest (inode_lba other) (omega arith) (λ z. omega (arith, z, fits))) k lt

    name-IsString : IsString name 0 n
    name-IsString = (valid_name-IsString name n e).0

    held : (slot < 16) × (names (content s 7) slot name n ≡ true)
    unfolding search
    held = scan-names 16 0 (content s 7) name n slot ino (
        let q : lookup content s name ≡ scan 16 0 (content s 7) name n = rw (search, e) refl in
        sym q ∙ f.found)

    last_gone : lookup content last name ≡ err enoent
    unfolding search
    last_gone =
        ap (λ b. search b name) last_directory
        ∙ rw (search, e) (scan-cleared (content s 7) slot held.0 name n name-IsString le only)

    last_others :
        (other : Bytes) (m : ℕ)
        → valid_name other ≡ ok m
        → m ≤ 26
        → ¬ Same other m name n
        → lookup content last other ≡ lookup content s other
    unfolding search
    last_others other m w m_le differs =
        ap (λ b. search b other) last_directory
        ∙ rw (search, w)
            (scan-cleared_other (content s 7) slot held.0 name other n m name-IsString
              (omega (arith, le)) held.1 (valid_name-IsString other m w).0 m_le differs)

    pub last-Removed : Removed dev content s name n ino last
    last-Removed = record {
      gone = last_gone;
      inode_free = λ other.
          ap (λ b. bit_test b other) last_inode_map
          ∙ bit_test-bit_clear (content s 1) ino other oct.0;
      blocks_free = λ j lt some_block.
          ap (λ b. bit_test b (direct (inode s slot ino) j)) last_block_map
          ∙ clear_blocks_own 8 0 dev.block_count (inode s slot ino) (content s 2) j oct.1
              (omega arith) (omega (arith, lt)) some_block (f.owned.used j lt some_block).high;
      blocks_kept = λ lba away.
          ap (λ b. bit_test b lba) last_block_map
          ∙ clear_blocks_other 8 0 dev.block_count (inode s slot ino) (content s 2) lba oct.1
              (λ j _ high. away j (omega (arith, high)));
      octets = (
        subst AreOctets (sym last_inode_map) (bit_clear-AreOctets (content s 1) ino oct.0),
        subst AreOctets (sym last_block_map)
            (clear_blocks-AreOctets 8 0 dev.block_count (inode s slot ino) (content s 2) oct.1),
      );
      wiped =
          λ k lt. last_inode k lt ∙ memset_inside 60 blank 0 0 k (omega arith) (omega (arith, lt));
      others = last_others;
      other_inodes = last_other_inodes;
      data_blocks = λ lba low.
          last_early lba (λ z. omega (arith, z, low, f.in_table))
          ∙ maps_rest lba (omega (arith, low)) (λ z. omega (arith, z, low));
    }
