-- ===== src/Mcsfs/Made.antt =====
-- fs/mcsfs1/mcsfs1.c: the disk with a new file.
use m4_trio.Base.{
  if◌then◌else◌, ◌==◌, ℕ, ◌-◌, ◌≤◌, ◌<◌, ◌≡◌, ◌≢◌, refl, sym, ap, subst, ◌∙◌, true, false, some,
  arith,
}
use m4_trio.Mcsfs.{Bytes, ok, err, enoent, Device}
use m4_trio.Mcsfs.Memory.{load32, bit_set, bit_test, first_clear, memcpy, valid_name}
use m4_trio.Mcsfs.Memory.Bits.{AreOctets, bit_test-bit_set, bit_test-bit_set_new, bit_set-AreOctets}
use m4_trio.Mcsfs.Memory.Copy.{first_clear-some}
use m4_trio.Mcsfs.Table.{inode_lba, inode_offset, dirent_at, free_slot, scan, names}
use m4_trio.Mcsfs.Calls.{add_dirent, file_inode}
use m4_trio.Mcsfs.Disk.{IsReliable, put, inode_of, lookup, search}
use m4_trio.Mcsfs.Alloc.{direct, IsUsed, Owned}
use m4_trio.Mcsfs.Inode.{
  Alike, Alike-load32, Alike-mode, Alike-direct, put_inode, inode_of-same, inode_of-put,
  inode_of-put_other,
}
use m4_trio.Mcsfs.File.{IsFile}
use m4_trio.Mcsfs.Directory.{Same, none-scan}
use m4_trio.Mcsfs.Strings.{IsString, valid_name-IsString}
use m4_trio.Mcsfs.Entry.{
  free_slot-some, file_inode-mode, file_inode-size, file_inode-first, file_inode-rest,
}
use m4_trio.Mcsfs.Added.{scan-added, scan-added_other, added_elsewhere}
use native.Mathlib.Decide.{ℕ_discrete}

module _ {S : Type 0} (dev : Device S) (content : S → ℕ → Bytes) where
  -- What a create leaves, when it answers 0.
  pub record Made (s : S) (name : Bytes) (n slot ino : ℕ) (s' : S) : Type 0 where
    pub file : IsFile dev content s' name slot ino
    pub only_entry : (j : ℕ) → j < 16 → j ≢ slot → names (content s' 7) j name n ≡ false
    pub empty : load32 (inode_of content s' ino) 4 ≡ 0
    pub slot_was_free : load32 (content s 7) (dirent_at slot) ≡ 0
    pub inode_was_free : bit_test (content s 1) ino ≡ false
    pub block_was_free : bit_test (content s 2) (direct (inode_of content s' ino) 0) ≡ false
    pub inode_bits :
        (other : ℕ)
        → bit_test (content s' 1) other
          ≡ (if ino == other then true else bit_test (content s 1) other)
    pub block_bits :
        (lba : ℕ)
        → bit_test (content s' 2) lba
          ≡ (if direct (inode_of content s' ino) 0 == lba then true else bit_test (content s 2) lba)
    pub has_block : direct (inode_of content s' ino) 0 ≢ 0
    pub one_block : (i : ℕ) → i < 8 → direct (inode_of content s' ino) i ≢ 0 → i ≡ 0
    pub octets : AreOctets (content s' 1) × AreOctets (content s' 2)
    pub others :
        (other : Bytes) (m : ℕ)
        → valid_name other ≡ ok m
        → m ≤ 26
        → ¬ Same other m name n
        → lookup content s' other ≡ lookup content s other
    pub other_inodes :
        (other : ℕ)
        → other ≢ 0
        → other ≤ 32
        → other ≢ ino
        → Alike (inode_of content s' other) (inode_of content s other)
    pub data_blocks : (lba : ℕ) → 8 ≤ lba → content s' lba ≡ content s lba

module _ {S : Type 0} {dev : Device S} {content : S → ℕ → Bytes} (r : IsReliable dev content)
    (large : 16 ≤ dev.block_count) (small : dev.block_count ≤ 4096) where
  -- The states of a create that goes through.
  module _ (s : S) (name : Bytes) (n slot ino lba : ℕ) where
    abbrev pub with_maps : S
    with_maps = put dev (put dev s 1 (bit_set (content s 1) ino)) 2 (bit_set (content s 2) lba)

    abbrev pub with_inode : S
    with_inode = put_inode r large with_maps ino (file_inode lba)

    abbrev pub last : S
    last = (dev.flush (put dev with_inode 7 (add_dirent (content s 7) slot ino name n))).1

  module _ (s : S) (name : Bytes) (n slot ino lba : ℕ) (e : valid_name name ≡ ok n) (le : n ≤ 26)
      (absent : lookup content s name ≡ err enoent) (f : free_slot 16 0 (content s 7) ≡ some slot)
      (g : first_clear 31 2 (content s 1) ≡ some ino)
      (h : first_clear (dev.block_count - 8) 8 (content s 2) ≡ some lba)
      (oct : AreOctets (content s 1) × AreOctets (content s 2)) where
    abbrev after : S
    after = last s name n slot ino lba

    abbrev maps : S
    maps = with_maps s name n slot ino lba

    abbrev directory : Bytes
    directory = add_dirent (content s 7) slot ino name n

    ino_range : (2 ≤ ino) × (ino ≤ 32) × (bit_test (content s 1) ino ≡ false)
    ino_range =
        let found = first_clear-some 31 2 (content s 1) ino g in
        (omega (arith, found.0), omega (arith, found.0, found.1), ground (arith, found))

    after_early : (at : ℕ) → at ≢ inode_lba ino → at ≢ 7 → content after at ≡ content maps at
    after_early at a b =
        r.flush_same (put dev (with_inode s name n slot ino lba) 7 directory) at
        ∙ r.write_there (with_inode s name n slot ino lba) 7 at directory b
        ∙ r.write_there maps (inode_lba ino) at
            (memcpy 60 (content maps (inode_lba ino)) (inode_offset ino) (file_inode lba) 0) a

    after_directory : content after 7 ≡ directory
    after_directory =
        r.flush_same (put dev (with_inode s name n slot ino lba) 7 directory) 7
        ∙ r.write_here (with_inode s name n slot ino lba) 7 directory

    after_inode_map : content after 1 ≡ bit_set (content s 1) ino
    after_inode_map =
        after_early 1 (λ z. omega (arith, z)) (omega arith)
        ∙ r.write_there (put dev s 1 (bit_set (content s 1) ino)) 2 1 (bit_set (content s 2) lba)
            (omega arith)
        ∙ r.write_here s 1 (bit_set (content s 1) ino)

    after_block_map : content after 2 ≡ bit_set (content s 2) lba
    after_block_map =
        after_early 2 (λ z. omega (arith, z)) (omega arith)
        ∙ r.write_here (put dev s 1 (bit_set (content s 1) ino)) 2 (bit_set (content s 2) lba)

    maps_rest : (at : ℕ) → 3 ≤ at → content maps at ≡ content s at
    maps_rest at low =
        r.write_there (put dev s 1 (bit_set (content s 1) ino)) 2 at (bit_set (content s 2) lba)
          (λ z. omega (arith, z, low))
        ∙ r.write_there s 1 at (bit_set (content s 1) ino) (λ z. omega (arith, z, low))

    after_data : (at : ℕ) → 8 ≤ at → content after at ≡ content s at
    after_data at low =
        after_early at (λ z. omega (arith, z, low, ino_range)) (λ z. omega (arith, z, low))
        ∙ maps_rest at (omega (arith, low))

    before_directory : (other : ℕ) → other ≤ 32 → inode_lba other ≢ 7
    before_directory other fits z = omega (arith, z, fits)

    after_table :
        (other : ℕ)
        → other ≤ 32
        → content after (inode_lba other)
          ≡ content (with_inode s name n slot ino lba) (inode_lba other)
    after_table other fits =
        r.flush_same (put dev (with_inode s name n slot ino lba) 7 directory) (inode_lba other)
        ∙ r.write_there (with_inode s name n slot ino lba) 7 (inode_lba other) directory
            (before_directory other fits)

    after_inode : Alike (inode_of content after ino) (file_inode lba)
    after_inode k lt =
        inode_of-same r large ino (after_table ino ino_range.1) k lt
        ∙ inode_of-put r large maps ino (file_inode lba) k lt

    after_other_inodes :
        (other : ℕ)
        → other ≢ 0
        → other ≤ 32
        → other ≢ ino
        → Alike (inode_of content after other) (inode_of content s other)
    after_other_inodes other some_inode fits ne k lt =
        inode_of-same r large other (after_table other fits) k lt
        ∙ inode_of-put_other r large maps ino other (file_inode lba)
            (λ z. omega (arith, z, ino_range)) some_inode ne k lt
        ∙ inode_of-same r large other (maps_rest (inode_lba other) (omega arith)) k lt

    lba_range : (8 ≤ lba) × (lba < dev.block_count) × (bit_test (content s 2) lba ≡ false)
    lba_range =
        let found = first_clear-some (dev.block_count - 8) 8 (content s 2) lba h in
        (found.0, omega (arith, found.1, large), found.2)

    after_direct :
        (i : ℕ) → i < 8 → direct (inode_of content after ino) i ≡ direct (file_inode lba) i
    after_direct i lt = Alike-direct i lt after_inode

    first_block : direct (inode_of content after ino) 0 ≡ lba
    first_block =
        after_direct 0 (omega arith) ∙ file_inode-first lba (omega (arith, lba_range, small))

    -- Only the first place of the new inode has a block.
    only_first : (i : ℕ) → i < 8 → direct (inode_of content after ino) i ≢ 0 → i ≡ 0
    only_first i lt some_block = elim (ℕ_discrete i 0) [
      | yes z ↦ z
      | no ne ↦ absurd (some_block (after_direct i lt ∙ file_inode-rest lba i ne lt))
    ]

    after-IsUsed : IsUsed dev content after lba
    after-IsUsed = record {
      low = lba_range.0;
      high = lba_range.1;
      bit = ap (λ b. bit_test b lba) after_block_map ∙ bit_test-bit_set_new (content s 2) lba oct.1;
    }

    after-Owned : Owned dev content after (inode_of content after ino)
    after-Owned = record {
      used = λ i lt some_block.
          subst (λ x. IsUsed dev content after (direct (inode_of content after ino) x))
            (sym (only_first i lt some_block))
            (subst (IsUsed dev content after) (sym first_block) after-IsUsed);
      apart = λ i j i_lt j_lt some_block same.
          only_first i i_lt some_block ∙ sym (only_first j j_lt (λ z. some_block (same ∙ z)));
    }

    name-IsString : IsString name 0 n
    name-IsString = (valid_name-IsString name n e).0

    scan_absent : scan 16 0 (content s 7) name n ≡ err enoent
    unfolding search
    scan_absent =
        let q : lookup content s name ≡ scan 16 0 (content s 7) name n = rw (search, e) refl in
        sym q ∙ absent

    slot_free : (slot < 16) × (load32 (content s 7) (dirent_at slot) ≡ 0)
    slot_free =
        let found = free_slot-some 16 0 (content s 7) slot f in (omega (arith, found.1), found.2)

    after_found : lookup content after name ≡ ok (slot, ino)
    unfolding search
    after_found =
        ap (λ b. search b name) after_directory
        ∙ rw (search, e)
            (scan-added (content s 7) name n slot ino name-IsString le
              (λ z. omega (arith, z, ino_range)) ino_range.1 slot_free.0 scan_absent)

    after_others :
        (other : Bytes) (m : ℕ)
        → valid_name other ≡ ok m
        → m ≤ 26
        → ¬ Same other m name n
        → lookup content after other ≡ lookup content s other
    unfolding search
    after_others other m w m_le differs =
        ap (λ b. search b other) after_directory
        ∙ rw (search, w)
            (scan-added_other (content s 7) name n slot ino name-IsString le
              (λ z. omega (arith, z, ino_range)) ino_range.1 slot_free.0 other m
              (valid_name-IsString other m w).0 m_le differs slot_free.1)

    pub last-Made : Made dev content s name n slot ino after
    last-Made = record {
      file = record {
        found = after_found;
        real = λ z. omega (arith, z, ino_range);
        in_table = ino_range.1;
        mode = Alike-mode after_inode ∙ file_inode-mode lba;
        owned = after-Owned;
      };
      only_entry = λ j lt ne.
          ap (λ b. names b j name n) after_directory
          ∙ added_elsewhere (content s 7) name n slot ino name-IsString le
              (λ z. omega (arith, z, ino_range)) ino_range.1 slot_free.0 name n name-IsString le j
              ne
          ∙ none-scan 16 0 (content s 7) name n scan_absent j (omega arith) (omega (arith, lt));
      empty = Alike-load32 4 (omega arith) after_inode ∙ file_inode-size lba;
      slot_was_free = slot_free.1;
      inode_was_free = ino_range.2;
      block_was_free = ap (bit_test (content s 2)) first_block ∙ lba_range.2;
      inode_bits = λ other.
          ap (λ b. bit_test b other) after_inode_map
          ∙ bit_test-bit_set (content s 1) ino other oct.0;
      block_bits = λ at.
          ap (λ b. bit_test b at) after_block_map
          ∙ bit_test-bit_set (content s 2) lba at oct.1
          ∙ ap (λ x. if x == at then true else bit_test (content s 2) at) (sym first_block);
      has_block = λ z. omega (arith, z, first_block, lba_range);
      one_block = only_first;
      octets = (
        subst AreOctets (sym after_inode_map) (bit_set-AreOctets (content s 1) ino oct.0),
        subst AreOctets (sym after_block_map) (bit_set-AreOctets (content s 2) lba oct.1),
      );
      others = after_others;
      other_inodes = after_other_inodes;
      data_blocks = after_data;
    }
