-- ===== src/Mcsfs/Unlink.antt =====
-- fs/mcsfs1/mcsfs1.c: a file removed.
use m4_trio.Base.{ℕ, ◌≤◌, ◌<◌, ◌≡◌, ◌≢◌, sym, ap, ◌∙◌, true, false, ◌==◌, if◌then◌else◌, arith}
use m4_trio.Mcsfs.{Bytes, ok, err, enoent, Device}
use m4_trio.Mcsfs.Memory.{bit_test, valid_name}
use m4_trio.Mcsfs.Memory.Bits.{AreOctets}
use m4_trio.Mcsfs.Table.{names}
use m4_trio.Mcsfs.Calls.{create, unlink}
use m4_trio.Mcsfs.Disk.{
  IsReliable, inode_of, lookup, dev_read-ok, dev_write-ok, dev_flush-ok, write_inode-ok,
  free_inode_and_blocks-ok,
}
use m4_trio.Mcsfs.Alloc.{direct}
use m4_trio.Mcsfs.File.{IsFile, open_file-ok}
use m4_trio.Mcsfs.Directory.{Same}
use m4_trio.Mcsfs.Made.{Made}
use m4_trio.Mcsfs.Create.{create-Created, Created-ok}
use m4_trio.Mcsfs.Removed.{
  Removed, directory, inode, without_entry, with_maps, wiped_inode, after, last-Removed,
}
use native.Mathlib.Decide.{ℕ_discrete}

module _ {S : Type 0} {dev : Device S} {content : S → ℕ → Bytes} (r : IsReliable dev content)
    (large : 16 ≤ dev.block_count) (small : dev.block_count ≤ 4096) where
  unlink_removes :
      {s : S} {name : Bytes} {slot ino : ℕ}
      → IsFile dev content s name slot ino
      → unlink dev name s ≡ (ok tt, after r large small s slot ino)
  unfolding unlink
  unlink_removes {s} {name} {slot} {ino} f = rw (open_file-ok r large small f) (
      rw (dev_read-ok r large s 7 (omega (arith, large))) (
        rw (dev_write-ok r large s 7 (directory r large small s slot ino) (omega (arith, large))) (
          rw
            (free_inode_and_blocks-ok r large (without_entry r large small s slot ino) ino
              (inode r large small s slot ino))
            (rw
              (write_inode-ok r large (with_maps r large small s slot ino) ino
                (wiped_inode r large small s slot ino) f.real f.in_table)
              (dev_flush-ok r large _)))))

  -- On a working device of 16 to 4096 blocks, under bitmaps of bytes: to unlink a valid name of at
  -- most 26 bytes that one entry of the directory has, for a file with blocks of its own, answers
  -- 0. Then the directory no longer has the name, and answers as before for every other name of at
  -- most 26 bytes; of the bits in the bitmaps exactly those of the inode and of its blocks are
  -- cleared; the inode is wiped; every other inode and every data block is as it was.
  pub unlink-Removed :
      (s : S) (name : Bytes) (n slot ino : ℕ)
      → valid_name name ≡ ok n
      → n ≤ 26
      → AreOctets (content s 1) × AreOctets (content s 2)
      → IsFile dev content s name slot ino
      → ((j : ℕ) → j < 16 → j ≢ slot → names (content s 7) j name n ≡ false)
      → (s' : S) × (unlink dev name s ≡ (ok tt, s')) × Removed dev content s name n ino s'
  unlink-Removed s name n slot ino e le oct f only = (
    after r large small s slot ino,
    unlink_removes f,
    last-Removed r large small s name n slot ino e le oct f only,
  )

  -- The bits and the directory are as before the file was made.
  pub record Restored (s : S) (name : Bytes) (n : ℕ) (s' : S) : Type 0 where
    pub inode_bits : (ino : ℕ) → bit_test (content s' 1) ino ≡ bit_test (content s 1) ino
    pub block_bits : (lba : ℕ) → bit_test (content s' 2) lba ≡ bit_test (content s 2) lba
    pub this : lookup content s' name ≡ lookup content s name
    pub others :
        (other : Bytes) (m : ℕ)
        → valid_name other ≡ ok m
        → m ≤ 26
        → ¬ Same other m name n
        → lookup content s' other ≡ lookup content s other
    pub data_blocks : (lba : ℕ) → 8 ≤ lba → content s' lba ≡ content s lba

  Made-Restored :
      {s s' s2 : S} {name : Bytes} {n slot ino : ℕ}
      → lookup content s name ≡ err enoent
      → Made dev content s name n slot ino s'
      → Removed dev content s' name n ino s2
      → Restored s name n s2
  Made-Restored {s} {s'} {s2} {name} {n} {slot} {ino} absent m w =
      let lba = direct (inode_of content s' ino) 0 in
      record {
        inode_bits =
            λ other. w.inode_free other ∙ ground (arith, m.inode_bits other, m.inode_was_free);
        block_bits = λ at. elim (ℕ_discrete at lba) [
          | yes e ↦
              ap (bit_test (content s2 2)) e
              ∙ w.blocks_free 0 (omega arith) (λ z. omega (arith, z, m.has_block))
              ∙ sym (ap (bit_test (content s 2)) e ∙ m.block_was_free)
          | no ne ↦
              w.blocks_kept at (λ j lt some_block e.
                ne (e ∙ ap (direct (inode_of content s' ino)) (m.one_block j lt some_block)))
              ∙ m.block_bits at
              ∙ apart at lba ne
        ];
        this = w.gone ∙ sym absent;
        others =
            λ other k v le differs. w.others other k v le differs ∙ m.others other k v le differs;
        data_blocks = λ at low. w.data_blocks at low ∙ m.data_blocks at low;
      }
    where
      apart :
          (at lba : ℕ)
          → at ≢ lba
          → (if lba == at then true else bit_test (content s 2) at) ≡ bit_test (content s 2) at
      apart at lba ne = ground arith

  -- On a working device of 16 to 4096 blocks, under bitmaps of bytes: when the directory does not
  -- have a valid name of at most 26 bytes and a create of it answers 0, an unlink of it then
  -- answers 0 as well, and leaves every bit of both bitmaps, the directory's answer for this name
  -- and for every other name of at most 26 bytes, and every data block as before the create.
  pub unlink-create :
      {s s' : S} (name : Bytes) (n : ℕ)
      → valid_name name ≡ ok n
      → n ≤ 26
      → AreOctets (content s 1) × AreOctets (content s 2)
      → create dev name s ≡ (ok tt, s')
      → (s2 : S) × (unlink dev name s' ≡ (ok tt, s2)) × Restored s name n s2
  unlink-create {s} {s'} name n e le oct good =
      let (slot, ino, absent, m) =
        Created-ok r large small (create-Created r large small s name n e le oct) good in
      let gone = unlink-Removed s' name n slot ino e le m.octets m.file m.only_entry in
      (gone.0, gone.1, Made-Restored absent m gone.2)
