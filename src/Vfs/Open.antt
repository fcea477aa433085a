-- ===== src/Vfs/Open.antt =====
-- kernel/vfs/fd.c: what an open of a path does.
use m4_trio.Base.{ℕ, ◌<◌, ◌≡◌, ◌≢◌, true, false, Option, none, some, ◌==◌, bit_and}
use m4_trio.Vfs.{ℤ, pos, Result, ok, err, enoent, einval, enfile, enospc, Bytes, Ramfs, World, set}
use m4_trio.Vfs.Nodes.{create_file, lookup}

module _ (w : World) (at : ℕ) where
  abbrev fs : Ramfs
  fs = w.filesystems at

  -- The node that an open gives, and the file system that it leaves.
  pub data Given (path : Bytes) (flags n : ℕ) (fs' : Ramfs) : Type 0 where
    there : lookup fs path ≡ some n → fs' ≡ fs → Given path flags n fs'
    made :
        lookup fs path ≡ none
        → (bit_and flags 256 == 0) ≡ false
        → fs.node_count < 64
        → n ≡ fs.node_count
        → fs' ≡ (create_file fs path).1
        → Given path flags n fs'

  -- Why an open does not find a node.
  pub data Absent (path : Bytes) (flags : ℕ) : Type 0 where
    not_asked : lookup fs path ≡ none → (bit_and flags 256 == 0) ≡ true → Absent path flags
    full : lookup fs path ≡ none → create_file fs path ≡ (err enospc, fs) → Absent path flags

  pub record IsFree (fd : ℕ) : Type 0 where
    pub bound : fd < 16
    pub free : (w.files fd).used ≡ 0
    pub lowest : (j : ℕ) → j < fd → (w.files j).used ≢ 0

  pub data Opened (path : Option Bytes) (flags : ℕ) (r : Result ℤ × World) : Type 0 where
    no_path : path ≡ none → r ≡ (err einval, w) → Opened path flags r
    relative : (p : Bytes) → path ≡ some p → p 0 ≢ 47 → r ≡ (err einval, w) → Opened path flags r
    no_file :
        (p : Bytes)
        → path ≡ some p
        → p 0 ≡ 47
        → ((j : ℕ) → j < 16 → (w.files j).used ≢ 0)
        → r ≡ (err enfile, w)
        → Opened path flags r
    no_node :
        (p : Bytes) (fd : ℕ)
        → path ≡ some p
        → p 0 ≡ 47
        → IsFree fd
        → Absent p flags
        → r ≡ (
          err enoent,
          record w {
            filesystems = set w.filesystems at fs;
            files = set w.files fd (record (w.files fd) { used = 0 });
          },
        )
        → Opened path flags r
    opened :
        (p : Bytes) (fd n : ℕ) (fs' : Ramfs)
        → path ≡ some p
        → p 0 ≡ 47
        → IsFree fd
        → Given p flags n fs'
        → r ≡ (
          ok (pos fd),
          record w {
            filesystems = set w.filesystems at fs';
            files =
                set w.files fd (record { used = 1; flags = flags; offset = 0; node = n; fs = at });
          },
        )
        → Opened path flags r
