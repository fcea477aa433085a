-- ===== src/Mcsfs.antt =====
-- fs/mcsfs1/mcsfs1.c, fs/mcsfs1/mcsfs1.h: a file system with one directory on a block device. A call
-- changes the device's state `S` and answers a value or an error. The device is a parameter: its
-- driver is not part of the file system. A read of a block leaves the state alone.
mod Memory
mod Table
mod Calls
mod Check
mod Disk
mod Alloc
mod Blocks
mod Inode
mod File
mod ReadBack
mod Format
mod Strings
mod Directory
mod Entry
mod Added
mod Cleared
mod Made
mod Create
mod Removed
mod Unlink
mod Tests
use m4_trio.Base.{ℕ, ◌≤◌, ◌<◌, ◌≡◌, Bool, Option, none, some, leb, if◌then◌else◌}

-- `MCSFS1_ERR_*`
pub data Error : Type 0 where
  einval eio enospc eexist enoent enametoolong ecorrupt eisdir erange : Error

pub data Result (A : Type 0) : Type 0 where
  ok : A → Result A
  err : Error → Result A

abbrev pub Action : Type 0 → Type 0 → Type 0
Action S A = S → Result A × S

abbrev pub Bytes : Type 0
Bytes = ℕ → ℕ

module _ {S A : Type 0} where
  abbrev pub pure : A → Action S A
  pure a s = (ok a, s)

  abbrev pub lift : Result A → Action S A
  lift r s = (r, s)

  abbrev pub or_raise : Option A → Error → Action S A
  or_raise none e s = (err e, s)
  or_raise (some a) e s = (ok a, s)

-- What follows a result: nothing, if that was an error.
abbrev pub follow : {S A B : Type 0} → Result A × S → (A → Action S B) → Result B × S
follow (ok a, s) f = f a s
follow (err e, s) f = (err e, s)

infixl 5 ◌>>=◌ ◌>>◌
abbrev pub ◌>>=◌ : {S A B : Type 0} → Action S A → (A → Action S B) → Action S B
◌>>=◌ m f s = follow (m s) f

abbrev pub ◌>>◌ : {S B : Type 0} → Action S (Unit {0}) → Action S B → Action S B
m >> k = m >>= λ _. k

abbrev pub raise_if : {S : Type 0} → Bool → Error → Action S (Unit {0})
raise_if c e s = (if c then err e else ok tt, s)

-- `struct mcsfs1_blkdev`: `none` and `false` stand for a result other than 0.
pub record Device (S : Type 0) : Type 0 where
  pub block_count : ℕ
  pub read : S → ℕ → Option Bytes
  pub write : S → ℕ → Bytes → Bool × S
  pub flush : S → Bool × S

-- `struct mcsfs1_mount`, less the pointer to the device.
pub record Mount : Type 0 where
  pub block_count : ℕ
  pub data_start : ℕ

abbrev pub answer : Bool → Result (Unit {0})
answer good = if good then ok tt else err eio

module _ {S : Type 0} (dev : Device S) where
  pub fetched : Option Bytes → Result Bytes
  fetched none = err eio
  fetched (some block) = ok block

  pub dev_read : ℕ → Action S Bytes
  dev_read lba s = (if leb dev.block_count lba then err einval else fetched (dev.read s lba), s)

  pub dev_write : ℕ → Bytes → Action S (Unit {0})
  dev_write lba block s =
      if leb dev.block_count lba
      then (err einval, s)
      else let (good, s') = dev.write s lba block in (answer good, s')

  pub dev_flush : Action S (Unit {0})
  dev_flush s = let (good, s') = dev.flush s in (answer good, s')
