-- ===== src/Block/Disk.antt =====
-- kernel/block/blk.c over kernel/block/ramblk.c: what a read and a write of a RAM disk do.
use m4_trio.Base.{
  ℕ, ◌+◌, ◌*◌, ◌≤◌, ◌<◌, ◌≡◌, ◌≢◌, ◌⊎◌, refl, sym, subst, ◌∙◌, ap, if◌then◌else◌, true, false, Bool,
  Option, none, some, List, [], length, get_or, ne→==, ==_self, u64_mod, arith,
}
use m4_trio.Block.{
  Status, ok, einval, erange, ramblk_ops, Device, Ramblk, World, put, copy, rw_body, ramblk_rw,
  rw_driver, transfer,
}
use m4_trio.Block.Blk.{is_null, validate_range, dispatch, blk_read, blk_write}
use m4_trio.Block.Copy.{length-copy, copy_outside, copy_inside}
use native.Mathlib.Nat.{mul-le-mul_right}
use native.Mathlib.Decide.{ℕ_discrete}
use mathlib.Core.Path.{fun_ext}

-- The RAM disk behind a device.
abbrev pub ram_of : Device → Ramblk
ram_of d = elim d.driver_data [ none ↦ record { storage = []; storage_size = 0 } | some ram ↦ ram ]

-- Byte `k` of a device.
abbrev pub byte : World → ℕ → ℕ → ℕ
byte w dev k = get_or (ram_of (w dev)).storage k 0

-- A device as `ramblk_init` leaves it: its blocks tile its storage.
pub record IsDisk (d : Device) : Type 0 where
  pub driver : d.ops ≡ some ramblk_ops
  pub medium : d.driver_data ≡ some (ram_of d)
  pub tiled : (ram_of d).storage_size ≡ d.block_count * d.block_size
  pub stored : length (ram_of d).storage ≡ (ram_of d).storage_size
  pub small : (ram_of d).storage_size < u64_mod

-- The arguments of a transfer that the checks let pass.
pub record InRange (w : World) (dev lba count : ℕ) : Type 0 where
  pub device : dev ≢ 0
  pub some_blocks : count ≢ 0
  pub fits : lba + count ≤ (w dev).block_count

-- Block `lba` and those after it lie in the storage.
bytes_fit :
    {d : Device} (lba count : ℕ)
    → IsDisk d
    → lba + count ≤ d.block_count
    → lba * d.block_size + count * d.block_size ≤ (ram_of d).storage_size
bytes_fit {d} lba count disk fits = omega (arith, disk.tiled, mul-le-mul_right d.block_size fits)

validate_range-InRange :
    {w : World} {dev lba count : ℕ} (bytes : List ℕ)
    → IsDisk (w dev)
    → InRange w dev lba count
    → validate_range w dev lba count (some bytes) ≡ ok
unfolding validate_range is_null
validate_range-InRange bytes disk r = ground (arith, disk.driver, r.device, r.some_blocks, r.fits)

rw_body-InRange :
    {d : Device} (lba count : ℕ) (bytes : List ℕ) (is_write : Bool)
    → IsDisk d
    → lba + count ≤ d.block_count
    → rw_body d (ram_of d) lba count bytes is_write ≡ (
        let (d', after) =
          transfer d (ram_of d) (lba * d.block_size) (count * d.block_size) bytes is_write in
        (ok, d', after))
unfolding rw_body
rw_body-InRange {d} lba count bytes is_write disk fits =
    ground (arith, bytes_fit lba count disk fits, disk.small)

rw-InRange :
    {w : World} {dev lba count : ℕ} (bytes : List ℕ) (is_write : Bool)
    → IsDisk (w dev)
    → InRange w dev lba count
    → dispatch (validate_range w dev lba count (some bytes)) w dev lba count (some bytes) is_write
      ≡ (let (d, after) =
            transfer
              (w dev)
              (ram_of (w dev))
              (lba * (w dev).block_size)
              (count * (w dev).block_size)
              bytes
              is_write in
          (ok, put w dev d, some after))
unfolding dispatch ramblk_rw rw_driver
rw-InRange {w} {dev} {lba} {count} bytes is_write disk r =
    ap (λ s. dispatch s w dev lba count (some bytes) is_write) (validate_range-InRange bytes disk r)
    ∙ ap
        (λ b.
          if b
          then (einval, w, some bytes)
          else rw_driver (w dev).driver_data w dev lba count bytes is_write)
        (ne→== dev 0 r.device)
    ∙ ap (λ o. rw_driver o w dev lba count bytes is_write) disk.medium
    ∙ ap (λ t. let (st, d, after) = t in (st, put w dev d, some after))
        (rw_body-InRange lba count bytes is_write disk r.fits)

-- A device with other bytes in its storage.
abbrev pub refill : Device → List ℕ → Device
refill d bytes = record d { driver_data = some (record (ram_of d) { storage = bytes }) }

refill-IsDisk :
    {d : Device} {bytes : List ℕ}
    → IsDisk d
    → length bytes ≡ length (ram_of d).storage
    → IsDisk (refill d bytes)
refill-IsDisk disk e = record {
  driver = disk.driver;
  medium = refl;
  tiled = disk.tiled;
  stored = e ∙ disk.stored;
  small = disk.small;
}

put_self : (w : World) (dev : ℕ) (d : Device) → put w dev d dev ≡ d
unfolding put
put_self w dev d = rw (==_self dev) refl

put_ne : (w : World) (dev k : ℕ) (d : Device) → k ≢ dev → put w dev d k ≡ w k
unfolding put
put_ne w dev k d ne = rw (ne→== k dev ne) refl

-- What a write of `count` blocks leaves, and answers.
pub record Wrote (w : World) (dev lba count : ℕ) (bytes : List ℕ)
    (r : Status × World × Option (List ℕ)) : Type 0 where
  pub answer : r.0 ≡ ok
  pub block_size : (r.1 dev).block_size ≡ (w dev).block_size
  pub block_count : (r.1 dev).block_count ≡ (w dev).block_count
  pub disk : IsDisk (r.1 dev)
  pub inside :
      (k : ℕ)
      → k < count * (w dev).block_size
      → byte r.1 dev (lba * (w dev).block_size + k) ≡ get_or bytes k 0
  pub outside :
      (k : ℕ)
      → (k < lba * (w dev).block_size) ⊎ (lba * (w dev).block_size + count * (w dev).block_size ≤ k)
      → byte r.1 dev k ≡ byte w dev k
  pub elsewhere : (other : ℕ) → other ≢ dev → r.1 other ≡ w other

-- A write in range to a RAM disk succeeds, puts the buffer's bytes in its blocks, and changes no
-- other byte of the device and no other device.
pub blk_write-Wrote :
    {w : World} {dev lba count : ℕ} (bytes : List ℕ)
    → IsDisk (w dev)
    → InRange w dev lba count
    → Wrote w dev lba count bytes (blk_write w dev lba count (some bytes))
unfolding blk_write transfer
blk_write-Wrote {w} {dev} {lba} {count} bytes disk r =
    let size = (w dev).block_size in
    let old = (ram_of (w dev)).storage in
    let new = copy (count * size) old (lba * size) bytes 0 in
    let d = refill (w dev) new in
    let at = put_self w dev d in
    rw (rw-InRange bytes true disk r) (record {
      answer = refl;
      block_size = ap (λ x. x.block_size) at;
      block_count = ap (λ x. x.block_count) at;
      disk =
          subst IsDisk (sym at)
            (refill-IsDisk disk (length-copy (count * size) old (lba * size) bytes 0));
      inside = λ k lt.
          ap (λ x. get_or (ram_of x).storage (lba * size + k) 0) at
          ∙ copy_inside (count * size) old (lba * size) bytes 0 k
              (omega (arith, bytes_fit lba count disk r.fits, disk.stored)) lt
          ∙ ap (λ i. get_or bytes i 0) (omega arith);
      outside = λ k out.
          ap (λ x. get_or (ram_of x).storage k 0) at
          ∙ copy_outside (count * size) old (lba * size) bytes 0 k out;
      elsewhere = λ other ne. put_ne w dev other d ne;
    })

put_same : (w : World) (dev : ℕ) → put w dev (w dev) ≡ w
unfolding put
put_same w dev = fun_ext λ k. elim (ℕ_discrete k dev) [
  | yes e ↦ rw e (put_self w dev (w dev))
  | no ne ↦ put_ne w dev k (w dev) ne
]

-- What a read of `count` blocks answers.
pub record Fetched (w : World) (dev lba count : ℕ) (bytes : List ℕ)
    (r : Status × World × Option (List ℕ)) : Type 0 where
  pub answer : r.0 ≡ ok
  pub world : r.1 ≡ w
  pub buffer : List ℕ
  pub filled : r.2 ≡ some buffer
  pub same_length : length buffer ≡ length bytes
  pub copied :
      (k : ℕ)
      → k < count * (w dev).block_size
      → get_or buffer k 0 ≡ byte w dev (lba * (w dev).block_size + k)

-- A read in range of a RAM disk into a buffer that is large enough succeeds, changes no device, and
-- fills the buffer with the bytes of the blocks.
pub blk_read-Fetched :
    {w : World} {dev lba count : ℕ} (bytes : List ℕ)
    → IsDisk (w dev)
    → InRange w dev lba count
    → count * (w dev).block_size ≤ length bytes
    → Fetched w dev lba count bytes (blk_read w dev lba count (some bytes))
unfolding blk_read transfer
blk_read-Fetched {w} {dev} {lba} {count} bytes disk r room =
    let size = (w dev).block_size in
    let old = (ram_of (w dev)).storage in
    rw (rw-InRange bytes false disk r) (record {
      answer = refl;
      world = put_same w dev;
      buffer = copy (count * size) bytes 0 old (lba * size);
      filled = refl;
      same_length = length-copy (count * size) bytes 0 old (lba * size);
      copied = λ k lt.
          ap (λ i. get_or (copy (count * size) bytes 0 old (lba * size)) i 0) (omega arith)
          ∙ copy_inside (count * size) bytes 0 old (lba * size) k (omega (arith, room)) lt;
    })

pairs :
    {r : Status × World × Option (List ℕ)} {st : Status} {w : World} {buffer : Option (List ℕ)}
    → r.0 ≡ st
    → r.1 ≡ w
    → r.2 ≡ buffer
    → r ≡ (st, w, buffer)
pairs a b c = λ i. (a i, b i, c i)

-- A write in range to a RAM disk and then a read of the same blocks succeed, and the read fills a
-- buffer that is large enough with the bytes that were written.
pub read-write :
    {w : World} {dev lba count : ℕ} (bytes buffer : List ℕ)
    → IsDisk (w dev)
    → InRange w dev lba count
    → count * (w dev).block_size ≤ length buffer
    → let w' = (blk_write w dev lba count (some bytes)).1 in
      (after : List ℕ) × (blk_read w' dev lba count (some buffer) ≡ (ok, w', some after))
      × ((k : ℕ) → k < count * (w dev).block_size → get_or after k 0 ≡ get_or bytes k 0)
read-write {w} {dev} {lba} {count} bytes buffer disk r room =
    let wrote = blk_write-Wrote bytes disk r in
    let w' = (blk_write w dev lba count (some bytes)).1 in
    let size : (w' dev).block_size ≡ (w dev).block_size = wrote.block_size in
    let again : InRange w' dev lba count = record {
      device = r.device;
      some_blocks = r.some_blocks;
      fits = omega (arith, r.fits, wrote.block_count);
    } in
    let fetched = blk_read-Fetched buffer wrote.disk again (rw size room) in
    (
      fetched.buffer,
      pairs fetched.answer fetched.world fetched.filled,
      λ k lt.
          fetched.copied k (rw size lt)
          ∙ ap (λ n. byte w' dev (lba * n + k)) size
          ∙ wrote.inside k lt,
    )

validate_range_out :
    (w : World) (dev lba count : ℕ) (bytes : List ℕ)
    → dev ≢ 0
    → count ≢ 0
    → is_null (w dev).ops ≡ false
    → (w dev).block_count < lba + count
    → validate_range w dev lba count (some bytes) ≡ erange
unfolding validate_range is_null
validate_range_out w dev lba count bytes d c driver out = ground arith

-- An access that starts past the last block, or that has more blocks than are left, is refused as
-- out of range, and changes no device and no byte of the buffer.
pub access_out_of_range :
    (w : World) (dev lba count : ℕ) (bytes : List ℕ)
    → dev ≢ 0
    → count ≢ 0
    → is_null (w dev).ops ≡ false
    → (w dev).block_count < lba + count
    → (blk_write w dev lba count (some bytes) ≡ (erange, w, some bytes))
      × (blk_read w dev lba count (some bytes) ≡ (erange, w, some bytes))
unfolding blk_write blk_read dispatch
access_out_of_range w dev lba count bytes d c driver out =
    let st : validate_range w dev lba count (some bytes) ≡ erange =
      validate_range_out w dev lba count bytes d c driver out in
    (rw st refl, rw st refl)
