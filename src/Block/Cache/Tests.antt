-- ===== src/Block/Cache/Tests.antt =====
-- A cache of two entries over a disk of three blocks of four bytes, and the block layer's theorems
-- there.
use m4_trio.Base.{ℕ, ◌*◌, ◌<◌, ◌≡◌, refl, some, List, [], ◌∷◌, replicate, get_or, arith}
use m4_trio.Block.{ok, Device, World, ramblk_ops}
use m4_trio.Block.Blk.{Registry, blk_read, blk_write}
use m4_trio.Block.Disk.{IsDisk, InRange, Wrote, blk_write-Wrote, read-write}
use m4_trio.Block.Cache.{Cache, bcache_init, bcache_read, bcache_write, flush_all}
use m4_trio.Block.Cache.View.{Home}
use m4_trio.Block.Cache.Start.{Started, bcache_init-Started}
use m4_trio.Block.Cache.Serve.{Read, bcache_read-Read}
use m4_trio.Block.Cache.Store.{Written, bcache_write-Written}
use m4_trio.Block.Cache.Sweep.{Flat, flush_all-Flat}

abbrev ram0 : Device
ram0 = record {
  name = [];
  block_size = 4;
  block_count = 3;
  flags = 0;
  ops = some ramblk_ops;
  driver_data = some (record {
    storage = 0 ∷ 1 ∷ 2 ∷ 3 ∷ 4 ∷ 5 ∷ 6 ∷ 7 ∷ 8 ∷ 9 ∷ 10 ∷ 11 ∷ [];
    storage_size = 12;
  });
}

abbrev machine : World
machine dev = ram0

ram0-IsDisk : IsDisk ram0
ram0-IsDisk = record {
  driver = refl;
  medium = refl;
  tiled = refl;
  stored = refl;
  small = omega arith;
}

block_1 : InRange machine 1 1 1
block_1 = record { device = omega arith; some_blocks = omega arith; fits = omega arith }

abbrev payload : List ℕ
payload = 20 ∷ 21 ∷ 22 ∷ 23 ∷ []

abbrev blank : List ℕ
blank = 0 ∷ 0 ∷ 0 ∷ 0 ∷ []

blk_write-Wrote_example : Wrote machine 1 1 1 payload (blk_write machine 1 1 1 (some payload))
blk_write-Wrote_example = blk_write-Wrote payload ram0-IsDisk block_1

read-write_example :
    let w' = (blk_write machine 1 1 1 (some payload)).1 in
    (after : List ℕ) × (blk_read w' 1 1 1 (some blank) ≡ (ok, w', some after))
    × ((k : ℕ) → k < 1 * 4 → get_or after k 0 ≡ get_or payload k 0)
read-write_example = read-write payload blank ram0-IsDisk block_1 (omega arith)

abbrev no_cache : Cache
no_cache = record { entries = []; entry_count = 0; block_size = 0; clock_hand = 0 }

abbrev pool : List ℕ
pool = 0 ∷ 0 ∷ 0 ∷ 0 ∷ 0 ∷ 0 ∷ 0 ∷ 0 ∷ []

abbrev cache : Cache
cache = (bcache_init no_cache 2 pool 4).1

started : Started machine 2 4 (bcache_init no_cache 2 pool 4)
started = bcache_init-Started machine no_cache 2 pool 4 (omega arith) (omega arith) (omega arith)

reachable : Home machine cache.block_size 1 1
reachable = record {
  device = omega arith;
  disk = ram0-IsDisk;
  block_size = omega (arith, started.size_kept);
  in_range = omega arith;
}

bcache_read-Read_example : Read machine cache 1 1 (bcache_read machine cache 1 1 blank)
bcache_read-Read_example =
    bcache_read-Read blank started.valid reachable (omega (arith, started.size_kept))

bcache_write-Written_example :
    Written machine cache 1 1 payload (bcache_write machine cache 1 1 payload)
bcache_write-Written_example = bcache_write-Written payload started.valid reachable

flush_all-Flat_example :
    let (st, w, c) = bcache_write machine cache 1 1 payload in Flat w c (flush_all w c)
flush_all-Flat_example = flush_all-Flat bcache_write-Written_example.valid

abbrev sectors : List ℕ
sectors = replicate 1024 7

abbrev registry : Registry
registry = record { devices = 5 ∷ 0 ∷ 0 ∷ 0 ∷ 0 ∷ 0 ∷ 0 ∷ 0 ∷ []; count = 1 }
