-- ===== src/Block/Cache.antt =====
-- kernel/block/bcache.c: a write-back cache of blocks, with a clock hand that picks what to evict.
-- An entry holds its own slice of the data pool. The state of the devices and of the cache after a
-- call is returned beside its status.
mod View
mod Place
mod Evict
mod Victim
mod Serve
mod Store
mod Sweep
mod Start
mod Tests
use m4_trio.Base.{
  ℕ, zero, suc, ◌+◌, ◌*◌, ◌%◌, Bool, true, false, not, ◌&&◌, ◌||◌, Option, none, some, List, [],
  ◌∷◌, take, length, get_or, set, add32, ◌==◌, if◌then◌else◌,
}
use m4_trio.Block.{Status, ok, einval, World, copy}
use m4_trio.Block.Blk.{blk_read, blk_write}

-- `mcsos_bcache_entry_t`
pub record Entry : Type 0 where
  pub bytes : List ℕ
  pub capacity : ℕ
  pub lba : ℕ
  pub valid : Bool
  pub dirty : Bool
  pub dev : ℕ

abbrev pub no_entry : Entry
no_entry = record { bytes = []; capacity = 0; lba = 0; valid = false; dirty = false; dev = 0 }

-- `mcsos_bcache_t`
pub record Cache : Type 0 where
  pub entries : List Entry
  pub entry_count : ℕ
  pub block_size : ℕ
  pub clock_hand : ℕ

abbrev pub entry : Cache → ℕ → Entry
entry c i = get_or c.entries i no_entry

abbrev pub update : Cache → ℕ → Entry → Cache
update c i e = record c { entries = set c.entries i e }

abbrev pub drop : ℕ → List ℕ → List ℕ
drop zero xs = xs
drop (suc n) [] = []
drop (suc n) (x ∷ xs) = drop n xs

-- The entries that `mcsos_bcache_init` writes from index `i` on.
pub fresh_entries : ℕ → ℕ → List ℕ → ℕ → List Entry
fresh_entries zero i pool block_size = []
fresh_entries (suc n) i pool block_size =
    record no_entry { bytes = take block_size (drop (i * block_size) pool); capacity = block_size }
    ∷ fresh_entries n (i + 1) pool block_size

-- `mcsos_bcache_init` past its NULL tests.
pub bcache_init : Cache → ℕ → List ℕ → ℕ → Status × Cache
bcache_init c entry_count pool block_size =
    if (entry_count == 0) || (block_size == 0) then (einval, c) else (
      ok,
      record {
        entries = fresh_entries entry_count 0 pool block_size;
        entry_count = entry_count;
        block_size = block_size;
        clock_hand = 0;
      },
    )

pub holds : Entry → ℕ → ℕ → Bool
holds e dev lba = e.valid && (e.dev == dev) && (e.lba == lba)

-- The first of `n` entries from `i` on that holds the block.
pub find_from : ℕ → ℕ → List Entry → ℕ → ℕ → Option ℕ
find_from zero i entries dev lba = none
find_from (suc n) i entries dev lba =
    let rest = find_from n (i + 1) entries dev lba in
    if holds (get_or entries i no_entry) dev lba then some i else rest

abbrev pub find : Cache → ℕ → ℕ → Option ℕ
find c dev lba = find_from c.entry_count 0 c.entries dev lba

-- The entry after a write of its block: clean if the write went well.
pub written_back : Status × World × Option (List ℕ) → Entry → Status × World × Entry
written_back (ok, w, bytes) e = (ok, w, record e { dirty = false })
written_back (st, w, bytes) e = (st, w, e)

pub flush_entry : World → Entry → Status × World × Entry
flush_entry w e =
    if not e.valid || not e.dirty
    then (ok, w, e)
    else written_back (blk_write w e.dev e.lba 1 (some e.bytes)) e

-- The first free entry in `n` rounds of the clock from `pass` on.
pub find_unused : ℕ → ℕ → Cache → ℕ → Option ℕ
find_unused zero pass c start = none
find_unused (suc n) pass c start =
    let index = add32 start pass % c.entry_count in
    let rest = find_unused n (pass + 1) c start in
    if not (entry c index).valid then some index else rest

-- What a victim is chosen to be: a free entry, or the one under the hand, written back.
pub choose : World → Cache → ℕ → Option ℕ → Status × World × Cache × ℕ
choose w c start (some index) = (ok, w, record c { clock_hand = add32 index 1 }, index)
choose w c start none =
    let (st, w', e) = flush_entry w (entry c start) in
    (st, w', record (update c start e) { clock_hand = add32 start 1 }, start)

-- `mcsos_bcache_select_victim` past its NULL tests.
pub select_victim : World → Cache → Status × World × Cache × ℕ
select_victim w c =
    if c.entry_count == 0
    then (einval, w, c, 0)
    else let start = c.clock_hand % c.entry_count in
      choose w c start (find_unused c.entry_count 0 c start)

-- The bytes behind a buffer that is not NULL.
abbrev pub bytes_of : Option (List ℕ) → List ℕ
bytes_of none = []
bytes_of (some bytes) = bytes

-- The victim after the device was read into it.
pub loaded : Status × World × Option (List ℕ) → Cache → ℕ → ℕ → ℕ → Status × World × Cache × ℕ
loaded (ok, w, bytes) c index dev lba = (
  ok,
  w,
  update c index (record (entry c index) {
    bytes = bytes_of bytes;
    dev = dev;
    lba = lba;
    valid = true;
    dirty = false;
  }),
  index,
)
loaded (st, w, bytes) c index dev lba = (
  st,
  w,
  update c index (record (entry c index) { bytes = bytes_of bytes; valid = false }),
  index,
)

-- The entry that a read serves from: what was found, or a victim with the block read into it.
pub fill : Status × World × Cache × ℕ → ℕ → ℕ → Status × World × Cache × ℕ
fill (ok, w, c, index) dev lba =
    loaded (blk_read w dev lba 1 (some (entry c index).bytes)) c index dev lba
fill (st, w, c, index) dev lba = (st, w, c, index)

pub fetch : Option ℕ → World → Cache → ℕ → ℕ → Status × World × Cache × ℕ
fetch (some index) w c dev lba = (ok, w, c, index)
fetch none w c dev lba = fill (select_victim w c) dev lba

-- The end of `mcsos_bcache_read`: the copy to the caller.
pub deliver : Status × World × Cache × ℕ → List ℕ → Status × World × Cache × List ℕ
deliver (ok, w, c, index) buffer = (ok, w, c, copy c.block_size buffer 0 (entry c index).bytes 0)
deliver (st, w, c, index) buffer = (st, w, c, buffer)

-- `mcsos_bcache_read` past its NULL tests of the cache and the buffer.
pub bcache_read : World → Cache → ℕ → ℕ → List ℕ → Status × World × Cache × List ℕ
bcache_read w c dev lba buffer =
    if (dev == 0) || not (c.block_size == (w dev).block_size)
    then (einval, w, c, buffer)
    else deliver (fetch (find c dev lba) w c dev lba) buffer

-- The entry that a write goes to: what was found, or a victim taken over unread.
pub claim : Status × World × Cache × ℕ → ℕ → ℕ → Status × World × Cache × ℕ
claim (ok, w, c, index) dev lba = (
  ok,
  w,
  update c index (record (entry c index) { dev = dev; lba = lba; valid = true; dirty = false }),
  index,
)
claim (st, w, c, index) dev lba = (st, w, c, index)

pub occupy : Option ℕ → World → Cache → ℕ → ℕ → Status × World × Cache × ℕ
occupy (some index) w c dev lba = (ok, w, c, index)
occupy none w c dev lba = claim (select_victim w c) dev lba

-- The end of `mcsos_bcache_write`: the copy from the caller.
pub accept : Status × World × Cache × ℕ → List ℕ → Status × World × Cache
accept (ok, w, c, index) buffer = (
  ok,
  w,
  update c index (record (entry c index) {
    bytes = copy c.block_size (entry c index).bytes 0 buffer 0;
    dirty = true;
  }),
)
accept (st, w, c, index) buffer = (st, w, c)

pub bcache_write : World → Cache → ℕ → ℕ → List ℕ → Status × World × Cache
bcache_write w c dev lba buffer =
    if (dev == 0) || not (c.block_size == (w dev).block_size)
    then (einval, w, c)
    else accept (occupy (find c dev lba) w c dev lba) buffer

abbrev pub is_ok : Status → Bool
is_ok ok = true
is_ok st = false

-- `mcsos_bcache_flush_all` on `n` entries from `i` on: it stops at the first failure.
pub flush_from : ℕ → ℕ → World → Cache → Status × World × Cache
flush_from zero i w c = (ok, w, c)
flush_from (suc n) i w c =
    let (st, w', e) = flush_entry w (entry c i) in
    let rest = flush_from n (i + 1) w' (update c i e) in
    if is_ok st then rest else (st, w', update c i e)

pub flush_all : World → Cache → Status × World × Cache
flush_all w c = flush_from c.entry_count 0 w c
