-- ===== src/Block/Cache/Serve.antt =====
-- kernel/block/bcache.c: what a read through the cache does.
use m4_trio.Base.{
  ℕ, ◌+◌, ◌*◌, ◌≤◌, ◌<◌, ◌≡◌, refl, sym, ap, subst, ◌∙◌, true, false, Option, none, some, List,
  length, get_or, set, Bool-cases, ==_self, ne→==, inl, inr, arith,
}
use m4_trio.Block.{World, Status, ok, copy}
use m4_trio.Block.Copy.{copy_start}
use m4_trio.Block.Blk.{blk_read}
use m4_trio.Block.Disk.{byte, InRange, blk_read-Fetched}
use m4_trio.Block.Cache.{
  Entry, Cache, holds, find, loaded, fill, fetch, deliver, bcache_read, update,
}
use m4_trio.Block.Cache.View.{
  at, Home, IsStore, IsCached, view, content, holds-Held, view-hit, view-miss, find_from-some,
  find_from-none,
}
use m4_trio.Block.Cache.Place.{Fits, own_at, place-IsStore, place-view_self, place-view_other}
use m4_trio.Block.Cache.Evict.{Keeps, keep_Home}
use m4_trio.Block.Cache.Victim.{Chosen, select_victim-Chosen, recount, recount_view}

-- An entry was found or made for the block, and what is seen of every block is the same.
record Served (w : World) (c : Cache) (dev lba : ℕ) (r : Status × World × Cache × ℕ) : Type 0 where
  answer : r.0 ≡ ok
  keeps : (d : ℕ) → Keeps w r.1 d
  count : r.2.entry_count ≡ c.entry_count
  size : r.2.block_size ≡ c.block_size
  index : r.3 < c.entry_count
  store : IsStore r.1 c.entry_count c.block_size r.2.entries
  same :
      (d l j : ℕ)
      → j < c.block_size
      → view r.1 c.entry_count c.block_size r.2.entries d l j ≡ content w c d l j
  held : holds (at r.2.entries r.3) dev lba ≡ true

-- The entry that a load leaves.
abbrev fresh : Entry → List ℕ → ℕ → ℕ → Entry
fresh e bytes dev lba = record e {
  bytes = bytes;
  dev = dev;
  lba = lba;
  valid = true;
  dirty = false;
}

fresh-Fits :
    {w : World} {c : Cache} {r : Status × World × Cache × ℕ} {dev lba : ℕ} (bytes : List ℕ)
    → Chosen w c r
    → ((i : ℕ) → i < c.entry_count → holds (at c.entries i) dev lba ≡ false)
    → Home w c.block_size dev lba
    → length bytes ≡ c.block_size
    → ((j : ℕ) → j < c.block_size → get_or bytes j 0 ≡ byte r.1 dev (lba * c.block_size + j))
    → Fits r.1 c.entry_count c.block_size r.2.entries r.3 (fresh (at r.2.entries r.3) bytes dev lba)
fresh-Fits {c} {r} {dev} {lba} bytes v free home long copied = record {
  index = v.index;
  shaped = long;
  valid = refl;
  home = keep_Home (v.keeps dev) home;
  clean = λ dry. copied;
  alone = λ k lt ne. v.held dev lba k ∙ free k lt;
  spare = inr v.unused;
}

fresh_same :
    {w : World} {c : Cache} {r : Status × World × Cache × ℕ} {dev lba : ℕ} (bytes : List ℕ)
    → Chosen w c r
    → ((i : ℕ) → i < c.entry_count → holds (at c.entries i) dev lba ≡ false)
    → Fits r.1 c.entry_count c.block_size r.2.entries r.3 (fresh (at r.2.entries r.3) bytes dev lba)
    → (d l j : ℕ) → j < c.block_size
    → view r.1 c.entry_count c.block_size
        (set r.2.entries r.3 (fresh (at r.2.entries r.3) bytes dev lba))
        d
        l
        j
      ≡ content w c d l j
fresh_same {w} {c} {r} {dev} {lba} bytes v free f d l j lt =
    let e = fresh (at r.2.entries r.3) bytes dev lba in
    let size = c.block_size in
    elim (Bool-cases (holds e d l)) [
      | inr other ↦ place-view_other v.store f d l j lt other ∙ v.same d l j lt
      | inl mine ↦
          let h = holds-Held e d l mine in
          let here : view r.1 c.entry_count size (set r.2.entries r.3 e) dev lba j
              ≡ content w c dev lba j =
            place-view_self v.store f j
            ∙ f.clean refl j lt
            ∙ sym (
                view-miss r.1 c.entry_count size r.2.entries dev lba j
                  λ i i_lt. v.held dev lba i ∙ free i i_lt)
            ∙ v.same dev lba j lt in
          subst (λ x. view r.1 c.entry_count size (set r.2.entries r.3 e) x l j ≡ content w c x l j)
            h.dev
            (subst
              (λ x.
                view r.1 c.entry_count size (set r.2.entries r.3 e) dev x j ≡ content w c dev x j)
              h.lba here)
    ]

loaded-ok :
    (q : Status × World × Option (List ℕ)) (w : World) (bytes : List ℕ) (c : Cache) (i dev lba : ℕ)
    → q.0 ≡ ok
    → q.1 ≡ w
    → q.2 ≡ some bytes
    → loaded q c i dev lba ≡ (ok, w, update c i (fresh (at c.entries i) bytes dev lba), i)
unfolding loaded
loaded-ok q w bytes c i dev lba a b e = λ t. loaded (a t, b t, e t) c i dev lba

fill-ok :
    (r : Status × World × Cache × ℕ) (dev lba : ℕ)
    → r.0 ≡ ok
    → fill r dev lba
      ≡ loaded (blk_read r.1 dev lba 1 (some (at r.2.entries r.3).bytes)) r.2 r.3 dev lba
unfolding fill
fill-ok r dev lba a = ap (λ st. fill (st, r.1, r.2, r.3) dev lba) a

fill-Served :
    {w : World} {c : Cache} {r : Status × World × Cache × ℕ} {dev lba : ℕ}
    → Chosen w c r
    → ((i : ℕ) → i < c.entry_count → holds (at c.entries i) dev lba ≡ false)
    → Home w c.block_size dev lba
    → Served w c dev lba (fill r dev lba)
fill-Served {w} {c} {r} {dev} {lba} v free home =
    let n = c.entry_count in
    let size = c.block_size in
    let there = keep_Home (v.keeps dev) home in
    let old = (at r.2.entries r.3).bytes in
    let range : InRange r.1 dev lba 1 = record {
      device = there.device;
      some_blocks = omega arith;
      fits = omega (arith, there.in_range);
    } in
    let long : length old ≡ size = v.store.shaped r.3 v.index in
    let q = blk_read-Fetched old there.disk range (omega (arith, there.block_size, long)) in
    let fits = fresh-Fits q.buffer v free home (q.same_length ∙ long) (λ j lt.
      q.copied j (omega (arith, there.block_size))
      ∙ ap (λ x. byte r.1 dev (lba * x + j)) there.block_size) in
    rw (fill-ok r dev lba v.answer) (
      rw
        (loaded-ok (blk_read r.1 dev lba 1 (some old)) r.1 q.buffer r.2 r.3 dev lba q.answer q.world
          q.filled)
        (record {
          answer = refl;
          keeps = v.keeps;
          count = v.count;
          size = v.size;
          index = v.index;
          store = place-IsStore v.store fits;
          same = fresh_same q.buffer v free fits;
          held = own_at v.store fits;
        }))

fetch-Served :
    {w : World} {c : Cache} {dev lba : ℕ} (o : Option ℕ)
    → find c dev lba ≡ o
    → IsCached w c
    → Home w c.block_size dev lba
    → Served w c dev lba (fetch o w c dev lba)
unfolding fetch
fetch-Served {w} {c} {dev} {lba} (some k) e s home =
    let found = find_from-some c.entry_count 0 c.entries dev lba k e in
    record {
      answer = refl;
      keeps = λ d. record { block_size = refl; block_count = refl; disk = λ was. was };
      count = refl;
      size = refl;
      index = omega (arith, found.0);
      store = s;
      same = λ d l j lt. refl;
      held = found.1;
    }
fetch-Served {w} {c} {dev} {lba} none e s home =
    fill-Served (select_victim-Chosen s)
      (λ i lt. find_from-none c.entry_count 0 c.entries dev lba e i (omega arith) (omega arith))
      home

-- What a read through the cache answers and leaves.
pub record Read (w : World) (c : Cache) (dev lba : ℕ) (r : Status × World × Cache × List ℕ)
    : Type 0 where
  pub answer : r.0 ≡ ok
  pub keeps : (d : ℕ) → Keeps w r.1 d
  pub valid : IsCached r.1 r.2
  pub copied : (j : ℕ) → j < c.block_size → get_or r.3 j 0 ≡ content w c dev lba j
  pub same : (d l j : ℕ) → j < c.block_size → content r.1 r.2 d l j ≡ content w c d l j

deliver-ok :
    (r : Status × World × Cache × ℕ) (buffer : List ℕ) {size : ℕ}
    → r.0 ≡ ok
    → r.2.block_size ≡ size
    → deliver r buffer ≡ (ok, r.1, r.2, copy size buffer 0 (at r.2.entries r.3).bytes 0)
unfolding deliver
deliver-ok r buffer a b =
    ap (λ st. deliver (st, r.1, r.2, r.3) buffer) a
    ∙ ap (λ n. (ok, r.1, r.2, copy n buffer 0 (at r.2.entries r.3).bytes 0)) b

deliver-Read :
    {w : World} {c : Cache} {dev lba : ℕ} (r : Status × World × Cache × ℕ) (buffer : List ℕ)
    → Served w c dev lba r
    → c.block_size ≤ length buffer
    → Read w c dev lba (deliver r buffer)
deliver-Read {w} {c} {dev} {lba} r buffer v room =
    let bytes = (at r.2.entries r.3).bytes in
    rw (deliver-ok r buffer v.answer v.size) (record {
      answer = refl;
      keeps = v.keeps;
      valid = recount v.count v.size v.store;
      copied = λ j lt.
          copy_start c.block_size buffer bytes j room lt
          ∙ sym (view-hit r.3 dev lba j v.store v.index v.held)
          ∙ v.same dev lba j lt;
      same = λ d l j lt. recount_view r.1 r.2.entries d l j v.count v.size ∙ v.same d l j lt;
    })

-- A read through a valid cache of a block on a disk succeeds, whatever is evicted for it. It
-- fills a buffer that is large enough with the bytes that were seen in the block before, the cache
-- stays valid, and what is seen of every block of every device stays the same.
pub bcache_read-Read :
    {w : World} {c : Cache} {dev lba : ℕ} (buffer : List ℕ)
    → IsCached w c
    → Home w c.block_size dev lba
    → c.block_size ≤ length buffer
    → Read w c dev lba (bcache_read w c dev lba buffer)
unfolding bcache_read
bcache_read-Read {w} {c} {dev} {lba} buffer s home room = rw (ne→== dev 0 home.device) (
    rw home.block_size (
      rw (==_self c.block_size) (
        deliver-Read (fetch (find c dev lba) w c dev lba) buffer
          (fetch-Served (find c dev lba) refl s home) room)))
