-- ===== src/Block/Cache/Store.antt =====
-- kernel/block/bcache.c: what a write through the cache does.
use m4_trio.Base.{
  ℕ, zero, suc, ◌<◌, ◌≡◌, ◌≢◌, refl, sym, ap, ◌∙◌, true, false, Option, none, some, List, [], ◌∷◌,
  length, get_or, set, get_or-set_self, Bool-cases, ==_self, ne→==, inl, inr, arith,
}
use m4_trio.Block.{World, Status, ok, copy}
use m4_trio.Block.Copy.{length-copy, copy_start}
use m4_trio.Block.Cache.{
  Entry, Cache, no_entry, holds, find, select_victim, claim, occupy, accept, bcache_write, update,
}
use m4_trio.Block.Cache.View.{
  at, Home, IsStore, IsCached, view, content, Held, holds-Held, Held-holds, find_from-some,
  find_from-none,
}
use m4_trio.Block.Cache.Place.{not_both, Fits, place-IsStore, place-view_self, place-view_other}
use m4_trio.Block.Cache.Evict.{Keeps, keep_Home}
use m4_trio.Block.Cache.Victim.{Chosen, select_victim-Chosen, recount, recount_view}

-- What a write through the cache answers and leaves.
pub record Written (w : World) (c : Cache) (dev lba : ℕ) (buffer : List ℕ)
    (r : Status × World × Cache) : Type 0 where
  pub answer : r.0 ≡ ok
  pub keeps : (d : ℕ) → Keeps w r.1 d
  pub valid : IsCached r.1 r.2
  pub stored : (j : ℕ) → j < c.block_size → content r.1 r.2 dev lba j ≡ get_or buffer j 0
  pub others :
      (d l j : ℕ)
      → j < c.block_size
      → (d ≡ dev → l ≢ lba)
      → content r.1 r.2 d l j ≡ content w c d l j

-- A state in which the same is seen as before.
record Seen (w : World) (c : Cache) (w1 : World) (c1 : Cache) : Type 0 where
  keeps : (d : ℕ) → Keeps w w1 d
  count : c1.entry_count ≡ c.entry_count
  size : c1.block_size ≡ c.block_size
  store : IsStore w1 c.entry_count c.block_size c1.entries
  same :
      (d l j : ℕ)
      → j < c.block_size
      → view w1 c.entry_count c.block_size c1.entries d l j ≡ content w c d l j

placed-Written :
    {w : World} {c : Cache} {w1 : World} {c1 : Cache} {k dev lba : ℕ} {e : Entry} (buffer : List ℕ)
    → Seen w c w1 c1
    → Fits w1 c.entry_count c.block_size c1.entries k e
    → e.dev ≡ dev
    → e.lba ≡ lba
    → ((j : ℕ) → j < c.block_size → get_or e.bytes j 0 ≡ get_or buffer j 0)
    → Written w c dev lba buffer (ok, w1, update c1 k e)
placed-Written {w} {c} {w1} {c1} {k} {dev} {lba} {e} buffer v f ed el copied = record {
  answer = refl;
  keeps = v.keeps;
  valid = recount v.count v.size (place-IsStore v.store f);
  stored = λ j lt.
      recount_view w1 (set c1.entries k e) dev lba j v.count v.size
      ∙ (λ t. view w1 c.entry_count c.block_size (set c1.entries k e) (sym ed t) (sym el t) j)
      ∙ place-view_self v.store f j
      ∙ copied j lt;
  others = λ d l j lt other.
      recount_view w1 (set c1.entries k e) d l j v.count v.size
      ∙ place-view_other v.store f d l j lt (elim (Bool-cases (holds e d l)) [
        | inr no_hold ↦ no_hold
        | inl mine ↦
            let h = holds-Held e d l mine in absurd (other (sym h.dev ∙ ed) (sym h.lba ∙ el))
      ])
      ∙ v.same d l j lt;
}

-- The entry that a store of a block leaves.
abbrev filled : Entry → ℕ → List ℕ → ℕ → ℕ → Entry
filled e size buffer dev lba = record e {
  bytes = copy size e.bytes 0 buffer 0;
  dev = dev;
  lba = lba;
  valid = true;
  dirty = true;
}

set-set : (entries : List Entry) (i : ℕ) (a b : Entry) → set (set entries i a) i b ≡ set entries i b
set-set [] i a b = refl
set-set (e ∷ entries) zero a b = refl
set-set (e ∷ entries) (suc i) a b = ap (λ x. e ∷ x) (set-set entries i a b)

accept-claim :
    (r : Status × World × Cache × ℕ) (buffer : List ℕ) {size : ℕ} (dev lba : ℕ)
    → r.0 ≡ ok
    → r.3 < length r.2.entries
    → r.2.block_size ≡ size
    → accept (claim r dev lba) buffer
      ≡ (ok, r.1, update r.2 r.3 (filled (at r.2.entries r.3) size buffer dev lba))
unfolding accept claim
accept-claim r buffer dev lba a lt b =
    let old = at r.2.entries r.3 in
    let taken = record old { dev = dev; lba = lba; valid = true; dirty = false } in
    let claimed = set r.2.entries r.3 taken in
    let with_bytes : Entry → Entry =
      λ e. record e { bytes = copy r.2.block_size e.bytes 0 buffer 0; dirty = true } in
    ap (λ st. accept (claim (st, r.1, r.2, r.3) dev lba) buffer) a
    ∙ ap (λ e. (ok, r.1, record r.2 { entries = set claimed r.3 (with_bytes e) }))
        (get_or-set_self r.2.entries r.3 taken no_entry lt)
    ∙ ap (λ x. (ok, r.1, record r.2 { entries = x }))
        (set-set r.2.entries r.3 taken (with_bytes taken))
    ∙ ap (λ n. (ok, r.1, update r.2 r.3 (filled old n buffer dev lba))) b

-- The two cases of a store: over a victim, and in the entry that holds the block.
claimed-Written :
    {w : World} {c : Cache} {dev lba : ℕ} (r : Status × World × Cache × ℕ) (buffer : List ℕ)
    → Chosen w c r
    → ((i : ℕ) → i < c.entry_count → holds (at c.entries i) dev lba ≡ false)
    → Home w c.block_size dev lba
    → Written w c dev lba buffer (accept (claim r dev lba) buffer)
claimed-Written {w} {c} {dev} {lba} r buffer v free home =
    let size = c.block_size in
    let old = at r.2.entries r.3 in
    let long : length old.bytes ≡ size = v.store.shaped r.3 v.index in
    let fits : Fits r.1 c.entry_count size r.2.entries r.3 (filled old size buffer dev lba) =
      record {
        index = v.index;
        shaped = length-copy size old.bytes 0 buffer 0 ∙ long;
        valid = refl;
        home = keep_Home (v.keeps dev) home;
        clean = λ dry. absurd (not_both refl dry);
        alone = λ k lt ne. v.held dev lba k ∙ free k lt;
        spare = inr v.unused;
      } in
    let seen : Seen w c r.1 r.2 = record {
      keeps = v.keeps;
      count = v.count;
      size = v.size;
      store = v.store;
      same = v.same;
    } in
    rw (accept-claim r buffer dev lba v.answer (omega (arith, v.index, v.store.sized)) v.size) (
      placed-Written buffer seen fits refl refl
        λ j lt. copy_start size old.bytes buffer j (omega (arith, long)) lt)

found-Written :
    {w : World} {c : Cache} {dev lba : ℕ} (k : ℕ) (buffer : List ℕ)
    → IsCached w c
    → k < c.entry_count
    → Held (at c.entries k) dev lba
    → Home w c.block_size dev lba
    → Written w c dev lba buffer (accept (ok, w, c, k) buffer)
unfolding accept
found-Written {w} {c} {dev} {lba} k buffer s lt h home =
    let size = c.block_size in
    let old = at c.entries k in
    let long : length old.bytes ≡ size = s.shaped k lt in
    let own : holds old old.dev old.lba ≡ true =
      Held-holds (record { valid = h.valid; dev = refl; lba = refl }) in
    let new = record old { bytes = copy size old.bytes 0 buffer 0; dirty = true } in
    let fits : Fits w c.entry_count size c.entries k new = record {
      index = lt;
      shaped = length-copy size old.bytes 0 buffer 0 ∙ long;
      valid = h.valid;
      home = s.placed k lt h.valid;
      clean = λ dry. absurd (not_both refl dry);
      alone = λ m m_lt ne. elim (Bool-cases (holds (at c.entries m) old.dev old.lba)) [
        | inr no_hold ↦ no_hold
        | inl also ↦ absurd (ne (s.apart m k old.dev old.lba m_lt lt also own))
      ];
      spare = inl own;
    } in
    let seen : Seen w c w c = record {
      keeps = λ d. record { block_size = refl; block_count = refl; disk = λ was. was };
      count = refl;
      size = refl;
      store = s;
      same = λ d l j j_lt. refl;
    } in
    placed-Written buffer seen fits h.dev h.lba
      λ j j_lt. copy_start size old.bytes buffer j (omega (arith, long)) j_lt

occupy-Written :
    {w : World} {c : Cache} {dev lba : ℕ} (o : Option ℕ) (buffer : List ℕ)
    → find c dev lba ≡ o
    → IsCached w c
    → Home w c.block_size dev lba
    → Written w c dev lba buffer (accept (occupy o w c dev lba) buffer)
unfolding occupy
occupy-Written {w} {c} {dev} {lba} (some k) buffer e s home =
    let found = find_from-some c.entry_count 0 c.entries dev lba k e in
    found-Written k buffer s (omega (arith, found.0)) (holds-Held (at c.entries k) dev lba found.1)
      home
occupy-Written {w} {c} {dev} {lba} none buffer e s home =
    claimed-Written (select_victim w c) buffer (select_victim-Chosen s)
      (λ i lt. find_from-none c.entry_count 0 c.entries dev lba e i (omega arith) (omega arith))
      home

-- A write through a valid cache of a block on a disk succeeds, whatever is evicted for it. After
-- it the bytes of the buffer are seen in the block, what is seen of every other block of every
-- device stays the same, and the cache stays valid.
pub bcache_write-Written :
    {w : World} {c : Cache} {dev lba : ℕ} (buffer : List ℕ)
    → IsCached w c
    → Home w c.block_size dev lba
    → Written w c dev lba buffer (bcache_write w c dev lba buffer)
unfolding bcache_write
bcache_write-Written {w} {c} {dev} {lba} buffer s home = rw (ne→== dev 0 home.device) (
    rw home.block_size
      (rw (==_self c.block_size) (occupy-Written (find c dev lba) buffer refl s home)))
