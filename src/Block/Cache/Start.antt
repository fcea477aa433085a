-- ===== src/Block/Cache/Start.antt =====
-- kernel/block/bcache.c: the cache as `mcsos_bcache_init` leaves it.
use m4_trio.Base.{
  ℕ, zero, suc, ◌+◌, ◌-◌, ◌*◌, ◌≤◌, ◌<◌, ◌≡◌, ◌≢◌, refl, ap, false, List, [], ◌∷◌, length, take,
  ne→==, arith,
}
use m4_trio.Block.{World, Status, ok}
use m4_trio.Block.Disk.{byte}
use m4_trio.Block.Cache.{Cache, holds, drop, fresh_entries, bcache_init}
use m4_trio.Block.Cache.View.{at, IsCached, content, view-miss}
use m4_trio.Block.Cache.Place.{not_both}

length-drop : (n : ℕ) (xs : List ℕ) → length (drop n xs) ≡ length xs - n
length-drop zero xs = omega arith
length-drop (suc n) [] = omega arith
length-drop (suc n) (x ∷ xs) = omega (arith, length-drop n xs)

length-take : (n : ℕ) (xs : List ℕ) → n ≤ length xs → length (take n xs) ≡ n
length-take zero xs le = refl
length-take (suc n) [] le = absurd (omega arith)
length-take (suc n) (x ∷ xs) le = ap suc (length-take n xs (omega arith))

length-fresh_entries :
    (n i : ℕ) (pool : List ℕ) (size : ℕ) → length (fresh_entries n i pool size) ≡ n
unfolding fresh_entries
length-fresh_entries zero i pool size = refl
length-fresh_entries (suc n) i pool size = ap suc (length-fresh_entries n (i + 1) pool size)

fresh_free :
    (n i : ℕ) (pool : List ℕ) (size k : ℕ) → (at (fresh_entries n i pool size) k).valid ≡ false
unfolding fresh_entries
fresh_free zero i pool size k = refl
fresh_free (suc n) i pool size zero = refl
fresh_free (suc n) i pool size (suc k) = fresh_free n (i + 1) pool size k

-- Each entry's slice lies in the pool.
fresh_shaped :
    (n i : ℕ) (pool : List ℕ) (size k : ℕ)
    → (i + n) * size ≤ length pool
    → k < n
    → length (at (fresh_entries n i pool size) k).bytes ≡ size
unfolding fresh_entries
fresh_shaped zero i pool size k room lt = absurd (omega arith)
fresh_shaped (suc n) i pool size zero room lt =
    length-take size (drop (i * size) pool) (omega (arith, length-drop (i * size) pool, room))
fresh_shaped (suc n) i pool size (suc k) room lt =
    fresh_shaped n (i + 1) pool size k (omega (arith, room)) (omega arith)

fresh_holds :
    (n : ℕ) (pool : List ℕ) (size k d l : ℕ)
    → holds (at (fresh_entries n 0 pool size) k) d l ≡ false
unfolding holds
fresh_holds n pool size k d l = rw (fresh_free n 0 pool size k) refl

-- What an initialization answers and leaves.
pub record Started (w : World) (n size : ℕ) (r : Status × Cache) : Type 0 where
  pub answer : r.0 ≡ ok
  pub count : r.1.entry_count ≡ n
  pub size_kept : r.1.block_size ≡ size
  pub valid : IsCached w r.1
  pub empty : (d l j : ℕ) → content w r.1 d l j ≡ byte w d (l * size + j)

-- Initialization with some entries, a block size and a pool that has room for all blocks succeeds,
-- the cache is valid whatever is on the disks, and it shows every block as it is on the disk.
pub bcache_init-Started :
    (w : World) (c : Cache) (n : ℕ) (pool : List ℕ) (size : ℕ)
    → n ≢ 0
    → size ≢ 0
    → n * size ≤ length pool
    → Started w n size (bcache_init c n pool size)
unfolding bcache_init
bcache_init-Started w c n pool size some_entries some_size room = rw (ne→== n 0 some_entries) (
    rw (ne→== size 0 some_size) (record {
      answer = refl;
      count = refl;
      size_kept = refl;
      valid = record {
        sized = length-fresh_entries n 0 pool size;
        nonempty = some_entries;
        shaped = λ i lt. fresh_shaped n 0 pool size i (omega (arith, room)) lt;
        placed = λ i lt v. absurd (not_both v (fresh_free n 0 pool size i));
        clean = λ i lt v. absurd (not_both v (fresh_free n 0 pool size i));
        apart = λ i j d l i_lt j_lt held. absurd (not_both held (fresh_holds n pool size i d l));
      };
      empty = λ d l j.
          view-miss w n size (fresh_entries n 0 pool size) d l j
            λ i lt. fresh_holds n pool size i d l;
    }))
